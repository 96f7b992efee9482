-- ===== src/Queue/Window.antt =====
-- RateLimiter of kenjutsu/pipeline/queue.py: no window holds more calls than the limit.
use kenjutsu.Base.{
  ℕ, Bool, ◌&&◌, ◌+◌, ◌≤◌, ◌<◌, ◌≡◌, refl, List, [], ◌∷◌, ◌++◌, arith, length, count, count-append,
  count-le-length, length-append, ltb, leb, if◌then◌else◌, Bool-cases, inl, inr, leb→le, suc,
}
use kenjutsu.Queue.{RateLimiter, evict, acquire}

-- The calls that were let through so far, and the limiter.
pub record Traffic : Type 0 where
  pub limiter : RateLimiter
  pub accepted : List ℕ

call : Traffic → ℕ → Traffic
call s now =
    let (ok, limiter) = acquire s.limiter now in
    record { limiter = limiter; accepted = if ok then s.accepted ++ now ∷ [] else s.accepted }

-- Calls at the given times.
unfoldable pub calls_at : Traffic → List ℕ → Traffic
unfolding call
calls_at s [] = s
calls_at s (now ∷ times) = calls_at (call s now) times

-- The times do not go back, and start at `last` or later.
unfoldable pub Rising : ℕ → List ℕ → Type 0
Rising last [] = Unit
Rising last (now ∷ times) = (last ≤ now) × Rising now times

-- In the window of one period after `x`.
abbrev pub within : ℕ → ℕ → ℕ → Bool
within period x t = ltb x t && leb t (x + period)

record Kept (period calls last : ℕ) (s : Traffic) : Type 0 where
  same_period : s.limiter.period ≡ period
  same_calls : s.limiter.calls ≡ calls
  full : length s.limiter.timestamps ≤ calls
  -- The timestamps that are kept include all that a window ending now or later can hold.
  recent :
      (x : ℕ)
      → last ≤ x + period
      → count (λ t. ltb x t) s.accepted ≤ count (λ t. ltb x t) s.limiter.timestamps
  windows : (x : ℕ) → count (within period x) s.accepted ≤ calls

evict-length : (period now : ℕ) (l : List ℕ) → length (evict period now l) ≤ length l
unfolding evict
evict-length period now [] = omega arith
evict-length period now (t ∷ l) = ground (arith, evict-length period now l)

-- What is evicted lies before a window that ends now or later.
evict-count :
    (period now x : ℕ) (l : List ℕ)
    → now ≤ x + period
    → count (λ t. ltb x t) (evict period now l) ≡ count (λ t. ltb x t) l
unfolding evict
evict-count period now x [] h = refl
evict-count period now x (t ∷ l) h = ground (arith, h, evict-count period now x l h)

within_le : (period x : ℕ) (l : List ℕ) → count (within period x) l ≤ count (λ t. ltb x t) l
within_le period x [] = omega arith
within_le period x (t ∷ l) = ground (arith, within_le period x l)

windows_snoc :
    (period calls now x : ℕ) (l : List ℕ)
    → count (within period x) l ≤ calls
    → (now ≤ x + period → count (λ t. ltb x t) l < calls)
    → count (within period x) (l ++ now ∷ []) ≤ calls
windows_snoc period calls now x l old room = elim (Bool-cases (leb now (x + period))) [
  | inl y ↦ ground (
    arith,
    room (leb→le now (x + period) y),
    within_le period x l,
    count-append (within period x) l (now ∷ []),
  )
  | inr n ↦ ground (arith, n, old, count-append (within period x) l (now ∷ []))
]

call-Kept :
    (period calls last now : ℕ) (s : Traffic)
    → Kept period calls last s
    → last ≤ now
    → Kept period calls now (call s now)
unfolding call acquire
call-Kept period calls last now s k h =
    let held = s.limiter.timestamps in
    let kept = evict s.limiter.period now held in
    let less = evict-length s.limiter.period now held in
    let recent_kept : (x : ℕ)
        → now ≤ x + period
        → count (λ t. ltb x t) s.accepted ≤ count (λ t. ltb x t) kept =
      λ x e. omega (
        arith,
        k.recent x (omega (arith, h, e)),
        evict-count s.limiter.period now x held (omega (arith, e, k.same_period)),
      ) in
    elim (Bool-cases (leb s.limiter.calls (length kept))) [
      | inl y ↦ rw y (record {
        same_period = k.same_period;
        same_calls = k.same_calls;
        full = omega (arith, less, k.full);
        recent = recent_kept;
        windows = k.windows;
      })
      | inr n ↦
          let room : suc (length kept) ≤ calls = ground (arith, n, k.same_calls) in
          rw n (record {
            same_period = k.same_period;
            same_calls = k.same_calls;
            full = omega (arith, room, length-append kept (now ∷ []));
            recent = λ x e. omega (
              arith,
              recent_kept x e,
              count-append (λ t. ltb x t) s.accepted (now ∷ []),
              count-append (λ t. ltb x t) kept (now ∷ []),
            );
            windows = λ x.
                windows_snoc period calls now x s.accepted (k.windows x)
                  (λ e. omega (arith, recent_kept x e, count-le-length (λ t. ltb x t) kept, room));
          })
    ]

calls_at-Kept :
    (period calls last : ℕ) (times : List ℕ) (s : Traffic)
    → Kept period calls last s
    → Rising last times
    → (final : ℕ) × Kept period calls final (calls_at s times)
unfolding calls_at Rising
calls_at-Kept period calls last [] s k r = (last, k)
calls_at-Kept period calls last (now ∷ times) s k r =
    calls_at-Kept period calls now times (call s now) (call-Kept period calls last now s k r.0) r.1

abbrev pub fresh : ℕ → ℕ → Traffic
fresh calls period = record {
  limiter = record { calls = calls; period = period; timestamps = [] };
  accepted = [];
}

fresh-Kept : (calls period : ℕ) → Kept period calls 0 (fresh calls period)
fresh-Kept calls period = record {
  same_period = refl;
  same_calls = refl;
  full = omega arith;
  recent = λ x h. omega arith;
  windows = λ x. omega arith;
}

-- When the clock does not go back, no window as long as the period, wherever it starts, holds more
-- accepted calls than the limit.
pub calls_at-window :
    (calls period : ℕ) (times : List ℕ)
    → Rising 0 times
    → (x : ℕ) → count (within period x) (calls_at (fresh calls period) times).accepted ≤ calls
calls_at-window calls period times r x =
    let (final, k) =
      calls_at-Kept period calls 0 times (fresh calls period) (fresh-Kept calls period) r in
    k.windows x
