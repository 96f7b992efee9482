-- ===== src/Debounce/Timers.antt =====
-- kenjutsu/server/debounce.py: the timers of the manager, one change at a time.
use kenjutsu.Base.{
  ℕ, false, ◌+◌, ◌<◌, ◌≡◌, ◌≢◌, sym, ap, ◌∙◌, ◌⊎◌, none, some, arith, ◌==◌, nat_eq, string_eq,
  pair_eq, Bool-cases, Option-cases, inl, inr, some_eq, beq_refl, Comparable,
}
use kenjutsu.Dict.{Dict, get, put, remove, get-put, get-remove}
use kenjutsu.Debounce.{PrKey, Timer, DebounceManager, cancel_timer, start_timer}

-- A live timer is the pending one of its key.
pub record Linked (pending : Dict PrKey ℕ) (timers : Dict ℕ Timer) (next : ℕ) : Type 0 where
  pub made : (h : ℕ) (t : Timer) → get timers h ≡ some t → h < next
  pub linked :
      (h : ℕ) (t : Timer)
      → get timers h ≡ some t
      → t.cancelled ≡ false
      → get pending t.pr_key ≡ some h

abbrev pub LinkedIn : DebounceManager → Type 0
LinkedIn m = Linked m.pending m.timers m.next_handle

-- What a changed entry of a dictionary leaves to a lookup.
pub put-cases :
    {K V : Type 0} ⦃e : Comparable K⦄ (d : Dict K V) (k j : K) (v w : V)
    → get (put d k v) j ≡ some w
    → ((k ≡ j) × (v ≡ w)) ⊎ ((k == j) ≡ false) × (get d j ≡ some w)
put-cases ⦃e⦄ d k j v w h = elim (Bool-cases (k == j)) [
  | inl y ↦ inl ((e.equal_iff k j).0 y, some_eq (rw (get-put d k v j, y) at h))
  | inr n ↦ inr (n, rw (get-put d k v j, n) at h)
]

pub remove-cases :
    {K V : Type 0} ⦃e : Comparable K⦄ (d : Dict K V) (k j : K) (w : V)
    → get (remove d k) j ≡ some w
    → ((k == j) ≡ false) × (get d j ≡ some w)
remove-cases d k j w h = elim (Bool-cases (k == j)) [
  | inl y ↦ absurd (ground (arith, rw (get-remove d k j, y) at h))
  | inr n ↦ (n, rw (get-remove d k j, n) at h)
]

-- Dropping the entry of a key keeps an entry with another timer.
keep_pending :
    (pending : Dict PrKey ℕ) (k j : PrKey) (handle h : ℕ)
    → get pending k ≡ some handle
    → get pending j ≡ some h
    → h ≢ handle
    → get (remove pending k) j ≡ some h
keep_pending pending k j handle h p q apart = elim (Bool-cases (k == j)) [
  | inl y ↦
      absurd (apart (some_eq (sym q ∙ ap (get pending) (sym ((pair_eq.equal_iff k j).0 y)) ∙ p)))
  | inr n ↦ rw (get-remove pending k j) (rw n q)
]

-- Cancelling the pending timer of a key and dropping its entry.
pub cancelled-Linked :
    (pending : Dict PrKey ℕ) (timers : Dict ℕ Timer) (next : ℕ) (k : PrKey) (handle : ℕ)
    → Linked pending timers next
    → get pending k ≡ some handle
    → Linked (remove pending k) (cancel_timer timers handle) next
unfolding cancel_timer
cancelled-Linked pending timers next k handle w p = elim (Option-cases (get timers handle)) [
  | inl absent ↦
      rw (absent, cancel_timer)
        (record {
          made = w.made;
          linked = λ h t e live.
              keep_pending pending k t.pr_key handle h p (w.linked h t e live)
                (λ same. ground (arith, e, absent, ap (get timers) same));
        })
  | inr (old, there) ↦
      rw (there, cancel_timer)
        (record {
          made = λ h t e. elim (put-cases timers handle h _ t e) [
            | inl (same, _) ↦ rw (sym same) (w.made handle old there)
            | inr (_, before) ↦ w.made h t before
          ];
          linked = λ h t e live. elim (put-cases timers handle h _ t e) [
            | inl (_, same) ↦ absurd (ground (arith, ap (λ x. x.cancelled) same, live))
            | inr (other, before) ↦
                keep_pending pending k t.pr_key handle h p (w.linked h t before live)
                  (λ same. ground (arith, other, same))
          ];
        })
]

-- A new timer under a new number, for a key that has no live one.
pub started-Linked :
    (m : DebounceManager) (k : PrKey) (f : ℕ)
    → LinkedIn m
    → get m.pending k ≡ none
    → LinkedIn (start_timer m k f)
unfolding start_timer
started-Linked m k f w p = record {
  made = λ h t e. elim (put-cases m.timers m.next_handle h _ t e) [
    | inl (same, _) ↦ omega (arith, same)
    | inr (_, old) ↦ omega (arith, w.made h t old)
  ];
  linked = λ h t e live. elim (put-cases m.timers m.next_handle h _ t e) [
    | inl (same, timer) ↦
        rw (get-put m.pending k m.next_handle t.pr_key)
          (rw (sym (ap (λ x. x.pr_key) timer)) (rw (beq_refl k) (ap some same)))
    | inr (other, old) ↦
        rw (get-put m.pending k m.next_handle t.pr_key) (elim (Bool-cases (k == t.pr_key)) [
          | inl y ↦ absurd (
              ground (
                arith,
                p,
                w.linked h t old live,
                ap (get m.pending) ((pair_eq.equal_iff k t.pr_key).0 y),
              ))
          | inr n ↦ rw n (w.linked h t old live)
        ])
  ];
}

-- A live timer fires: it and the entry of its key go.
pub fired-Linked :
    (pending : Dict PrKey ℕ) (timers : Dict ℕ Timer) (next handle : ℕ) (t : Timer)
    → Linked pending timers next
    → get timers handle ≡ some t
    → t.cancelled ≡ false
    → Linked (remove pending t.pr_key) (remove timers handle) (next + 1)
fired-Linked pending timers next handle t w g live = record {
  made = λ h u e. omega (arith, w.made h u (remove-cases timers handle h u e).1);
  linked = λ h u e running.
      let (other, before) = remove-cases timers handle h u e in
      keep_pending pending t.pr_key u.pr_key handle h (w.linked handle t g live)
        (w.linked h u before running) (λ same. ground (arith, other, same));
}
