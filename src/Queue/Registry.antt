-- ===== src/Queue/Registry.antt =====
-- SupersessionRegistry of kenjutsu/pipeline/queue.py: which reviews are told to stop.
use kenjutsu.Base.{
  ◌∙◌, ℕ, true, false, ◌+◌, ◌≤◌, ◌<◌, ◌≡◌, ◌≢◌, refl, none, some, List, [], ◌∷◌, arith, ◌==◌,
  string_eq, nat_eq, pair_eq, if◌then◌else◌, Bool-cases, Option-cases, inl, inr, some_eq, beq_refl,
  ◌∙◌,
}
use kenjutsu.Dict.{Dict, empty, get, put, get-put, get-empty, get-remove}
use kenjutsu.Queue.{
  ReviewKey, SupersessionRegistry, register, complete, is_set, is_cancelled, present,
}

-- What happens to a registry.
pub data Event : Type 0 where
  registered completed : ReviewKey → Event

unfoldable pub run : SupersessionRegistry → List Event → SupersessionRegistry
run r [] = r
run r (registered k ∷ es) = run (register r k).1 es
run r (completed k ∷ es) = run (complete r k) es

present-put :
    {A : Type 0} (d : Dict ℕ A) (k j : ℕ) (a : A)
    → present (get (put d k a) j) ≡ (if k == j then true else present (get d j))
present-put d k j a =
    rw (get-put d k a j, present)
      (elim (Bool-cases (k == j)) [ inl y ↦ rw y refl | inr n ↦ rw n refl ])

-- Events that are not made yet are not set, and the current ones were made.
record Wellformed (r : SupersessionRegistry) : Type 0 where
  made : (k : ReviewKey) (e : ℕ) → get r.events k ≡ some e → e < r.next_event
  unset : (e : ℕ) → r.next_event ≤ e → is_set r e ≡ false

register-made :
    (r : SupersessionRegistry) (k j : ReviewKey) (e : ℕ)
    → Wellformed r
    → get (put r.events k r.next_event) j ≡ some e
    → e < r.next_event + 1
register-made r k j e w h = elim (Bool-cases (k == j)) [
  | inl y ↦ omega (arith, some_eq (rw (get-put r.events k r.next_event j, y) at h))
  | inr n ↦ omega (arith, w.made j e (rw (get-put r.events k r.next_event j, n) at h))
]

register-Wellformed :
    (r : SupersessionRegistry) (k : ReviewKey) → Wellformed r → Wellformed (register r k).1
unfolding register
register-Wellformed r k w = elim (Option-cases (get r.events k)) [
  | inl h ↦
      rw (h, register)
        (record {
          made = λ j e g. register-made r k j e w g;
          unset = λ e l. w.unset e (omega (arith, l));
        })
  | inr (prior, h) ↦
      rw (h, register)
        (record {
          made = λ j e g. register-made r k j e w g;
          unset = λ e l. ground (
            arith,
            present-put r.signals prior e tt,
            w.made k prior h,
            w.unset e (omega (arith, l)),
            l,
          );
        })
]

complete-Wellformed :
    (r : SupersessionRegistry) (k : ReviewKey) → Wellformed r → Wellformed (complete r k)
unfolding complete
complete-Wellformed r k w = record {
  made = λ j e g. elim (Bool-cases (k == j)) [
    | inl y ↦ absurd (ground (arith, rw (get-remove r.events k j, y) at g))
    | inr n ↦ w.made j e (rw (get-remove r.events k j, n) at g)
  ];
  unset = w.unset;
}

run-Wellformed : (r : SupersessionRegistry) (es : List Event) → Wellformed r → Wellformed (run r es)
unfolding run
run-Wellformed r [] w = w
run-Wellformed r (registered k ∷ es) w =
    run-Wellformed (register r k).1 es (register-Wellformed r k w)
run-Wellformed r (completed k ∷ es) w = run-Wellformed (complete r k) es (complete-Wellformed r k w)

abbrev pub new_registry : SupersessionRegistry
new_registry = record { events = empty; superseded = empty; signals = empty; next_event = 0 }

new_registry-Wellformed : Wellformed new_registry
new_registry-Wellformed = record {
  made = λ k e h. absurd (ground (arith, rw (get-empty k) at h));
  unset = λ e l. rw (get-empty e, present) refl;
}

register-next :
    (r : SupersessionRegistry) (k : ReviewKey) → (register r k).1.next_event ≡ r.next_event + 1
unfolding register
register-next r k = elim (Option-cases (get r.events k)) [
  | inl h ↦ rw (h, register) refl
  | inr (prior, h) ↦ rw (h, register) refl
]

register-event : (r : SupersessionRegistry) (k : ReviewKey) → (register r k).0 ≡ r.next_event
unfolding register
register-event r k = refl

-- The review that registered last is the one in flight.
pub register-current :
    (r : SupersessionRegistry) (k : ReviewKey)
    → get (register r k).1.events k ≡ some (register r k).0
unfolding register
register-current r k = elim (Option-cases (get r.events k)) [
  | inl h ↦ rw (h, register) (rw (get-put r.events k r.next_event k) (rw (beq_refl k) refl))
  | inr (prior, h) ↦
      rw (h, register) (rw (get-put r.events k r.next_event k) (rw (beq_refl k) refl))
]

register-prior :
    (r : SupersessionRegistry) (k : ReviewKey) (prior : ℕ)
    → get r.events k ≡ some prior
    → is_set (register r k).1 prior ≡ true
unfolding register
register-prior r k prior h = rw (h, register) (ground (arith, present-put r.signals prior prior tt))

register-others :
    (r : SupersessionRegistry) (k : ReviewKey) (prior e : ℕ)
    → get r.events k ≡ some prior
    → e ≢ prior
    → is_set (register r k).1 e ≡ is_set r e
unfolding register
register-others r k prior e h n =
    rw (h, register) (ground (arith, n, present-put r.signals prior e tt))

register-none :
    (r : SupersessionRegistry) (k : ReviewKey) (e : ℕ)
    → get r.events k ≡ none
    → is_set (register r k).1 e ≡ is_set r e
unfolding register
register-none r k e h = rw (h, register) refl

register-cancelled :
    (r : SupersessionRegistry) (k : ReviewKey) (prior : ℕ)
    → get r.events k ≡ some prior
    → is_cancelled (register r k).1 k ≡ true
unfolding register
register-cancelled r k prior h =
    rw (h, register) (rw (get-put r.superseded k tt k, present) (rw (beq_refl k) refl))

-- The new event is unset after, as it was before.
register-new :
    (r : SupersessionRegistry) (k : ReviewKey)
    → Wellformed r
    → is_set (register r k).1 (register r k).0 ≡ false
unfolding register
register-new r k w = elim (Option-cases (get r.events k)) [
  | inl h ↦ rw (h, register) (w.unset r.next_event (omega arith))
  | inr (prior, h) ↦
      rw (h, register)
        (ground (
          arith,
          present-put r.signals prior r.next_event tt,
          w.made k prior h,
          w.unset r.next_event (omega arith),
        ))
]

-- What a registration does to the review that was in flight with the event `prior`.
pub record Supersedes (r : SupersessionRegistry) (k : ReviewKey) (prior : ℕ) : Type 0 where
  stopped : is_set (register r k).1 prior ≡ true
  running : is_set (register r k).1 (register r k).0 ≡ false
  others : (e : ℕ) → e ≢ prior → is_set (register r k).1 e ≡ is_set r e
  cancelled : is_cancelled (register r k).1 k ≡ true

-- After any course of registrations and completions, a registration for a key with a review in flight
-- sets that review's event, leaves its own event and all others as they were, its own unset, and has
-- the key count as cancelled.
pub register-Supersedes :
    (es : List Event) (k : ReviewKey) (prior : ℕ)
    → get (run new_registry es).events k ≡ some prior
    → Supersedes (run new_registry es) k prior
unfolding register
register-Supersedes es k prior h =
    let r = run new_registry es in
    let w = run-Wellformed new_registry es new_registry-Wellformed in
    record {
      stopped = register-prior r k prior h;
      running = register-new r k w;
      others = λ e n. register-others r k prior e h n;
      cancelled = register-cancelled r k prior h;
    }

-- Two reviews of one key run on when the first of three completes before the third registers: after
-- any course of events, the second's event is still unset then, as the third's is.
pub complete_by_superseded :
    (es : List Event) (k : ReviewKey)
    → let r = run new_registry es in
      let (first, r1) = register r k in
      let (second, r2) = register r1 k in
      let (third, r3) = register (complete r2 k) k in
      (second ≢ third) × (is_set r3 second ≡ false) × (is_set r3 third ≡ false)
unfolding complete
complete_by_superseded es k =
    let r = run new_registry es in
    let w = run-Wellformed new_registry es new_registry-Wellformed in
    let r1 = (register r k).1 in
    let w1 = register-Wellformed r k w in
    let r2 = (register r1 k).1 in
    let w2 = register-Wellformed r1 k w1 in
    let gone = complete r2 k in
    let absent : get gone.events k ≡ none = rw (get-remove r2.events k k) (rw (beq_refl k) refl) in
    (
      λ e. omega (arith, e, register-event r1 k, register-event gone k, register-next r1 k),
      register-none gone k (register r1 k).0 absent ∙ register-new r1 k w1,
      register-new gone k (complete-Wellformed r2 k w2),
    )
