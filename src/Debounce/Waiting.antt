-- ===== src/Debounce/Waiting.antt =====
-- kenjutsu/server/debounce.py as what it promises: for each pull request, the review that waits.
mod Steps
pub mod Refinement
use kenjutsu.Base.{
  ℕ, Bool, true, false, ◌≡◌, refl, sym, ap, ◌∙◌, Option, none, some, List, [], ◌∷◌, arith, ◌==◌,
  nat_eq, string_eq, pair_eq, Bool-cases, Option-cases, inl, inr, some_eq, beq_refl, if◌then◌else◌,
  subst,
}
use kenjutsu.Dict.{Dict, get, put, remove, get-put, get-remove, get-empty}
use kenjutsu.Debounce.{
  PrKey, Timer, DebounceManager, cancel_timer, cancel_pending, cancel_in_flight, start_timer,
  schedule, cancel, fire, timer_due, run_ends, Event, scheduled, cancelled, due, ended, step, run,
  new_manager,
}
use kenjutsu.Debounce.Timers.{LinkedIn}
use kenjutsu.Debounce.Latest.{
  cancel_pending-Linked, cancel_in_flight-Linked, step-Linked, new_manager-Linked,
}

-- The factory that waits for each pull request, if one does.
abbrev pub Waiting : Type 0
Waiting = PrKey → Option ℕ

abbrev pub with_waiting : PrKey → Option ℕ → Waiting → Waiting
with_waiting k o w j = if k == j then o else w j

abbrev pub fired_timer : Option Timer → Waiting → Waiting
fired_timer none w = w
fired_timer (some t) w = if t.cancelled then w else with_waiting t.pr_key none w

-- What an event does to what waits; the timer that is due is the manager's.
abbrev pub wait : DebounceManager → Waiting → Event → Waiting
wait m w (scheduled k f) = with_waiting k (some f) w
wait m w (cancelled k) = with_waiting k none w
wait m w (due handle) = fired_timer (get m.timers handle) w
wait m w (ended task) = w

abbrev pub wait_all : DebounceManager → Waiting → List Event → Waiting
wait_all m w [] = w
wait_all m w (e ∷ es) = wait_all (step m e) (wait m w e) es

-- `Shows pending timers j o`: for the key `j`, the dictionaries hold just what waits, as a live timer.
pub record Held (pending : Dict PrKey ℕ) (timers : Dict ℕ Timer) (j : PrKey) (f : ℕ) : Type 0 where
  pub handle : ℕ
  pub timer : Timer
  pub entry : get pending j ≡ some handle
  pub found : get timers handle ≡ some timer
  pub live : timer.cancelled ≡ false
  pub key : timer.pr_key ≡ j
  pub factory : timer.coro_factory ≡ f

abbrev pub Shows : Dict PrKey ℕ → Dict ℕ Timer → PrKey → Option ℕ → Type 0
Shows pending timers j none = get pending j ≡ none
Shows pending timers j (some f) = Held pending timers j f

abbrev pub ShowsIn : DebounceManager → Waiting → Type 0
ShowsIn m w = (j : PrKey) → Shows m.pending m.timers j (w j)

-- Entries of another key stay, where the timers change at one handle only, which is not theirs.
pub kept :
    (pending pending' : Dict PrKey ℕ) (timers timers' : Dict ℕ Timer) (j : PrKey) (o : Option ℕ)
    → get pending' j ≡ get pending j
    → ((h : ℕ) (t : Timer)
        → get timers h ≡ some t
        → t.cancelled ≡ false
        → t.pr_key ≡ j
        → get timers' h ≡ some t)
    → Shows pending timers j o
    → Shows pending' timers' j o
kept pending pending' timers timers' j none e k s = e ∙ s
kept pending pending' timers timers' j (some f) e k s = record {
  handle = s.handle;
  timer = s.timer;
  entry = e ∙ s.entry;
  found = k s.handle s.timer s.found s.live s.key;
  live = s.live;
  key = s.key;
  factory = s.factory;
}

pub other_kept :
    {V : Type 0} (d : Dict ℕ V) (h j : ℕ) (v : V)
    → (h == j) ≡ false
    → (get (put d h v) j ≡ get d j) × (get (remove d h) j ≡ get d j)
other_kept d h j v n = (rw (get-put d h v j) (rw n refl), rw (get-remove d h j) (rw n refl))

pub cancel_timer-other :
    (timers : Dict ℕ Timer) (h j : ℕ)
    → (h == j) ≡ false
    → get (cancel_timer timers h) j ≡ get timers j
unfolding cancel_timer
cancel_timer-other timers h j n = elim (Option-cases (get timers h)) [
  | inl e ↦ rw (e, cancel_timer) refl
  | inr (t, e) ↦ rw (e, cancel_timer) (other_kept timers h j (record t { cancelled = true }) n).0
]

-- The timer that the entry of a key leads to is of that key.
pub entry-key :
    (pending : Dict PrKey ℕ) (timers : Dict ℕ Timer) (k : PrKey) (o : Option ℕ) (h : ℕ) (t : Timer)
    → Shows pending timers k o
    → get pending k ≡ some h
    → get timers h ≡ some t
    → t.pr_key ≡ k
entry-key pending timers k none h t s e g = absurd (ground (arith, sym s ∙ e))
entry-key pending timers k (some f) h t s e g =
    let same : s.handle ≡ h = some_eq (sym s.entry ∙ e) in
    let timer : s.timer ≡ t = some_eq (sym s.found ∙ ap (get timers) same ∙ g) in
    ap (λ x. x.pr_key) (sym timer) ∙ s.key

pub not_both : (b : Bool) → b ≡ true → b ≡ false → ⊥
not_both b h k = ground (arith, h, k)

-- A live timer of another key does not have the handle.
pub apart :
    (timers : Dict ℕ Timer) (k j : PrKey) (h i : ℕ) (t : Timer)
    → (k == j) ≡ false
    → ((u : Timer) → get timers h ≡ some u → u.pr_key ≡ k)
    → get timers i ≡ some t
    → t.pr_key ≡ j
    → (h == i) ≡ false
apart timers k j h i t n owner g key = elim (Bool-cases (h == i)) [
  | inr m ↦ m
  | inl y ↦
      let at_h : get timers h ≡ some t = ap (get timers) ((nat_eq.equal_iff h i).0 y) ∙ g in
      let same : k ≡ j = sym (owner t at_h) ∙ key in
      absurd (not_both (k == j) ((pair_eq.equal_iff k j).1 same) n)
]

abbrev pub nothing_waits : Waiting
nothing_waits k = none
