-- ===== src/Guard/Memory.antt =====
-- What a check remembers: the next one within the cache's lifetime gives the same answer.
use kenjutsu.Base.{
  ◌||◌, ◌&&◌, some_eq, ℕ, ◌<◌, ◌+◌, String, Option, none, some, ◌≡◌, ◌≢◌, refl, inl, inr, arith,
  sym, Bool-cases, ◌==◌, nat_eq, pair_eq, string_eq, beq_refl, ltb, lt→ltb, leb, subst,
}
use kenjutsu.Dict
use kenjutsu.Dict.{Dict, get-remove, get-put}
use kenjutsu.Guard.{
  GuardResult, api_error, PrRef, Entry, Reply, response, network_error, other_error, Client, State,
  cache_key, verdict, sent_etag, fresh_entry, get_cached, set_cached, Checked, Round, ends, again,
  on_ok, on_not_modified, on_reply, request, attempts, check_sha_current, max_retries,
  sha_cache_ttl,
}
use kenjutsu.Guard.Cache.{check_cases, attempts_cases}

module _ {W : Type 0} (client : Client W) (pr : PrRef) where
  -- The entry that an answer `r` was judged by, just written.
  abbrev Remembered : GuardResult → State W → Type 0
  Remembered r s =
      (e : Entry) × (Dict.get s.cache (cache_key pr) ≡ some e)
      × (e.fetched_at ≡ client.now s.world)
      × (r ≡ verdict pr e.sha)

  set_cached-Remembered :
      (sha : String) (etag : Option String) (s : State W)
      → Remembered (verdict pr sha) (set_cached client pr sha etag s)
  unfolding set_cached
  set_cached-Remembered sha etag s =
      let e : Entry = record { sha = sha; fetched_at = client.now s.world; etag = etag } in
      (
        e,
        ground (arith, get-put s.cache (cache_key pr) e (cache_key pr), beq_refl (cache_key pr)),
        refl,
        refl,
      )

  abbrev Remembers : Checked W → Type 0
  Remembers c = (r : GuardResult) → c.0 ≡ some r → r ≢ api_error → Remembered r c.1

  Remembers-answer :
      (sha : String) (etag : Option String) (s : State W)
      → Remembers (some (verdict pr sha), set_cached client pr sha etag s)
  Remembers-answer sha etag s r h n =
      subst (λ x. Remembered x (set_cached client pr sha etag s)) (some_eq h)
        (set_cached-Remembered sha etag s)

  Remembers-error : (s : State W) → Remembers (some api_error, s)
  Remembers-error s r h n = absurd (n (sym (some_eq h)))

  Remembers-on_ok :
      (sha etag : Option String) (s : State W) → Remembers (on_ok client pr sha etag s)
  unfolding on_ok
  Remembers-on_ok none etag s = λ r h n. cc
  Remembers-on_ok (some sha) etag s = Remembers-answer sha etag s

  Remembers-on_not_modified :
      (old : Option Entry) (s : State W) → Remembers (on_not_modified client pr old s)
  unfolding on_not_modified
  Remembers-on_not_modified none s = Remembers-error s
  Remembers-on_not_modified (some e) s = Remembers-answer e.sha e.etag s

  abbrev RoundRemembers : Round W → Type 0
  RoundRemembers (ends c) = Remembers c
  RoundRemembers (again t) = Unit {0}

  on_reply-Remembers :
      (old : Option Entry) (attempt : ℕ) (reply : Reply) (s : State W)
      → RoundRemembers (on_reply client pr old attempt reply s)
  unfolding on_reply
  on_reply-Remembers old attempt (response status sha etag) s = elim (Bool-cases (status == 200)) [
    | inl e ↦ rw e (Remembers-on_ok sha etag s)
    | inr e ↦ rw e (elim (Bool-cases (status == 304)) [
      | inl d ↦ rw d (Remembers-on_not_modified old s)
      | inr d ↦ rw d (elim (Bool-cases (status == 403 || status == 429)) [
        | inl c ↦ rw c (Remembers-error s)
        | inr c ↦ rw c (elim (Bool-cases (leb 500 status && ltb attempt 2)) [
          | inl r ↦ rw r tt
          | inr r ↦ rw r (Remembers-error s)
        ])
      ])
    ])
  ]
  on_reply-Remembers old attempt network_error s = tt
  on_reply-Remembers old attempt other_error s = λ r h n. cc

  attempts-Remembers :
      (old : Option Entry) (left attempt : ℕ) (s : State W)
      → Remembers (attempts client pr old left attempt s)
  unfolding request
  attempts-Remembers old left attempt s =
      attempts_cases client pr (λ _. Unit {0}) Remembers old
        (λ n t _ r e.
          let (reply, v) = client.get pr (sent_etag old) t.world in
          subst RoundRemembers e (on_reply-Remembers old n reply (record t { world = v })))
        (λ n t _ u e. tt) (λ t _. Remembers-error t) left attempt s tt

  -- The check that asked, seen through its loop.
  asked-Remembered :
      (s t : State W) (r : GuardResult)
      → get_cached client pr s ≡ none
      → check_sha_current client pr s ≡ (some r, t)
      → r ≢ api_error
      → Remembered r t
  asked-Remembered s t r miss =
      check_cases client pr (λ c. c ≡ (some r, t) → r ≢ api_error → Remembered r t) s (λ e h. cc)
        λ _ h n.
          subst Remembers h (attempts-Remembers (Dict.get s.cache (cache_key pr)) max_retries 0 s) r
            refl n

  still_fresh :
      (t : State W) (w : W) (e : Entry)
      → Dict.get t.cache (cache_key pr) ≡ some e
      → client.now w < e.fetched_at + sha_cache_ttl
      → get_cached client pr (record t { world = w }) ≡ some e
  unfolding get_cached fresh_entry
  still_fresh t w e h soon = rw (h, fresh_entry) (rw (lt→ltb _ _ soon))

  -- After a check that had to ask and got an answer, a check at any later time within the lifetime
  -- of the cache gives the same answer, and changes nothing.
  pub check_again :
      (s t : State W) (r : GuardResult) (w : W)
      → get_cached client pr s ≡ none
      → check_sha_current client pr s ≡ (some r, t)
      → r ≢ api_error
      → client.now w < client.now t.world + sha_cache_ttl
      → check_sha_current client pr (record t { world = w }) ≡ (some r, record t { world = w })
  check_again s t r w miss h n soon =
      let (e, there, at, same) = asked-Remembered s t r miss h n in
      let fresh = still_fresh t w e there (rw at soon) in
      check_cases client pr (λ c. c ≡ (some r, record t { world = w })) (record t { world = w })
        (λ d hit. cc) (λ miss'. cc)
