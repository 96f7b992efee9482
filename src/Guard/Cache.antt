-- ===== src/Guard/Cache.antt =====
-- What a check leaves in the cache, how many requests it makes, and what it does when GitHub is down.
use kenjutsu.Base.{
  ℕ, zero, suc, String, false, Option, none, some, ◌≡◌, refl, inl, inr, arith, ap, ◌∙◌, sym,
  Option-cases, ◌==◌, nat_eq, pair_eq, string_eq,
}
use kenjutsu.Dict
use kenjutsu.Dict.{get-remove, get-put}
use kenjutsu.Guard.{
  api_error, after_round_cases, PrRef, Entry, Reply, response, network_error, other_error, Client,
  State, Key, cache_key, verdict, sent_etag, get_cached, set_cached, Checked, Round, ends, again,
  on_ok, on_not_modified, on_reply, request, attempts, delayed, check_sha_current, max_retries,
}

-- The state when the round is over.
abbrev pub after : {W : Type 0} → Round W → State W
after (ends r) = r.1
after (again t) = t

module _ {W : Type 0} (client : Client W) (pr : PrRef) where
  -- The two ways of `check_sha_current`.
  pub check_cases {ℓ} :
      (P : Checked W → Type ℓ) (s : State W)
      → ((e : Entry) → get_cached client pr s ≡ some e → P (some (verdict pr e.sha), s))
      → (get_cached client pr s ≡ none
          → P (attempts client pr (Dict.get s.cache (cache_key pr)) max_retries 0 s))
      → P (check_sha_current client pr s)
  unfolding check_sha_current
  check_cases P s hit miss = elim (Option-cases (get_cached client pr s)) [
    | inl h ↦ rw (h, check_sha_current) (miss h)
    | inr (e, h) ↦ rw (h, check_sha_current) (hit e h)
  ]

  -- A property of every answer of the client holds of every end of the loop.
  pub attempts_cases {ℓ κ} :
      (P : State W → Type ℓ) (Q : Checked W → Type κ) (old : Option Entry)
      → ((attempt : ℕ) (s : State W)
          → P s
          → (r : Checked W) → request client pr old attempt s ≡ ends r
          → Q r)
      → ((attempt : ℕ) (s : State W)
          → P s
          → (t : State W) → request client pr old attempt s ≡ again t
          → P t)
      → ((s : State W) → P s → Q (some api_error, s))
      → (left attempt : ℕ) (s : State W) → P s
      → Q (attempts client pr old left attempt s)
  unfolding attempts
  attempts_cases P Q old end on out zero attempt s h = out s h
  attempts_cases P Q old end on out (suc left) attempt s h =
      after_round_cases Q (attempts client pr old left (suc attempt))
        (request client pr old attempt s) (λ r e. end attempt s h r e)
        λ t e. attempts_cases P Q old end on out left (suc attempt) t (on attempt s h t e)

  -- The cache as a client of the guard sees it: unchanged but for this pull request.
  abbrev pub SameElsewhere : State W → State W → Type 0
  SameElsewhere s t =
      (k : Key) → (cache_key pr == k) ≡ false → Dict.get t.cache k ≡ Dict.get s.cache k

  set_cached-SameElsewhere :
      (s : State W) (sha : String) (etag : Option String)
      → SameElsewhere s (set_cached client pr sha etag s)
  unfolding set_cached
  set_cached-SameElsewhere s sha etag k h = ground (
    arith,
    get-put s.cache (cache_key pr)
        (record { sha = sha; fetched_at = client.now s.world; etag = etag }) k,
  )

  on_ok-SameElsewhere :
      (sha etag : Option String) (s : State W) → SameElsewhere s (on_ok client pr sha etag s).1
  unfolding on_ok
  on_ok-SameElsewhere none etag s k h = refl
  on_ok-SameElsewhere (some sha) etag s k h = set_cached-SameElsewhere s sha etag k h

  on_not_modified-SameElsewhere :
      (old : Option Entry) (s : State W) → SameElsewhere s (on_not_modified client pr old s).1
  unfolding on_not_modified
  on_not_modified-SameElsewhere none s k h = refl
  on_not_modified-SameElsewhere (some e) s k h = set_cached-SameElsewhere s e.sha e.etag k h

  on_reply-SameElsewhere :
      (old : Option Entry) (attempt : ℕ) (reply : Reply) (s : State W)
      → SameElsewhere s (after (on_reply client pr old attempt reply s))
  unfolding on_reply delayed
  on_reply-SameElsewhere old attempt (response status sha etag) s k h =
      ground (arith, on_ok-SameElsewhere sha etag s k h, on_not_modified-SameElsewhere old s k h)
  on_reply-SameElsewhere old attempt network_error s k h = ground arith
  on_reply-SameElsewhere old attempt other_error s k h = refl

  request-SameElsewhere :
      (old : Option Entry) (attempt : ℕ) (s : State W)
      → SameElsewhere s (after (request client pr old attempt s))
  unfolding request
  request-SameElsewhere old attempt s k h =
      let (reply, v) = client.get pr (sent_etag old) s.world in
      on_reply-SameElsewhere old attempt reply (record s { world = v }) k h

  -- A check changes the cache for its own pull request only: the entry of any other key is as it was.
  pub check_keeps_others : (s : State W) → SameElsewhere s (check_sha_current client pr s).1
  check_keeps_others s =
      check_cases (λ c. SameElsewhere s c.1) s (λ e h k n. refl)
        λ h.
          attempts_cases (SameElsewhere s) (λ c. SameElsewhere s c.1) _
            (λ attempt t same r e k n.
              ap (λ round. Dict.get (after round).cache k) (sym e)
              ∙ request-SameElsewhere _ attempt t k n
              ∙ same k n)
            (λ attempt t same u e k n.
              ap (λ round. Dict.get (after round).cache k) (sym e)
              ∙ request-SameElsewhere _ attempt t k n
              ∙ same k n)
            (λ t same. same) max_retries 0 s (λ k n. refl)
