-- ===== src/Guard/Outage.antt =====
-- How often a check asks GitHub, and what it answers while GitHub is down or after it has answered.
use kenjutsu.Base.{
  ℕ, zero, suc, ◌≤◌, ◌+◌, String, Option, none, some, ◌≡◌, refl, ◌⊎◌, arith, ◌∙◌, nat_eq, pair_eq,
  string_eq, ◌*◌, ◌^◌, subst,
}
use kenjutsu.Dict
use native.Mathlib.Nat.{le_trans}
use kenjutsu.Dict.{Dict, get-remove, get-put}
use kenjutsu.Guard.{
  api_error, after_round_cases, PrRef, Entry, Reply, response, network_error, other_error, Client,
  State, cache_key, sent_etag, get_cached, set_cached, Checked, Round, ends, again, on_ok,
  on_not_modified, on_reply, request, attempts, delayed, check_sha_current, max_retries,
  retry_base_delay,
}
use kenjutsu.Guard.Cache.{check_cases, attempts_cases, after}

module _ {W : Type 0} (client : Client W) (pr : PrRef) where
  module _ (asked : W → ℕ)
      (one_each : (p : PrRef) (e : Option String) (w : W)
        → asked (client.get p e w).1 ≤ asked w + 1)
      (none_asleep : (n : ℕ) (w : W) → asked (client.sleep n w) ≤ asked w) where
    on_reply-asked :
        (old : Option Entry) (attempt : ℕ) (reply : Reply) (s : State W)
        → asked (after (on_reply client pr old attempt reply s)).world ≤ asked s.world
    unfolding on_reply on_ok on_not_modified delayed set_cached
    on_reply-asked old attempt (response status none etag) s =
        ground (arith, none_asleep (retry_base_delay * 2 ^ attempt) s.world)
    on_reply-asked old attempt (response status (some sha) etag) s =
        ground (arith, none_asleep (retry_base_delay * 2 ^ attempt) s.world)
    on_reply-asked old attempt network_error s =
        ground (arith, none_asleep (retry_base_delay * 2 ^ attempt) s.world)
    on_reply-asked old attempt other_error s = omega arith

    request-asked :
        (old : Option Entry) (attempt : ℕ) (s : State W)
        → asked (after (request client pr old attempt s)).world ≤ asked s.world + 1
    unfolding request
    request-asked old attempt s =
        let (reply, v) = client.get pr (sent_etag old) s.world in
        le_trans (on_reply-asked old attempt reply (record s { world = v }))
          (one_each pr (sent_etag old) s.world)

    attempts-asked :
        (old : Option Entry) (left attempt : ℕ) (s : State W)
        → asked (attempts client pr old left attempt s).1.world ≤ asked s.world + left
    unfolding attempts
    attempts-asked old zero attempt s = omega arith
    attempts-asked old (suc left) attempt s =
        after_round_cases (λ c. asked c.1.world ≤ asked s.world + suc left)
          (attempts client pr old left (suc attempt)) (request client pr old attempt s)
          (λ r e. ground (arith, request-asked old attempt s))
          λ t e.
            ground (arith, request-asked old attempt s, attempts-asked old left (suc attempt) t)

    -- If a request counts one and a sleep counts none, a check makes at most three requests.
    pub check_asks_at_most :
        (s : State W) → asked (check_sha_current client pr s).1.world ≤ asked s.world + 3
    check_asks_at_most s =
        check_cases client pr (λ c. asked c.1.world ≤ asked s.world + 3) s (λ e h. omega arith)
          λ h. attempts-asked (Dict.get s.cache (cache_key pr)) max_retries 0 s

  -- GitHub is down for this pull request: no answer, or a server error, whatever is asked.
  abbrev pub IsDown : Type 0
  IsDown =
      (e : Option String) (w : W)
      → ((client.get pr e w).0 ≡ network_error)
        ⊎ ((status : ℕ) × (sha etag : Option String) × (500 ≤ status)
            × ((client.get pr e w).0 ≡ response status sha etag))

  -- The rounds of the loop after a failure end in `api_error`, and leave the cache alone.
  abbrev pub Failed : State W → Checked W → Type 0
  Failed s c = (c.0 ≡ some api_error) × (c.1.cache ≡ s.cache)

  RoundFailed : State W → Round W → Type 0
  RoundFailed s (ends r) = Failed s r
  RoundFailed s (again t) = t.cache ≡ s.cache

  on_reply-RoundFailed :
      (old : Option Entry) (attempt : ℕ) (reply : Reply) (s : State W)
      → (reply ≡ network_error)
        ⊎ ((status : ℕ) × (sha etag : Option String) × (500 ≤ status)
            × (reply ≡ response status sha etag))
      → RoundFailed s (on_reply client pr old attempt reply s)
  unfolding RoundFailed on_reply delayed
  on_reply-RoundFailed old attempt (response status sha etag) s h = ground arith
  on_reply-RoundFailed old attempt network_error s h = ground arith
  on_reply-RoundFailed old attempt other_error s h = ground arith

  request-RoundFailed :
      IsDown
      → (old : Option Entry) (attempt : ℕ) (s : State W)
      → RoundFailed s (request client pr old attempt s)
  unfolding request RoundFailed
  request-RoundFailed down old attempt s =
      let (reply, v) = client.get pr (sent_etag old) s.world in
      on_reply-RoundFailed old attempt reply (record s { world = v }) (down (sent_etag old) s.world)

  attempts-Failed :
      IsDown
      → (old : Option Entry) (left attempt : ℕ) (s : State W)
      → Failed s (attempts client pr old left attempt s)
  unfolding RoundFailed
  attempts-Failed down old left attempt s =
      attempts_cases client pr (λ t. t.cache ≡ s.cache) (Failed s) old
        (λ n t same r e.
          let failed = subst (RoundFailed t) e (request-RoundFailed down old n t) in
          (failed.0, failed.1 ∙ same))
        (λ n t same u e. subst (RoundFailed t) e (request-RoundFailed down old n t) ∙ same)
        (λ t same. (refl, same)) left attempt s refl

  -- While GitHub is down, a check that finds no fresh entry in the cache answers `api_error`, never
  -- `stale`, and leaves the cache as it was.
  pub check_while_down :
      (s : State W)
      → IsDown
      → get_cached client pr s ≡ none
      → ((check_sha_current client pr s).0 ≡ some api_error)
        × ((check_sha_current client pr s).1.cache ≡ s.cache)
  check_while_down s down miss =
      check_cases client pr (Failed s) s (λ e h. cc)
        λ h. attempts-Failed down (Dict.get s.cache (cache_key pr)) max_retries 0 s
