-- ===== src/Guard/Fresh.antt =====
-- The guard before publishing decides by an answer that GitHub gave during the call itself.
use kenjutsu.Base.{
  ℕ, zero, suc, String, Option, none, some, ◌≡◌, refl, ◌⊎◌, inl, inr, arith, ap, ◌∙◌, sym,
  Bool-cases, ◌==◌, nat_eq, pair_eq, string_eq, beq_refl,
}
use kenjutsu.Dict
use kenjutsu.Dict.{get-remove}
use kenjutsu.Guard.{
  GuardResult, api_error, after_round_cases, PrRef, Reply, response, network_error, other_error,
  Client, State, cache_key, verdict, fresh_entry, get_cached, evict_cached, ends, on_ok,
  on_not_modified, on_reply, request, attempts, check_sha_current, exit_guard, max_retries,
}

module _ {W : Type 0} (client : Client W) (pr : PrRef) where
  -- GitHub answered an unconditional request with a head SHA, and `r` is the verdict on that.
  abbrev pub Seen : GuardResult → Type 0
  Seen r =
      (sha : String) × (etag : Option String) × (w v : W) × (client.get pr none w
        ≡ (response 200 (some sha) etag, v))
      × (r ≡ verdict pr sha)

  on_reply-Seen :
      (attempt : ℕ) (reply : Reply) (w v : W) (s t : State W) (r : GuardResult)
      → client.get pr none w ≡ (reply, v)
      → on_reply client pr none attempt reply s ≡ ends (some r, t)
      → (r ≡ api_error) ⊎ Seen r
  unfolding on_reply on_ok on_not_modified
  on_reply-Seen attempt (response status none etag) w v s t r g h = inl (ground arith)
  on_reply-Seen attempt (response status (some sha) etag) w v s t r g h =
      elim (Bool-cases (status == 200)) [
        | inl e ↦ inr (sha, etag, w, v, ground arith, ground arith)
        | inr e ↦ inl (ground arith)
      ]
  on_reply-Seen attempt network_error w v s t r g h = cc
  on_reply-Seen attempt other_error w v s t r g h = cc

  request-Seen :
      (attempt : ℕ) (s t : State W) (r : GuardResult)
      → request client pr none attempt s ≡ ends (some r, t)
      → (r ≡ api_error) ⊎ Seen r
  unfolding request
  request-Seen attempt s t r h =
      let (reply, v) = client.get pr none s.world in
      on_reply-Seen attempt reply s.world v _ t r refl h

  attempts-Seen :
      (left attempt : ℕ) (s : State W) (r : GuardResult)
      → (attempts client pr none left attempt s).0 ≡ some r
      → (r ≡ api_error) ⊎ Seen r
  unfolding attempts
  attempts-Seen zero attempt s r = λ h. inl (ground arith)
  attempts-Seen (suc left) attempt s r =
      after_round_cases (λ c. c.0 ≡ some r → (r ≡ api_error) ⊎ Seen r)
        (attempts client pr none left (suc attempt)) (request client pr none attempt s)
        (λ c e h. request-Seen attempt s c.1 r (e ∙ ap (λ o. ends (o, c.1)) h))
        λ t _ h. attempts-Seen left (suc attempt) t r h

  evicted : (s : State W) → Dict.get (evict_cached client pr s).cache (cache_key pr) ≡ none
  unfolding evict_cached
  evicted s =
      ground (arith, get-remove s.cache (cache_key pr) (cache_key pr), beq_refl (cache_key pr))

  uncached : (s : State W) → get_cached client pr (evict_cached client pr s) ≡ none
  unfolding get_cached fresh_entry
  uncached s = rw (evicted s, fresh_entry)

  pub exit_guard-attempts :
      (s : State W)
      → exit_guard client pr s ≡ attempts client pr none max_retries 0 (evict_cached client pr s)
  unfolding exit_guard check_sha_current
  exit_guard-attempts s = rw (uncached s, check_sha_current) (rw (evicted s))

  -- Where the check before publishing returns `current` or `stale`, there is a state of the world in
  -- which the client answered a request for this pull request, sent without an ETag, with status 200
  -- and a head SHA, and the result is what comparing that SHA with the expected one gives.
  pub exit_guard_fresh :
      (s : State W) (r : GuardResult)
      → (exit_guard client pr s).0 ≡ some r
      → (r ≡ api_error) ⊎ Seen r
  exit_guard_fresh s r h =
      attempts-Seen max_retries 0 (evict_cached client pr s) r
        (ap (λ c. c.0) (sym (exit_guard-attempts s)) ∙ h)
