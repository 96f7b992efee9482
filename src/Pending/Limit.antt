-- ===== src/Pending/Limit.antt =====
-- kenjutsu/publisher/pending_review.py: what is sent, and what a near rate limit does.
use kenjutsu.Base.{
  ℕ, String, Bool, true, ◌&&◌, ◌≡◌, refl, sym, ap, ◌∙◌, Option, some, List, [], ◌∷◌, ◌++◌, map,
  filter, ltb, leb, nat_eq, arith, Bool-cases, Option-cases, inl, inr,
}
use kenjutsu.Effect.{Result, err, ◌>>=◌, ◌>>◌, bind_cases}
use kenjutsu.Finding.{Finding, critical}
use kenjutsu.Pending.{
  build_comment, is_publishable, near_rate_limit, Payload, Response, Client, Error,
  rate_limit_exceeded, Publisher, decoded, post, set_remaining, record_rate_limit, raise_for_status,
  check_rate_limit, on_response, review_payload, publish_findings,
}
use kenjutsu.Pending.Order.{of_severity, selection, select_findings-selection}

abbrev pub is_success : ℕ → Bool
is_success status = leb 200 status && ltb status 300

module _ {J W : Type 0} (client : Client J W) where
  -- An error of one part of the call, which is not the one of the rate limit.
  record-error :
      (response : Response J) (p : Publisher W) (e : Error)
      → (record_rate_limit client response p).0 ≡ err e
      → e ≡ rate_limit_exceeded
      → ⊥
  unfolding record_rate_limit set_remaining
  record-error response p e h same = elim (Option-cases response.remaining) [
    | inl n ↦ absurd (ground (arith, same, rw n at h))
    | inr (raw, r) ↦ elim (Option-cases (client.int raw)) [
      | inl n ↦ absurd (ground (arith, same, rw (r, n, set_remaining) at h))
      | inr (k, i) ↦ absurd (ground (arith, rw (r, i, set_remaining) at h))
    ]
  ]

  abbrev Limited : Response J → Result Error J × Publisher W → Type 0
  Limited response (r, p) =
      r ≡ err rate_limit_exceeded
      → (is_success response.status ≡ true) × (near_rate_limit p.rate_limit_remaining ≡ true)

  abbrev finished : Response J → Publisher W → Result Error J × Publisher W
  finished response p = (decoded client response.json, p)

  finished-Limited :
      (response : Response J) (p : Publisher W) → Limited response (finished response p)
  finished-Limited response p h = elim (Option-cases response.json) [
    | inl n ↦ absurd (ground (arith, rw n at h))
    | inr (k, i) ↦ absurd (ground (arith, rw i at h))
  ]

  check-Limited :
      (response : Response J) (p : Publisher W)
      → is_success response.status ≡ true
      → Limited response ((check_rate_limit client >> finished response) p)
  unfolding ◌>>=◌ ◌>>◌ check_rate_limit
  check-Limited response p s = elim (Bool-cases (near_rate_limit p.rate_limit_remaining)) [
    | inl y ↦ rw (y, check_rate_limit) (λ h. (s, y))
    | inr n ↦ rw (n, check_rate_limit) (finished-Limited response p)
  ]

  status-Limited :
      (response : Response J) (p : Publisher W)
      → Limited response
          ((raise_for_status client response >> (check_rate_limit client >> finished response)) p)
  unfolding ◌>>=◌ ◌>>◌ raise_for_status
  status-Limited response p = elim (Bool-cases (is_success response.status)) [
    | inl y ↦ rw y (λ h. (refl, (check-Limited response p y h).1))
    | inr n ↦ rw n (λ h. absurd (ground (arith, h)))
  ]

  on_response-Limited :
      (response : Response J) (p : Publisher W) → Limited response (on_response client response p)
  unfolding on_response ◌>>◌
  on_response-Limited response p =
      bind_cases (Limited response) (record_rate_limit client response)
        (λ _. raise_for_status client response >> (check_rate_limit client >> finished response)) p
        (λ e h same. absurd (record-error response p e h (cc same)))
        (λ _ _. status-Limited response (record_rate_limit client response p).1)

  record-sent :
      (response : Response J) (p : Publisher W)
      → (record_rate_limit client response p).1.sent ≡ p.sent
  unfolding record_rate_limit set_remaining
  record-sent response p = elim (Option-cases response.remaining) [
    | inl n ↦ rw n refl
    | inr (raw, r) ↦ elim (Option-cases (client.int raw)) [
      | inl n ↦ rw (r, n, set_remaining) refl
      | inr (k, i) ↦ rw (r, i, set_remaining) refl
    ]
  ]

  status-sent :
      (response : Response J) (p : Publisher W)
      → (raise_for_status client response p).1.sent ≡ p.sent
  unfolding raise_for_status
  status-sent response p = elim (Bool-cases (is_success response.status)) [
    | inl y ↦ rw y refl
    | inr n ↦ rw n refl
  ]

  limit-sent : (p : Publisher W) → (check_rate_limit client p).1.sent ≡ p.sent
  unfolding check_rate_limit
  limit-sent p = elim (Bool-cases (near_rate_limit p.rate_limit_remaining)) [
    | inl y ↦ rw (y, check_rate_limit) refl
    | inr n ↦ rw (n, check_rate_limit) refl
  ]

  on_response-sent :
      (response : Response J) (p : Publisher W) → (on_response client response p).1.sent ≡ p.sent
  unfolding on_response ◌>>◌
  on_response-sent response p =
      let q = (record_rate_limit client response p).1 in
      let q' = (raise_for_status client response q).1 in
      let first = record-sent response p in
      let second = status-sent response q ∙ first in
      bind_cases (λ x. x.1.sent ≡ p.sent) (record_rate_limit client response)
        (λ _. raise_for_status client response >> (check_rate_limit client >> finished response)) p
        (λ e h. first)
        (λ a h.
          bind_cases (λ x. x.1.sent ≡ p.sent) (raise_for_status client response)
            (λ _. check_rate_limit client >> finished response) q (λ e k. second)
            (λ b k.
              bind_cases (λ x. x.1.sent ≡ p.sent) (check_rate_limit client) (λ _. finished response)
                q' (λ e l. limit-sent q' ∙ second) (λ c l. limit-sent q' ∙ second)))

  abbrev pub posted_with : List Finding → String → Payload
  posted_with findings body = record {
    body = body;
    event = "COMMENT";
    comments = map build_comment findings;
  }

  review_payload-selection :
      (remaining : Option ℕ) (findings : List Finding) (body : String)
      → review_payload client remaining findings body
        ≡ posted_with (selection remaining findings) body
  review_payload-selection remaining findings body =
      ap (λ l. posted_with l body) (select_findings-selection remaining findings)

  -- However a call ends, it has sent one request: a review with the given body and a comment for each
  -- publishable finding, the critical ones first, then the warnings, then the suggestions, each in the
  -- order given; or, near the rate limit, for each critical one alone.
  pub publish_findings-sent :
      (findings : List Finding) (body : String) (p : Publisher W)
      → (publish_findings client findings body p).1.sent
        ≡ p.sent ++ posted_with (selection p.rate_limit_remaining findings) body ∷ []
  unfolding publish_findings ◌>>=◌ post
  publish_findings-sent findings body p =
      let payload = review_payload client p.rate_limit_remaining findings body in
      let q = (post client payload p).1 in
      bind_cases
        (λ x.
          x.1.sent ≡ p.sent ++ posted_with (selection p.rate_limit_remaining findings) body ∷ [])
        (post client payload) (on_response client) p
        (λ e h.
          ap (λ x. p.sent ++ x ∷ [])
            (review_payload-selection p.rate_limit_remaining findings body))
        (λ response h.
          on_response-sent response q
          ∙ ap (λ x. p.sent ++ x ∷ [])
              (review_payload-selection p.rate_limit_remaining findings body))

  -- What an error of the rate limit says, of the publisher before the call and after it.
  pub record NearLimit (findings : List Finding) (body : String) (before after : Publisher W)
      : Type 0 where
    pub response : Response J
    pub answered :
        (client.post
          (posted_with (selection before.rate_limit_remaining findings) body)
          before.world).0
        ≡ some response
    pub success : is_success response.status ≡ true
    pub next :
        (more : List Finding) (text : String)
        → (publish_findings client more text after).1.sent
          ≡ after.sent ++ posted_with (of_severity critical (filter is_publishable more)) text ∷ []

  near-next :
      (p : Publisher W)
      → near_rate_limit p.rate_limit_remaining ≡ true
      → (more : List Finding) (text : String)
      → (publish_findings client more text p).1.sent
        ≡ p.sent ++ posted_with (of_severity critical (filter is_publishable more)) text ∷ []
  near-next p n more text = publish_findings-sent more text p ∙ rw n refl

  -- A call that raises RateLimitExceededError has posted its review: GitHub answered with a status of
  -- success. The call after it posts the critical findings alone.
  pub publish_findings-NearLimit :
      (findings : List Finding) (body : String) (p : Publisher W)
      → (publish_findings client findings body p).0 ≡ err rate_limit_exceeded
      → NearLimit findings body p (publish_findings client findings body p).1
  unfolding publish_findings ◌>>=◌ post
  publish_findings-NearLimit findings body p h =
      let payload = review_payload client p.rate_limit_remaining findings body in
      let q = (post client payload p).1 in
      elim (Option-cases (client.post payload p.world).0) [
        | inl e ↦ absurd (ground (arith, rw e at h))
        | inr (response, e) ↦
            let limit = on_response-Limited response q (rw e at h) in
            rw e (record {
              response = response;
              answered = rw (sym (review_payload-selection p.rate_limit_remaining findings body)) e;
              success = limit.0;
              next = near-next (on_response client response q).1 limit.1;
            })
      ]
