-- ===== src/Webhook/Stored.antt =====
-- What kenjutsu/server/webhook.py knows of a request that passed its checks.
use kenjutsu.Base.{
  String, true, false, ◌≡◌, refl, some, ◌==◌, string_eq, Option-cases, Bool-cases, inl, inr, ◌⊎◌,
  subst,
}
use kenjutsu.Webhook.{
  Builtins, Loaded, loaded, decode_error, other_error, Request, Delivery, Response, Outcome, passed,
  refused, verify_signature, filled, or_empty, parsed, authenticated, checked,
}
use kenjutsu.Webhook.Payload.{Json}

-- The request has a valid signature, and is about this event, delivery and payload.
pub record Genuine (b : Builtins) (r : Request) (event delivery : String) (payload : Json)
    : Type 0 where
  pub signed : verify_signature b r.body (or_empty r.signature) ≡ some true
  pub configured : (b.secret == "") ≡ false
  pub event_header : filled r.event ≡ some event
  pub delivery_header : filled r.delivery ≡ some delivery
  pub body : b.loads r.body ≡ loaded payload

abbrev GenuineDelivery : Builtins → Request → Delivery → Type 0
GenuineDelivery b r d = Genuine b r d.event_type d.delivery_id d.payload

abbrev Passes : {A : Type 0} → (A → Type 0) → Outcome A → Type 0
Passes P (passed a) = P a
Passes P (refused response) = Unit {0}

pub Outcome-cases :
    {A : Type 0} (o : Outcome A)
    → ((a : A) × (o ≡ passed a)) ⊎ ((response : Response) × (o ≡ refused response))
Outcome-cases (passed a) = inl (a, refl)
Outcome-cases (refused r) = inr (r, refl)

pub Loaded-cases :
    (l : Loaded)
    → ((payload : Json) × (l ≡ loaded payload)) ⊎ (l ≡ decode_error) ⊎ (l ≡ other_error)
Loaded-cases (loaded payload) = inl (payload, refl)
Loaded-cases decode_error = inr (inl refl)
Loaded-cases other_error = inr (inr refl)

parsed-Genuine :
    (b : Builtins) (r : Request) (event delivery : String)
    → verify_signature b r.body (or_empty r.signature) ≡ some true
    → (b.secret == "") ≡ false
    → filled r.event ≡ some event
    → filled r.delivery ≡ some delivery
    → Passes (GenuineDelivery b r) (parsed b event delivery r.body)
unfolding parsed
parsed-Genuine b r event delivery s c e f = elim (Loaded-cases (b.loads r.body)) [
  | inl (payload, l) ↦
      rw (l, parsed)
        (record { signed = s; configured = c; event_header = e; delivery_header = f; body = l })
  | inr (inl l) ↦ rw (l, parsed) tt
  | inr (inr l) ↦ rw (l, parsed) tt
]

authenticated-Genuine :
    (b : Builtins) (r : Request) (event delivery : String)
    → filled r.event ≡ some event
    → filled r.delivery ≡ some delivery
    → Passes (GenuineDelivery b r) (authenticated b r event delivery)
unfolding authenticated
authenticated-Genuine b r event delivery e f = elim (Bool-cases (b.secret == "")) [
  | inl y ↦ rw y tt
  | inr c ↦ rw c (elim (Option-cases (verify_signature b r.body (or_empty r.signature))) [
    | inl s ↦ rw (s, authenticated) tt
    | inr (true, s) ↦ rw (s, authenticated) (parsed-Genuine b r event delivery s c e f)
    | inr (false, s) ↦ rw (s, authenticated) tt
  ])
]

checked-Passes : (b : Builtins) (r : Request) → Passes (GenuineDelivery b r) (checked b r)
unfolding checked
checked-Passes b r = elim (Option-cases (filled r.event)) [
  | inl e ↦ rw (e, checked) tt
  | inr (event, e) ↦
      rw (e, checked)
        (elim (Option-cases (filled r.delivery)) [
          | inl f ↦ rw (f, checked) tt
          | inr (delivery, f) ↦ rw (f, checked) (authenticated-Genuine b r event delivery e f)
        ])
]

pub checked-Genuine :
    (b : Builtins) (r : Request) (d : Delivery) → checked b r ≡ passed d → GenuineDelivery b r d
checked-Genuine b r d h = subst (Passes (GenuineDelivery b r)) h (checked-Passes b r)
