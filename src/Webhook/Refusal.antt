-- ===== src/Webhook/Refusal.antt =====
-- kenjutsu/server/webhook.py: the checks never answer with status 200.
use kenjutsu.Base.{
  String, true, false, ◌≡◌, ◌≢◌, List, ◌==◌, string_eq, Option-cases, Bool-cases, inl, inr, subst,
}
use kenjutsu.Webhook.{
  Builtins, Request, Installation, Response, answer, Outcome, passed, refused, verify_signature,
  filled, or_empty, parsed, authenticated, checked, find_installation, known, installed, resolved,
}
use kenjutsu.Webhook.Payload.{Json, null, boolean, number, text, array, object, get_nested}
use kenjutsu.Webhook.Stored.{Loaded-cases}

abbrev IsRefusal : Response → Type 0
IsRefusal (answer status) = ⊥
IsRefusal _ = Unit {0}

abbrev Refuses : {A : Type 0} → Outcome A → Type 0
Refuses (passed a) = Unit {0}
Refuses (refused response) = IsRefusal response

parsed-Refuses :
    (b : Builtins) (event delivery body : String) → Refuses (parsed b event delivery body)
unfolding parsed
parsed-Refuses b event delivery body = elim (Loaded-cases (b.loads body)) [
  | inl (payload, l) ↦ rw (l, parsed) tt
  | inr (inl l) ↦ rw (l, parsed) tt
  | inr (inr l) ↦ rw (l, parsed) tt
]

authenticated-Refuses :
    (b : Builtins) (r : Request) (event delivery : String)
    → Refuses (authenticated b r event delivery)
unfolding authenticated
authenticated-Refuses b r event delivery = elim (Bool-cases (b.secret == "")) [
  | inl y ↦ rw y tt
  | inr c ↦ rw c (elim (Option-cases (verify_signature b r.body (or_empty r.signature))) [
    | inl s ↦ rw (s, authenticated) tt
    | inr (true, s) ↦ rw (s, authenticated) (parsed-Refuses b event delivery r.body)
    | inr (false, s) ↦ rw (s, authenticated) tt
  ])
]

checked-Refuses : (b : Builtins) (r : Request) → Refuses (checked b r)
unfolding checked
checked-Refuses b r = elim (Option-cases (filled r.event)) [
  | inl e ↦ rw (e, checked) tt
  | inr (event, e) ↦
      rw (e, checked)
        (elim (Option-cases (filled r.delivery)) [
          | inl f ↦ rw (f, checked) tt
          | inr (delivery, f) ↦ rw (f, checked) (authenticated-Refuses b r event delivery)
        ])
]

known-Refuses :
    (b : Builtins) (installations : List Installation) (id : Json)
    → Refuses (known b installations id)
unfolding known
known-Refuses b installations id = elim (Option-cases (b.bigint id)) [
  | inl e ↦ rw (e, known) tt
  | inr (n, e) ↦
      rw (e, known)
        (elim (Option-cases (find_installation installations n)) [
          | inl f ↦ rw (f, known) tt
          | inr (i, f) ↦ rw (f, known) tt
        ])
]

installed-Refuses :
    (b : Builtins) (installations : List Installation) (id : Json)
    → Refuses (installed b installations id)
unfolding installed
installed-Refuses b installations null = tt
installed-Refuses b installations (boolean x) = known-Refuses b installations (boolean x)
installed-Refuses b installations (number x) = known-Refuses b installations (number x)
installed-Refuses b installations (text x) = known-Refuses b installations (text x)
installed-Refuses b installations (array x) = known-Refuses b installations (array x)
installed-Refuses b installations (object x) = known-Refuses b installations (object x)

resolved-Refuses :
    (b : Builtins) (installations : List Installation) (payload : Json)
    → Refuses (resolved b installations payload)
unfolding resolved
resolved-Refuses b installations payload =
    elim (Option-cases (get_nested payload "installation" "id" null)) [
      | inl e ↦ rw (e, resolved) tt
      | inr (id, e) ↦ rw (e, resolved) (installed-Refuses b installations id)
    ]

not_answer : (response : Response) (status : String) → IsRefusal response → response ≢ answer status
not_answer response status w h = absurd (subst IsRefusal h w)

-- What the checks refuse is not answered with status 200.
pub checked-no_answer :
    (b : Builtins) (r : Request) (response : Response) (status : String)
    → checked b r ≡ refused response
    → response ≢ answer status
checked-no_answer b r response status h =
    not_answer response status (subst Refuses h (checked-Refuses b r))

pub resolved-no_answer :
    (b : Builtins) (installations : List Installation) (payload : Json) (response : Response)
    (status : String)
    → resolved b installations payload ≡ refused response
    → response ≢ answer status
resolved-no_answer b installations payload response status h =
    not_answer response status (subst Refuses h (resolved-Refuses b installations payload))
