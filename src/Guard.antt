-- ===== src/Guard.antt =====
-- kenjutsu/pipeline/sha_guard.py: the check of a pull request's head SHA, with its cache and its
-- retries. Times are milliseconds of the monotonic clock.
pub mod Fresh
pub mod Cache
pub mod Outage
pub mod Memory
pub mod Elapsed
mod Tests
use kenjutsu.Base.{
  ◌≡◌, refl, ℕ, zero, suc, ◌+◌, ◌*◌, ◌^◌, String, Bool, true, false, Option, none, some, List, [],
  ◌∷◌, ◌&&◌, ◌||◌, not, ◌-◌, ltb, leb, if◌then◌else◌, Comparable, ◌==◌, string_eq, nat_eq, pair_eq,
}
use kenjutsu.Dict
use kenjutsu.Dict.{Dict}

abbrev pub max_retries : ℕ
max_retries = 3

abbrev pub retry_base_delay : ℕ
retry_base_delay = 1000

abbrev pub sha_cache_ttl : ℕ
sha_cache_ttl = 5000

pub data GuardResult : Type 0 where
  current stale api_error : GuardResult

pub record PrRef : Type 0 where
  pub repo_owner : String
  pub repo_name : String
  pub pr_number : ℕ
  pub expected_head_sha : String

abbrev pub Key : Type 0
Key = String × (String × ℕ)

pub record Entry : Type 0 where
  pub sha : String
  pub fetched_at : ℕ
  pub etag : Option String

-- What `client.get` comes back with: a response, with the status code, `head.sha` of the body if it
-- is there, and the ETag header; a timeout, connection or network error; any other exception.
pub data Reply : Type 0 where
  response : ℕ → Option String → Option String → Reply
  network_error : Reply
  other_error : Reply

-- The HTTP client and the clock, which are not the program's: over the state `W` of the world.
-- `get` takes the `If-None-Match` header that is sent, if any.
pub record Client (W : Type 0) : Type 0 where
  pub get : PrRef → Option String → W → Reply × W
  pub sleep : ℕ → W → W
  pub now : W → ℕ

pub record State (W : Type 0) : Type 0 where
  pub cache : Dict Key Entry
  pub world : W

abbrev pub cache_key : PrRef → Key
cache_key pr = (pr.repo_owner, (pr.repo_name, pr.pr_number))

abbrev pub verdict : PrRef → String → GuardResult
verdict pr sha = if sha == pr.expected_head_sha then current else stale

-- `if etag:` holds for a header that is there and not empty.
abbrev pub sent_etag : Option Entry → Option String
sent_etag none = none
sent_etag (some e) = elim e.etag [ none ↦ none | some t ↦ if t == "" then none else some t ]

-- A result of the guard, or `none` for an exception that the caller sees.
abbrev pub Checked : Type 0 → Type 0
Checked W = Option GuardResult × State W

-- What one answer of the client means: the call ends, or the loop goes on.
pub data Round (W : Type 0) : Type 0 where
  ends : Checked W → Round W
  again : State W → Round W

abbrev after_round : {W : Type 0} → (State W → Checked W) → Round W → Checked W
after_round loop (ends r) = r
after_round loop (again s) = loop s

after_round_cases {ℓ} :
    {W : Type 0} (P : Checked W → Type ℓ) (loop : State W → Checked W) (round : Round W)
    → ((r : Checked W) → round ≡ ends r → P r)
    → ((t : State W) → round ≡ again t → P (loop t))
    → P (after_round loop round)
after_round_cases P loop (ends r) h k = h r refl
after_round_cases P loop (again t) h k = k t refl

module _ {W : Type 0} (client : Client W) where
  fresh_entry : ℕ → Option Entry → Option Entry
  fresh_entry now none = none
  fresh_entry now (some e) = if ltb now (e.fetched_at + sha_cache_ttl) then some e else none

  pub get_cached : PrRef → State W → Option Entry
  get_cached pr s = fresh_entry (client.now s.world) (Dict.get s.cache (cache_key pr))

  pub set_cached : PrRef → String → Option String → State W → State W
  set_cached pr sha etag s = record s {
    cache =
        Dict.put s.cache (cache_key pr)
          (record { sha = sha; fetched_at = client.now s.world; etag = etag });
  }

  pub evict_cached : PrRef → State W → State W
  evict_cached pr s = record s { cache = Dict.remove s.cache (cache_key pr) }

  -- status 200; a body without `head.sha` raises `KeyError`
  on_ok : PrRef → Option String → Option String → State W → Checked W
  on_ok pr none etag s = (none, s)
  on_ok pr (some sha) etag s = (some (verdict pr sha), set_cached pr sha etag s)

  -- status 304
  on_not_modified : PrRef → Option Entry → State W → Checked W
  on_not_modified pr none s = (some api_error, s)
  on_not_modified pr (some old) s = (some (verdict pr old.sha), set_cached pr old.sha old.etag s)

  delayed : ℕ → State W → State W
  delayed attempt s = record s { world = client.sleep (retry_base_delay * 2 ^ attempt) s.world }

  on_reply : PrRef → Option Entry → ℕ → Reply → State W → Round W
  on_reply pr stale_entry attempt (response status sha etag) s =
      if status == 200
      then ends (on_ok pr sha etag s)
      else if status == 304
      then ends (on_not_modified pr stale_entry s)
      else if status == 403 || status == 429
      then ends (some api_error, s)
      else if leb 500 status && ltb attempt (max_retries - 1)
      then again (delayed attempt s)
      else ends (some api_error, s)
  on_reply pr stale_entry attempt network_error s =
      again (if ltb attempt (max_retries - 1) then delayed attempt s else s)
  on_reply pr stale_entry attempt other_error s = ends (none, s)

  -- The request of one round.
  pub request : PrRef → Option Entry → ℕ → State W → Round W
  unfolding on_reply
  request pr stale_entry attempt s =
      let (reply, w) = client.get pr (sent_etag stale_entry) s.world in
      on_reply pr stale_entry attempt reply (record s { world = w })

  -- `for attempt in range(_MAX_RETRIES)`: the rounds left, and the number of this one.
  pub attempts : PrRef → Option Entry → ℕ → ℕ → State W → Checked W
  attempts pr stale_entry zero attempt s = (some api_error, s)
  attempts pr stale_entry (suc left) attempt s =
      after_round (attempts pr stale_entry left (suc attempt)) (request pr stale_entry attempt s)

  pub check_sha_current : PrRef → State W → Checked W
  check_sha_current pr s = elim (get_cached pr s) [
    | some e ↦ (some (verdict pr e.sha), s)
    | none ↦ attempts pr (Dict.get s.cache (cache_key pr)) max_retries 0 s
  ]

  pub entry_guard : PrRef → State W → Checked W
  entry_guard pr s = check_sha_current pr s

  pub exit_guard : PrRef → State W → Checked W
  exit_guard pr s = check_sha_current pr (evict_cached pr s)
