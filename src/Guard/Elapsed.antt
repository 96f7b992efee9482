-- ===== src/Guard/Elapsed.antt =====
-- How long a check of the SHA guard may take.
use kenjutsu.Base.{
  ℕ, zero, suc, ◌≤◌, ◌+◌, ◌-◌, ◌*◌, ◌^◌, String, Option, none, some, arith, ltb, if◌then◌else◌,
}
use kenjutsu.Dict
use kenjutsu.Guard.{
  after_round_cases, PrRef, Entry, Reply, response, network_error, other_error, Client, State,
  cache_key, sent_etag, set_cached, on_ok, evict_cached, on_not_modified, on_reply, request,
  attempts, delayed, check_sha_current, exit_guard, max_retries, retry_base_delay,
}
use kenjutsu.Guard.Cache.{check_cases, after}

-- The pause after a round that failed; there is none after the last.
pause : ℕ → ℕ
pause attempt = if ltb attempt (max_retries - 1) then retry_base_delay * 2 ^ attempt else 0

module _ {W : Type 0} (client : Client W) (pr : PrRef) where
  module _ (elapsed : W → ℕ) (timeout : ℕ)
      (answers : (p : PrRef) (e : Option String) (w : W)
        → elapsed (client.get p e w).1 ≤ elapsed w + timeout)
      (wakes : (n : ℕ) (w : W) → elapsed (client.sleep n w) ≤ elapsed w + n) where
    -- What the rounds may take that are left.
    budget : ℕ → ℕ → ℕ
    budget zero attempt = 0
    budget (suc left) attempt = timeout + pause attempt + budget left (suc attempt)

    on_reply-elapsed :
        (old : Option Entry) (attempt : ℕ) (reply : Reply) (s : State W)
        → elapsed (after (on_reply client pr old attempt reply s)).world
          ≤ elapsed s.world + pause attempt
    unfolding on_reply on_ok on_not_modified delayed set_cached pause
    on_reply-elapsed old attempt (response status none etag) s =
        ground (arith, wakes (retry_base_delay * 2 ^ attempt) s.world)
    on_reply-elapsed old attempt (response status (some sha) etag) s =
        ground (arith, wakes (retry_base_delay * 2 ^ attempt) s.world)
    on_reply-elapsed old attempt network_error s =
        ground (arith, wakes (retry_base_delay * 2 ^ attempt) s.world)
    on_reply-elapsed old attempt other_error s = omega arith

    request-elapsed :
        (old : Option Entry) (attempt : ℕ) (s : State W)
        → elapsed (after (request client pr old attempt s)).world
          ≤ elapsed s.world + (timeout + pause attempt)
    unfolding request
    request-elapsed old attempt s =
        let (reply, v) = client.get pr (sent_etag old) s.world in
        omega (
          arith,
          on_reply-elapsed old attempt reply (record s { world = v }),
          answers pr (sent_etag old) s.world,
        )

    attempts-elapsed :
        (old : Option Entry) (left attempt : ℕ) (s : State W)
        → elapsed (attempts client pr old left attempt s).1.world
          ≤ elapsed s.world + budget left attempt
    unfolding attempts budget
    attempts-elapsed old zero attempt s = omega arith
    attempts-elapsed old (suc left) attempt s =
        after_round_cases (λ c. elapsed c.1.world ≤ elapsed s.world + budget (suc left) attempt)
          (attempts client pr old left (suc attempt)) (request client pr old attempt s)
          (λ r e. ground (arith, request-elapsed old attempt s))
          λ t e.
            ground (arith, request-elapsed old attempt s, attempts-elapsed old left (suc attempt) t)

    check-elapsed :
        (s : State W)
        → elapsed (check_sha_current client pr s).1.world ≤ elapsed s.world + (3 * timeout + 3000)
    unfolding budget pause
    check-elapsed s =
        check_cases client pr (λ c. elapsed c.1.world ≤ elapsed s.world + (3 * timeout + 3000)) s
          (λ e h. omega arith)
          λ h. omega (arith, attempts-elapsed (Dict.get s.cache (cache_key pr)) max_retries 0 s)

    -- If a request takes at most `timeout` milliseconds, and a sleep no longer than it is asked to, a
    -- check takes at most the time of three requests and three seconds, whatever GitHub answers, and so
    -- does the check before publishing.
    pub guards_in_time :
        (s : State W)
        → (elapsed (check_sha_current client pr s).1.world ≤ elapsed s.world + (3 * timeout + 3000))
          × (elapsed (exit_guard client pr s).1.world ≤ elapsed s.world + (3 * timeout + 3000))
    unfolding exit_guard evict_cached
    guards_in_time s = (check-elapsed s, check-elapsed (evict_cached client pr s))
