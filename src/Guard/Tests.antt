-- ===== src/Guard/Tests.antt =====
-- Checks against clients that answer, that are down, and that see a push.
use kenjutsu.Base.{
  ℕ, ◌+◌, ◌*◌, ◌≤◌, none, some, ◌≡◌, refl, ◌⊎◌, inr, arith, ap, pair_eq, string_eq, nat_eq,
}
use kenjutsu.Dict
use kenjutsu.Dict.{get-empty}
use kenjutsu.Guard.{
  current, api_error, PrRef, Reply, response, Client, State, cache_key, get_cached, fresh_entry,
  check_sha_current, exit_guard, attempts, request, on_reply, on_ok, delayed, set_cached,
}
use kenjutsu.Guard.Fresh.{Seen, exit_guard-attempts, exit_guard_fresh}
use kenjutsu.Guard.Outage.{check_while_down}
use kenjutsu.Guard.Elapsed.{guards_in_time}

abbrev pr : PrRef
pr = record { repo_owner = "o"; repo_name = "r"; pr_number = 7; expected_head_sha = "aaa" }

-- The clock, and the number of requests so far.
abbrev World : Type 0
World = ℕ × ℕ

abbrev answering : Reply → Client World
answering reply = record {
  get = λ pr etag w. (reply, (w.0 + 100, w.1 + 1));
  sleep = λ n w. (w.0 + n, w.1);
  now = λ w. w.0;
}

abbrev up : Client World
up = answering (response 200 (some "aaa") (some "e1"))

abbrev down : Client World
down = answering (response 503 none none)

abbrev start : State World
start = record { cache = Dict.empty; world = (0, 0) }

start_uncached : (c : Client World) → get_cached c pr start ≡ none
unfolding get_cached fresh_entry
start_uncached c = rw (get-empty (cache_key pr), fresh_entry)

exit_current : (exit_guard up pr start).0 ≡ some current
unfolding attempts request on_reply on_ok
exit_current = ap (λ c. c.0) (exit_guard-attempts up pr start)

retried_three_times : (attempts down pr none 3 0 start).1.world ≡ (3300, 3)
unfolding attempts request on_reply delayed
retried_three_times = refl

exit_guard_fresh_example : (current ≡ api_error) ⊎ Seen up pr current
exit_guard_fresh_example = exit_guard_fresh up pr start current exit_current

guards_in_time_example :
    ((check_sha_current down pr start).1.world.0 ≤ start.world.0 + (3 * 100 + 3000))
    × ((exit_guard down pr start).1.world.0 ≤ start.world.0 + (3 * 100 + 3000))
guards_in_time_example =
    guards_in_time down pr (λ w. w.0) 100 (λ p e w. omega arith) (λ n w. omega arith) start

check_while_down_example :
    ((check_sha_current down pr start).0 ≡ some api_error)
    × ((check_sha_current down pr start).1.cache ≡ start.cache)
check_while_down_example =
    check_while_down down pr start (λ e w. inr (503, none, none, omega arith, refl))
      (start_uncached down)

checked :
    check_sha_current up pr start
    ≡ (some current, set_cached up pr "aaa" (some "e1") (record start { world = (100, 1) }))
unfolding check_sha_current attempts request on_reply on_ok set_cached
checked = rw (start_uncached up, check_sha_current)
