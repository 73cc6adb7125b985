-- ===== src/Examples/LimiterRuns.antt =====
-- src/services/RateLimiter.ts: two clients at a limit of two requests.
use kovael.Common.{
  ℕ, ◌+◌, ◌*◌, ◌-◌, ◌≤◌, ◌≡◌, refl, String, true, false, some, none, ◌||◌, str_eq, if◌then◌else◌,
  trim, after_prefix, List, [], ◌∷◌, arith,
}
use kovael.Table.{get, set, delete}
use kovael.Limiter.Client.{single, several, client_key}
use kovael.Limiter.{Config, Limiter, create, consume, run, touch, refill, spend}
use kovael.Limiter.Bounds.{create-run-IsBounded, IsBounded}
use kovael.Limiter.Rate.{paid-le, paid, consume_retry}

abbrev small : Config
small = record { capacity = 2; refill_per_sec = 1000; max_entries = 2 }

-- At time 100 one client has a token left and the other has none.
abbrev busy : Limiter
busy = record {
  cfg = small;
  buckets =
      ("a", record { tokens = 1_000_000; last_refill_ms = 100 })
      ∷ ("b", record { tokens = 0; last_refill_ms = 100 })
      ∷ [];
}

abbrev requests : List (String × ℕ)
requests = ("a", 150) ∷ ("b", 200) ∷ ("a", 600) ∷ ("a", 1100) ∷ []

paid-le_example : paid "a" (run busy requests).1 ≤ 1_000_000 + (1100 - 100) * 1000
paid-le_example =
    paid-le requests busy "a" (record { tokens = 1_000_000; last_refill_ms = 100 }) 1100
      (unfold get in refl) (omega arith)
      (unfold get in
        (
          (refl, omega arith),
          ((refl, omega arith), ((refl, omega arith), ((refl, omega arith), tt))),
        ))

-- A tenth of a request in a second, as a client is told to come back after ten seconds.
abbrev slow : Limiter
slow = record {
  cfg = record { capacity = 1; refill_per_sec = 100; max_entries = 2 };
  buckets = ("b", record { tokens = 0; last_refill_ms = 100 }) ∷ [];
}

ten_seconds : (consume slow "b" 200).1.retry_after_s ≡ 10
unfolding consume touch get set delete refill spend
ten_seconds = refl

consume_retry_example : (consume (consume slow "b" 200).0 "b" 10_200).1.allowed ≡ true
consume_retry_example =
    consume_retry slow "b" (record { tokens = 0; last_refill_ms = 100 }) 200 10_200 (omega arith)
      (omega arith) (unfold get in refl) (omega arith)
      (unfold consume touch get set delete refill spend in refl)
      (unfold consume touch get set delete refill spend in omega arith)

create-run-IsBounded_example :
    IsBounded (run (record { cfg = small; buckets = [] }) (("c", 1) ∷ ("d", 2) ∷ ("e", 3) ∷ [])).0
create-run-IsBounded_example =
    create-run-IsBounded small (("c", 1) ∷ ("d", 2) ∷ ("e", 3) ∷ [])
      (record { cfg = small; buckets = [] }) (unfold create in refl)

-- A reader of addresses that knows two of version 4 and one of version 6.
abbrev known_ip : String → ℕ
known_ip s =
    if str_eq s "1.2.3.4" || str_eq s "5.6.7.8"
    then 4
    else if str_eq s "::ffff:1.2.3.4"
    then 6
    else 0

-- The first address that a trusted proxy names, and not one that only the client names.
proxied :
    client_key known_ip true
      (record { forwarded = single " 5.6.7.8 , 9.9.9.9"; remote_address = some "1.2.3.4" })
    ≡ "5.6.7.8"
unfolding client_key trim after_prefix
proxied = refl

spoofed :
    client_key known_ip false
      (record { forwarded = single "5.6.7.8"; remote_address = some "::ffff:1.2.3.4" })
    ≡ "1.2.3.4"
unfolding client_key after_prefix
spoofed = refl

-- An identifier that is no address is passed over.
anonymous :
    client_key known_ip true (record { forwarded = several ("_anon" ∷ []); remote_address = none })
    ≡ "unknown"
unfolding client_key trim
anonymous = refl
