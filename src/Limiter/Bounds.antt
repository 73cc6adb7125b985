-- ===== src/Limiter/Bounds.antt =====
-- src/services/RateLimiter.ts: the memory and the tokens are bounded.
use kovael.Common.{
  ℕ, ◌*◌, ◌≤◌, ◌<◌, ◌≡◌, String, true, none, List, [], ◌∷◌, str_eq_self, arith, Option-cases, inl,
  inr,
}
use kovael.Table.{Table, get, delete, size, has}
use kovael.Table.Laws.{
  Unique, get-set, get-delete, set-Unique, delete-Unique, size-set, size-delete, delete_first,
}
use kovael.Table.Entries.{AllEntries, AllEntries-get, AllEntries-set, AllEntries-delete}
use kovael.Limiter.{
  Config, Bucket, Limiter, fresh, touch, refill, spend, consume, make_room, run, create, ok,
}

abbrev Full : Config → String → Bucket → Type 0
Full cfg key b = b.tokens ≤ cfg.capacity * 1_000_000

-- No more clients than configured are tracked, none twice, and no bucket is over its capacity.
pub record IsBounded (l : Limiter) : Type 0 where
  pub some_room : 1 ≤ l.cfg.max_entries
  pub unique : Unique l.buckets
  pub few : size l.buckets ≤ l.cfg.max_entries
  pub full : AllEntries (Full l.cfg) l.buckets

fresh-Full : (cfg : Config) (key : String) (now : ℕ) → Full cfg key (fresh cfg now)
unfolding fresh
fresh-Full cfg key now = omega arith

refill-Full :
    (cfg : Config) (key : String) (b : Bucket) (now : ℕ)
    → Full cfg key b
    → Full cfg key (refill cfg b now)
unfolding refill
refill-Full cfg key b now h = ground arith

spend-Full :
    (cfg : Config) (key : String) (b : Bucket) → Full cfg key b → Full cfg key (spend cfg b).0
unfolding spend
spend-Full cfg key b h = ground arith

make_room_bounds :
    (cfg : Config) (t : Table Bucket)
    → 1 ≤ cfg.max_entries
    → Unique t
    → size t ≤ cfg.max_entries
    → AllEntries (Full cfg) t
    → Unique (make_room cfg t)
      × (size (make_room cfg t) < cfg.max_entries)
      × AllEntries (Full cfg) (make_room cfg t)
unfolding make_room
make_room_bounds cfg [] h u few full = ground arith
make_room_bounds cfg ((k, b) ∷ t) h u few full = ground (arith, delete_first k b t u)

-- What `consume` needs of the table that `touch` leaves.
touch-IsBounded :
    (l : Limiter) (key : String) (now : ℕ)
    → IsBounded l
    → Full l.cfg key (touch l key now).1
      × IsBounded (record l { buckets = (touch l key now).0 })
      × (has key (touch l key now).0 ≡ true)
unfolding touch
touch-IsBounded l key now v = elim (Option-cases (get key l.buckets)) [
  | inr (b, e) ↦
      let t = delete key l.buckets in
      let gone : get key t ≡ none = ground (arith, get-delete key key l.buckets, str_eq_self key) in
      let full_b = AllEntries-get (Full l.cfg) key b l.buckets v.full e in
      rw (e, touch)
        (
          full_b,
          record {
            some_room = v.some_room;
            unique = set-Unique key b t (delete-Unique key l.buckets v.unique);
            few = ground (arith, v.few, size-set key b t, size-delete key l.buckets v.unique);
            full =
                AllEntries-set (Full l.cfg) key b t full_b
                  (AllEntries-delete (Full l.cfg) key l.buckets v.full);
          },
          ground (arith, get-set key key b t, str_eq_self key),
        )
  | inl e ↦
      let t = make_room l.cfg l.buckets in
      let (u, few, full) = make_room_bounds l.cfg l.buckets v.some_room v.unique v.few v.full in
      let b = fresh l.cfg now in
      let full_b : Full l.cfg key b = fresh-Full l.cfg key now in
      rw (e, touch)
        (
          full_b,
          record {
            some_room = v.some_room;
            unique = set-Unique key b t u;
            few = ground (arith, size-set key b t, few);
            full = AllEntries-set (Full l.cfg) key b t full_b full;
          },
          ground (arith, get-set key key b t, str_eq_self key),
        )
]

consume-IsBounded :
    (l : Limiter) (key : String) (now : ℕ) → IsBounded l → IsBounded (consume l key now).0
unfolding consume
consume-IsBounded l key now v =
    let (full_b, w, there) = touch-IsBounded l key now v in
    let t = (touch l key now).0 in
    let b = (spend l.cfg (refill l.cfg (touch l key now).1 now)).0 in
    record {
      some_room = v.some_room;
      unique = set-Unique key b t w.unique;
      few = ground (arith, size-set key b t, w.few);
      full =
          AllEntries-set (Full l.cfg) key b t
            (spend-Full l.cfg key _ (refill-Full l.cfg key _ now full_b)) w.full;
    }

run-IsBounded : (rs : List (String × ℕ)) (l : Limiter) → IsBounded l → IsBounded (run l rs).0
unfolding run
run-IsBounded [] l v = v
run-IsBounded ((key, now) ∷ rs) l v =
    run-IsBounded rs (consume l key now).0 (consume-IsBounded l key now v)

-- A limiter that was created never tracks more than `maxEntries` clients, whoever calls, and no
-- bucket holds more than the capacity.
pub create-run-IsBounded :
    (cfg : Config) (rs : List (String × ℕ)) (l : Limiter)
    → create cfg ≡ ok l
    → IsBounded (run l rs).0
unfolding create
create-run-IsBounded cfg rs l e = run-IsBounded rs l (ground arith)
