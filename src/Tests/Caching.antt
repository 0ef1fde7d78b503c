-- ===== src/Tests/Caching.antt =====
-- Runs of the caches: identifiers as keys, numbers as values.
use shooting_star.Base.{
  ℕ, ◌≤◌, Option, none, some, List, [], ◌∷◌, ◌≡◌, refl, arith, Attempt, returned, thrown,
  if◌then◌else◌, ◌==◌,
}
use shooting_star.Base.Int.{ℤ, pos}
use shooting_star.Cache.Keyed.{nat_key, find}
use shooting_star.Cache.Lru.{LruCache, get, put, evict, construct, size}
use shooting_star.Cache.Lru.Recency.{recent}
use shooting_star.Cache.Lru.Nodes.{locate}
use shooting_star.Cache.Lru.Linking.{WellFormed, construct-WellFormed}
use shooting_star.Cache.Lru.Refinement.{put-WellFormed}
use shooting_star.Cache.Lru.History.{Call, getting, putting, run, run-refines}
use shooting_star.Cache.Stores.{Request, CachingStore, read_through, serve, find_by_item_ids}
use shooting_star.Ranking.Scoring.{ItemIndexEntry}
use shooting_star.Cache.Stores.Freshness.{IsFresh}
use shooting_star.Cache.Stores.Histories.{Among, new_store, read_through-IsFresh}
use shooting_star.Cache.Stores.Batch.{find_by_item_ids-uncached}
use shooting_star.Cache.Lru.Laws.{answer, get-put, put-evicts}

abbrev calls : List (Call ℕ ℕ)
calls =
    putting 0 1 10
    ∷ putting 1 2 20
    ∷ getting 2 1
    ∷ putting 3 3 30
    ∷ getting 4 2
    ∷ getting 4 1
    ∷ getting 9 1
    ∷ []

-- Key 2 has been evicted for key 3, since key 1 was used after it; key 1 expires at time 5.
calls-run :
    (after : LruCache ℕ ℕ) × (run calls (construct 2 (pos 5))
      ≡ some (some 10 ∷ none ∷ some 10 ∷ none ∷ [], after))
    × (recent after ≡ (3, (30, 8)) ∷ [])
unfolding run get put evict nat_key
calls-run = (_, refl, refl)

run-refines_example :
    (after : LruCache ℕ ℕ) × (run calls (construct 2 (pos 5))
      ≡ some (some 10 ∷ none ∷ some 10 ∷ none ∷ [], after))
    × size after ≤ 2
    × ((k : ℕ) → find k after.index ≡ locate k after.entries)
unfolding nat_key
run-refines_example = run-refines 2 (pos 5) calls

abbrev empty : LruCache ℕ ℕ
empty = construct 1 (pos 5)

-- A cache for one entry, with key 1 in it.
abbrev full : LruCache ℕ ℕ
full = record {
  capacity = 1;
  ttl = pos 5;
  entries = (0, record { key = 1; value = 10; expires_at = 5 }) ∷ [];
  index = (1, 0) ∷ [];
  next_address = 1;
}

put-full : put 0 1 10 empty ≡ some full
unfolding put evict nat_key
put-full = refl

full-WellFormed : WellFormed full
full-WellFormed = put-WellFormed 0 1 10 empty full (construct-WellFormed 1 (pos 5)) put-full

get-put_example : answer (get 4 1 full) ≡ some (some 10)
get-put_example =
    get-put 0 4 1 10 empty full (construct-WellFormed 1 (pos 5)) (omega arith) refl put-full

-- The same cache with room for a second entry.
abbrev roomy : LruCache ℕ ℕ
roomy = record full { capacity = 2 }

abbrev both : LruCache ℕ ℕ
both = record {
  capacity = 2;
  ttl = pos 5;
  entries =
      (1, record { key = 2; value = 20; expires_at = 6 })
      ∷ (0, record { key = 1; value = 10; expires_at = 5 })
      ∷ [];
  index = (2, 1) ∷ (1, 0) ∷ [];
  next_address = 2;
}

put-roomy : put 0 1 10 (construct 2 (pos 5)) ≡ some roomy
unfolding put evict nat_key
put-roomy = refl

put-both : put 1 2 20 roomy ≡ some both
unfolding put evict nat_key
put-both = refl

roomy-WellFormed : WellFormed roomy
roomy-WellFormed =
    put-WellFormed 0 1 10 (construct 2 (pos 5)) roomy (construct-WellFormed 2 (pos 5)) put-roomy

abbrev replaced : LruCache ℕ ℕ
replaced = record {
  capacity = 1;
  ttl = pos 5;
  entries = (1, record { key = 2; value = 20; expires_at = 6 }) ∷ [];
  index = (2, 1) ∷ [];
  next_address = 2;
}

put-replaced : put 1 2 20 full ≡ some replaced
unfolding put evict nat_key
put-replaced = refl

put-evicts_example : recent replaced ≡ (2, (20, 6)) ∷ []
unfolding nat_key
put-evicts_example =
    put-evicts 1 2 20 full replaced [] (1, (10, 5)) full-WellFormed refl refl refl refl put-replaced

abbrev at : ℕ → ℕ → Request ℕ
at time key = record { key = key; looked_up_at = time; asked_at = time; cached_at = time }

-- A store whose answer for a key is the time at which it is asked; it throws for key 0.
abbrev ticking : ℕ → ℕ → Attempt (Option ℕ)
ticking time key = if key == 0 then thrown "no such key" else returned (some time)

-- Within the expiry time the first answer comes back, then the store is asked again.
ticking-run :
    (s : CachingStore ℕ ℕ) × (serve
        (at 1 7 ∷ at 5 7 ∷ at 6 7 ∷ at 6 0 ∷ [])
        (new_store ticking 2 (pos 5))
      ≡ some (
        returned (some 1) ∷ returned (some 1) ∷ returned (some 6) ∷ thrown "no such key" ∷ [],
        s,
      ))
unfolding serve read_through get put evict nat_key
ticking-run = (_, refl)

read_through-IsFresh_example :
    (answers : List (Attempt (Option ℕ))) × (s : CachingStore ℕ ℕ) × (reply : Attempt (Option ℕ))
    × (after : CachingStore ℕ ℕ) × (serve (at 1 7 ∷ []) (new_store ticking 2 (pos 5))
        ≡ some (answers, s))
    × (read_through (at 5 7) s ≡ some (reply, after))
    × IsFresh ticking (pos 5) (Among (at 1 7 ∷ [])) (at 5 7) reply
read_through-IsFresh_example = read_through-IsFresh ticking 2 (pos 5) (at 1 7 ∷ []) (at 5 7)

abbrev entry : ItemIndexEntry ℤ
entry = record {
  item_id = 1;
  title = "One";
  year = pos 1999;
  genres = [];
  top_tags = [];
  rating = record { avg = pos 4000; count = pos 12 };
}

-- An index that has item 1 only.
abbrev item_index : ℕ → Attempt (Option (ItemIndexEntry ℤ))
item_index item_id = if item_id == 1 then returned (some entry) else returned none

find_by_item_ids-uncached_example :
    (answers : List (Attempt (Option (ItemIndexEntry ℤ)))) × (s after : CachingStore ℕ
      (ItemIndexEntry ℤ))
    × (serve (at 1 1 ∷ []) (new_store (λ t. item_index) 2 (pos 5)) ≡ some (answers, s))
    × (find_by_item_ids (at 2 1 ∷ at 2 4 ∷ []) s ≡ some (returned (some entry ∷ none ∷ []), after))
find_by_item_ids-uncached_example =
    find_by_item_ids-uncached item_index (pos 5) 2 (at 1 1 ∷ []) (at 2 1 ∷ at 2 4 ∷ [])
