-- ===== src/Cache/Lru/Recency.antt =====
-- What the cache of lru_cache.h is meant to be: a list of keys, the most recently used first, each with
-- its value and the time from which it no longer counts.
use shooting_star.Base.{
  ℕ, ◌+◌, Option, none, some, List, [], ◌∷◌, ◌==◌, ◌||◌, leb, if◌then◌else◌, take,
}
use shooting_star.Base.Int.{ℤ, pos, leb_ℤ, pos_part}
use shooting_star.Cache.Keyed.{Key, find, erase}
use shooting_star.Cache.Lru.{Entry, LruCache}

module _ {K V : Type 0} where
  abbrev pub contents : List (ℕ × Entry K V) → List (K × (V × ℕ))
  contents [] = []
  contents ((a, e) ∷ rest) = (e.key, (e.value, e.expires_at)) ∷ contents rest

  abbrev pub recent : LruCache K V → List (K × (V × ℕ))
  recent c = contents c.entries

module _ {K V : Type 0} ⦃q : Key K⦄ where
  -- The value of a key, if it is there and still counts.
  abbrev pub current : ℕ → K → List (K × (V × ℕ)) → Option V
  current now key m = elim (find key m) [
    | none ↦ none
    | some x ↦ if leb x.1 now then none else some x.0
  ]

  -- A look-up moves the key to the front, or drops it if it no longer counts.
  abbrev pub looked_up : ℕ → K → List (K × (V × ℕ)) → List (K × (V × ℕ))
  looked_up now key m = elim (find key m) [
    | none ↦ m
    | some x ↦ if leb x.1 now then erase key m else ((key, x) ∷ erase key m)
  ]

  -- A write puts the key in front and drops what is beyond the capacity.
  abbrev pub written : ℕ → ℤ → ℕ → K → V → List (K × (V × ℕ)) → List (K × (V × ℕ))
  written capacity ttl now key value m =
      if capacity == 0 || leb_ℤ ttl (pos 0)
      then m
      else take capacity ((key, (value, now + pos_part ttl)) ∷ erase key m)
