-- ===== src/Cache/Lru/Linking.antt =====
-- What it means for the list and the index of LruCache to belong together, and the changes of the list
-- that keep it so.
use shooting_star.Base.{ℕ, ◌≤◌, none, some, List, ◌∷◌, length, ◌≡◌, refl, sym, ap, arith, ◌∙◌}
use shooting_star.Base.Int.{ℤ}
use shooting_star.Cache.Keyed.{
  Key, nat_key, find, erase, assign, find-erase, find-erase_same, erase-DistinctKeys,
}
use shooting_star.Cache.Lru.{Entry, LruCache, construct}
use shooting_star.Cache.Lru.Recency.{contents}
use shooting_star.Cache.Lru.Nodes.{locate, locate-none, Target, target, locate-erase}
use shooting_star.Cache.Lru.Eviction.{Linked}

module _ {K V : Type 0} ⦃q : Key K⦄ where
  -- The index and the list belong together, the allocator's next address is free, and the cache is
  -- within its capacity.
  pub record WellFormed (c : LruCache K V) : Type 0 where
    pub linked : Linked c.entries c.index
    pub unused : (a : ℕ) → c.next_address ≤ a → find a c.entries ≡ none
    pub within : length c.entries ≤ c.capacity

  pub construct-WellFormed :
      (capacity : ℕ) (ttl : ℤ) → WellFormed (construct {K = K} {V = V} capacity ttl)
  construct-WellFormed capacity ttl = record {
    linked = record {
      agrees = λ k. refl;
      index_distinct = tt;
      addresses_distinct = tt;
      keys_distinct = tt;
    };
    unused = λ a h. refl;
    within = omega arith;
  }

  pub front-Linked :
      (k : K) (a : ℕ) (e : Entry K V) (es : List (ℕ × Entry K V)) (index : List (K × ℕ))
      → Linked es index
      → locate k es ≡ some a
      → e.key ≡ k
      → Linked ((a, e) ∷ erase a es) index
  front-Linked k a e es index l h p = record {
    agrees = λ j. ground (
      arith,
      l.agrees j,
      h,
      q.same_iff j k,
      ap (q.same j) p,
      locate-erase j k a es l.addresses_distinct l.keys_distinct h,
    );
    index_distinct = l.index_distinct;
    addresses_distinct =
        (find-erase_same a es l.addresses_distinct, erase-DistinctKeys a es l.addresses_distinct);
    keys_distinct =
        let t = target k a es l.addresses_distinct h in
        (
          rw (p, t.rest) (find-erase_same k (contents es) l.keys_distinct),
          rw t.rest (erase-DistinctKeys k (contents es) l.keys_distinct),
        );
  }

  pub drop-Linked :
      (k : K) (a : ℕ) (es : List (ℕ × Entry K V)) (index : List (K × ℕ))
      → Linked es index
      → locate k es ≡ some a
      → Linked (erase a es) (erase k index)
  drop-Linked k a es index l h = record {
    agrees = λ j. ground (
      arith,
      l.agrees j,
      find-erase j k index l.index_distinct,
      locate-erase j k a es l.addresses_distinct l.keys_distinct h,
    );
    index_distinct = erase-DistinctKeys k index l.index_distinct;
    addresses_distinct = erase-DistinctKeys a es l.addresses_distinct;
    keys_distinct =
        rw (Target.rest (target k a es l.addresses_distinct h))
          (erase-DistinctKeys k (contents es) l.keys_distinct);
  }

  pub push-Linked :
      (a : ℕ) (e : Entry K V) (es : List (ℕ × Entry K V)) (index : List (K × ℕ))
      → Linked es index
      → find e.key index ≡ none
      → find a es ≡ none
      → Linked ((a, e) ∷ es) (assign e.key a index)
  push-Linked a e es index l h u = record {
    agrees = λ j. ground (arith, l.agrees j, find-erase j e.key index l.index_distinct);
    index_distinct = (
      find-erase_same e.key index l.index_distinct,
      erase-DistinctKeys e.key index l.index_distinct,
    );
    addresses_distinct = (u, l.addresses_distinct);
    keys_distinct = (locate-none e.key es (sym (l.agrees e.key) ∙ h), l.keys_distinct);
  }
