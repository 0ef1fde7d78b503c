-- ===== src/Cache/Lru/Eviction.antt =====
-- The eviction loop of LruCache::Put: what it leaves in the list and in the index.
use shooting_star.Base.{
  ℕ, zero, suc, ◌+◌, ◌-◌, ◌≤◌, ◌<◌, Option, none, some, List, [], ◌∷◌, length, ltb, if◌then◌else◌,
  ◌≡◌, refl, sym, take, arith, ap, Bool-cases, Option-cases, inl, inr, ◌≢◌, take_of_length-le,
}
use shooting_star.Cache.Keyed.{
  Key, nat_key, find, erase, DistinctKeys, find-erase, erase-DistinctKeys,
}
use shooting_star.Cache.Lru.{Entry, pop_back, erase_back, evict}
use shooting_star.Cache.Lru.Recency.{contents}
use shooting_star.Cache.Lru.Nodes.{locate}

module _ {K V : Type 0} where
  length-pop_back : (es : List (ℕ × Entry K V)) → length (pop_back es) ≡ length es - 1
  length-pop_back [] = refl
  length-pop_back (n ∷ []) = refl
  length-pop_back (n ∷ m ∷ rest) = ground (arith, length-pop_back (m ∷ rest))

  pub length-contents : (es : List (ℕ × Entry K V)) → length (contents es) ≡ length es
  length-contents [] = refl
  length-contents ((a, e) ∷ rest) = ground (arith, length-contents rest)

  take-pop_back :
      (n : ℕ) (es : List (ℕ × Entry K V))
      → n < length es
      → take n (contents (pop_back es)) ≡ take n (contents es)
  take-pop_back zero es h = refl
  take-pop_back (suc n) [] h = refl
  take-pop_back (suc n) (m ∷ []) h = ground (arith, h)
  take-pop_back (suc n) ((a, e) ∷ k ∷ rest) h =
      ap (◌∷◌ (e.key, (e.value, e.expires_at))) (take-pop_back n (k ∷ rest) (omega arith))

module _ {K V : Type 0} ⦃q : Key K⦄ where
  find-pop_back-none :
      (a : ℕ) (es : List (ℕ × Entry K V)) → find a es ≡ none → find a (pop_back es) ≡ none
  find-pop_back-none a [] h = refl
  find-pop_back-none a (n ∷ []) h = refl
  find-pop_back-none a ((b, e) ∷ m ∷ rest) h = ground (arith, find-pop_back-none a (m ∷ rest))

  find-contents-pop_back-none :
      (k : K) (es : List (ℕ × Entry K V))
      → find k (contents es) ≡ none
      → find k (contents (pop_back es)) ≡ none
  find-contents-pop_back-none k [] h = refl
  find-contents-pop_back-none k (n ∷ []) h = refl
  find-contents-pop_back-none k ((b, e) ∷ m ∷ rest) h =
      ground (arith, find-contents-pop_back-none k (m ∷ rest))

  back_key : List (ℕ × Entry K V) → Option K
  back_key [] = none
  back_key ((a, e) ∷ []) = some e.key
  back_key (n ∷ m ∷ rest) = back_key (m ∷ rest)

  -- The index and the list belong together: the index leads each key to its node.
  pub record Linked (es : List (ℕ × Entry K V)) (index : List (K × ℕ)) : Type 0 where
    pub agrees : (k : K) → find k index ≡ locate k es
    pub index_distinct : DistinctKeys index
    pub addresses_distinct : DistinctKeys es
    pub keys_distinct : DistinctKeys (contents es)

  erase_back-none :
      (es : List (ℕ × Entry K V)) (index : List (K × ℕ))
      → back_key es ≡ none
      → erase_back es index ≡ index
  unfolding back_key
  erase_back-none [] index h = refl
  erase_back-none ((a, e) ∷ []) index h = cc
  erase_back-none (n ∷ m ∷ rest) index h = erase_back-none (m ∷ rest) index h

  erase_back-some :
      (k : K) (es : List (ℕ × Entry K V)) (index : List (K × ℕ))
      → back_key es ≡ some k
      → erase_back es index ≡ erase k index
  unfolding back_key
  erase_back-some k [] index h = cc
  erase_back-some k ((a, e) ∷ []) index h = ground (arith, h)
  erase_back-some k (n ∷ m ∷ rest) index h = erase_back-some k (m ∷ rest) index h

  pop_back-none : (es : List (ℕ × Entry K V)) → back_key es ≡ none → es ≡ []
  unfolding back_key
  pop_back-none [] h = refl
  pop_back-none ((a, e) ∷ []) h = cc
  pop_back-none (n ∷ m ∷ rest) h = cc (pop_back-none (m ∷ rest) h)

  back_key-found :
      (k : K) (es : List (ℕ × Entry K V)) → back_key es ≡ some k → find k (contents es) ≢ none
  unfolding back_key
  back_key-found k [] h = cc
  back_key-found k ((a, e) ∷ []) h = ground (arith, h, q.same_iff k e.key)
  back_key-found k ((a, e) ∷ m ∷ rest) h = ground (arith, back_key-found k (m ∷ rest) h)

  locate-pop_back :
      (j k : K) (es : List (ℕ × Entry K V))
      → DistinctKeys (contents es)
      → back_key es ≡ some k
      → locate j (pop_back es) ≡ (if q.same j k then none else locate j es)
  unfolding back_key
  locate-pop_back j k [] d h = cc
  locate-pop_back j k ((a, e) ∷ []) d h = ground (arith, h)
  locate-pop_back j k ((a, e) ∷ m ∷ rest) d h = ground (
    arith,
    locate-pop_back j k (m ∷ rest) d.1 h,
    q.same_iff j k,
    q.same_iff j e.key,
    back_key-found k (m ∷ rest) h,
  )

  pop_back-DistinctKeys : (es : List (ℕ × Entry K V)) → DistinctKeys es → DistinctKeys (pop_back es)
  pop_back-DistinctKeys [] d = tt
  pop_back-DistinctKeys (n ∷ []) d = tt
  pop_back-DistinctKeys ((a, e) ∷ m ∷ rest) d =
      (find-pop_back-none a (m ∷ rest) d.0, pop_back-DistinctKeys (m ∷ rest) d.1)

  contents-pop_back-DistinctKeys :
      (es : List (ℕ × Entry K V))
      → DistinctKeys (contents es)
      → DistinctKeys (contents (pop_back es))
  contents-pop_back-DistinctKeys [] d = tt
  contents-pop_back-DistinctKeys (n ∷ []) d = tt
  contents-pop_back-DistinctKeys ((a, e) ∷ m ∷ rest) d = (
    find-contents-pop_back-none e.key (m ∷ rest) d.0,
    contents-pop_back-DistinctKeys (m ∷ rest) d.1,
  )

  pop_back-agrees :
      (es : List (ℕ × Entry K V)) (index : List (K × ℕ))
      → Linked es index
      → (j : K) → find j (erase_back es index) ≡ locate j (pop_back es)
  pop_back-agrees es index l j = elim (Option-cases (back_key es)) [
    | inl e ↦ cc (
      erase_back-none es index e,
      pop_back-none es e,
      l.agrees j,
      ap pop_back (pop_back-none es e),
    )
    | inr (k, e) ↦
        rw
          (
            erase_back-some k es index e,
            find-erase j k index l.index_distinct,
            locate-pop_back j k es l.keys_distinct e,
            l.agrees j,
          )
          refl
  ]

  erase_back-DistinctKeys :
      (es : List (ℕ × Entry K V)) (index : List (K × ℕ))
      → DistinctKeys index
      → DistinctKeys (erase_back es index)
  erase_back-DistinctKeys [] index d = d
  erase_back-DistinctKeys ((a, e) ∷ []) index d = erase-DistinctKeys e.key index d
  erase_back-DistinctKeys (n ∷ m ∷ rest) index d = erase_back-DistinctKeys (m ∷ rest) index d

  pop_back-Linked :
      (es : List (ℕ × Entry K V)) (index : List (K × ℕ))
      → Linked es index
      → Linked (pop_back es) (erase_back es index)
  pop_back-Linked es index l = record {
    agrees = pop_back-agrees es index l;
    index_distinct = erase_back-DistinctKeys es index l.index_distinct;
    addresses_distinct = pop_back-DistinctKeys es l.addresses_distinct;
    keys_distinct = contents-pop_back-DistinctKeys es l.keys_distinct;
  }

  pub evict-Linked :
      (fuel capacity : ℕ) (es : List (ℕ × Entry K V)) (index : List (K × ℕ))
      → Linked es index
      → let rest = evict fuel capacity es index in Linked rest.0 rest.1
  unfolding evict
  evict-Linked zero capacity es index l = l
  evict-Linked (suc fuel) capacity es index l = elim (Bool-cases (ltb capacity (length es))) [
    | inl e ↦ rw e (
        evict-Linked fuel capacity (pop_back es) (erase_back es index) (pop_back-Linked es index l))
    | inr e ↦ rw e l
  ]

  pub find-evict-none :
      (a fuel capacity : ℕ) (es : List (ℕ × Entry K V)) (index : List (K × ℕ))
      → find a es ≡ none
      → find a ((evict fuel capacity es index).0) ≡ none
  unfolding evict
  find-evict-none a zero capacity es index h = h
  find-evict-none a (suc fuel) capacity es index h = elim (Bool-cases (ltb capacity (length es))) [
    | inl e ↦ rw e (
        find-evict-none a fuel capacity (pop_back es) (erase_back es index)
          (find-pop_back-none a es h))
    | inr e ↦ rw e h
  ]

  -- With the length of the list as fuel the loop ends, and it leaves the first entries.
  pub contents-evict :
      (fuel capacity : ℕ) (es : List (ℕ × Entry K V)) (index : List (K × ℕ))
      → length es ≤ fuel + capacity
      → contents ((evict fuel capacity es index).0) ≡ take capacity (contents es)
  unfolding evict
  contents-evict zero capacity es index h =
      sym (take_of_length-le capacity (contents es) (omega (arith, length-contents es)))
  contents-evict (suc fuel) capacity es index h = elim (Bool-cases (ltb capacity (length es))) [
    | inl e ↦ rw e (
        rw
          (contents-evict fuel capacity (pop_back es) (erase_back es index)
            (ground (arith, length-pop_back es)))
          (take-pop_back capacity es (ground arith)))
    | inr e ↦
        rw e (sym (take_of_length-le capacity (contents es) (ground (arith, length-contents es))))
  ]
