-- ===== src/Cache/Lru/Nodes.antt =====
-- The nodes of the list of entries and the index that points at them.
use shooting_star.Base.{
  ℕ, false, Option, none, some, List, [], ◌∷◌, if◌then◌else◌, ◌≡◌, refl, sym, arith, Bool-cases,
  inl, inr,
}
use shooting_star.Cache.Keyed.{Key, nat_key, find, erase, DistinctKeys}
use shooting_star.Cache.Lru.{Entry}
use shooting_star.Cache.Lru.Recency.{contents}

module _ {K V : Type 0} ⦃q : Key K⦄ where
  -- The address of the node that holds a key.
  abbrev pub locate : K → List (ℕ × Entry K V) → Option ℕ
  locate k [] = none
  locate k ((a, e) ∷ rest) = if q.same k e.key then some a else locate k rest

  pub locate-none :
      (k : K) (es : List (ℕ × Entry K V)) → locate k es ≡ none → find k (contents es) ≡ none
  locate-none k [] h = refl
  locate-none k ((a, e) ∷ rest) h = ground (arith, locate-none k rest)

  pub locate-none_of_find :
      (k : K) (es : List (ℕ × Entry K V)) → find k (contents es) ≡ none → locate k es ≡ none
  locate-none_of_find k [] h = refl
  locate-none_of_find k ((a, e) ∷ rest) h = ground (arith, locate-none_of_find k rest)

  -- What an iterator that the index holds for `k` leads to.
  pub record Target (k : K) (a : ℕ) (es : List (ℕ × Entry K V)) : Type 0 where
    pub entry : Entry K V
    pub found : find a es ≡ some entry
    pub key_eq : entry.key ≡ k
    pub content : find k (contents es) ≡ some (entry.value, entry.expires_at)
    pub rest : contents (erase a es) ≡ erase k (contents es)

  target_step :
      (k : K) (a b : ℕ) (e : Entry K V) (rest : List (ℕ × Entry K V))
      → find b rest ≡ none
      → q.same k e.key ≡ false
      → Target k a rest
      → Target k a ((b, e) ∷ rest)
  target_step k a b e rest d s t = record {
    entry = t.entry;
    found = ground (arith, t.found, d, nat_key.same_iff a b);
    key_eq = t.key_eq;
    content = rw s t.content;
    rest = ground (arith, t.found, d, t.rest, nat_key.same_iff a b);
  }

  pub target :
      (k : K) (a : ℕ) (es : List (ℕ × Entry K V))
      → DistinctKeys es
      → locate k es ≡ some a
      → Target k a es
  target k a [] d h = cc
  target k a ((b, e) ∷ rest) d h = elim (Bool-cases (q.same k e.key)) [
    | inl s ↦ record {
      entry = e;
      found = ground (arith, nat_key.same_iff a b);
      key_eq = sym ((q.same_iff k e.key).0 s);
      content = rw s refl;
      rest = ground (arith, nat_key.same_iff a b);
    }
    | inr s ↦ target_step k a b e rest d.0 s (target k a rest d.1 (ground arith))
  ]

  -- The node taken out is the only one that held its key.
  pub locate-erase :
      (j k : K) (a : ℕ) (es : List (ℕ × Entry K V))
      → DistinctKeys es
      → DistinctKeys (contents es)
      → locate k es ≡ some a
      → locate j (erase a es) ≡ (if q.same j k then none else locate j es)
  locate-erase j k a [] d u h = cc
  locate-erase j k a ((b, e) ∷ rest) d u h = elim (Bool-cases (q.same k e.key)) [
    | inl s ↦ ground (
      arith,
      nat_key.same_iff a b,
      q.same_iff j e.key,
      q.same_iff k e.key,
      q.same_iff j k,
      locate-none_of_find j rest,
    )
    | inr s ↦ ground (
      arith,
      (target k a rest d.1 (ground arith)).found,
      locate-erase j k a rest d.1 u.1 (ground arith),
      nat_key.same_iff a b,
      q.same_iff j e.key,
      q.same_iff k e.key,
      q.same_iff j k,
    )
  ]
