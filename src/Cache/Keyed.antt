-- ===== src/Cache/Keyed.antt =====
-- Hash maps (std::unordered_map) and linked lists with stable iterators (std::list), as association
-- lists over a type of keys with equality.
use shooting_star.Base.{
  ℕ, Bool, true, false, Option, none, some, List, [], ◌∷◌, ◌≡◌, ◌↔◌, ◌==◌, ==_iff, if◌then◌else◌,
  refl, arith, take, zero, suc, length, ◌≤◌, ◌&&◌,
}
use shooting_star.Base.Int.{ℤ, pos, negsuc, pos_part, neg_part}

pub record Key (K : Type 0) : Type 0 where
  pub same : K → K → Bool
  pub same_iff : (a b : K) → (same a b ≡ true) ↔ (a ≡ b)

instance unfoldable pub nat_key : Key ℕ
nat_key = record { same = ◌==◌; same_iff = ==_iff }

pub same_ℤ : ℤ → ℤ → Bool
same_ℤ a b = pos_part a == pos_part b && neg_part a == neg_part b

pub same_ℤ_iff : (a b : ℤ) → (same_ℤ a b ≡ true) ↔ (a ≡ b)
unfolding same_ℤ
same_ℤ_iff (pos a) (pos b) = ground arith
same_ℤ_iff (pos a) (negsuc b) = ground arith
same_ℤ_iff (negsuc a) (pos b) = ground arith
same_ℤ_iff (negsuc a) (negsuc b) = ground arith

instance unfoldable pub int_key : Key ℤ
unfolding same_ℤ
int_key = record { same = same_ℤ; same_iff = same_ℤ_iff }

pub same_refl : {K : Type 0} ⦃q : Key K⦄ (k : K) → q.same k k ≡ true
same_refl {K} ⦃q⦄ k = (q.same_iff k k).1 refl

module _ {K A : Type 0} ⦃q : Key K⦄ where
  abbrev pub find : K → List (K × A) → Option A
  find k [] = none
  find k ((j, a) ∷ m) = if q.same k j then some a else find k m

  -- `erase` of one entry.
  abbrev pub erase : K → List (K × A) → List (K × A)
  erase k [] = []
  erase k ((j, a) ∷ m) = let rest = erase k m in if q.same k j then m else ((j, a) ∷ rest)

  -- `m[k] = a`
  abbrev pub assign : K → A → List (K × A) → List (K × A)
  assign k a m = (k, a) ∷ erase k m

  -- No key stands twice.
  abbrev pub DistinctKeys : List (K × A) → Type 0
  DistinctKeys [] = Unit {0}
  DistinctKeys ((k, a) ∷ m) = (find k m ≡ none) × DistinctKeys m

  pub find-erase_other :
      (j k : K) (m : List (K × A)) → q.same j k ≡ false → find j (erase k m) ≡ find j m
  find-erase_other j k [] h = refl
  find-erase_other j k ((i, a) ∷ m) h =
      ground (arith, find-erase_other j k m, q.same_iff k i, q.same_iff j i, q.same_iff j k)

  pub find-erase_same : (k : K) (m : List (K × A)) → DistinctKeys m → find k (erase k m) ≡ none
  find-erase_same k [] d = refl
  find-erase_same k ((i, a) ∷ m) d = ground (arith, find-erase_same k m d.1, q.same_iff k i)

  pub find-erase :
      (j k : K) (m : List (K × A))
      → DistinctKeys m
      → find j (erase k m) ≡ (if q.same j k then none else find j m)
  find-erase j k m d = ground (arith, find-erase_other j k m, find-erase_same k m d, q.same_iff j k)

  pub erase_of_find-none : (k : K) (m : List (K × A)) → find k m ≡ none → erase k m ≡ m
  erase_of_find-none k [] h = refl
  erase_of_find-none k ((i, a) ∷ m) h = ground (arith, erase_of_find-none k m)

  pub find-none_of_erase :
      (j k : K) (m : List (K × A)) → find j m ≡ none → find j (erase k m) ≡ none
  find-none_of_erase j k [] h = refl
  find-none_of_erase j k ((i, a) ∷ m) h = ground (arith, find-none_of_erase j k m)

  pub erase-DistinctKeys : (k : K) (m : List (K × A)) → DistinctKeys m → DistinctKeys (erase k m)
  erase-DistinctKeys k [] d = tt
  erase-DistinctKeys k ((i, a) ∷ m) d =
      ground (arith, erase-DistinctKeys k m d.1, find-none_of_erase i k m d.0)

  find-take-none : (j : K) (n : ℕ) (m : List (K × A)) → find j m ≡ none → find j (take n m) ≡ none
  find-take-none j zero m h = refl
  find-take-none j (suc n) [] h = refl
  find-take-none j (suc n) ((i, a) ∷ m) h = ground (arith, find-take-none j n m)

  take-DistinctKeys : (n : ℕ) (m : List (K × A)) → DistinctKeys m → DistinctKeys (take n m)
  take-DistinctKeys zero m d = tt
  take-DistinctKeys (suc n) [] d = tt
  take-DistinctKeys (suc n) ((i, a) ∷ m) d = (find-take-none i n m d.0, take-DistinctKeys n m d.1)

  pub length-erase_found :
      (k : K) (a : A) (m : List (K × A)) → find k m ≡ some a → suc (length (erase k m)) ≡ length m
  length-erase_found k a [] h = cc
  length-erase_found k a ((i, b) ∷ m) h = ground (arith, length-erase_found k a m)

  pub length-erase_le : (k : K) (m : List (K × A)) → length (erase k m) ≤ length m
  length-erase_le k [] = omega arith
  length-erase_le k ((i, a) ∷ m) = ground (arith, length-erase_le k m)
