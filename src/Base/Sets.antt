-- ===== src/Base/Sets.antt =====
-- std::unordered_set<uint64_t> as a list of identifiers, std::unordered_map<uint64_t, V> as an
-- association list, and lists of distinct identifiers.
use Prim.Native.Nat.{ℕ, zero, suc}
use mathlib.Core.Path.{◌≡◌, refl}
use mathlib.Core.Bool.{Bool, true, false, ◌||◌}
use mathlib.Core.Option.{Option, none, some}
use mathlib.Core.List.{List, [], ◌∷◌, ◌++◌}
use native.Mathlib.Omega.{arith}
use shooting_star.Base.Tests.{◌==◌, if◌then◌else◌, ==_iff}
use shooting_star.Base.Lists.{take}

abbrev pub contains : ℕ → List ℕ → Bool
contains a [] = false
contains a (x ∷ xs) = a == x || contains a xs

-- `set.insert(a)`
abbrev pub insert_id : ℕ → List ℕ → List ℕ
insert_id a s = if contains a s then s else a ∷ s

-- No identifier stands twice.
abbrev pub Distinct : List ℕ → Type 0
Distinct [] = Unit {0}
Distinct (x ∷ xs) = (contains x xs ≡ false) × Distinct xs

pub contains-append :
    (a : ℕ) (xs ys : List ℕ) → contains a (xs ++ ys) ≡ (contains a xs || contains a ys)
contains-append a [] ys = refl
contains-append a (x ∷ xs) ys = ground (arith, contains-append a xs ys)

pub Distinct-snoc :
    (xs : List ℕ) (a : ℕ) → Distinct xs → contains a xs ≡ false → Distinct (xs ++ a ∷ [])
Distinct-snoc [] a d h = (refl, tt)
Distinct-snoc (x ∷ xs) a d h = ground (arith, contains-append x xs (a ∷ []), Distinct-snoc xs a d.1)

pub contains-take : (n a : ℕ) (xs : List ℕ) → contains a xs ≡ false → contains a (take n xs) ≡ false
contains-take zero a xs h = refl
contains-take (suc n) a [] h = refl
contains-take (suc n) a (x ∷ xs) h = ground (arith, contains-take n a xs)

pub Distinct-take : (n : ℕ) (xs : List ℕ) → Distinct xs → Distinct (take n xs)
Distinct-take zero xs d = tt
Distinct-take (suc n) [] d = tt
Distinct-take (suc n) (x ∷ xs) d = (contains-take n x xs d.0, Distinct-take n xs d.1)

pub contains-insert_id :
    (a x : ℕ) (s : List ℕ) → contains a (insert_id x s) ≡ (a == x || contains a s)
contains-insert_id a x s = ground (arith, ==_iff a x)

module _ {ℓ} {V : Type ℓ} where
  abbrev pub lookup : ℕ → List (ℕ × V) → Option V
  lookup k [] = none
  lookup k ((j, v) ∷ m) = if k == j then some v else lookup k m

  abbrev pub keys : List (ℕ × V) → List ℕ
  keys [] = []
  keys ((j, v) ∷ m) = j ∷ keys m

  pub contains_of_lookup :
      (k : ℕ) (m : List (ℕ × V)) (v : V) → lookup k m ≡ some v → contains k (keys m) ≡ true
  contains_of_lookup k [] v h = cc
  contains_of_lookup k ((j, w) ∷ m) v h = ground (arith, contains_of_lookup k m v)

  pub not-contains_of_lookup :
      (k : ℕ) (m : List (ℕ × V)) → lookup k m ≡ none → contains k (keys m) ≡ false
  not-contains_of_lookup k [] h = refl
  not-contains_of_lookup k ((j, w) ∷ m) h = ground (arith, not-contains_of_lookup k m)
