-- ===== src/Base/Sort.antt =====
-- std::sort, std::stable_sort and the sorted prefix of std::partial_sort, as one stable insertion
-- sort, with the order that the program sorts by: a higher score first, then a smaller identifier.
-- With a NaN among the scores that is no strict weak order, and what C++ does is undefined: the result
-- here is then one of many.
pub mod Order
use Prim.Native.Nat.{ℕ, suc, ◌≤◌, ◌<◌}
use mathlib.Core.Path.{◌≡◌, refl, sym, ap, ◌∙◌}
use mathlib.Core.Logic.{◌⊎◌, inl, inr}
use mathlib.Core.Bool.{Bool, true, false}
use mathlib.Core.List.{List, [], ◌∷◌, map}
use mathlib.Core.List.{Permᴰ}
use native.Mathlib.Omega.{arith}
use shooting_star.Base.Tests.{ltb, ◌==◌, if◌then◌else◌, Bool-cases, ==_iff}
use shooting_star.Base.Lists.{length, All}
use shooting_star.Base.Sets.{contains, Distinct}
use shooting_star.Base.Floats.{Double, IsNumber, IsOrdered}

module _ {A : Type 0} (before : A → A → Bool) where
  unfoldable pub insert_sorted : A → List A → List A
  insert_sorted x [] = x ∷ []
  insert_sorted x (y ∷ ys) = if before y x then y ∷ insert_sorted x ys else x ∷ y ∷ ys

  unfoldable pub sort : List A → List A
  sort [] = []
  sort (x ∷ xs) = insert_sorted x (sort xs)

  -- No element is to stand before an earlier one.
  abbrev pub IsSorted : List A → Type 0
  IsSorted [] = Unit {0}
  IsSorted (x ∷ xs) = All (λ y. before y x ≡ false) xs × IsSorted xs

module _ {A : Type 0} (before : A → A → Bool) where
  pub length-insert_sorted :
      (x : A) (ys : List A) → length (insert_sorted before x ys) ≡ suc (length ys)
  unfolding insert_sorted
  length-insert_sorted x [] = refl
  length-insert_sorted x (y ∷ ys) = ground (arith, length-insert_sorted x ys)

  pub length-sort : (xs : List A) → length (sort before xs) ≡ length xs
  unfolding sort
  length-sort [] = refl
  length-sort (x ∷ xs) = omega (arith, length-insert_sorted x (sort before xs), length-sort xs)

  pub All-insert_sorted :
      (P : A → Type 0) (x : A) (ys : List A) → P x → All P ys → All P (insert_sorted before x ys)
  unfolding insert_sorted
  All-insert_sorted P x [] p h = (p, tt)
  All-insert_sorted P x (y ∷ ys) p h = ground (arith, All-insert_sorted P x ys p h.1)

  pub All-sort : (P : A → Type 0) (xs : List A) → All P xs → All P (sort before xs)
  unfolding sort
  All-sort P [] h = tt
  All-sort P (x ∷ xs) h = All-insert_sorted P x (sort before xs) h.0 (All-sort P xs h.1)

  module _ (key : A → ℕ) where
    contains-insert_sorted :
        (a : ℕ) (x : A) (ys : List A)
        → contains a (map key (insert_sorted before x ys)) ≡ contains a (key x ∷ map key ys)
    unfolding insert_sorted
    contains-insert_sorted a x [] = refl
    contains-insert_sorted a x (y ∷ ys) = ground (arith, contains-insert_sorted a x ys)

    -- Sorting neither loses nor invents an element.
    pub contains-sort :
        (a : ℕ) (xs : List A) → contains a (map key (sort before xs)) ≡ contains a (map key xs)
    unfolding sort
    contains-sort a [] = refl
    contains-sort a (x ∷ xs) =
        ground (arith, contains-insert_sorted a x (sort before xs), contains-sort a xs)

    Distinct-insert_sorted :
        (x : A) (ys : List A)
        → Distinct (key x ∷ map key ys)
        → Distinct (map key (insert_sorted before x ys))
    unfolding insert_sorted
    Distinct-insert_sorted x [] d = d
    Distinct-insert_sorted x (y ∷ ys) d = ground (
      arith,
      contains-insert_sorted (key y) x ys,
      Distinct-insert_sorted x ys,
      ==_iff (key x) (key y),
    )

    pub Distinct-sort : (xs : List A) → Distinct (map key xs) → Distinct (map key (sort before xs))
    unfolding sort
    Distinct-sort [] d = d
    Distinct-sort (x ∷ xs) d =
        Distinct-insert_sorted x (sort before xs)
          (rw (contains-sort (key x) xs) d.0, Distinct-sort xs d.1)
