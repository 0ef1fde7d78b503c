-- ===== src/Base/Sort/Order.antt =====
-- The program's order on scored elements, and what sorting by it gives.
use Prim.Native.Nat.{ℕ}
use mathlib.Core.Path.{◌≡◌, refl, subst₂, ◌∙◌}
use mathlib.Core.Bool.{Bool, true, false}
use mathlib.Core.List.{List, [], ◌∷◌, map, Permᴰ}
use native.Mathlib.Omega.{arith}
use shooting_star.Base.Tests.{ltb, ◌==◌, if◌then◌else◌, ==_iff}
use shooting_star.Base.Lists.{All}
use shooting_star.Base.Sets.{contains, Distinct}
use shooting_star.Base.Floats.{Double, IsNumber, IsOrdered}
use shooting_star.Base.Sort.{
  insert_sorted, sort, IsSorted, All-insert_sorted, All-sort, Distinct-sort, contains-sort,
}

module _ {A R : Type 0} ⦃d : Double R⦄ (score : A → R) (key : A → ℕ) where
  -- `lhs.score != rhs.score ? lhs.score > rhs.score : lhs.id < rhs.id`
  unfoldable pub higher_first : A → A → Bool
  higher_first a b =
      if d.eq (score a) (score b) then ltb (key a) (key b) else d.lt (score b) (score a)

  -- Every score is a number.
  abbrev pub AllNumbers : List A → Type 0
  AllNumbers = All (λ a. IsNumber (score a))

  module _ (o : IsOrdered R) where
    higher_first_asymm : (a b : A) → higher_first a b ≡ true → higher_first b a ≡ false
    unfolding higher_first
    higher_first_asymm a b h = ground (
      arith,
      o.eq_symm (score a) (score b),
      o.eq_symm (score b) (score a),
      o.lt_trans (score a) (score b) (score a),
      o.lt_irrefl (score a),
    )

    higher_first_trans :
        (a b c : A) → higher_first a b ≡ true → higher_first b c ≡ true → higher_first a c ≡ true
    unfolding higher_first
    higher_first_trans a b c h k = ground (
      arith,
      o.eq_symm (score a) (score b),
      o.eq_symm (score b) (score c),
      o.eq_symm (score a) (score c),
      o.eq_trans (score a) (score b) (score c),
      o.eq_trans (score b) (score a) (score c),
      o.lt_trans (score c) (score b) (score a),
      o.lt_of_lt_of_eq (score c) (score b) (score a),
      o.lt_of_eq_of_lt (score c) (score b) (score a),
      o.lt-ne (score c) (score a),
    )

    -- Between different identifiers one stands before the other.
    higher_first_total :
        (a b : A)
        → IsNumber (score a)
        → IsNumber (score b)
        → (key a == key b) ≡ false
        → higher_first a b ≡ false
        → higher_first b a ≡ true
    unfolding higher_first
    higher_first_total a b p q n h = ground (
      arith,
      o.eq_symm (score a) (score b),
      o.eq_symm (score b) (score a),
      o.lt_total (score a) (score b),
    )

    stays_below :
        (x y : A) (ys : List A)
        → IsNumber (score y)
        → higher_first x y ≡ true
        → AllNumbers ys
        → contains (key y) (map key ys) ≡ false
        → All (λ z. higher_first z y ≡ false) ys
        → All (λ z. higher_first z x ≡ false) ys
    stays_below x y [] ny h n c s = tt
    stays_below x y (z ∷ ys) ny h n c s = ground (
      arith,
      higher_first_total z y,
      ==_iff (key y) (key z),
      ==_iff (key z) (key y),
      higher_first_trans x y z,
      higher_first_asymm x z,
      stays_below x y ys ny h n.1,
    )

    insert_sorted-IsSorted :
        (x : A) (ys : List A)
        → IsNumber (score x)
        → AllNumbers ys
        → Distinct (key x ∷ map key ys)
        → IsSorted higher_first ys
        → IsSorted higher_first (insert_sorted higher_first x ys)
    unfolding insert_sorted
    insert_sorted-IsSorted x [] nx n d s = (tt, tt)
    insert_sorted-IsSorted x (y ∷ ys) nx n d s = ground (
      arith,
      higher_first_asymm y x,
      higher_first_total y x,
      ==_iff (key x) (key y),
      ==_iff (key y) (key x),
      stays_below x y ys n.0,
      insert_sorted-IsSorted x ys nx n.1,
      All-insert_sorted higher_first (λ z. higher_first z y ≡ false) x ys,
    )

    pub sort-IsSorted :
        (xs : List A)
        → AllNumbers xs
        → Distinct (map key xs)
        → IsSorted higher_first (sort higher_first xs)
    unfolding sort
    sort-IsSorted [] n d = tt
    sort-IsSorted (x ∷ xs) n d =
        insert_sorted-IsSorted x (sort higher_first xs) n.0
          (All-sort higher_first (λ a. IsNumber (score a)) xs n.1)
          (
            rw (contains-sort higher_first key (key x) xs) d.0,
            Distinct-sort higher_first key xs d.1,
          )
          (sort-IsSorted xs n.1 d.1)

    insert_sorted_comm :
        (x y : A) (l : List A)
        → AllNumbers (x ∷ y ∷ l)
        → Distinct (map key (x ∷ y ∷ l))
        → insert_sorted higher_first x (insert_sorted higher_first y l)
          ≡ insert_sorted higher_first y (insert_sorted higher_first x l)
    unfolding insert_sorted
    insert_sorted_comm x y [] n d =
        ground (arith, higher_first_asymm x y, higher_first_asymm y x, higher_first_total x y)
    insert_sorted_comm x y (z ∷ l) n d = ground (
      arith,
      higher_first_asymm x y,
      higher_first_asymm y x,
      higher_first_total x y,
      higher_first_total z x,
      higher_first_total z y,
      ==_iff (key x) (key z),
      ==_iff (key z) (key x),
      ==_iff (key y) (key z),
      ==_iff (key z) (key y),
      higher_first_trans x z y,
      higher_first_trans y z x,
      higher_first_asymm z x,
      higher_first_asymm z y,
      insert_sorted_comm x y l,
    )

    contains-perm :
        (a : ℕ) {xs ys : List A} → Permᴰ xs ys → contains a (map key xs) ≡ contains a (map key ys)
    contains-perm a Permᴰ.nil = refl
    contains-perm a (Permᴰ.cons e p) = cc (contains-perm a p)
    contains-perm a (Permᴰ.swap {a = x} {b = y} e f) = rw (e, f) (ground arith)
    contains-perm a (Permᴰ.trans p q) = contains-perm a p ∙ contains-perm a q

    All-perm : {xs ys : List A} → Permᴰ xs ys → AllNumbers xs → AllNumbers ys
    All-perm Permᴰ.nil n = n
    All-perm (Permᴰ.cons e p) n = (rw (← e) n.0, All-perm p n.1)
    All-perm (Permᴰ.swap e f) n = (rw (← f) n.1.0, (rw (← e) n.0, n.1.1))
    All-perm (Permᴰ.trans p q) n = All-perm q (All-perm p n)

    Distinct-perm : {xs ys : List A} → Permᴰ xs ys → Distinct (map key xs) → Distinct (map key ys)
    Distinct-perm Permᴰ.nil n = n
    Distinct-perm (Permᴰ.cons {b = b} e p) n =
        (rw (← contains-perm (key b) p, ← e) n.0, Distinct-perm p n.1)
    Distinct-perm (Permᴰ.swap {a = x} {b = y} {l = l} e f) n =
        subst₂ (λ u v. Distinct (key u ∷ key v ∷ map key l)) f e
          (ground (arith, ==_iff (key x) (key y), ==_iff (key y) (key x)))
    Distinct-perm (Permᴰ.trans p q) n = Distinct-perm q (Distinct-perm p n)

    -- The order in which the elements are collected does not show in the sorted list.
    pub sort_perm :
        {xs ys : List A}
        → Permᴰ xs ys
        → AllNumbers xs
        → Distinct (map key xs)
        → sort higher_first xs ≡ sort higher_first ys
    unfolding sort
    sort_perm Permᴰ.nil n d = refl
    sort_perm (Permᴰ.cons e p) n d = rw (e, sort_perm p n.1 d.1)
    sort_perm (Permᴰ.swap {a = x} {b = y} {l = l} e f) n d =
        rw (← e, ← f)
          (insert_sorted_comm x y (sort higher_first l)
            (n.0, (n.1.0, All-sort higher_first (λ a. IsNumber (score a)) l n.1.1))
            (ground (
              arith,
              contains-sort higher_first key (key x) l,
              contains-sort higher_first key (key y) l,
              Distinct-sort higher_first key l,
            )))
    sort_perm (Permᴰ.trans p q) n d =
        sort_perm p n d ∙ sort_perm q (All-perm p n) (Distinct-perm p d)
