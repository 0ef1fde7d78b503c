-- ===== src/Pool/Counting.antt =====
-- How often a resource stands in a list of resources, and how many leases hold it.
use shooting_star.Base.{
  ℕ, zero, suc, ◌+◌, ◌≤◌, Bool, true, false, List, [], ◌∷◌, ◌++◌, Option, none, some, if◌then◌else◌,
  ◌==◌, ==_iff, get_elem?, update, ◌≡◌, refl, ap, arith,
}
use shooting_star.Base.Sets.{contains, Distinct}
use shooting_star.Pool.{back, pop_back}

abbrev pub one_if : Bool → ℕ
one_if b = if b then 1 else 0

abbrev pub count : ℕ → List ℕ → ℕ
count r [] = 0
count r (x ∷ xs) = one_if (r == x) + count r xs

-- A slot counts if it holds the resource.
abbrev pub held_by : ℕ → Option ℕ → ℕ
held_by r none = 0
held_by r (some x) = one_if (r == x)

abbrev pub held : ℕ → List (Option ℕ) → ℕ
held r [] = 0
held r (slot ∷ slots) = held_by r slot + held r slots

abbrev filled_slots : List (Option ℕ) → ℕ
filled_slots [] = 0
filled_slots (none ∷ slots) = filled_slots slots
filled_slots (some x ∷ slots) = suc (filled_slots slots)

pub count-append : (r : ℕ) (xs ys : List ℕ) → count r (xs ++ ys) ≡ count r xs + count r ys
count-append r [] ys = omega arith
count-append r (x ∷ xs) ys = omega (arith, count-append r xs ys)

pub held-append : (r : ℕ) (xs ys : List (Option ℕ)) → held r (xs ++ ys) ≡ held r xs + held r ys
held-append r [] ys = omega arith
held-append r (x ∷ xs) ys = omega (arith, held-append r xs ys)

pub count-pop_back :
    (q r : ℕ) (xs : List ℕ)
    → back xs ≡ some r
    → count q (pop_back xs) + one_if (q == r) ≡ count q xs
count-pop_back q r [] h = cc
count-pop_back q r (x ∷ []) h = ground (arith, h)
count-pop_back q r (x ∷ y ∷ xs) h = omega (arith, count-pop_back q r (y ∷ xs) h)

pub held-update :
    (r i : ℕ) (old new : Option ℕ) (slots : List (Option ℕ))
    → get_elem? slots i ≡ some old
    → held r (update slots i (λ _. new)) + held_by r old ≡ held r slots + held_by r new
held-update r i old new [] h = cc
held-update r zero old new (s ∷ slots) h = ground (arith, h)
held-update r (suc i) old new (s ∷ slots) h = omega (arith, held-update r i old new slots h)

-- A held resource counts.
pub held-get_elem? :
    (r i : ℕ) (slots : List (Option ℕ)) → get_elem? slots i ≡ some (some r) → 1 ≤ held r slots
held-get_elem? r i [] h = cc
held-get_elem? r zero (s ∷ slots) h = ground (arith, h, ==_iff r r)
held-get_elem? r (suc i) (s ∷ slots) h = omega (arith, held-get_elem? r i slots h)

pub contains-count : (r : ℕ) (xs : List ℕ) → contains r xs ≡ true → 1 ≤ count r xs
contains-count r [] h = cc
contains-count r (x ∷ xs) h = ground (arith, h, contains-count r xs)

pub back-none : (xs : List ℕ) → back xs ≡ none → xs ≡ []
back-none [] h = refl
back-none (x ∷ []) h = cc
back-none (x ∷ y ∷ xs) h = cc (back-none (y ∷ xs) h)

absent-count : (r : ℕ) (xs : List ℕ) → contains r xs ≡ false → count r xs ≡ 0
absent-count r [] h = refl
absent-count r (x ∷ xs) h = ground (arith, h, absent-count r xs)

pub count-Distinct : (r : ℕ) (xs : List ℕ) → Distinct xs → count r xs ≤ 1
count-Distinct r [] d = omega arith
count-Distinct r (x ∷ xs) d =
    ground (arith, count-Distinct r xs d.1, absent-count x xs d.0, ==_iff r x)

pub back-snoc : (xs : List ℕ) (r : ℕ) → back (xs ++ r ∷ []) ≡ some r
back-snoc [] r = refl
back-snoc (x ∷ []) r = refl
back-snoc (x ∷ y ∷ xs) r = back-snoc (y ∷ xs) r

pub pop_back-snoc : (xs : List ℕ) (r : ℕ) → pop_back (xs ++ r ∷ []) ≡ xs
pop_back-snoc [] r = refl
pop_back-snoc (x ∷ []) r = refl
pop_back-snoc (x ∷ y ∷ xs) r = ap (◌∷◌ x) (pop_back-snoc (y ∷ xs) r)
