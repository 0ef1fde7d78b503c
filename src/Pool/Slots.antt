-- ===== src/Pool/Slots.antt =====
-- Slots of a list under `update`, and the slot that a lease's release empties.
use shooting_star.Base.{
  ℕ, zero, suc, ◌<◌, false, List, [], ◌∷◌, Option, none, some, ◌==◌, length, get_elem?, update, ◌≡◌,
  refl, ap, arith, Option-cases, inl, inr, ◌∙◌,
}
use shooting_star.Pool.{World, release_lease}

module _ {A : Type 0} where
  pub update_of_none :
      (xs : List A) (i : ℕ) (f : A → A) → get_elem? xs i ≡ none → update xs i f ≡ xs
  update_of_none [] i f h = refl
  update_of_none (x ∷ xs) zero f h = cc
  update_of_none (x ∷ xs) (suc i) f h = ap (◌∷◌ x) (update_of_none xs i f h)

  get_elem?-update_same :
      (xs : List A) (i : ℕ) (f : A → A) (x : A)
      → get_elem? xs i ≡ some x
      → get_elem? (update xs i f) i ≡ some (f x)
  get_elem?-update_same [] i f x h = cc
  get_elem?-update_same (y ∷ xs) zero f x h = ground (arith, h)
  get_elem?-update_same (y ∷ xs) (suc i) f x h = get_elem?-update_same xs i f x h

  pub get_elem?-update_other :
      (xs : List A) (i j : ℕ) (f : A → A)
      → i == j ≡ false
      → get_elem? (update xs i f) j ≡ get_elem? xs j
  get_elem?-update_other [] i j f h = refl
  get_elem?-update_other (x ∷ xs) zero zero f h = absurd (ground (arith, h))
  get_elem?-update_other (x ∷ xs) zero (suc j) f h = refl
  get_elem?-update_other (x ∷ xs) (suc i) zero f h = refl
  get_elem?-update_other (x ∷ xs) (suc i) (suc j) f h =
      get_elem?-update_other xs i j f (ground (arith, h))

  pub get_elem?-some : (xs : List A) (i : ℕ) → i < length xs → (x : A) × (get_elem? xs i ≡ some x)
  get_elem?-some [] i h = absurd (omega (arith, h))
  get_elem?-some (x ∷ xs) zero h = (x, refl)
  get_elem?-some (x ∷ xs) (suc i) h = get_elem?-some xs i (omega (arith, h))

pub emptied_slot :
    (i : ℕ) (w : World) (slot : Option ℕ)
    → get_elem? w.leases i ≡ some slot
    → get_elem? (release_lease i w).leases i ≡ some none
unfolding release_lease
emptied_slot i w slot h = elim (Option-cases slot) [
  | inl z ↦ rw (release_lease, h, z) (h ∙ ap some z)
  | inr (r, z) ↦ rw (release_lease, h, z) (get_elem?-update_same w.leases i (λ _. none) slot h)
]

pub other_slot :
    (i j : ℕ) (w : World)
    → i == j ≡ false
    → get_elem? (release_lease i w).leases j ≡ get_elem? w.leases j
unfolding release_lease
other_slot i j w h = elim (Option-cases (get_elem? w.leases i)) [
  | inl e ↦ rw (release_lease, e) refl
  | inr (slot, e) ↦ elim (Option-cases slot) [
    | inl z ↦ rw (release_lease, e, z) refl
    | inr (r, z) ↦ rw (release_lease, e, z) (get_elem?-update_other w.leases i j (λ _. none) h)
  ]
]
