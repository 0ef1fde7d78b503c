-- ===== src/Pool/Leases.antt =====
-- No resource of a pool is ever lost or leased twice.
use shooting_star.Base.{
  ℕ, zero, suc, ◌+◌, ◌<◌, false, List, [], ◌∷◌, ◌++◌, Option, none, some, ◌==◌, ==_iff, length,
  get_elem?, update, ◌≡◌, refl, ◌∙◌, ap, arith, Bool-cases, Option-cases, inl, inr, Attempt-cases,
  returned,
}
use shooting_star.Base.Sets.{contains, Distinct}
use shooting_star.Pool.{
  ResourcePool, World, back, pop_back, acquire, release, release_lease, moved_out, move_construct,
  move_assign, Step, acquired, timed_out, released, move_constructed, move_assigned, Reachable,
  start, then_step, construct, fill,
}
use shooting_star.Pool.Slots.{
  update_of_none, get_elem?-update_other, get_elem?-some, emptied_slot, other_slot,
}
use shooting_star.Pool.Counting.{
  count, held_by, held, count-append, held-append, count-pop_back, held-update, held-get_elem?,
  contains-count, count-Distinct, back-none, back-snoc, pop_back-snoc,
}

-- Each resource of `all` is available or held by one lease, and never both.
abbrev pub Conserves : List ℕ → World → Type 0
Conserves all w =
    (w.pool.resources ≡ all)
    × ((r : ℕ) → count r w.pool.available_resources + held r w.leases ≡ count r all)

module _ (all : List ℕ) (d : Distinct all) where
  acquired-Conserves :
      (w : World) (resource : ℕ) (pool : ResourcePool)
      → acquire w.pool ≡ some (resource, pool)
      → Conserves all w
      → Conserves all (record { pool = pool; leases = w.leases ++ some resource ∷ [] })
  unfolding acquire
  acquired-Conserves w resource pool h c = elim (Option-cases (back w.pool.available_resources)) [
    | inl e ↦ absurd (ground (arith, h, e))
    | inr (r, e) ↦
        let re : resource ≡ r = ground (arith, h, e) in
        let pe : pool
            ≡ record w.pool { available_resources = pop_back w.pool.available_resources } =
          ground (arith, h, e) in
        rw (pe, re)
          (
            c.0,
            λ q. omega (
              arith,
              count-pop_back q r w.pool.available_resources e,
              held-append q w.leases (some r ∷ []),
              c.1 q,
            ),
          )
  ]

  not_available :
      (i r : ℕ) (w : World)
      → get_elem? w.leases i ≡ some (some r)
      → Conserves all w
      → contains r w.pool.available_resources ≡ false
  not_available i r w h c = elim (Bool-cases (contains r w.pool.available_resources)) [
    | inl e ↦ absurd (
        omega (
          arith,
          contains-count r w.pool.available_resources e,
          held-get_elem? r i w.leases h,
          c.1 r,
          count-Distinct r all d,
        ))
    | inr e ↦ e
  ]

  given_back :
      (i r : ℕ) (w : World)
      → get_elem? w.leases i ≡ some (some r)
      → Conserves all w
      → Conserves all (record {
        pool = record w.pool { available_resources = w.pool.available_resources ++ r ∷ [] };
        leases = update w.leases i (λ _. none);
      })
  given_back i r w h c = (
    c.0,
    λ q. omega (
      arith,
      count-append q w.pool.available_resources (r ∷ []),
      held-update q i (some r) none w.leases h,
      c.1 q,
    ),
  )

  released-Conserves : (i : ℕ) (w : World) → Conserves all w → Conserves all (release_lease i w)
  unfolding release_lease
  released-Conserves i w c = elim (Option-cases (get_elem? w.leases i)) [
    | inl e ↦ rw (release_lease, e) c
    | inr (slot, e) ↦ elim (Option-cases slot) [
      | inl z ↦ rw (release_lease, e, z) c
      | inr (r, z) ↦
          rw (release_lease, e, z, release, not_available i r w (e ∙ ap some z) c)
            (given_back i r w (e ∙ ap some z) c)
    ]
  ]

  moved-Conserves : (i : ℕ) (w : World) → Conserves all w → Conserves all (move_construct i w)
  unfolding move_construct
  moved-Conserves i w c = elim (Option-cases (get_elem? w.leases i)) [
    | inl e ↦
        rw (move_construct, moved_out, e, update_of_none w.leases i (λ _. none) e)
          (c.0, λ q. omega (arith, held-append q w.leases (none ∷ []), c.1 q))
    | inr (slot, e) ↦
        rw (move_construct, moved_out, e)
          (
            c.0,
            λ q. omega (
              arith,
              held-append q (update w.leases i (λ _. none)) (slot ∷ []),
              held-update q i slot none w.leases e,
              c.1 q,
            ),
          )
  ]

  exchanged :
      (i j : ℕ) (w : World)
      → i < length w.leases
      → j < length w.leases
      → i == j ≡ false
      → Conserves all (release_lease i w)
      → Conserves all (record (release_lease i w) {
        leases =
            update
              (update (release_lease i w).leases i (λ _. moved_out (release_lease i w).leases j))
              j
              (λ _. none);
      })
  exchanged i j w hi hj e c =
      let v = release_lease i w in
      let si = get_elem?-some w.leases i hi in
      let sj = get_elem?-some w.leases j hj in
      let empty : get_elem? v.leases i ≡ some none = emptied_slot i w si.0 si.1 in
      let full : get_elem? v.leases j ≡ some sj.0 = other_slot i j w e ∙ sj.1 in
      let moved : moved_out v.leases j ≡ sj.0 = rw (moved_out, full) refl in
      let full' : get_elem? (update v.leases i (λ _. sj.0)) j ≡ some sj.0 =
        get_elem?-update_other v.leases i j (λ _. sj.0) e ∙ full in
      rw moved (
        c.0,
        λ q. omega (
          arith,
          held-update q i none sj.0 v.leases empty,
          held-update q j sj.0 none (update v.leases i (λ _. sj.0)) full',
          c.1 q,
        ),
      )

  assigned-Conserves :
      (i j : ℕ) (w : World)
      → i < length w.leases
      → j < length w.leases
      → Conserves all w
      → Conserves all (move_assign i j w)
  unfolding move_assign
  assigned-Conserves i j w hi hj c = elim (Bool-cases (i == j)) [
    | inl e ↦ rw (move_assign, e) c
    | inr e ↦ rw (move_assign, e) (exchanged i j w hi hj e (released-Conserves i w c))
  ]

  Step-Conserves : (w v : World) → Step w v → Conserves all w → Conserves all v
  Step-Conserves _ _ (acquired w resource pool h) c = acquired-Conserves w resource pool h c
  Step-Conserves _ _ (timed_out w h) c = c
  Step-Conserves _ _ (released w i) c = released-Conserves i w c
  Step-Conserves _ _ (move_constructed w i) c = moved-Conserves i w c
  Step-Conserves _ _ (move_assigned w i j hi hj) c = assigned-Conserves i j w hi hj c

  reached-Conserves :
      (pool : ResourcePool) (w : World)
      → pool.resources ≡ all
      → pool.available_resources ≡ all
      → Reachable pool w
      → Conserves all w
  reached-Conserves pool _ hr ha start = (hr, λ q. omega (arith, ap (count q) ha))
  reached-Conserves pool _ hr ha (then_step w v before s) =
      Step-Conserves w v s (reached-Conserves pool w hr ha before)

acquire-snoc :
    (p : ResourcePool) (r : ℕ)
    → acquire (record p { available_resources = p.available_resources ++ r ∷ [] }) ≡ some (r, p)
unfolding acquire
acquire-snoc p r =
    rw (acquire, back-snoc p.available_resources r)
      (ap (λ (l : List ℕ). some (r, record p { available_resources = l }))
        (pop_back-snoc p.available_resources r))

held_by_self : (r : ℕ) → held_by r (some r) ≡ 1
held_by_self r = ground (arith, ==_iff r r)

-- The constructor makes all resources available.
construct-available :
    (size : ℕ) (factory : Option (ℕ → Option ℕ)) (pool : ResourcePool)
    → construct size factory ≡ returned pool
    → pool.available_resources ≡ pool.resources
unfolding construct
construct-available zero factory pool h = absurd (ground (arith, h))
construct-available (suc n) none pool h = absurd (ground (arith, h))
construct-available (suc n) (some factory) pool h =
    elim (Attempt-cases (fill factory 0 (suc n) [])) [
      | inl (m, e) ↦ absurd (ground (arith, h, e))
      | inr (rs, e) ↦ ground (arith, h, e)
    ]

module _ (size : ℕ) (factory : Option (ℕ → Option ℕ)) (pool : ResourcePool) (w : World)
    (made : construct size factory ≡ returned pool) (d : Distinct pool.resources)
    (reached : Reachable pool w) where
  -- Whatever sequence of acquiring, releasing, moving and assigning leases a pool that the constructor
  -- has made of distinct resources has gone through, each of its resources is either available, once,
  -- or held by exactly one lease, and no resource from elsewhere is available or held.
  pub Reachable-Conserves : Conserves pool.resources w
  Reachable-Conserves =
      reached-Conserves pool.resources d pool w refl (construct-available size factory pool made)
        reached

  -- Two leases never hold the same resource, and a held resource is not available.
  pub leases_exclusive :
      (i j r : ℕ)
      → get_elem? w.leases i ≡ some (some r)
      → get_elem? w.leases j ≡ some (some r)
      → (i ≡ j) × (contains r w.pool.available_resources ≡ false)
  leases_exclusive i j r hi hj = elim (Bool-cases (i == j)) [
    | inl e ↦ ((==_iff i j).0 e, not_available pool.resources d i r w hi Reachable-Conserves)
    | inr e ↦
        let emptied = held-update r i (some r) none w.leases hi in
        let other : get_elem? (update w.leases i (λ _. none)) j ≡ some (some r) =
          get_elem?-update_other w.leases i j (λ _. none) e ∙ hj in
        absurd (
          omega (
            arith,
            emptied,
            held-get_elem? r j (update w.leases i (λ _. none)) other,
            Reachable-Conserves.1 r,
            count-Distinct r pool.resources d,
            held_by_self r,
          ))
  ]

  -- Acquire fails only while every resource is held by a lease.
  pub acquire-none-held : (r : ℕ) → acquire w.pool ≡ none → held r w.leases ≡ count r pool.resources
  unfolding acquire
  acquire-none-held r h = elim (Option-cases (back w.pool.available_resources)) [
    | inl e ↦
        omega
          (arith, Reachable-Conserves.1 r, ap (count r) (back-none w.pool.available_resources e))
    | inr (q, e) ↦ absurd (ground (arith, h, e))
  ]

  -- Let a lease hold a resource, after any sequence of operations on a pool that the constructor has
  -- made of distinct resources. Once it is released, an Acquire does not wait: it succeeds with that
  -- resource, and leaves the pool as it was before the release.
  pub acquire-release_lease :
      (i r : ℕ)
      → get_elem? w.leases i ≡ some (some r)
      → acquire (release_lease i w).pool ≡ some (r, w.pool)
  unfolding release_lease
  acquire-release_lease i r h =
      rw (release_lease, h, release, not_available pool.resources d i r w h Reachable-Conserves)
        (acquire-snoc w.pool r)
