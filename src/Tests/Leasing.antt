-- ===== src/Tests/Leasing.antt =====
-- Runs of the resource pool.
use shooting_star.Base.{ℕ, ◌+◌, [], ◌∷◌, Option, none, some, ◌≡◌, refl, returned}
use shooting_star.Base.Sets.{Distinct}
use shooting_star.Pool.{
  ResourcePool, World, construct, acquire, release_lease, acquired, Reachable, start, then_step,
}
use shooting_star.Pool.Leases.{Conserves, Reachable-Conserves, acquire-release_lease}

-- A pool of two resources at the addresses 10 and 11.
abbrev factory : Option (ℕ → Option ℕ)
factory = some (λ i. some (10 + i))

abbrev pool : ResourcePool
pool = record { resources = 10 ∷ 11 ∷ []; available_resources = 10 ∷ 11 ∷ [] }

made : construct 2 factory ≡ returned pool
unfolding construct
made = refl

-- After one Acquire, and after two.
abbrev one_left : ResourcePool
one_left = record { resources = 10 ∷ 11 ∷ []; available_resources = 10 ∷ [] }

abbrev none_left : ResourcePool
none_left = record { resources = 10 ∷ 11 ∷ []; available_resources = [] }

abbrev once : World
once = record { pool = one_left; leases = some 11 ∷ [] }

abbrev twice : World
twice = record { pool = none_left; leases = some 11 ∷ some 10 ∷ [] }

first_acquire : acquire pool ≡ some (11, one_left)
unfolding acquire
first_acquire = refl

second_acquire : acquire one_left ≡ some (10, none_left)
unfolding acquire
second_acquire = refl

once-Reachable : Reachable pool once
once-Reachable =
    then_step (record { pool = pool; leases = [] }) once start
      (acquired (record { pool = pool; leases = [] }) 11 one_left first_acquire)

twice-Reachable : Reachable pool twice
twice-Reachable = then_step once twice once-Reachable (acquired once 10 none_left second_acquire)

no_third : acquire none_left ≡ none
unfolding acquire
no_third = refl

pool-Distinct : Distinct pool.resources
pool-Distinct = (refl, (refl, tt))

Reachable-Conserves_example : Conserves (10 ∷ 11 ∷ []) twice
Reachable-Conserves_example =
    Reachable-Conserves 2 factory pool twice made pool-Distinct twice-Reachable

acquire-release_lease_example : acquire (release_lease 0 twice).pool ≡ some (11, none_left)
acquire-release_lease_example =
    acquire-release_lease 2 factory pool twice made pool-Distinct twice-Reachable 0 11 refl
