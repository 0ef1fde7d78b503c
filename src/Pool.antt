-- ===== src/Pool.antt =====
-- utilities/resource_pool/resource_pool.h: a fixed set of resources, leased one at a time. A resource is
-- its address; a Lease object is a slot that holds a resource or nothing. Every operation of the pool
-- holds its mutex, so a run is a sequence of steps, whichever threads make them; a wait in Acquire is
-- the steps of others before it.
pub mod Counting
mod Slots
pub mod Leases
use shooting_star.Base.{
  ℕ, zero, suc, ◌<◌, List, [], ◌∷◌, ◌++◌, Option, none, some, if◌then◌else◌, ◌==◌, length,
  get_elem?, update, Attempt, returned, thrown, ◌≡◌,
}
use shooting_star.Base.Sets.{contains}

pub record ResourcePool : Type 0 where
  pub resources : List ℕ
  pub available_resources : List ℕ

-- The pool with the leases that have been made of it.
pub record World : Type 0 where
  pub pool : ResourcePool
  pub leases : List (Option ℕ)

-- The loop of the constructor: the addresses that the factory returns, unless one is null.
abbrev pub fill : (ℕ → Option ℕ) → ℕ → ℕ → List ℕ → Attempt (List ℕ)
fill factory i zero resources = returned resources
fill factory i (suc left) resources = elim (factory i) [
  | none ↦ thrown "ResourcePool factory returned null resource"
  | some resource ↦ fill factory (suc i) left (resources ++ resource ∷ [])
]

abbrev filled : Attempt (List ℕ) → Attempt ResourcePool
filled (thrown message) = thrown message
filled (returned resources) =
    returned record { resources = resources; available_resources = resources }

-- `factory` gives what each of its calls returns.
unfoldable pub construct : ℕ → Option (ℕ → Option ℕ) → Attempt ResourcePool
construct zero factory = thrown "ResourcePool pool_size must be greater than zero"
construct (suc n) none = thrown "ResourcePool factory must not be empty"
construct (suc n) (some factory) = filled (fill factory 0 (suc n) [])

abbrev pub back : List ℕ → Option ℕ
back [] = none
back (r ∷ []) = some r
back (r ∷ q ∷ rest) = back (q ∷ rest)

abbrev pub pop_back : List ℕ → List ℕ
pop_back [] = []
pop_back (r ∷ []) = []
pop_back (r ∷ q ∷ rest) = r ∷ pop_back (q ∷ rest)

-- What Acquire does once the wait is over: the resource that the lease gets, or none after a timeout.
unfoldable pub acquire : ResourcePool → Option (ℕ × ResourcePool)
acquire pool = elim (back pool.available_resources) [
  | none ↦ none
  | some resource ↦
      some (resource, record pool { available_resources = pop_back pool.available_resources })
]

-- `ResourcePool::Release`
abbrev pub release : ℕ → ResourcePool → ResourcePool
release resource pool =
    if contains resource pool.available_resources
    then pool
    else record pool { available_resources = pool.available_resources ++ resource ∷ [] }

-- `Lease::Release` of a slot, which the destructor calls too.
pub release_lease : ℕ → World → World
release_lease i w = elim (get_elem? w.leases i) [
  | some (some resource) ↦ record {
    pool = release resource w.pool;
    leases = update w.leases i (λ _. none);
  }
  | _ ↦ w
]

-- `Lease(Lease&& other)`: a new slot takes what the other held.
abbrev pub moved_out : List (Option ℕ) → ℕ → Option ℕ
moved_out leases i = elim (get_elem? leases i) [ none ↦ none | some held ↦ held ]

pub move_construct : ℕ → World → World
move_construct i w = record w {
  leases = update w.leases i (λ _. none) ++ moved_out w.leases i ∷ [];
}

-- `operator=(Lease&& other)`
pub move_assign : ℕ → ℕ → World → World
unfolding release_lease
move_assign i j w =
    let released = release_lease i w in
    if i == j then w else record released {
      leases = update (update released.leases i (λ _. moved_out released.leases j)) j (λ _. none);
    }

-- One operation on the pool or on a lease.
pub data Step : World → World → Type 0 where
  acquired :
      (w : World) (resource : ℕ) (pool : ResourcePool)
      → acquire w.pool ≡ some (resource, pool)
      → Step w (record { pool = pool; leases = w.leases ++ some resource ∷ [] })
  timed_out : (w : World) → acquire w.pool ≡ none → Step w w
  released : (w : World) (i : ℕ) → Step w (release_lease i w)
  move_constructed : (w : World) (i : ℕ) → Step w (move_construct i w)
  move_assigned :
      (w : World) (i j : ℕ) → i < length w.leases → j < length w.leases → Step w (move_assign i j w)

-- From a new pool with no leases.
pub data Reachable (pool : ResourcePool) : World → Type 0 where
  start : Reachable pool (record { pool = pool; leases = [] })
  then_step : (w v : World) → Reachable pool w → Step w v → Reachable pool v
