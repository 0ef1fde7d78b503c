-- ===== src/Redis/Stores/Lookups.antt =====
-- The similarity stores over a Redis that holds neighbours.
use shooting_star.Base.{
  ℕ, ◌≤◌, ◌<◌, String, true, false, List, [], All, ◌≡◌, ◌∙◌, ap, arith, returned, ◌==◌, ◌||◌,
}
use shooting_star.Base.Int.{ℤ, pos, pos_part, leb_ℤ}
use shooting_star.Retrieval.Retrievers.Scores.{Scored}
use shooting_star.Redis.Client.{
  RetryConfig, Tried, with_retries, RedisClient, Outcome, replied, failed, RedisException, goes_on,
  concluded, ok_status, attempted, read_values, zrevrange_with_scores,
}
use shooting_star.Redis.Client.Keys.{build_redis_key}
use shooting_star.Redis.Client.Retries.{with_retries-reaches}
use shooting_star.Redis.Client.Exceptions.{goes_on-IsTransient}
use shooting_star.Redis.Stores.{find_neighbors, last_rank}
use shooting_star.Redis.Stores.Listings.{
  IsStored, listing, members, read_values-listing, read_neighbors-members,
}

-- A call of the library replies within the attempts that the client makes: those before it fail with
-- an exception after which the client goes on.
abbrev pub RepliesWith : {A : Type 0} → ℤ → (ℕ → Outcome A) → A → Type 0
RepliesWith max_attempts call a =
    (k : ℕ) × 1 ≤ k
    × k ≤ pos_part max_attempts
    × ((i : ℕ) → 1 ≤ i → i < k → (e : RedisException) × (call i ≡ failed e) × (goes_on e ≡ true))
    × (call k ≡ replied a)

pub replied-ok :
    {A B : Type 0} (retry : RetryConfig) (call : ℕ → Outcome A) (read : ℕ → A → Tried B) (value : B)
    (a : A) (b : B)
    → RepliesWith retry.max_attempts call a
    → ((n : ℕ) → read n a ≡ concluded (ok_status n) b)
    → (n : ℕ) × ((with_retries retry (λ i. attempted (call i) (read i)) value).status ≡ ok_status n)
      × ((with_retries retry (λ i. attempted (call i) (read i)) value).value ≡ b)
replied-ok {A} {B} retry call read value a b r h =
    let reached =
      with_retries-reaches retry (λ i. attempted (call i) (read i)) value r.0 (ok_status r.0) b r.1
        r.2
        (λ i low high.
          let f = r.3 i low high in
          (f.0, ap (λ o. attempted o (read i)) f.1, (goes_on-IsTransient f.0).0 f.2))
        (ap (λ o. attempted o (read r.0)) r.4 ∙ h r.0) in
    (r.0, reached.0, reached.1)

module _ {R : Type 0} (client : RedisClient R) (key_prefix : String) (max_neighbor_count : ℤ)
    (print : R → String) (neighbors : ℕ → List (Scored R)) where
  -- What Redis holds for an id.
  abbrev Holds : ℕ → Type 0
  Holds id = All (IsStored client.parse_double print) (neighbors id)

  zrevrange-replied :
      (key : String) (ns : List (Scored R))
      → All (IsStored client.parse_double print) ns
      → RepliesWith client.config.retry.max_attempts
          (client.zrevrange_call key (pos 0) (last_rank max_neighbor_count))
          (listing client.parse_double print ns)
      → (k : ℕ) × ((zrevrange_with_scores client key (pos 0) (last_rank max_neighbor_count)).status
          ≡ ok_status k)
        × ((zrevrange_with_scores client key (pos 0) (last_rank max_neighbor_count)).value
            ≡ members client.parse_double print ns)
  unfolding zrevrange_with_scores
  zrevrange-replied key ns h r =
      replied-ok client.config.retry
        (client.zrevrange_call key (pos 0) (last_rank max_neighbor_count))
        (read_values client.parse_double) [] (listing client.parse_double print ns)
        (members client.parse_double print ns) r
        (λ n. read_values-listing client.parse_double print n ns h)

  -- If the library replies, within the client's attempts, with the listing of the neighbours of a
  -- positive id, the look-up for a positive count returns exactly those neighbours in that order.
  pub find_neighbors-neighbors :
      (kind : String) (id : ℕ)
      → 0 < id
      → leb_ℤ max_neighbor_count (pos 0) ≡ false
      → Holds id
      → RepliesWith client.config.retry.max_attempts
          (client.zrevrange_call
            (build_redis_key key_prefix id)
            (pos 0)
            (last_rank max_neighbor_count))
          (listing client.parse_double print (neighbors id))
      → find_neighbors kind client key_prefix id max_neighbor_count ≡ returned (neighbors id)
  unfolding find_neighbors
  find_neighbors-neighbors kind id h count holds r =
      let key = build_redis_key key_prefix id in
      let z = zrevrange-replied key (neighbors id) holds r in
      let on : (id == 0 || leb_ℤ max_neighbor_count (pos 0)) ≡ false = ground (arith, h, count) in
      rw (find_neighbors, on, z.1, z.2)
        (read_neighbors-members client.parse_double print kind key (neighbors id) holds)
