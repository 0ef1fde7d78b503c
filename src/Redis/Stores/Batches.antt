-- ===== src/Redis/Stores/Batches.antt =====
-- The batch look-up of RedisItemSimilarityStore over a Redis that holds neighbours.
use shooting_star.Base.{
  ℕ, suc, String, true, false, List, [], ◌∷◌, ◌++◌, map, length, All, ◌≡◌, refl, ◌∙◌, ap, arith,
  returned, if◌then◌else◌, ◌==◌, ==_refl, ◌||◌, update, length-map, Bool-cases, inl, inr,
  length-append, append_assoc,
}
use shooting_star.Base.Int.{ℤ, pos, leb_ℤ}
use shooting_star.Retrieval.Retrievers.Scores.{Scored}
use shooting_star.Redis.Client.{RedisClient, ok_status, read_pipeline, batch_zrevrange_with_scores}
use shooting_star.Redis.Client.Keys.{build_redis_key}
use shooting_star.Redis.Stores.{
  find_neighbors_by_item_ids, last_rank, no_neighbors, assign_neighbors, valid_item_indexes,
  redis_keys, is_nil,
}
use shooting_star.Redis.Stores.Listings.{
  IsStored, listing, members, read_neighbors-members, read_pipeline-listings,
}
use shooting_star.Redis.Stores.Lookups.{RepliesWith, replied-ok}

-- The ids that are asked for.
abbrev pub valid : List ℕ → List ℕ
valid [] = []
valid (id ∷ ids) = if id == 0 then valid ids else id ∷ valid ids

module _ {A : Type 0} where
  length-snoc : (done : List A) (x : A) → length (done ++ x ∷ []) ≡ suc (length done)
  length-snoc done x = omega (arith, length-append done (x ∷ []))

  update-past :
      (done rest : List A) (f : A → A) (a : A)
      → update (done ++ a ∷ rest) (length done) f ≡ done ++ f a ∷ rest
  update-past [] rest f a = refl
  update-past (b ∷ done) rest f a = ap (◌∷◌ b) (update-past done rest f a)

length-redis_keys :
    {A : Type 0} (key_prefix : String) (f : ℕ → A) (ids : List ℕ)
    → length (map f (valid ids)) ≡ length (redis_keys key_prefix ids)
unfolding redis_keys
length-redis_keys key_prefix f [] = refl
length-redis_keys key_prefix f (id ∷ ids) = ground (arith, length-redis_keys key_prefix f ids)

length-valid_item_indexes :
    {A : Type 0} (i : ℕ) (f : ℕ → A) (ids : List ℕ)
    → length (map f (valid ids)) ≡ length (valid_item_indexes i ids)
unfolding valid_item_indexes
length-valid_item_indexes i f [] = refl
length-valid_item_indexes i f (id ∷ ids) = ground (arith, length-valid_item_indexes (suc i) f ids)

module _ {R : Type 0} (client : RedisClient R) (key_prefix : String) (max_neighbor_count : ℤ)
    (print : R → String) (neighbors : ℕ → List (Scored R)) where
  -- What the look-up is to find of an id.
  abbrev pub found : ℕ → List (Scored R)
  found id = if id == 0 then [] else neighbors id

  -- What the loop fills in from the end of `done` on.
  abbrev Fills : ℕ → List (List (Scored R)) → List ℕ → List (List (Scored R)) → Type 0
  Fills i lists ids filled =
      assign_neighbors (valid_item_indexes i ids) (redis_keys key_prefix ids)
        (map (λ id. members client.parse_double print (neighbors id)) (valid ids)) lists
      ≡ returned filled

  Fills-snoc :
      (done : List (List (Scored R))) (ids : List ℕ) (x : List (Scored R))
      → Fills
          (length (done ++ x ∷ []))
          ((done ++ x ∷ []) ++ no_neighbors ids)
          ids
          ((done ++ x ∷ []) ++ map found ids)
      → Fills (suc (length done)) (done ++ x ∷ no_neighbors ids) ids (done ++ x ∷ map found ids)
  Fills-snoc done ids x h =
      rw
        (
          length-snoc done x,
          append_assoc done (x ∷ []) (no_neighbors ids),
          append_assoc done (x ∷ []) (map found ids),
        )
        at h

  assign_from :
      (ids : List ℕ) (done : List (List (Scored R)))
      → ((id : ℕ) → All (IsStored client.parse_double print) (neighbors id))
      → Fills (length done) (done ++ no_neighbors ids) ids (done ++ map found ids)
  unfolding assign_neighbors valid_item_indexes redis_keys
  assign_from [] done h = refl
  assign_from (id ∷ ids) done h = elim (Bool-cases (id == 0)) [
    | inl z ↦ rw z (Fills-snoc done ids [] (assign_from ids (done ++ [] ∷ []) h))
    | inr z ↦
        rw
          (
            z,
            assign_neighbors,
            read_neighbors-members client.parse_double print "item" (build_redis_key key_prefix id)
                (neighbors id) (h id),
            update-past done (no_neighbors ids) (λ _. neighbors id) [],
          )
          (Fills-snoc done ids (neighbors id) (assign_from ids (done ++ neighbors id ∷ []) h))
  ]

  All-valid :
      (ids : List ℕ)
      → ((id : ℕ) → All (IsStored client.parse_double print) (neighbors id))
      → All (All (IsStored client.parse_double print)) (map neighbors (valid ids))
  All-valid [] h = tt
  All-valid (id ∷ ids) h = elim (Bool-cases (id == 0)) [
    | inl z ↦ rw z (All-valid ids h)
    | inr z ↦ rw z (h id, All-valid ids h)
  ]

  map-map :
      (ids : List ℕ)
      → map (members client.parse_double print) (map neighbors ids)
        ≡ map (λ id. members client.parse_double print (neighbors id)) ids
  map-map [] = refl
  map-map (id ∷ ids) = rw (map-map ids) refl

  pipeline-replied :
      (keys : List String) (lists : List (List (Scored R)))
      → is_nil keys ≡ false
      → length (map (listing client.parse_double print) lists) ≡ length keys
      → All (All (IsStored client.parse_double print)) lists
      → RepliesWith client.config.retry.max_attempts
          (client.pipeline_call keys (pos 0) (last_rank max_neighbor_count))
          (map (listing client.parse_double print) lists)
      → (k : ℕ) × ((batch_zrevrange_with_scores client keys
            (pos 0)
            (last_rank max_neighbor_count)).status
          ≡ ok_status k)
        × ((batch_zrevrange_with_scores client keys (pos 0) (last_rank max_neighbor_count)).value
            ≡ map (members client.parse_double print) lists)
  unfolding batch_zrevrange_with_scores
  pipeline-replied [] lists n e h r = absurd (ground (arith, n))
  pipeline-replied (key ∷ keys) lists n e h r =
      replied-ok client.config.retry
        (client.pipeline_call (key ∷ keys) (pos 0) (last_rank max_neighbor_count))
        (read_pipeline client.parse_double (length (key ∷ keys))) []
        (map (listing client.parse_double print) lists)
        (map (members client.parse_double print) lists) r
        (λ n. read_pipeline-listings client.parse_double print (length (key ∷ keys)) n lists h e)

  length-listings :
      (ids : List ℕ)
      → length (map (listing client.parse_double print) (map neighbors (valid ids)))
        ≡ length (redis_keys key_prefix ids)
  length-listings ids =
      length-map (listing client.parse_double print) (map neighbors (valid ids))
      ∙ length-redis_keys key_prefix neighbors ids

  no_keys :
      (ids : List ℕ) → is_nil (redis_keys key_prefix ids) ≡ true → no_neighbors ids ≡ map found ids
  unfolding redis_keys
  no_keys [] h = refl
  no_keys (id ∷ ids) h = ground (arith, h, no_keys ids)

  nonempty : (ids : List ℕ) → is_nil (redis_keys key_prefix ids) ≡ false → is_nil ids ≡ false
  unfolding redis_keys
  nonempty [] h = h
  nonempty (id ∷ ids) h = refl

  -- If Redis holds neighbours for every id, and the library replies to the keys of a batch of ids,
  -- within the client's attempts, with their listings, then the store answers the batch for a
  -- positive count id by id: with the neighbours of each positive id, and with none for zero.
  pub find_neighbors_by_item_ids-found :
      (ids : List ℕ)
      → leb_ℤ max_neighbor_count (pos 0) ≡ false
      → ((id : ℕ) → All (IsStored client.parse_double print) (neighbors id))
      → RepliesWith client.config.retry.max_attempts
          (client.pipeline_call (redis_keys key_prefix ids) (pos 0) (last_rank max_neighbor_count))
          (map (listing client.parse_double print) (map neighbors (valid ids)))
      → find_neighbors_by_item_ids
          (record { client = client; key_prefix = key_prefix })
          ids
          max_neighbor_count
        ≡ returned (map found ids)
  unfolding find_neighbors_by_item_ids
  find_neighbors_by_item_ids-found ids count h replies =
      elim (Bool-cases (is_nil (redis_keys key_prefix ids))) [
        | inl z ↦
            let off : (is_nil ids
                  || leb_ℤ max_neighbor_count (pos 0)
                  || is_nil (redis_keys key_prefix ids))
                ≡ true =
              ground (arith, z, count) in
            rw (find_neighbors_by_item_ids, off) (ap returned (no_keys ids z))
        | inr z ↦
            let b =
              pipeline-replied (redis_keys key_prefix ids) (map neighbors (valid ids)) z
                (length-listings ids) (All-valid ids h) replies in
            let on : (is_nil ids
                  || leb_ℤ max_neighbor_count (pos 0)
                  || is_nil (redis_keys key_prefix ids))
                ≡ false =
              ground (arith, z, count, nonempty ids z) in
            let count_eq : length
                  (map (λ id. members client.parse_double print (neighbors id)) (valid ids))
                ≡ length (valid_item_indexes 0 ids) =
              length-valid_item_indexes 0 (λ id. members client.parse_double print (neighbors id))
                ids in
            rw
              (
                find_neighbors_by_item_ids,
                on,
                b.1,
                b.2,
                map-map (valid ids),
                count_eq,
                ==_refl (length (valid_item_indexes 0 ids)),
              )
              (assign_from ids [] h)
      ]
