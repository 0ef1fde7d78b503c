-- ===== src/Retrieval/Retrievers/ItemCf/Batches.antt =====
-- Asking the store in batches gives what asking for each seed would give.
use shooting_star.Base.{
  returned, ℕ, zero, suc, ◌+◌, ◌≤◌, ◌<◌, List, [], ◌∷◌, ◌++◌, map, ◌≡◌, refl, ap, sym, subst, ◌∙◌,
  arith, if◌then◌else◌, length, drop, length-drop, length-map, take-append-drop, append_assoc,
  Bool-cases, inl, inr,
}
use shooting_star.Base.Int.{ℤ, pos_part}
use shooting_star.Base.Sets.{contains}
use shooting_star.Base.Floats.{Double}
use shooting_star.Messages.Services.{RetrieverRequest}
use shooting_star.Retrieval.Retrievers.Scores.{Scored, Pool, add_candidate_contribution}
use shooting_star.Retrieval.Retrievers.Scores.Pool.{Edge, add_edges}
use shooting_star.Retrieval.Retrievers.ItemCf.{
  ItemSimilarityStore, RetrieverItemCf, SessionData, aggregate_neighbors,
  aggregate_similarity_batch, slices, seed_ids, aggregate_batches, aggregate_similarity_candidates,
}

module _ {R : Type 0} where
  -- The edges from a trigger to the neighbours that are not filtered out.
  pub kept_edges : List ℕ → Scored R → List (Scored R) → List (Edge R)
  kept_edges filter trigger [] = []
  kept_edges filter trigger (n ∷ ns) =
      if contains n.id filter
      then kept_edges filter trigger ns
      else (trigger, n) ∷ kept_edges filter trigger ns

  -- The edges from all seeds, each asked for on its own.
  pub edges_from : List ℕ → (ℕ → List (Scored R)) → List (Scored R) → List (Edge R)
  edges_from filter find [] = []
  edges_from filter find (seed ∷ seeds) =
      kept_edges filter seed (find seed.id) ++ edges_from filter find seeds

  edges_from-append :
      (filter : List ℕ) (find : ℕ → List (Scored R)) (xs ys : List (Scored R))
      → edges_from filter find (xs ++ ys) ≡ edges_from filter find xs ++ edges_from filter find ys
  unfolding edges_from
  edges_from-append filter find [] ys = refl
  edges_from-append filter find (x ∷ xs) ys =
      rw (edges_from-append filter find xs ys)
        (sym (append_assoc (kept_edges filter x (find x.id)) _ _))

  flatten : List (List (Scored R)) → List (Scored R)
  flatten [] = []
  flatten (b ∷ bs) = b ++ flatten bs

  flatten-slices :
      (fuel size : ℕ) (seeds : List (Scored R))
      → 0 < size
      → length seeds ≤ fuel
      → flatten (slices fuel size seeds) ≡ seeds
  unfolding flatten slices
  flatten-slices zero size [] p h = refl
  flatten-slices zero size (s ∷ seeds) p h = elim h [ ]
  flatten-slices (suc fuel) size [] p h = refl
  flatten-slices (suc fuel) size (s ∷ seeds) p h =
      rw
        (flatten-slices fuel size (drop size (s ∷ seeds)) p
          (omega (arith, length-drop size (s ∷ seeds))))
        (take-append-drop size (s ∷ seeds))

module _ {R : Type 0} ⦃d : Double R⦄ where
  add_edges-append :
      (pool : Pool R) (xs ys : List (Edge R))
      → add_edges pool (xs ++ ys) ≡ add_edges (add_edges pool xs) ys
  unfolding add_edges
  add_edges-append pool [] ys = refl
  add_edges-append pool ((t, n) ∷ xs) ys =
      add_edges-append (add_candidate_contribution t n pool) xs ys

  -- What aggregation changes: the pool; the filter stays.
  pub record Adds (s : SessionData R) (edges : List (Edge R)) (s' : SessionData R) : Type 0 where
    pub pool : s'.candidates ≡ add_edges s.candidates edges
    pub filter : s'.item_ids_to_filter_out ≡ s.item_ids_to_filter_out

  Adds-append :
      {s t u : SessionData R} (xs ys : List (Edge R))
      → Adds s xs t
      → Adds t ys u
      → Adds s (xs ++ ys) u
  Adds-append {s} xs ys a b = record {
    pool = rw (b.pool, a.pool) (sym (add_edges-append s.candidates xs ys));
    filter = b.filter ∙ a.filter;
  }

  aggregate_neighbors-Adds :
      (trigger : Scored R) (ns : List (Scored R)) (s : SessionData R)
      → Adds s (kept_edges s.item_ids_to_filter_out trigger ns) (aggregate_neighbors trigger ns s)
  unfolding aggregate_neighbors kept_edges add_edges
  aggregate_neighbors-Adds trigger [] s = record { pool = refl; filter = refl }
  aggregate_neighbors-Adds trigger (n ∷ ns) s =
      let passed =
        aggregate_neighbors-Adds trigger ns
          (record s { total_neighbors_filtered_out = suc s.total_neighbors_filtered_out }) in
      let added =
        aggregate_neighbors-Adds trigger ns
          (record s { candidates = add_candidate_contribution trigger n s.candidates }) in
      elim (Bool-cases (contains n.id s.item_ids_to_filter_out)) [
        | inl e ↦ rw e (record { pool = passed.pool; filter = passed.filter })
        | inr e ↦ rw e (record { pool = added.pool; filter = added.filter })
      ]

  module _ (find : ℕ → List (Scored R)) where
    aggregate_similarity_batch-Adds :
        (batch : List (Scored R)) (s : SessionData R)
        → Adds s
            (edges_from s.item_ids_to_filter_out find batch)
            (aggregate_similarity_batch batch (map (λ t. find t.id) batch) s)
    unfolding aggregate_similarity_batch edges_from add_edges
    aggregate_similarity_batch-Adds [] s = record { pool = refl; filter = refl }
    aggregate_similarity_batch-Adds (t ∷ ts) s =
        let s1 = record s {
          total_neighbors_fetched = s.total_neighbors_fetched + length (find t.id);
        } in
        let s2 = aggregate_neighbors t (find t.id) s1 in
        let first = aggregate_neighbors-Adds t (find t.id) s1 in
        let later = aggregate_similarity_batch-Adds ts s2 in
        Adds-append {s = s} (kept_edges s.item_ids_to_filter_out t (find t.id))
          (edges_from s.item_ids_to_filter_out find ts)
          (record { pool = first.pool; filter = first.filter })
          (subst
            (λ f.
              Adds s2 (edges_from f find ts)
                (aggregate_similarity_batch ts (map (λ u. find u.id) ts) s2))
            first.filter later)

    -- The store answers each identifier of a batch on its own, and does not throw.
    abbrev pub IsPointwise : ItemSimilarityStore R → ℤ → Type 0
    IsPointwise store max_count = (ids : List ℕ) → store ids max_count ≡ returned (map find ids)

    map-seed_ids :
        (batch : List (Scored R)) → map find (seed_ids batch) ≡ map (λ t. find t.id) batch
    map-seed_ids [] = refl
    map-seed_ids (t ∷ ts) = ap (◌∷◌ (find t.id)) (map-seed_ids ts)

    aggregate_batches_step :
        (store : ItemSimilarityStore R) (max_count : ℤ)
        → IsPointwise store max_count
        → (b : List (Scored R)) (bs : List (List (Scored R))) (s : SessionData R)
        → aggregate_batches store max_count (b ∷ bs) s
          ≡ aggregate_batches store max_count bs
              (aggregate_similarity_batch b (map (λ t. find t.id) b) s)
    unfolding aggregate_batches
    aggregate_batches_step store max_count p b bs s =
        ground (arith, p (seed_ids b), map-seed_ids b, length-map (λ (t : Scored R). find t.id) b)

    aggregate_batches-Adds :
        (store : ItemSimilarityStore R) (max_count : ℤ)
        → IsPointwise store max_count
        → (batches : List (List (Scored R))) (s : SessionData R)
        → (s' : SessionData R) × (aggregate_batches store max_count batches s ≡ returned s')
          × Adds s (edges_from s.item_ids_to_filter_out find (flatten batches)) s'
    unfolding aggregate_batches flatten edges_from add_edges
    aggregate_batches-Adds store max_count p [] s = (s, refl, record { pool = refl; filter = refl })
    aggregate_batches-Adds store max_count p (b ∷ bs) s =
        let s1 = aggregate_similarity_batch b (map (λ t. find t.id) b) s in
        let first = aggregate_similarity_batch-Adds b s in
        let (s', done, later) = aggregate_batches-Adds store max_count p bs s1 in
        (
          s',
          aggregate_batches_step store max_count p b bs s ∙ done,
          rw (edges_from-append s.item_ids_to_filter_out find b (flatten bs)) (
              Adds-append {s = s} (edges_from s.item_ids_to_filter_out find b)
                (edges_from s.item_ids_to_filter_out find (flatten bs)) first
                (subst (λ f. Adds s1 (edges_from f find (flatten bs)) s') first.filter later)),
        )

    -- If the batch size is positive and the store answers each item of a batch on its own, without
    -- an exception, the aggregation returns with the pool that asking for each seed by itself would
    -- add, the filtered neighbours left out. The batch size does not show.
    pub aggregate_similarity_candidates-edges :
        (retriever : RetrieverItemCf R) (request : RetrieverRequest R) (session : SessionData R)
        → 0 < pos_part retriever.redis_command_batch_size
        → IsPointwise retriever.store request.max_candidate_count
        → (s' : SessionData R) × (aggregate_similarity_candidates retriever request session
            ≡ returned s')
          × (s'.candidates
              ≡ add_edges session.candidates
                  (edges_from session.item_ids_to_filter_out find session.trigger_seeds))
    unfolding aggregate_similarity_candidates
    aggregate_similarity_candidates-edges retriever request session p h =
        let seeds = session.trigger_seeds in
        let size = pos_part retriever.redis_command_batch_size in
        let (s', done, adds) =
          aggregate_batches-Adds retriever.store request.max_candidate_count h
            (slices (length seeds) size seeds) session in
        (s', done, rw (flatten-slices (length seeds) size seeds p (omega arith)) at adds.pool)
