-- ===== src/Retrieval/Retrievers/ItemCf/Results.antt =====
-- What the item-CF retriever returns, whatever the store answers.
use shooting_star.Base.{
  Attempt, returned, thrown, Attempt-cases, OnReturn, ℕ, suc, ◌+◌, ◌≤◌, ◌<◌, true, false, List, [],
  ◌∷◌, map, ◌≡◌, ◌≢◌, refl, ap, subst, ◌∙◌, arith, ◌==◌, ==_iff, length, take, Bool-cases, inl, inr,
}
use shooting_star.Base.Int.{ℤ, pos_part}
use shooting_star.Base.Sets.{contains, Distinct, keys}
use shooting_star.Base.Floats.{Double}
use shooting_star.Messages.Status.{status_ok, retriever_success}
use shooting_star.Messages.Profiles.{Profile}
use shooting_star.Messages.Candidates.{CandidateItem}
use shooting_star.Messages.Services.{RetrieverRequest}
use shooting_star.Retrieval.Retrievers.Scores.{
  Scored, Pool, add_candidate_contribution, sort_candidates, response_candidate, fill_response,
}
use shooting_star.Retrieval.Retrievers.Scores.Pool.{Edge, add_edges}
use shooting_star.Retrieval.Retrievers.Scores.Ranking.{
  IsKeyed, keys-upsert, add_candidate_contribution-IsKeyed, fill_response_items, fill_response_lem,
}
use shooting_star.Retrieval.Retrievers.Base.{empty_response, collect_item_ids_to_filter_out}
use shooting_star.Retrieval.Retrievers.ItemCf.Batches.{
  edges_from, IsPointwise, aggregate_similarity_candidates-edges,
}
use shooting_star.Retrieval.Retrievers.ItemCf.{
  ItemSimilarityStore, RetrieverItemCf, SessionData, aggregate_neighbors,
  aggregate_similarity_batch, slices, seed_ids, aggregate_batches, item_cf_labels, build_session,
  aggregate_similarity_candidates, do_retrieve,
}

module _ {R : Type 0} ⦃d : Double R⦄ (filter : List ℕ) where
  -- The pool is keyed, and holds nothing that the session filters out.
  pub record IsClean (s : SessionData R) : Type 0 where
    pub keyed : IsKeyed s.candidates
    pub filtering : s.item_ids_to_filter_out ≡ filter
    pub clean : (a : ℕ) → contains a filter ≡ true → contains a (keys s.candidates) ≡ false

  contribution_clean :
      (t n : Scored R) (pool : Pool R)
      → contains n.id filter ≡ false
      → ((a : ℕ) → contains a filter ≡ true → contains a (keys pool) ≡ false)
      → (a : ℕ) → contains a filter ≡ true
      → contains a (keys (add_candidate_contribution t n pool)) ≡ false
  unfolding add_candidate_contribution
  contribution_clean t n pool e clean a h =
      ground (arith, clean a h, keys-upsert a t n pool, ==_iff a n.id)

  aggregate_neighbors-IsClean :
      (t : Scored R) (ns : List (Scored R)) (s : SessionData R)
      → IsClean s
      → IsClean (aggregate_neighbors t ns s)
  unfolding aggregate_neighbors
  aggregate_neighbors-IsClean t [] s v = v
  aggregate_neighbors-IsClean t (n ∷ ns) s v =
      elim (Bool-cases (contains n.id s.item_ids_to_filter_out)) [
        | inl e ↦ rw e (
            aggregate_neighbors-IsClean t ns
              (record s { total_neighbors_filtered_out = suc s.total_neighbors_filtered_out })
              (record { keyed = v.keyed; filtering = v.filtering; clean = v.clean }))
        | inr e ↦ rw e (
            aggregate_neighbors-IsClean t ns
              (record s { candidates = add_candidate_contribution t n s.candidates })
              (record {
                keyed = add_candidate_contribution-IsKeyed t n s.candidates v.keyed;
                filtering = v.filtering;
                clean = contribution_clean t n s.candidates (rw v.filtering at e) v.clean;
              }))
      ]

  aggregate_similarity_batch-IsClean :
      (batch : List (Scored R)) (neighbors : List (List (Scored R))) (s : SessionData R)
      → IsClean s
      → IsClean (aggregate_similarity_batch batch neighbors s)
  unfolding aggregate_similarity_batch
  aggregate_similarity_batch-IsClean [] neighbors s v = v
  aggregate_similarity_batch-IsClean (t ∷ ts) [] s v = v
  aggregate_similarity_batch-IsClean (t ∷ ts) (ns ∷ rest) s v =
      aggregate_similarity_batch-IsClean ts rest _ (
        aggregate_neighbors-IsClean t ns
          (record s { total_neighbors_fetched = s.total_neighbors_fetched + length ns })
          (record { keyed = v.keyed; filtering = v.filtering; clean = v.clean }))

  aggregate_batches-IsClean :
      (store : ItemSimilarityStore R) (max_count : ℤ) (batches : List (List (Scored R)))
      (s : SessionData R)
      → IsClean s
      → OnReturn IsClean (aggregate_batches store max_count batches s)
  unfolding aggregate_batches
  aggregate_batches-IsClean store max_count [] s v = v
  aggregate_batches-IsClean store max_count (b ∷ bs) s v =
      elim (Attempt-cases (store (seed_ids b) max_count)) [
        | inl (message, e) ↦ rw (e, aggregate_batches) tt
        | inr (ns, e) ↦ elim (Bool-cases (length ns == length b)) [
          | inr no_match ↦ rw (e, no_match, aggregate_batches) tt
          | inl match ↦
              rw (e, match, aggregate_batches)
                (aggregate_batches-IsClean store max_count bs _
                  (aggregate_similarity_batch-IsClean b ns s v))
        ]
      ]

module _ {R : Type 0} ⦃d : Double R⦄ (retriever : RetrieverItemCf R) (request : RetrieverRequest R)
    (profile : Profile R) where
  -- Distinct items, no more than asked for, and none of the filter set.
  abbrev pub IsAcceptable : List (CandidateItem R) → Type 0
  IsAcceptable candidates =
      Distinct (map (λ (c : CandidateItem R). c.item_id) candidates)
      × (length candidates ≤ pos_part request.max_candidate_count)
      × ((a : ℕ)
          → contains a (collect_item_ids_to_filter_out profile) ≡ true
          → contains a (map (λ (c : CandidateItem R). c.item_id) candidates) ≡ false)

  nothing-IsAcceptable : IsAcceptable []
  nothing-IsAcceptable = (tt, omega arith, λ a h. refl)

  session-IsClean :
      IsClean (collect_item_ids_to_filter_out profile) (build_session retriever profile)
  unfolding build_session
  session-IsClean = record {
    keyed = record { distinct = tt; own = refl; real = refl };
    filtering = refl;
    clean = λ a h. refl;
  }

  filled-IsAcceptable :
      (s : SessionData R)
      → IsClean (collect_item_ids_to_filter_out profile) s
      → IsAcceptable (
          fill_response item_cf_labels retriever.score_multiplier request.max_candidate_count []
            (sort_candidates s.candidates))
  filled-IsAcceptable s v =
      let (distinct, bounded, only) =
        fill_response_items item_cf_labels retriever.score_multiplier request.max_candidate_count
          s.candidates v.keyed in
      (distinct, bounded, λ a h. only a (v.clean a h))

  -- Whatever the store answers, the response of item-CF never repeats an item, never exceeds the
  -- requested count, and never holds an item that the user has already dealt with.
  pub do_retrieve-IsAcceptable :
      IsAcceptable (do_retrieve retriever request profile empty_response).1.candidates
  unfolding do_retrieve aggregate_similarity_candidates
  do_retrieve-IsAcceptable =
      go (build_session retriever profile).trigger_seeds refl
        (aggregate_similarity_candidates retriever request (build_session retriever profile)) refl
    where
      go :
          (seeds : List (Scored R))
          → (build_session retriever profile).trigger_seeds ≡ seeds
          → (r : Attempt (SessionData R))
          → aggregate_similarity_candidates retriever request (build_session retriever profile) ≡ r
          → IsAcceptable (do_retrieve retriever request profile empty_response).1.candidates
      go [] e r f = rw (e, do_retrieve) nothing-IsAcceptable
      go (s ∷ ss) e (thrown m) f = rw (e, do_retrieve, f) nothing-IsAcceptable
      go (s ∷ ss) e (returned s') f =
          rw (e, do_retrieve, f)
            (filled-IsAcceptable s' (
              subst (OnReturn (IsClean (collect_item_ids_to_filter_out profile))) f (
                aggregate_batches-IsClean (collect_item_ids_to_filter_out profile) retriever.store
                  request.max_candidate_count
                  (slices (length (build_session retriever profile).trigger_seeds)
                    (pos_part retriever.redis_command_batch_size)
                    (build_session retriever profile).trigger_seeds)
                  (build_session retriever profile) session-IsClean)))

  fresh_pool : (build_session retriever profile).candidates ≡ []
  unfolding build_session
  fresh_pool = refl

  -- If the batch size is positive, the store answers each item on its own and there is a seed,
  -- retrieval succeeds with the best of the pool that the edges from the seeds to the items not
  -- filtered out make.
  pub do_retrieve_ranked :
      (find : ℕ → List (Scored R))
      → 0 < pos_part retriever.redis_command_batch_size
      → IsPointwise find retriever.store request.max_candidate_count
      → (build_session retriever profile).trigger_seeds ≢ []
      → let session = build_session retriever profile in
        let (status, response) = do_retrieve retriever request profile empty_response in
        (status ≡ status_ok)
        × (response.status ≡ retriever_success)
        × (response.candidates
            ≡ map (response_candidate item_cf_labels retriever.score_multiplier) (
                take (pos_part request.max_candidate_count) (
                  sort_candidates (
                    add_edges []
                      (edges_from session.item_ids_to_filter_out find session.trigger_seeds)))))
  unfolding do_retrieve
  do_retrieve_ranked find p h nonempty =
      let session = build_session retriever profile in
      let (s', done, pool) =
        aggregate_similarity_candidates-edges find retriever request session p h in
      ground (
        arith,
        fill_response_lem item_cf_labels retriever.score_multiplier request.max_candidate_count
            (sort_candidates s'.candidates),
        ap best (pool ∙ ap (λ q. add_edges q edges) fresh_pool),
      )
    where
      edges : List (Edge R)
      edges =
          let session = build_session retriever profile in
          edges_from session.item_ids_to_filter_out find session.trigger_seeds

      best : Pool R → List (CandidateItem R)
      best q =
          map (response_candidate item_cf_labels retriever.score_multiplier)
            (take (pos_part request.max_candidate_count) (sort_candidates q))
