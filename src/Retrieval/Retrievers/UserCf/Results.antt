-- ===== src/Retrieval/Retrievers/UserCf/Results.antt =====
-- What the user-CF retriever returns.
use shooting_star.Base.{
  ℕ, suc, String, false, List, [], ◌∷◌, ◌++◌, map, ◌≡◌, ◌≢◌, refl, ap, sym, ◌∙◌, arith,
  if◌then◌else◌, ◌==◌, ==_iff, ◌||◌, take, Bool-cases, inl, inr, Option, none, some, returned,
  map-append,
}
use shooting_star.Base.Int.{pos_part}
use shooting_star.Base.Sets.{contains, contains-append, Distinct, Distinct-snoc}
use shooting_star.Base.Floats.{Double}
use shooting_star.Messages.Status.{status_ok, retriever_success}
use shooting_star.Messages.Profiles.{Profile, UserCfProfile}
use shooting_star.Messages.Candidates.{CandidateItem}
use shooting_star.Messages.Services.{RetrieverRequest}
use shooting_star.Retrieval.Retrievers.Scores.{
  Scored, Pool, is_nonpositive, add_candidate_contribution, sort_candidates, response_candidate,
}
use shooting_star.Retrieval.Retrievers.Scores.Pool.{Edge, add_edges}
use shooting_star.Retrieval.Retrievers.Scores.Ranking.{fill_response_lem}
use shooting_star.Retrieval.Retrievers.Base.{empty_response, collect_item_ids_to_filter_out}
use shooting_star.Retrieval.Retrievers.UserCf.{
  RetrieverUserCf, SessionData, collect_seeds_from, collect_trigger_seeds,
  collect_neighbor_candidate_items, aggregate_items, aggregate_profile, aggregate_candidates,
  user_cf_labels, load_trigger_user_profiles, load_trigger_seeds, empty_session,
  retrieve_from_seeds, do_retrieve,
}

module _ {R : Type 0} where
  -- The edges from a seed to the items that are not filtered out.
  pub kept_edges : List ℕ → Scored R → List (Scored R) → List (Edge R)
  kept_edges filter seed [] = []
  kept_edges filter seed (n ∷ ns) =
      if contains n.id filter
      then kept_edges filter seed ns
      else (seed, n) ∷ kept_edges filter seed ns

module _ {R : Type 0} ⦃d : Double R⦄ (filter : List ℕ) where
  profile_edges : Scored R → Option (UserCfProfile R) → List (Edge R)
  profile_edges seed none = []
  profile_edges seed (some profile) =
      kept_edges filter seed (collect_neighbor_candidate_items profile)

  -- The edges from all seeds with a profile.
  pub edges_from : List (Scored R) → List (Option (UserCfProfile R)) → List (Edge R)
  unfolding profile_edges
  edges_from [] _ = []
  edges_from (_ ∷ _) [] = []
  edges_from (seed ∷ seeds) (profile ∷ profiles) =
      profile_edges seed profile ++ edges_from seeds profiles

  aggregate_items-edges :
      (seed : Scored R) (items : List (Scored R)) (s : SessionData R)
      → s.item_ids_to_filter_out ≡ filter
      → ((aggregate_items seed items s).item_ids_to_filter_out ≡ filter)
        × ((aggregate_items seed items s).candidates
            ≡ add_edges s.candidates (kept_edges filter seed items))
  unfolding aggregate_items kept_edges add_edges
  aggregate_items-edges seed [] s h = (h, refl)
  aggregate_items-edges seed (n ∷ ns) s h =
      let passed =
        aggregate_items-edges seed ns
          (record s { total_neighbor_items_filtered_out = suc s.total_neighbor_items_filtered_out })
          h in
      let added =
        aggregate_items-edges seed ns
          (record s { candidates = add_candidate_contribution seed n s.candidates }) h in
      elim (Bool-cases (contains n.id filter)) [
        | inl e ↦ rw (e, ap (contains n.id) h ∙ e, aggregate_items) passed
        | inr e ↦ rw (e, ap (contains n.id) h ∙ e, aggregate_items) added
      ]

  add_edges-append :
      (xs ys : List (Edge R)) (pool : Pool R)
      → add_edges pool (xs ++ ys) ≡ add_edges (add_edges pool xs) ys
  unfolding add_edges
  add_edges-append [] ys pool = refl
  add_edges-append ((t, n) ∷ xs) ys pool =
      add_edges-append xs ys (add_candidate_contribution t n pool)

  add_edges_nil : (pool : Pool R) → pool ≡ add_edges pool []
  unfolding add_edges
  add_edges_nil pool = refl

  aggregate_profile-edges :
      (seed : Scored R) (profile : Option (UserCfProfile R)) (s : SessionData R)
      → s.item_ids_to_filter_out ≡ filter
      → ((aggregate_profile seed profile s).item_ids_to_filter_out ≡ filter)
        × ((aggregate_profile seed profile s).candidates
            ≡ add_edges s.candidates (profile_edges seed profile))
  unfolding aggregate_profile profile_edges add_edges
  aggregate_profile-edges seed none s h = (h, refl)
  aggregate_profile-edges seed (some profile) s h =
      aggregate_items-edges seed (collect_neighbor_candidate_items profile) _ h

  aggregate_candidates-edges :
      (seeds : List (Scored R)) (profiles : List (Option (UserCfProfile R))) (s : SessionData R)
      → s.item_ids_to_filter_out ≡ filter
      → (aggregate_candidates seeds profiles s).candidates
        ≡ add_edges s.candidates (edges_from seeds profiles)
  unfolding aggregate_candidates edges_from
  aggregate_candidates-edges [] profiles s h = add_edges_nil s.candidates
  aggregate_candidates-edges (seed ∷ seeds) [] s h = add_edges_nil s.candidates
  aggregate_candidates-edges (seed ∷ seeds) (p ∷ ps) s h =
      let (kept, added) = aggregate_profile-edges seed p s h in
      aggregate_candidates-edges seeds ps (aggregate_profile seed p s) kept
      ∙ ap (λ pool. add_edges pool (edges_from seeds ps)) added
      ∙ sym (add_edges-append (profile_edges seed p) (edges_from seeds ps) s.candidates)

module _ {R : Type 0} ⦃d : Double R⦄ (request_user_id : ℕ) where
  -- What the seeds so far must be: distinct users, and none of them the requester or zero.
  record AreOthers (seen : List ℕ) (seeds : List (Scored R)) : Type 0 where
    same : (a : ℕ) → contains a seen ≡ contains a (map (λ (s : Scored R). s.id) seeds)
    distinct : Distinct (map (λ (s : Scored R). s.id) seeds)
    not_requester : contains request_user_id (map (λ (s : Scored R). s.id) seeds) ≡ false
    not_zero : contains 0 (map (λ (s : Scored R). s.id) seeds) ≡ false

  ids-snoc :
      (seeds : List (Scored R)) (n : Scored R)
      → map (λ (s : Scored R). s.id) (seeds ++ (n ∷ []))
        ≡ map (λ (s : Scored R). s.id) seeds ++ (n.id ∷ [])
  ids-snoc seeds n = map-append (λ (s : Scored R). s.id) seeds (n ∷ [])

  AreOthers-snoc :
      (n : Scored R) (seen : List ℕ) (seeds : List (Scored R))
      → (n.id == 0) ≡ false
      → (n.id == request_user_id) ≡ false
      → contains n.id seen ≡ false
      → AreOthers seen seeds
      → AreOthers (n.id ∷ seen) (seeds ++ (n ∷ []))
  AreOthers-snoc n seen seeds zero_no requester_no fresh v = record {
    same = λ a. rw (ids-snoc seeds n) (
        ground
          (arith, contains-append a (map (λ (s : Scored R). s.id) seeds) (n.id ∷ []), v.same a));
    distinct = rw (ids-snoc seeds n) (
        Distinct-snoc (map (λ (s : Scored R). s.id) seeds) n.id v.distinct
          (sym (v.same n.id) ∙ fresh));
    not_requester = rw (ids-snoc seeds n) (
        ground (
          arith,
          ==_iff request_user_id n.id,
          ==_iff n.id request_user_id,
          contains-append request_user_id (map (λ (s : Scored R). s.id) seeds) (n.id ∷ []),
          v.not_requester,
          v.not_zero,
        ));
    not_zero = rw (ids-snoc seeds n) (
        ground (
          arith,
          ==_iff 0 n.id,
          ==_iff n.id 0,
          contains-append 0 (map (λ (s : Scored R). s.id) seeds) (n.id ∷ []),
          v.not_requester,
          v.not_zero,
        ));
  }

  collect_seeds_from-AreOthers :
      (neighbors : List (Scored R)) (seen : List ℕ) (seeds : List (Scored R))
      → AreOthers seen seeds
      → let (seen', seeds') = collect_seeds_from request_user_id neighbors (seen, seeds) in
        AreOthers seen' seeds'
  unfolding collect_seeds_from
  collect_seeds_from-AreOthers [] seen seeds v = v
  collect_seeds_from-AreOthers (n ∷ ns) seen seeds v =
      elim (Bool-cases (n.id == 0 || n.id == request_user_id || is_nonpositive n.score)) [
        | inl bad ↦ rw (bad, collect_seeds_from) (collect_seeds_from-AreOthers ns seen seeds v)
        | inr good ↦ elim (Bool-cases (contains n.id seen)) [
          | inl old ↦
              rw (good, old, collect_seeds_from) (collect_seeds_from-AreOthers ns seen seeds v)
          | inr new ↦
              rw (good, new, collect_seeds_from)
                (collect_seeds_from-AreOthers ns (n.id ∷ seen) (seeds ++ (n ∷ []))
                  (AreOthers-snoc n seen seeds (ground arith) (ground arith) new v))
        ]
      ]

  -- The seeds that the user-CF retriever collects are distinct users, none of them the requester or
  -- user zero.
  collect_trigger_seeds-others :
      (neighbors : List (Scored R))
      → let users =
          map (λ (s : Scored R). s.id) (collect_trigger_seeds request_user_id neighbors) in
        Distinct users × (contains request_user_id users ≡ false) × (contains 0 users ≡ false)
  unfolding collect_trigger_seeds
  collect_trigger_seeds-others neighbors =
      let v =
        collect_seeds_from-AreOthers neighbors [] []
          (record { same = λ a. refl; distinct = tt; not_requester = refl; not_zero = refl }) in
      (v.distinct, v.not_requester, v.not_zero)

module _ {R : Type 0} ⦃d : Double R⦄ (retriever : RetrieverUserCf R) (guid : String)
    (request : RetrieverRequest R) (profile : Profile R) where
  session_filter :
      (empty_session retriever guid profile).item_ids_to_filter_out
      ≡ collect_item_ids_to_filter_out profile
  unfolding empty_session
  session_filter = refl

  fresh_pool : (empty_session retriever guid profile).candidates ≡ []
  unfolding empty_session
  fresh_pool = refl

  -- If the similarity store has answered with some seeds and the profile service with profiles,
  -- retrieval succeeds with the best of the pool that the edges from the seeds to the items of
  -- their profiles make, those left out that the user has already dealt with.
  pub do_retrieve_best :
      (seeds : List (Scored R)) (profiles : List (Option (UserCfProfile R)))
      → load_trigger_seeds retriever guid request ≡ returned seeds
      → seeds ≢ []
      → load_trigger_user_profiles retriever.profile_stub request.trace_id guid
          (map (λ (s : Scored R). s.id) seeds)
        ≡ returned profiles
      → let (status, response) = do_retrieve retriever guid request profile empty_response in
        (status ≡ status_ok)
        × (response.status ≡ retriever_success)
        × (response.candidates
            ≡ map (response_candidate user_cf_labels retriever.score_multiplier) (
                take (pos_part request.max_candidate_count) (
                  sort_candidates (
                    add_edges []
                      (edges_from (collect_item_ids_to_filter_out profile) seeds profiles)))))
  unfolding do_retrieve retrieve_from_seeds
  do_retrieve_best [] profiles e nonempty f = absurd (nonempty refl)
  do_retrieve_best (seed ∷ rest) profiles e nonempty f =
      let pool =
        aggregate_candidates-edges (collect_item_ids_to_filter_out profile) (seed ∷ rest) profiles
          (empty_session retriever guid profile) session_filter in
      rw (e, do_retrieve, retrieve_from_seeds, f)
        (
          refl,
          refl,
          fill_response_lem user_cf_labels retriever.score_multiplier request.max_candidate_count _
              ∙ ap best (pool ∙ ap (λ q. add_edges q edges) fresh_pool),
        )
    where
      edges : List (Edge R)
      edges = edges_from (collect_item_ids_to_filter_out profile) (seed ∷ rest) profiles

      best : Pool R → List (CandidateItem R)
      best q =
          map (response_candidate user_cf_labels retriever.score_multiplier)
            (take (pos_part request.max_candidate_count) (sort_candidates q))
