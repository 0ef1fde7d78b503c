-- ===== src/Ranking/Heuristic/Order.antt =====
-- The response of the ranker: which candidates, in which order, at which positions.
use shooting_star.Base.{
  ℕ, zero, suc, Bool, false, List, [], ◌∷◌, ◌++◌, ◌≡◌, ◌≢◌, refl, ap, ◌∙◌, arith, map, Option, none,
  some, All, returned, length, take, min, ◌==◌, ==_refl, length-map, length-take,
}
use shooting_star.Base.Int.{ℤ, pos, pos_part}
use shooting_star.Base.Sets.{contains, contains-take, Distinct, Distinct-take}
use shooting_star.Base.Sort.{sort, IsSorted, length-sort, Distinct-sort, contains-sort}
use shooting_star.Base.Sort.Order.{higher_first, AllNumbers, sort-IsSorted}
use shooting_star.Base.Floats.{Double, IsOrdered}
use shooting_star.Messages.Status.{status_ok, ranking_success}
use shooting_star.Messages.Candidates.{CandidateItem}
use shooting_star.Messages.Ranking.{RankRequest, RankResponse, RankedCandidateItem}
use shooting_star.Retrieval.Orchestrator.Rounds.Index.{item_ids}
use shooting_star.Ranking.Scoring.{
  ItemIndexEntry, ItemIndexStore, HeuristicRankTask, ScoredCandidate, make_task, add_factor,
  add_item_factors, score_candidate, score_candidates,
}
use shooting_star.Ranking.Heuristic.{
  normalize_and_merge_candidates, ranks_before, fill_ranked_candidate, fill_ranked, rank_scored,
  rank_candidates, run,
}
use shooting_star.Ranking.Heuristic.Candidates.{ids-normalize_and_merge_candidates}

-- The positions from `start`, `count` of them.
positions_from : ℕ → ℕ → List ℤ
positions_from start zero = []
positions_from start (suc count) = pos start ∷ positions_from (suc start) count

module _ {R : Type 0} where
  abbrev scored_ids : List (ScoredCandidate R) → List ℕ
  scored_ids = map λ s. s.candidate.item_id

  abbrev ranked_ids : List (RankedCandidateItem R) → List ℕ
  ranked_ids = map λ r. r.candidate.item_id

  positions-fill_ranked :
      (request : RankRequest R) (index : ℕ) (ss : List (ScoredCandidate R))
      → map (λ (r : RankedCandidateItem R). r.rank_position) (fill_ranked request index ss)
        ≡ positions_from (suc index) (length ss)
  unfolding fill_ranked fill_ranked_candidate positions_from
  positions-fill_ranked request index [] = refl
  positions-fill_ranked request index (s ∷ ss) =
      ap (◌∷◌ (pos (suc index))) (positions-fill_ranked request (suc index) ss)

  ids-fill_ranked :
      (request : RankRequest R) (index : ℕ) (ss : List (ScoredCandidate R))
      → ranked_ids (fill_ranked request index ss) ≡ scored_ids ss
  unfolding fill_ranked fill_ranked_candidate
  ids-fill_ranked request index [] = refl
  ids-fill_ranked request index (s ∷ ss) =
      ap (◌∷◌ s.candidate.item_id) (ids-fill_ranked request (suc index) ss)

  length-fill_ranked :
      (request : RankRequest R) (index : ℕ) (ss : List (ScoredCandidate R))
      → length (fill_ranked request index ss) ≡ length ss
  unfolding fill_ranked
  length-fill_ranked request index [] = refl
  length-fill_ranked request index (s ∷ ss) = ap suc (length-fill_ranked request (suc index) ss)

  scored_ids-take :
      (n : ℕ) (ss : List (ScoredCandidate R)) → scored_ids (take n ss) ≡ take n (scored_ids ss)
  scored_ids-take zero ss = refl
  scored_ids-take (suc n) [] = refl
  scored_ids-take (suc n) (s ∷ ss) = ap (◌∷◌ s.candidate.item_id) (scored_ids-take n ss)

module _ {R : Type 0} ⦃d : Double R⦄ where
  -- The order of the response: a higher score first, then a smaller item id.
  abbrev pub stands_before : RankedCandidateItem R → RankedCandidateItem R → Bool
  stands_before = higher_first (λ r. r.rank_score) (λ r. r.candidate.item_id)

  All-take :
      (P : ScoredCandidate R → Type 0) (n : ℕ) (ss : List (ScoredCandidate R))
      → All P ss
      → All P (take n ss)
  All-take P zero ss h = tt
  All-take P (suc n) [] h = tt
  All-take P (suc n) (s ∷ ss) h = (h.0, All-take P n ss h.1)

  IsSorted-take :
      (n : ℕ) (ss : List (ScoredCandidate R))
      → IsSorted ranks_before ss
      → IsSorted ranks_before (take n ss)
  IsSorted-take zero ss h = tt
  IsSorted-take (suc n) [] h = tt
  IsSorted-take (suc n) (s ∷ ss) h = (All-take _ n ss h.0, IsSorted-take n ss h.1)

  All-fill_ranked :
      (request : RankRequest R) (i j : ℕ) (s : ScoredCandidate R) (ss : List (ScoredCandidate R))
      → All (λ t. ranks_before t s ≡ false) ss
      → All
          (λ r. stands_before r (fill_ranked_candidate request s i) ≡ false)
          (fill_ranked request j ss)
  unfolding fill_ranked fill_ranked_candidate higher_first
  All-fill_ranked request i j s [] h = tt
  All-fill_ranked request i j s (t ∷ ss) h = (h.0, All-fill_ranked request i (suc j) s ss h.1)

  IsSorted-fill_ranked :
      (request : RankRequest R) (index : ℕ) (ss : List (ScoredCandidate R))
      → IsSorted ranks_before ss
      → IsSorted stands_before (fill_ranked request index ss)
  unfolding fill_ranked
  IsSorted-fill_ranked request index [] h = tt
  IsSorted-fill_ranked request index (s ∷ ss) h = (
    All-fill_ranked request (suc index) (suc index) s ss h.0,
    IsSorted-fill_ranked request (suc index) ss h.1,
  )

  candidate-score_candidate :
      (task : HeuristicRankTask R) (c : CandidateItem R) (entry : Option (ItemIndexEntry R))
      → (score_candidate task c entry).candidate ≡ c
  unfolding score_candidate add_factor add_item_factors
  candidate-score_candidate task c none = refl
  candidate-score_candidate task c (some entry) = refl

  ids-score_candidates :
      (task : HeuristicRankTask R) (cs : List (CandidateItem R))
      (entries : List (Option (ItemIndexEntry R)))
      → length entries ≡ length cs
      → scored_ids (score_candidates task cs entries) ≡ item_ids cs
  unfolding score_candidates
  ids-score_candidates task [] entries h = refl
  ids-score_candidates task (c ∷ cs) [] h = absurd (omega arith)
  ids-score_candidates task (c ∷ cs) (e ∷ es) h =
      ground (arith, candidate-score_candidate task c e, ids-score_candidates task cs es)

module _ {R : Type 0} ⦃d : Double R⦄ where
  -- What the theorems say of a response that ranks `ss`.
  pub record IsRanking (request : RankRequest R) (ids : List ℕ) (response : RankResponse R)
      : Type 0 where
    succeeds : response.status ≡ ranking_success
    pub bounded :
        length response.ranked_candidates ≡ min (pos_part request.max_results) (length ids)
    counted : response.ranked_candidate_count ≡ pos (length response.ranked_candidates)
    positioned :
        map (λ (r : RankedCandidateItem R). r.rank_position) response.ranked_candidates
        ≡ positions_from 1 (length response.ranked_candidates)
    pub distinct : Distinct (ranked_ids response.ranked_candidates)
    pub known :
        (a : ℕ)
        → contains a ids ≡ false
        → contains a (ranked_ids response.ranked_candidates) ≡ false

  best : RankRequest R → List (ScoredCandidate R) → List (ScoredCandidate R)
  best request ss = take (pos_part request.max_results) (sort ranks_before ss)

  ranked-rank_scored :
      (task : HeuristicRankTask R) (response : RankResponse R) (ss : List (ScoredCandidate R))
      → response.ranked_candidates ≡ []
      → (rank_scored task response ss).ranked_candidates
        ≡ fill_ranked task.request 0 (best task.request ss)
  unfolding rank_scored best
  ranked-rank_scored task response ss h =
      ap (λ rs. rs ++ fill_ranked task.request 0 (best task.request ss)) h

  fill_ranked-IsRanking :
      (request : RankRequest R) (ss : List (ScoredCandidate R)) (response : RankResponse R)
      → response.status ≡ ranking_success
      → response.ranked_candidate_count ≡ pos (length response.ranked_candidates)
      → response.ranked_candidates ≡ fill_ranked request 0 (best request ss)
      → Distinct (scored_ids ss)
      → IsRanking request (scored_ids ss) response
  unfolding best
  fill_ranked-IsRanking request ss response succeeds counted ranked distinct =
      let n = pos_part request.max_results in
      let sorted = sort ranks_before ss in
      let ids : ranked_ids response.ranked_candidates ≡ take n (scored_ids sorted) =
        ap ranked_ids ranked
        ∙ ids-fill_ranked request 0 (take n sorted)
        ∙ scored_ids-take n sorted in
      record {
        succeeds = succeeds;
        bounded =
            ap length ranked
            ∙ length-fill_ranked request 0 (take n sorted)
            ∙ omega (
              arith,
              length-take n sorted,
              length-sort ranks_before ss,
              length-map (λ (s : ScoredCandidate R). s.candidate.item_id) ss,
            );
        counted = counted;
        positioned =
            rw (ranked, length-fill_ranked request 0 (take n sorted))
              (positions-fill_ranked request 0 (take n sorted));
        distinct = rw ids (Distinct-take n _ (Distinct-sort ranks_before _ ss distinct));
        known = λ a h. rw ids (contains-take n a _ (contains-sort ranks_before _ a ss ∙ h));
      }

  succeeds :
      (task : HeuristicRankTask R) (response : RankResponse R) (ss : List (ScoredCandidate R))
      → (rank_scored task response ss).status ≡ ranking_success
  unfolding rank_scored
  succeeds task response ss = refl

  counted :
      (task : HeuristicRankTask R) (response : RankResponse R) (ss : List (ScoredCandidate R))
      → let r = rank_scored task response ss in
        r.ranked_candidate_count ≡ pos (length r.ranked_candidates)
  unfolding rank_scored
  counted task response ss = refl

  rank_scored-IsRanking :
      (task : HeuristicRankTask R) (response : RankResponse R) (ss : List (ScoredCandidate R))
      → response.ranked_candidates ≡ []
      → Distinct (scored_ids ss)
      → IsRanking task.request (scored_ids ss) (rank_scored task response ss)
  rank_scored-IsRanking task response ss h distinct =
      fill_ranked-IsRanking task.request ss (rank_scored task response ss)
        (succeeds task response ss) (counted task response ss)
        (ranked-rank_scored task response ss h) distinct

  rank_scored-IsSorted :
      (o : IsOrdered R) (task : HeuristicRankTask R) (response : RankResponse R)
      (ss : List (ScoredCandidate R))
      → response.ranked_candidates ≡ []
      → Distinct (scored_ids ss)
      → AllNumbers (λ s. s.rank_score) (λ s. s.candidate.item_id) ss
      → IsSorted stands_before (rank_scored task response ss).ranked_candidates
  unfolding best
  rank_scored-IsSorted o task response ss h distinct n =
      rw (ranked-rank_scored task response ss h) (
        IsSorted-fill_ranked task.request 0 _ (
          IsSorted-take (pos_part task.request.max_results) (sort ranks_before ss)
            (sort-IsSorted (λ s. s.rank_score) (λ s. s.candidate.item_id) o ss n distinct)))

module _ {R : Type 0} ⦃d : Double R⦄ (request : RankRequest R) (store : ItemIndexStore R)
    (given : RankResponse R) where
  -- What the ranker makes of the request's candidates, and of the store's entries for them.
  abbrev pub merged : List (CandidateItem R)
  merged = normalize_and_merge_candidates request.candidates

  abbrev pub scored : List (Option (ItemIndexEntry R)) → List (ScoredCandidate R)
  scored entries = score_candidates (make_task request (some store)) merged entries

  run-merged :
      run (make_task request (some store)) given
      ≡ rank_candidates (make_task request (some store)) store (record given { msg = "" }) merged
  unfolding run make_task
  run-merged = refl

  same_request :
      {ids : List ℕ} {response : RankResponse R}
      → IsRanking (make_task request (some store)).request ids response
      → IsRanking request ids response
  unfolding make_task
  same_request v = v

  scored-Distinct :
      (entries : List (Option (ItemIndexEntry R)))
      → length entries ≡ length merged
      → Distinct (scored_ids (scored entries))
  scored-Distinct entries same =
      rw (ids-score_candidates (make_task request (some store)) merged entries same)
        (ids-normalize_and_merge_candidates request.candidates).1

  run-scored :
      (entries : List (Option (ItemIndexEntry R)))
      → merged ≢ []
      → store (item_ids merged) ≡ returned entries
      → length entries ≡ length merged
      → run (make_task request (some store)) given
        ≡ returned (
          status_ok,
          rank_scored (make_task request (some store)) (record given { msg = "" }) (scored entries),
        )
  unfolding rank_candidates
  run-scored entries nonempty answered same = run-merged ∙ go merged nonempty answered same
    where
      go :
          (cs : List (CandidateItem R))
          → cs ≢ []
          → store (item_ids cs) ≡ returned entries
          → length entries ≡ length cs
          → rank_candidates (make_task request (some store)) store (record given { msg = "" }) cs
            ≡ returned (
              status_ok,
              rank_scored
                  (make_task request (some store))
                  (record given { msg = "" })
                  (score_candidates (make_task request (some store)) cs entries),
            )
      go [] n a s = absurd (n refl)
      go (c ∷ cs) n a s =
          ground (arith, a, s, ==_refl (length (c ∷ cs)), ap (λ (n' : ℕ). n' == length (c ∷ cs)) s)

  -- If there is a candidate, the store answers with an entry or none for each item and the given
  -- response holds no ranked candidate, ranking succeeds: the response holds as many items as asked
  -- for and present, each once and from the merged candidates, at positions counted from one.
  pub run_ranks :
      (entries : List (Option (ItemIndexEntry R)))
      → merged ≢ []
      → store (item_ids merged) ≡ returned entries
      → length entries ≡ length merged
      → given.ranked_candidates ≡ []
      → (response : RankResponse R) × (run (make_task request (some store)) given
          ≡ returned (status_ok, response))
        × IsRanking request (item_ids merged) response
  run_ranks entries nonempty answered same fresh = (
    rank_scored (make_task request (some store)) (record given { msg = "" }) (scored entries),
    run-scored entries nonempty answered same,
    same_request (
        rw (ids-score_candidates (make_task request (some store)) merged entries same) at (
          rank_scored-IsRanking (make_task request (some store)) (record given { msg = "" })
            (scored entries) fresh (scored-Distinct entries same))),
  )

  -- If there is a candidate, the store answers with an entry or none for each item, the given
  -- response holds no ranked candidate and no score is NaN, then the ranked candidates of a
  -- successful run stand by falling score, and by rising item id where the scores are equal.
  pub run-IsSorted :
      (o : IsOrdered R) (entries : List (Option (ItemIndexEntry R))) (response : RankResponse R)
      → merged ≢ []
      → store (item_ids merged) ≡ returned entries
      → length entries ≡ length merged
      → given.ranked_candidates ≡ []
      → AllNumbers (λ s. s.rank_score) (λ s. s.candidate.item_id) (scored entries)
      → run (make_task request (some store)) given ≡ returned (status_ok, response)
      → IsSorted stands_before response.ranked_candidates
  run-IsSorted o entries response nonempty answered same fresh numbers ran =
      let ranked =
        rank_scored-IsSorted o (make_task request (some store)) (record given { msg = "" })
          (scored entries) fresh (scored-Distinct entries same) numbers in
      let is_it : rank_scored (make_task request (some store)) (record given { msg = "" })
            (scored entries)
          ≡ response =
        cc (run-scored entries nonempty answered same) in
      rw is_it at ranked
