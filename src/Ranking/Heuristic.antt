-- ===== src/Ranking/Heuristic.antt =====
-- heuristic_ranker.cpp: `Run`, which merges the candidates of the request, scores them, and returns
-- the best in order. The ranker's own copies of the functions on signals and legacy fields are those
-- of the orchestrator, and share its model (Retrieval/Orchestrator/Merge). The response pointer is
-- never null.
pub mod Candidates
pub mod Order
use shooting_star.Base.{
  ℕ, suc, String, Bool, List, [], ◌∷◌, ◌++◌, foldl, none, some, if◌then◌else◌, ◌==◌, not, map,
  length, update, take, Attempt, returned, thrown,
}
use shooting_star.Base.Int.{pos, pos_part}
use shooting_star.Base.Text.{concat, to_string}
use shooting_star.Base.Sets.{lookup}
use shooting_star.Base.Floats.{Double}
use shooting_star.Base.Sort.{sort}
use shooting_star.Base.Sort.Order.{higher_first}
use shooting_star.Messages.Status.{
  StatusCode, Status, status_ok, failure, ranking_success, ranking_system_error,
  ranking_empty_candidates,
}
use shooting_star.Messages.Candidates.{CandidateItem}
use shooting_star.Messages.Ranking.{
  RankRequest, RankResponse, RankedCandidateItem, RankingItemFeatures,
}
use shooting_star.Retrieval.Orchestrator.Merge.{normalize_candidate, merge_candidate}
use shooting_star.Retrieval.Orchestrator.Rounds.{Merged, no_candidates}
use shooting_star.Ranking.Scoring.{
  ItemIndexEntry, ItemIndexStore, HeuristicRankTask, ScoredCandidate, score_candidates,
}

module _ {R : Type 0} ⦃d : Double R⦄ where
  -- What the loop of `NormalizeAndMergeCandidates` does with one candidate.
  unfoldable pub merge_step : Merged R → CandidateItem R → Merged R
  merge_step m c = if c.item_id == 0 then m else elim (lookup c.item_id m.index) [
    | some position ↦ record m { candidates = update m.candidates position (merge_candidate c) }
    | none ↦ record {
      candidates = m.candidates ++ (normalize_candidate c ∷ []);
      index = (c.item_id, length m.candidates) ∷ m.index;
    }
  ]

  unfoldable pub normalize_and_merge_candidates : List (CandidateItem R) → List (CandidateItem R)
  normalize_and_merge_candidates cs = (foldl merge_step no_candidates cs).candidates

  -- The order of the `stable_sort`.
  abbrev pub ranks_before : ScoredCandidate R → ScoredCandidate R → Bool
  ranks_before = higher_first (λ s. s.rank_score) (λ s. s.candidate.item_id)

module _ {R : Type 0} where
  unfoldable pub fill_item_features : ItemIndexEntry R → RankingItemFeatures R
  fill_item_features entry = record {
    item_id = entry.item_id;
    title = entry.title;
    year = entry.year;
    genres = entry.genres;
    top_tags = map (λ t. record { tag = t.tag; weight = t.weight }) entry.top_tags;
    rating = record { avg = entry.rating.avg; count = entry.rating.count };
  }

  pub fill_ranked_candidate : RankRequest R → ScoredCandidate R → ℕ → RankedCandidateItem R
  fill_ranked_candidate request scored rank_position = record {
    candidate = scored.candidate;
    rank_score = scored.rank_score;
    rank_position = pos rank_position;
    ranker = "heuristic_v1";
    score_factors = if request.options.include_score_factors then scored.score_factors else [];
    item_features =
        if request.options.include_item_features
        then elim scored.item_index_entry [ none ↦ none | some e ↦ some (fill_item_features e) ]
        else none;
    retrieval_signals = scored.candidate.retrieval_signals;
  }

  -- The loop of `Run` that fills the response; `index` candidates stand before.
  pub fill_ranked : RankRequest R → ℕ → List (ScoredCandidate R) → List (RankedCandidateItem R)
  fill_ranked request index [] = []
  fill_ranked request index (s ∷ ss) =
      fill_ranked_candidate request s (suc index) ∷ fill_ranked request (suc index) ss

module _ {R : Type 0} ⦃d : Double R⦄ where
  unfoldable pub rank_failure : RankResponse R → String → Attempt (Status × RankResponse R)
  rank_failure response message = returned (
    failure StatusCode.internal message,
    record response { status = ranking_system_error; msg = message },
  )

  -- The end of `Run`, once each candidate has its entry.
  pub rank_scored : HeuristicRankTask R → RankResponse R → List (ScoredCandidate R) → RankResponse R
  rank_scored task response scored =
      let ranked =
        response.ranked_candidates
        ++ fill_ranked task.request 0
            (take (pos_part task.request.max_results) (sort ranks_before scored)) in
      record response {
        status = ranking_success;
        msg = "";
        ranked_candidate_count = pos (length ranked);
        ranked_candidates = ranked;
      }

  -- `Run` after the candidates are merged.
  pub rank_candidates :
      HeuristicRankTask R
      → ItemIndexStore R
      → RankResponse R
      → List (CandidateItem R)
      → Attempt (Status × RankResponse R)
  rank_candidates task store response [] = returned (
    status_ok,
    record response {
      status = ranking_empty_candidates;
      msg = "No candidates available for ranking.";
      ranked_candidate_count = pos 0;
    },
  )
  rank_candidates task store response (c ∷ cs) = elim (store (map (λ x. x.item_id) (c ∷ cs))) [
    | thrown message ↦ thrown message
    | returned entries ↦
        if not (length entries == length (c ∷ cs))
        then rank_failure response (
            concat (
              "Item index store returned "
              ∷ to_string (length entries)
              ∷ " entries for "
              ∷ to_string (length (c ∷ cs))
              ∷ " candidates."
              ∷ []))
        else returned
            (status_ok, rank_scored task response (score_candidates task (c ∷ cs) entries))
  ]

  pub run : HeuristicRankTask R → RankResponse R → Attempt (Status × RankResponse R)
  run task given =
      let response = record given { msg = "" } in
      elim task.item_index_store [
        | none ↦ rank_failure response "Item index store is not initialized."
        | some store ↦
            rank_candidates task store response
              (normalize_and_merge_candidates task.request.candidates)
      ]
