-- ===== src/Tests/Ranking.antt =====
-- The ranker on three candidates for two items.
use shooting_star.Base.{
  List, [], ◌∷◌, Option, none, some, ◌≡◌, ◌≢◌, refl, ==_refl, length, returned,
}
use shooting_star.Base.Int.{ℤ, pos}
use shooting_star.Base.Text.{str_eq}
use shooting_star.Base.Floats.{milli, milli-IsOrdered, nought}
use shooting_star.Base.Sort.{IsSorted}
use shooting_star.Base.Sort.Order.{AllNumbers}
use shooting_star.Messages.Status.{status_ok}
use shooting_star.Messages.Ranking.{RankResponse}
use shooting_star.Retrieval.Orchestrator.Rounds.{no_candidates}
use shooting_star.Retrieval.Orchestrator.Rounds.Index.{item_ids}
use shooting_star.Ranking.Weights.{
  genre_pairs, tag_pairs, build_genre_weights, build_tag_weights, build_negative_genre_weights,
  build_negative_tag_weights, lookup_weight,
}
use shooting_star.Ranking.Weights.Sums.{sum_from, lookup_weight-sum}
use shooting_star.Ranking.Scoring.{
  ItemIndexEntry, ItemIndexStore, make_task, score_candidate, score_candidates,
}
use shooting_star.Ranking.Heuristic.{merge_step, normalize_and_merge_candidates, run}
use shooting_star.Ranking.Scoring.Factors.{
  IsExplained, factors, factors_of, score_candidate-IsExplained,
}
use shooting_star.Ranking.Heuristic.Order.{
  merged, scored, IsRanking, stands_before, run_ranks, run-IsSorted,
}
use shooting_star.Tests.Data as Data

lookup_weight-sum_example :
    (lookup_weight (build_genre_weights Data.profile) "Drama"
      ≡ sum_from str_eq "Drama" nought (genre_pairs Data.profile.interests.genres))
    × (lookup_weight (build_tag_weights Data.profile) "Drama"
        ≡ sum_from str_eq "Drama" nought (tag_pairs Data.profile.interests.tags))
    × (lookup_weight (build_negative_genre_weights Data.profile) "Drama"
        ≡ sum_from str_eq "Drama" nought (genre_pairs Data.profile.negative_feedbacks.genres))
    × (lookup_weight (build_negative_tag_weights Data.profile) "Drama"
        ≡ sum_from str_eq "Drama" nought (tag_pairs Data.profile.negative_feedbacks.tags))
lookup_weight-sum_example = lookup_weight-sum Data.profile "Drama" refl

abbrev entry : ItemIndexEntry ℤ
entry = record {
  item_id = 1;
  title = "One";
  year = pos 1999;
  genres = "Drama" ∷ [];
  top_tags = record { tag = "noir"; weight = pos 500 } ∷ [];
  rating = record { avg = pos 4000; count = pos 12 };
}

-- An entry for the first candidate only.
abbrev store : ItemIndexStore ℤ
store ids = returned (some entry ∷ none ∷ [])

abbrev entries : List (Option (ItemIndexEntry ℤ))
entries = some entry ∷ none ∷ []

score_candidate-IsExplained_example :
    IsExplained (
      score_candidate
        (make_task Data.rank_request (some store))
        (Data.candidate 1 "item_cf" 700)
        (some entry))
    × (factors (
          score_candidate
            (make_task Data.rank_request (some store))
            (Data.candidate 1 "item_cf" 700)
            (some entry))
        ≡ factors_of
            (make_task Data.rank_request (some store))
            (Data.candidate 1 "item_cf" 700)
            (some entry))
score_candidate-IsExplained_example =
    score_candidate-IsExplained (make_task Data.rank_request (some store))
      (Data.candidate 1 "item_cf" 700) (some entry)

two_merged : merged Data.rank_request store Data.rank_response ≢ []
unfolding normalize_and_merge_candidates merge_step no_candidates
two_merged = λ e. cc

two_entries : length entries ≡ length (merged Data.rank_request store Data.rank_response)
unfolding normalize_and_merge_candidates merge_step no_candidates
two_entries = refl

run_ranks_example :
    (response : RankResponse ℤ) × (run (make_task Data.rank_request (some store)) Data.rank_response
      ≡ returned (status_ok, response))
    × IsRanking Data.rank_request
        (item_ids (merged Data.rank_request store Data.rank_response))
        response
run_ranks_example =
    run_ranks Data.rank_request store Data.rank_response entries two_merged refl two_entries refl

numbers :
    AllNumbers
      (λ s. s.rank_score)
      (λ s. s.candidate.item_id)
      (scored Data.rank_request store Data.rank_response entries)
unfolding normalize_and_merge_candidates merge_step no_candidates score_candidates score_candidate
numbers = (==_refl _, (==_refl _, tt))

response : RankResponse ℤ
response = run_ranks_example.0

ran :
    run (make_task Data.rank_request (some store)) Data.rank_response
    ≡ returned (status_ok, response)
unfolding response
ran = run_ranks_example.1

run-IsSorted_example : IsSorted stands_before response.ranked_candidates
run-IsSorted_example =
    run-IsSorted Data.rank_request store Data.rank_response milli-IsOrdered entries response
      two_merged refl two_entries refl numbers ran
