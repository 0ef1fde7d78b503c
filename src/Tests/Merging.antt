-- ===== src/Tests/Merging.antt =====
-- Merging the answers of two retrievers.
use shooting_star.Base.{List, [], ◌∷◌, ◌++◌, some, ◌≡◌, refl, foldl, take, Perm}
use shooting_star.Base.Int.{ℤ, pos}
use shooting_star.Base.Floats.{milli}
use shooting_star.Messages.Candidates.{CandidateItem}
use shooting_star.Retrieval.Orchestrator.Merge.{
  ensure_retrieval_signals, rebuild_legacy_candidate_fields, normalize_candidate, merge_candidate,
}
use shooting_star.Retrieval.Orchestrator.Merge.Normal.{all_reasons}
use shooting_star.Retrieval.Orchestrator.Merge.Signals.{
  DistinctNames, retrievers, reasons-merge_candidate,
}
use shooting_star.Retrieval.Orchestrator.Rounds.{
  Merged, no_candidates, longest, absorb, merge_responses,
}
use shooting_star.Retrieval.Orchestrator.Rounds.Schedule.{
  column, columns, round_robin, merge_responses-round_robin,
}
use shooting_star.Retrieval.Orchestrator.Rounds.Index.{item_ids, IsValid}
use shooting_star.Retrieval.Orchestrator.Rounds.Items.{distinct_ids, ids-merge_responses}
use shooting_star.Retrieval.Orchestrator.Rounds.Combined.{
  find_item, with_item, combine, find_item-merge_responses,
}
use shooting_star.Ranking.Heuristic.{normalize_and_merge_candidates}
use shooting_star.Ranking.Heuristic.Candidates.{normalize_and_merge-merge_responses}
use shooting_star.Tests.Data.{candidate, answers}

abbrev target : CandidateItem ℤ
unfolding normalize_candidate ensure_retrieval_signals rebuild_legacy_candidate_fields
target = normalize_candidate (candidate 1 "item_cf" 700)

reasons-merge_candidate_example :
    Perm (merge_candidate (candidate 1 "user_cf" 200) target).reasons (
      all_reasons target.retrieval_signals
      ++ (normalize_candidate (candidate 1 "user_cf" 200)).reasons)
reasons-merge_candidate_example = reasons-merge_candidate (candidate 1 "user_cf" 200) target

target-DistinctNames : DistinctNames (retrievers target.retrieval_signals)
unfolding target normalize_candidate ensure_retrieval_signals rebuild_legacy_candidate_fields
target-DistinctNames = (refl, tt)

merge_responses-round_robin_example :
    merge_responses (pos 2) answers
    ≡ some (foldl (absorb (pos 2)) no_candidates (round_robin answers))
merge_responses-round_robin_example = merge_responses-round_robin (pos 2) answers

ids-merge_responses_example :
    (m : Merged ℤ) × (merge_responses (pos 2) answers ≡ some m)
    × (item_ids m.candidates ≡ take 2 (distinct_ids [] (item_ids (round_robin answers))))
    × IsValid m
ids-merge_responses_example = ids-merge_responses (pos 2) answers

merged : Merged ℤ
merged = foldl (absorb (pos 2)) no_candidates (round_robin answers)

merged-answers : merge_responses (pos 2) answers ≡ some merged
unfolding merged
merged-answers = merge_responses-round_robin (pos 2) answers

first : CandidateItem ℤ
first =
    merge_candidate (candidate 1 "user_cf" 200) (normalize_candidate (candidate 1 "item_cf" 700))

first-merged : find_item 1 merged.candidates ≡ some first
unfolding merged first find_item columns column longest absorb no_candidates round_robin
    normalize_candidate merge_candidate ensure_retrieval_signals rebuild_legacy_candidate_fields
first-merged = refl

find_item-merge_responses_example : combine (with_item 1 (round_robin answers)) ≡ some first
find_item-merge_responses_example =
    find_item-merge_responses (pos 2) answers 1 merged first merged-answers first-merged

normalize_and_merge-merge_responses_example :
    normalize_and_merge_candidates merged.candidates ≡ merged.candidates
normalize_and_merge-merge_responses_example =
    normalize_and_merge-merge_responses (pos 2) answers merged merged-answers

abbrev three : List (CandidateItem ℤ)
three = candidate 1 "item_cf" 700 ∷ candidate 2 "item_cf" 300 ∷ candidate 1 "user_cf" 200 ∷ []
