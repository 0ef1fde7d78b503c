-- ===== src/Ranking/Scoring.antt =====
-- heuristic_ranker.cpp: `HeuristicRankTask` with the weights of its profile, and how it scores a
-- candidate: `ScoreCandidates`, `AddItemFactors`, `AddFactor` and the functions that they call. The
-- item index store is an argument.
pub mod Factors
use shooting_star.Base.{
  ℕ, String, Bool, List, [], ◌∷◌, ◌++◌, Option, none, some, if◌then◌else◌, ◌||◌, Attempt,
}
use shooting_star.Base.Int.{ℤ, pos, negsuc, leb_ℤ}
use shooting_star.Base.Floats.{Double, nought}
use shooting_star.Messages.Profiles.{Profile, empty_profile}
use shooting_star.Messages.Candidates.{CandidateItem}
use shooting_star.Messages.Ranking.{
  RankRequest, RankingScoreFactor, RankingScoreFactorType, factor_retrieval, factor_interest,
  factor_negative_feedback, factor_quality,
}
use shooting_star.Ranking.Weights.{
  build_genre_weights, build_tag_weights, build_negative_genre_weights, build_negative_tag_weights,
  build_negative_item_weights, lookup_weight, lookup_item_weight,
}

pub record ItemIndexWeightedTag (R : Type 0) : Type 0 where
  pub tag : String
  pub weight : R

pub record ItemIndexRating (R : Type 0) : Type 0 where
  pub avg : R
  pub count : ℤ

-- The fields of the index entry that ranking reads.
pub record ItemIndexEntry (R : Type 0) : Type 0 where
  pub item_id : ℕ
  pub title : String
  pub year : ℤ
  pub genres : List String
  pub top_tags : List (ItemIndexWeightedTag R)
  pub rating : ItemIndexRating R

-- `FindByItemIds`
abbrev pub ItemIndexStore : Type 0 → Type 0
ItemIndexStore R = List ℕ → Attempt (List (Option (ItemIndexEntry R)))

pub record HeuristicRankTask (R : Type 0) : Type 0 where
  pub request : RankRequest R
  pub item_index_store : Option (ItemIndexStore R)
  pub genre_weights : List (String × R)
  pub tag_weights : List (String × R)
  pub negative_genre_weights : List (String × R)
  pub negative_tag_weights : List (String × R)
  pub negative_item_weights : List (ℕ × R)

pub record ScoredCandidate (R : Type 0) : Type 0 where
  pub candidate : CandidateItem R
  pub item_index_entry : Option (ItemIndexEntry R)
  pub rank_score : R
  pub score_factors : List (RankingScoreFactor R)

-- `request.profile()`, which is empty if the request has none.
unfoldable pub profile_of : {R : Type 0} → RankRequest R → Profile R
profile_of request = elim request.profile [ none ↦ empty_profile | some profile ↦ profile ]

module _ {R : Type 0} ⦃d : Double R⦄ where
  unfoldable pub make_task : RankRequest R → Option (ItemIndexStore R) → HeuristicRankTask R
  make_task request store =
      let profile = profile_of request in
      record {
        request = request;
        item_index_store = store;
        genre_weights = build_genre_weights profile;
        tag_weights = build_tag_weights profile;
        negative_genre_weights = build_negative_genre_weights profile;
        negative_tag_weights = build_negative_tag_weights profile;
        negative_item_weights = build_negative_item_weights profile;
      }

  abbrev is_nonpositive : R → Bool
  is_nonpositive x = d.lt x nought || d.eq x nought

  -- The loop over the genres of an entry.
  unfoldable pub add_genres : List (String × R) → R → List String → R
  add_genres weights score [] = score
  add_genres weights score (genre ∷ genres) =
      add_genres weights (d.add score (lookup_weight weights genre)) genres

  -- The loop over its tags, which passes over those without a positive weight.
  unfoldable pub add_tags : List (String × R) → R → List (ItemIndexWeightedTag R) → R
  add_tags weights score [] = score
  add_tags weights score (tag ∷ tags) =
      add_tags weights
        (if is_nonpositive tag.weight then score else d.add score (lookup_weight weights tag.tag))
        tags

  -- `ComputeInterestScore`; `ComputeNegativeFeedbackScore` is the same function of its weights.
  unfoldable pub compute_interest_score :
      ItemIndexEntry R → List (String × R) → List (String × R) → R
  compute_interest_score entry genre_weights tag_weights =
      add_tags tag_weights (add_genres genre_weights nought entry.genres) entry.top_tags

  unfoldable pub compute_negative_feedback_score :
      ItemIndexEntry R → List (String × R) → List (String × R) → R
  compute_negative_feedback_score entry genre_weights tag_weights =
      add_tags tag_weights (add_genres genre_weights nought entry.genres) entry.top_tags

  unfoldable pub compute_quality_score : ItemIndexEntry R → R
  compute_quality_score entry =
      if is_nonpositive entry.rating.avg || leb_ℤ entry.rating.count (pos 0)
      then nought
      else d.mul (d.div entry.rating.avg (d.of_decimal (pos 5) 0))
          (d.log1p (d.of_decimal entry.rating.count 0))

  pub build_score_factor : RankingScoreFactorType → String → R → R → String → RankingScoreFactor R
  build_score_factor factor_type name raw_value weight description = record {
    factor_type = factor_type;
    name = name;
    raw_value = raw_value;
    weight = weight;
    contribution = d.mul raw_value weight;
    description = description;
  }

  unfoldable pub add_factor :
      R → R → RankingScoreFactorType → String → String → ScoredCandidate R → ScoredCandidate R
  add_factor raw_value weight factor_type name description scored =
      let factor = build_score_factor factor_type name raw_value weight description in
      record scored {
        rank_score = d.add scored.rank_score factor.contribution;
        score_factors = scored.score_factors ++ (factor ∷ []);
      }

  -- `AddItemFactors`: the negative feedback score and the candidate.
  unfoldable pub add_item_factors :
      HeuristicRankTask R → ItemIndexEntry R → R × ScoredCandidate R → R × ScoredCandidate R
  add_item_factors task entry (negative_feedback_score, scored) =
      let with_interest =
        add_factor (compute_interest_score entry task.genre_weights task.tag_weights)
          (d.of_decimal (pos 1) 0) factor_interest "interest_match"
          "Genre and tag overlap with positive interests." scored in
      (
        d.add negative_feedback_score (
            compute_negative_feedback_score entry task.negative_genre_weights
              task.negative_tag_weights),
        add_factor (compute_quality_score entry) (d.of_decimal (pos 1) 1) factor_quality "quality"
            "Rating average with log-scaled rating count." with_interest,
      )

  -- One turn of the loop of `ScoreCandidates`.
  unfoldable pub score_candidate :
      HeuristicRankTask R → CandidateItem R → Option (ItemIndexEntry R) → ScoredCandidate R
  score_candidate task c entry =
      let retrieved =
        add_factor c.retrieve_score (d.of_decimal (pos 1) 0) factor_retrieval "retrieval"
          "Aggregated retrieval score."
          (record {
            candidate = c;
            item_index_entry = entry;
            rank_score = nought;
            score_factors = [];
          }) in
      let before : R × ScoredCandidate R =
        (lookup_item_weight task.negative_item_weights c.item_id, retrieved) in
      let (negative, scored) = elim entry as (λ _. R × ScoredCandidate R) [
        | none ↦ before
        | some e ↦ add_item_factors task e before
      ] in
      add_factor negative (d.of_decimal (negsuc 0) 0) factor_negative_feedback "negative_feedback"
        "Item, genre, and tag overlap with negative feedback." scored

  -- The loop, over candidates and entries of the same number.
  unfoldable pub score_candidates :
      HeuristicRankTask R
      → List (CandidateItem R)
      → List (Option (ItemIndexEntry R))
      → List (ScoredCandidate R)
  score_candidates task [] _ = []
  score_candidates task (_ ∷ _) [] = []
  score_candidates task (c ∷ cs) (entry ∷ entries) =
      score_candidate task c entry ∷ score_candidates task cs entries
