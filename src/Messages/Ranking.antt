-- ===== src/Messages/Ranking.antt =====
-- ranking.proto: what the ranking service receives and returns.
use shooting_star.Base.{ℕ, List, String, Bool, Option}
use shooting_star.Base.Int.{ℤ}
use shooting_star.Messages.Status.{RankingServiceStatus}
use shooting_star.Messages.Profiles.{Profile}
use shooting_star.Messages.Candidates.{CandidateItem, RetrievalSignal}

pub record RankingOptions : Type 0 where
  pub ranker : String
  pub include_score_factors : Bool
  pub include_item_features : Bool

pub record RankRequest (R : Type 0) : Type 0 where
  pub trace_id : String
  pub request_id : String
  pub user_id : ℤ
  pub profile : Option (Profile R)
  pub candidates : List (CandidateItem R)
  pub max_results : ℤ
  pub options : RankingOptions

pub data RankingScoreFactorType : Type 0 where
  factor_unspecified factor_retrieval factor_interest : RankingScoreFactorType
  factor_negative_feedback factor_quality factor_diversity : RankingScoreFactorType
  factor_freshness factor_exploration : RankingScoreFactorType

pub record RankingScoreFactor (R : Type 0) : Type 0 where
  pub factor_type : RankingScoreFactorType
  pub name : String
  pub raw_value : R
  pub weight : R
  pub contribution : R
  pub description : String

pub record RankingWeightedTag (R : Type 0) : Type 0 where
  pub tag : String
  pub weight : R

pub record RankingRatingFeatures (R : Type 0) : Type 0 where
  pub avg : R
  pub count : ℤ

pub record RankingItemFeatures (R : Type 0) : Type 0 where
  pub item_id : ℕ
  pub title : String
  pub year : ℤ
  pub genres : List String
  pub top_tags : List (RankingWeightedTag R)
  pub rating : RankingRatingFeatures R

pub record RankedCandidateItem (R : Type 0) : Type 0 where
  pub candidate : CandidateItem R
  pub rank_score : R
  pub rank_position : ℤ
  pub ranker : String
  pub score_factors : List (RankingScoreFactor R)
  pub item_features : Option (RankingItemFeatures R)
  pub retrieval_signals : List (RetrievalSignal R)

pub record RankResponse (R : Type 0) : Type 0 where
  pub status : RankingServiceStatus
  pub msg : String
  pub input_candidate_count : ℤ
  pub ranked_candidate_count : ℤ
  pub ranked_candidates : List (RankedCandidateItem R)
