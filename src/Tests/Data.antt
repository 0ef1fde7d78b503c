-- ===== src/Tests/Data.antt =====
-- The inputs of the tests.
use shooting_star.Base.{ℕ, String, List, [], ◌∷◌, some, true, false}
use shooting_star.Base.Int.{ℤ, pos}
use shooting_star.Messages.Status.{retriever_success, retrieval_success, ranking_success, success}
use shooting_star.Messages.Candidates.{
  CandidateItem, RetrievalReason, item_type_video, reason_type_item_cf, entity_type_item,
}
use shooting_star.Messages.Profiles.{Profile, WeightedItem}
use shooting_star.Messages.Services.{
  RetrieverRequest, RetrieverResponse, RetrieveRequest, RetrieveResponse, RecommendRequest,
  RecommendResponse,
}
use shooting_star.Messages.Ranking.{RankRequest, RankResponse}
use shooting_star.Retrieval.Retrievers.Scores.{Scored}

abbrev pub reason : String → RetrievalReason ℤ
reason text = record {
  reason_type = reason_type_item_cf;
  trigger = record { entity_type = entity_type_item; entity_id = 9 };
  reason_score = pos 500;
  description = text;
}

abbrev pub candidate : ℕ → String → ℕ → CandidateItem ℤ
candidate k name score = record {
  item_id = k;
  item_type = item_type_video;
  author_id = 0;
  retriever = name;
  retrieve_score = pos score;
  reasons = reason name ∷ [];
  retrieval_signals = [];
}

-- Two retrievers that both answer item 1.
abbrev pub answers : List (List (CandidateItem ℤ))
answers =
    (candidate 1 "item_cf" 700 ∷ candidate 2 "item_cf" 300 ∷ [])
    ∷ (candidate 1 "user_cf" 200 ∷ candidate 0 "user_cf" 100 ∷ candidate 3 "user_cf" 50 ∷ [])
    ∷ []

abbrev pub weighted : ℕ → ℕ → WeightedItem ℤ
weighted k w = record { item_id = pos k; weight = pos w }

abbrev pub profile : Profile ℤ
profile = record {
  user_id = pos 7;
  interests = record {
    genres =
        record { genre = "Drama"; weight = pos 300 }
        ∷ record { genre = "Comedy"; weight = pos 100 }
        ∷ record { genre = "Drama"; weight = pos 200 }
        ∷ [];
    tags = record { tag = "noir"; weight = pos 400 } ∷ [];
  };
  negative_feedbacks = record { items = weighted 5 1000 ∷ []; genres = []; tags = [] };
  behaviors = record {
    liked_items = weighted 11 1000 ∷ [];
    recent_liked_items = weighted 12 1000 ∷ weighted 12 500 ∷ [];
    interested_items = weighted 11 1000 ∷ [];
    rated_items = pos 13 ∷ [];
  };
}

abbrev pub scored : ℕ → ℕ → Scored ℤ
scored k s = record { id = k; score = pos s }

abbrev pub retriever_request : RetrieverRequest ℤ
retriever_request = record {
  trace_id = "t";
  request_id = "r";
  user_id = pos 7;
  profile = some profile;
  max_candidate_count = pos 2;
}

abbrev pub retriever_response : List (CandidateItem ℤ) → RetrieverResponse ℤ
retriever_response candidates = record {
  status = retriever_success;
  msg = "";
  candidate_count = pos 0;
  candidates = candidates;
}

abbrev pub retrieve_request : RetrieveRequest ℤ
retrieve_request = record {
  trace_id = "t";
  request_id = "r";
  user_id = pos 7;
  profile = some profile;
  max_candidate_count = pos 2;
}

abbrev pub retrieve_response : List (CandidateItem ℤ) → RetrieveResponse ℤ
retrieve_response candidates = record {
  status = retrieval_success;
  msg = "";
  candidate_count = pos 0;
  candidates = candidates;
}

abbrev pub recommend_request : RecommendRequest
recommend_request = record {
  trace_id = "t";
  request_id = "r";
  user_id = pos 7;
  max_results = pos 2;
}

abbrev pub recommend_response : RecommendResponse ℤ
recommend_response = record { status = success; msg = ""; candidates = [] }

abbrev pub rank_request : RankRequest ℤ
rank_request = record {
  trace_id = "t";
  request_id = "r";
  user_id = pos 7;
  profile = some profile;
  candidates =
      candidate 1 "item_cf" 700 ∷ candidate 2 "item_cf" 900 ∷ candidate 1 "user_cf" 400 ∷ [];
  max_results = pos 2;
  options = record { ranker = ""; include_score_factors = true; include_item_features = false };
}

abbrev pub rank_response : RankResponse ℤ
rank_response = record {
  status = ranking_success;
  msg = "";
  input_candidate_count = pos 0;
  ranked_candidate_count = pos 0;
  ranked_candidates = [];
}
