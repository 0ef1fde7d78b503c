-- ===== src/Messages/Status.antt =====
-- grpc::Status, and the status enumerations of the services with their wire numbers.
use shooting_star.Base.{String, Bool, true, false, ℕ}

pub data StatusCode : Type 0 where
  ok cancelled unknown invalid_argument deadline_exceeded not_found already_exists : StatusCode
  permission_denied resource_exhausted failed_precondition aborted out_of_range : StatusCode
  unimplemented internal unavailable data_loss unauthenticated : StatusCode

pub record Status : Type 0 where
  pub code : StatusCode
  pub error_message : String

abbrev pub status_ok : Status
status_ok = record { code = StatusCode.ok; error_message = "" }

abbrev pub failure : StatusCode → String → Status
failure c m = record { code = c; error_message = m }

abbrev is_ok_code : StatusCode → Bool
is_ok_code StatusCode.ok = true
is_ok_code _ = false

abbrev pub is_ok : Status → Bool
is_ok s = is_ok_code s.code

pub data RetrieverServiceStatus : Type 0 where
  retriever_success retriever_invalid_request retriever_user_not_found : RetrieverServiceStatus
  retriever_system_error retriever_empty_trigger_seeds : RetrieverServiceStatus

abbrev pub retriever_status_number : RetrieverServiceStatus → ℕ
retriever_status_number retriever_success = 0
retriever_status_number retriever_invalid_request = 1
retriever_status_number retriever_user_not_found = 2
retriever_status_number retriever_system_error = 3
retriever_status_number retriever_empty_trigger_seeds = 4

abbrev pub is_retriever_success : RetrieverServiceStatus → Bool
is_retriever_success retriever_success = true
is_retriever_success _ = false

pub data RetrievalServiceStatus : Type 0 where
  retrieval_success retrieval_invalid_request retrieval_user_not_found : RetrievalServiceStatus
  retrieval_system_error : RetrievalServiceStatus

abbrev pub retrieval_status_number : RetrievalServiceStatus → ℕ
retrieval_status_number retrieval_success = 0
retrieval_status_number retrieval_invalid_request = 1
retrieval_status_number retrieval_user_not_found = 2
retrieval_status_number retrieval_system_error = 3

pub data ProfileServiceStatus : Type 0 where
  profile_success profile_invalid_request profile_user_not_found : ProfileServiceStatus
  profile_system_error : ProfileServiceStatus

abbrev pub profile_status_number : ProfileServiceStatus → ℕ
profile_status_number profile_success = 0
profile_status_number profile_invalid_request = 1
profile_status_number profile_user_not_found = 2
profile_status_number profile_system_error = 3

pub data RankingServiceStatus : Type 0 where
  ranking_success ranking_invalid_request ranking_user_not_found : RankingServiceStatus
  ranking_system_error ranking_empty_candidates : RankingServiceStatus

abbrev pub ranking_status_number : RankingServiceStatus → ℕ
ranking_status_number ranking_success = 0
ranking_status_number ranking_invalid_request = 1
ranking_status_number ranking_user_not_found = 2
ranking_status_number ranking_system_error = 3
ranking_status_number ranking_empty_candidates = 4

pub data RecommendationStatus : Type 0 where
  success invalid_request user_not_found system_error : RecommendationStatus
