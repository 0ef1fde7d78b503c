-- ===== src/Messages/Services.antt =====
-- The requests and responses of the services. An optional sub-message is an `Option`.
use shooting_star.Base.{List, String, Option}
use shooting_star.Base.Int.{ℤ}
use shooting_star.Messages.Status.{
  RetrieverServiceStatus, RetrievalServiceStatus, ProfileServiceStatus, RecommendationStatus,
}
use shooting_star.Messages.Profiles.{Profile, UserCfProfile}
use shooting_star.Messages.Candidates.{CandidateItem}

pub record GetProfileRequest : Type 0 where
  pub trace_id : String
  pub request_id : String
  pub user_id : ℤ

pub record GetProfileResponse (R : Type 0) : Type 0 where
  pub status : ProfileServiceStatus
  pub msg : String
  pub profile : Profile R

pub record BatchGetUserCfProfilesRequest : Type 0 where
  pub trace_id : String
  pub request_id : String
  pub user_ids : List ℤ

pub record UserCfProfileResult (R : Type 0) : Type 0 where
  pub status : ProfileServiceStatus
  pub user_id : ℤ
  pub profile : UserCfProfile R

pub record BatchGetUserCfProfilesResponse (R : Type 0) : Type 0 where
  pub status : ProfileServiceStatus
  pub msg : String
  pub results : List (UserCfProfileResult R)

pub record RetrieverRequest (R : Type 0) : Type 0 where
  pub trace_id : String
  pub request_id : String
  pub user_id : ℤ
  pub profile : Option (Profile R)
  pub max_candidate_count : ℤ

pub record RetrieverResponse (R : Type 0) : Type 0 where
  pub status : RetrieverServiceStatus
  pub msg : String
  pub candidate_count : ℤ
  pub candidates : List (CandidateItem R)

-- retrieval.proto has the same fields in its request.
pub record RetrieveRequest (R : Type 0) : Type 0 where
  pub trace_id : String
  pub request_id : String
  pub user_id : ℤ
  pub profile : Option (Profile R)
  pub max_candidate_count : ℤ

pub record RetrieveResponse (R : Type 0) : Type 0 where
  pub status : RetrievalServiceStatus
  pub msg : String
  pub candidate_count : ℤ
  pub candidates : List (CandidateItem R)

pub record RecommendRequest : Type 0 where
  pub trace_id : String
  pub request_id : String
  pub user_id : ℤ
  pub max_results : ℤ

pub record RecommendResponse (R : Type 0) : Type 0 where
  pub status : RecommendationStatus
  pub msg : String
  pub candidates : List (CandidateItem R)
