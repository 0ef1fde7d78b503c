-- ===== src/Gateway.antt =====
-- gateway_service.cpp: `Recommend` asks the profile service, then the retrieval service, then the
-- ranking service, and stops at the first that fails. The stubs of the three services and the
-- GUIDs of the downstream requests are arguments. `Create`, which only opens the channels, and
-- logging are left out.
pub mod Replies
use shooting_star.Base.{
  String, Bool, true, false, [], ◌∷◌, ◌++◌, Option, none, some, if◌then◌else◌, ◌||◌, not, map,
  Attempt, returned, thrown, ◌&&◌,
}
use shooting_star.Base.Text.{concat, is_empty, to_string, to_string_ℤ}
use shooting_star.Messages.Status.{
  StatusCode, Status, status_ok, failure, is_ok, RetrievalServiceStatus, retrieval_success,
  retrieval_invalid_request, retrieval_status_number, ProfileServiceStatus, profile_success,
  profile_user_not_found, profile_status_number, RankingServiceStatus, ranking_success,
  ranking_invalid_request, ranking_status_number, RecommendationStatus, success, invalid_request,
  user_not_found, system_error,
}
use shooting_star.Messages.Profiles.{Profile}
use shooting_star.Messages.Services.{
  GetProfileRequest, GetProfileResponse, RetrieveRequest, RetrieveResponse, RecommendRequest,
  RecommendResponse,
}
use shooting_star.Messages.Ranking.{RankRequest, RankResponse}

abbrev pub ProfileStub : Type 0 → Type 0
ProfileStub R = GetProfileRequest → Status × GetProfileResponse R

abbrev pub RetrievalStub : Type 0 → Type 0
RetrievalStub R = RetrieveRequest R → Status × RetrieveResponse R

abbrev pub RankingStub : Type 0 → Type 0
RankingStub R = RankRequest R → Status × RankResponse R

-- A stub that is `none` is a null pointer.
pub record GatewayServiceImpl (R : Type 0) : Type 0 where
  pub profile_stub : Option (ProfileStub R)
  pub retrieval_stub : Option (RetrievalStub R)
  pub ranking_stub : Option (RankingStub R)

-- What `GenerateGuid` returns for each downstream request.
pub record Guids : Type 0 where
  pub profile : String
  pub retrieval : String
  pub ranking : String

abbrev pub is_profile_success : ProfileServiceStatus → Bool
is_profile_success profile_success = true
is_profile_success _ = false

abbrev pub is_profile_not_found : ProfileServiceStatus → Bool
is_profile_not_found profile_user_not_found = true
is_profile_not_found _ = false

abbrev pub is_not_found_code : StatusCode → Bool
is_not_found_code StatusCode.not_found = true
is_not_found_code _ = false

abbrev is_invalid_argument_code : StatusCode → Bool
is_invalid_argument_code StatusCode.invalid_argument = true
is_invalid_argument_code _ = false

abbrev pub is_retrieval_success : RetrievalServiceStatus → Bool
is_retrieval_success retrieval_success = true
is_retrieval_success _ = false

abbrev is_retrieval_invalid : RetrievalServiceStatus → Bool
is_retrieval_invalid retrieval_invalid_request = true
is_retrieval_invalid _ = false

abbrev pub is_ranking_success : RankingServiceStatus → Bool
is_ranking_success ranking_success = true
is_ranking_success _ = false

abbrev is_ranking_invalid : RankingServiceStatus → Bool
is_ranking_invalid ranking_invalid_request = true
is_ranking_invalid _ = false

-- `error_message`, with the service's own message if there is one.
unfoldable pub with_reason : String → String → String
with_reason error_message msg =
    if is_empty msg then error_message else concat (error_message ∷ " reason: " ∷ msg ∷ [])

-- INVALID_REQUEST with INVALID_ARGUMENT, or SYSTEM_ERROR with INTERNAL.
pub refuse : Bool → String → Status × RecommendationStatus
refuse true message = (failure StatusCode.invalid_argument message, invalid_request)
refuse false message = (failure StatusCode.internal message, system_error)

-- USER_NOT_FOUND with NOT_FOUND, or SYSTEM_ERROR with INTERNAL.
pub refuse_user : Bool → String → Status × RecommendationStatus
refuse_user true message = (failure StatusCode.not_found message, user_not_found)
refuse_user false message = (failure StatusCode.internal message, system_error)

unfoldable pub construct :
    {R : Type 0}
    → Option (ProfileStub R)
    → Option (RetrievalStub R)
    → Option (RankingStub R)
    → Attempt (GatewayServiceImpl R)
construct none retrieval ranking = thrown "GatewayServiceImpl profile_stub must not be null."
construct (some profile) none ranking = thrown "GatewayServiceImpl retrieval_stub must not be null."
construct (some profile) (some retrieval) none =
    thrown "GatewayServiceImpl ranking_stub must not be null."
construct (some profile) (some retrieval) (some ranking) = returned (record {
  profile_stub = some profile;
  retrieval_stub = some retrieval;
  ranking_stub = some ranking;
})

module _ (guids : Guids) (request : RecommendRequest) where
  unfoldable pub profile_request : GetProfileRequest
  profile_request = record {
    trace_id = request.request_id;
    request_id = guids.profile;
    user_id = request.user_id;
  }

module _ (request : RecommendRequest) where
  -- `FetchCandidates` and `FetchRankedCandidates` judge the answer of their service alike.
  pub judge :
      String → String → Status → Bool → Bool → String → String → Status × RecommendationStatus
  judge failed service status is_success is_invalid number msg =
      if not (is_ok status)
      then refuse (is_invalid_argument_code status.code)
          (concat (failed ∷ to_string_ℤ request.user_id ∷ ": " ∷ status.error_message ∷ []))
      else if not is_success
      then refuse is_invalid (
          with_reason
            (concat (
              service
              ∷ " service returned non-success status "
              ∷ number
              ∷ " for user "
              ∷ to_string_ℤ request.user_id
              ∷ "."
              ∷ []))
            msg)
      else (status_ok, success)

module _ {R : Type 0} (guids : Guids) (request : RecommendRequest) where
  unfoldable pub retrieval_request : Profile R → RetrieveRequest R
  retrieval_request profile = record {
    trace_id = request.request_id;
    request_id = guids.retrieval;
    user_id = request.user_id;
    profile = some profile;
    max_candidate_count = request.max_results;
  }

  unfoldable pub rank_request : Profile R → RetrieveResponse R → RankRequest R
  rank_request profile retrieved = record {
    trace_id = request.request_id;
    request_id = guids.ranking;
    user_id = request.user_id;
    profile = some profile;
    candidates = retrieved.candidates;
    max_results = request.max_results;
    options = record { ranker = ""; include_score_factors = false; include_item_features = false };
  }

  -- `FetchProfile` after the call: the status, the recommendation status, and `*profile`.
  pub read_profile :
      Profile R → Status → GetProfileResponse R → (Status × RecommendationStatus) × Profile R
  read_profile profile status response =
      if not (is_ok status)
      then if is_not_found_code status.code || is_profile_not_found response.status
        then (
          refuse_user true
              (concat ("User ID of " ∷ to_string_ℤ request.user_id ∷ " not found." ∷ [])),
          profile,
        )
        else (
          refuse_user false (
              concat (
                "Failed to fetch profile for user "
                ∷ to_string_ℤ request.user_id
                ∷ ": "
                ∷ status.error_message
                ∷ [])),
          profile,
        )
      else if not (is_profile_success response.status)
      then (
        refuse_user (is_profile_not_found response.status) (
            with_reason
              (concat (
                "Profile service returned non-success status "
                ∷ to_string (profile_status_number response.status)
                ∷ " for user "
                ∷ to_string_ℤ request.user_id
                ∷ "."
                ∷ []))
              response.msg),
        profile,
      )
      else ((status_ok, success), response.profile)

  pub fetch_profile :
      Option (ProfileStub R) → Profile R → (Status × RecommendationStatus) × Profile R
  fetch_profile none profile =
      (refuse_user false "Profile service client is not initialized.", profile)
  fetch_profile (some stub) profile =
      let (status, response) = stub (profile_request guids request) in
      read_profile profile status response

  -- The stub writes into the retrieval response.
  pub fetch_candidates :
      Option (RetrievalStub R)
      → Profile R
      → RetrieveResponse R
      → (Status × RecommendationStatus) × RetrieveResponse R
  fetch_candidates none profile response =
      (refuse false "Retrieval service client is not initialized.", response)
  fetch_candidates (some stub) profile response =
      let (status, answer) = stub (retrieval_request profile) in
      (
        judge request "Failed to fetch retrieval candidates for user " "Retrieval" status
            (is_retrieval_success answer.status) (is_retrieval_invalid answer.status)
            (to_string (retrieval_status_number answer.status)) answer.msg,
        answer,
      )

  pub fetch_ranked_candidates :
      Option (RankingStub R)
      → Profile R
      → RetrieveResponse R
      → RecommendResponse R
      → (Status × RecommendationStatus) × RecommendResponse R
  fetch_ranked_candidates none profile retrieved response =
      (refuse false "Ranking service client is not initialized.", response)
  fetch_ranked_candidates (some stub) profile retrieved response =
      let (status, answer) = stub (rank_request profile retrieved) in
      (
        judge request "Failed to rank candidates for user " "Ranking" status
            (is_ranking_success answer.status) (is_ranking_invalid answer.status)
            (to_string (ranking_status_number answer.status)) answer.msg,
        if is_ok status && is_ranking_success answer.status
            then record response {
              candidates = response.candidates ++ map (λ c. c.candidate) answer.ranked_candidates;
            }
            else response,
      )

-- The reply of `Recommend` after a failed step.
pub give_up :
    {R : Type 0}
    → Status × RecommendationStatus
    → RecommendResponse R
    → Status × RecommendResponse R
give_up (status, recommendation) response =
    (status, record response { status = recommendation; msg = status.error_message })

-- `Recommend`; the two messages it declares empty are arguments.
pub recommend :
    {R : Type 0}
    → GatewayServiceImpl R
    → Guids
    → Profile R
    → RetrieveResponse R
    → RecommendRequest
    → RecommendResponse R
    → Status × RecommendResponse R
recommend gateway guids no_profile no_candidates request given =
    let response = record given { msg = "" } in
    let (outcome, profile) = fetch_profile guids request gateway.profile_stub no_profile in
    if not (is_ok outcome.0)
    then give_up outcome response
    else let (outcome2, retrieved) =
        fetch_candidates guids request gateway.retrieval_stub profile no_candidates in
      if not (is_ok outcome2.0)
      then give_up outcome2 response
      else let (outcome3, filled) =
          fetch_ranked_candidates guids request gateway.ranking_stub profile retrieved response in
        (
          outcome3.0,
          record filled {
            status = outcome3.1;
            msg = if is_ok outcome3.0 then "" else outcome3.0.error_message;
          },
        )
