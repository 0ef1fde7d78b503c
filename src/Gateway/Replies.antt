-- ===== src/Gateway/Replies.antt =====
-- What the gateway replies, for every answer of the three services.
use shooting_star.Base.{
  String, Bool, true, false, ◌++◌, Option, none, some, if◌then◌else◌, ◌||◌, not, map, ◌&&◌, ◌≡◌,
  refl, arith, Bool-cases, inl, inr, ap,
}
use shooting_star.Messages.Status.{
  StatusCode, Status, status_ok, is_ok, RecommendationStatus, success, invalid_request,
  user_not_found, system_error,
}
use shooting_star.Messages.Profiles.{Profile}
use shooting_star.Messages.Services.{
  GetProfileResponse, RetrieveResponse, RecommendRequest, RecommendResponse,
}
use shooting_star.Messages.Ranking.{RankResponse}
use shooting_star.Gateway.{
  ProfileStub, RetrievalStub, RankingStub, GatewayServiceImpl, Guids, is_profile_success,
  is_retrieval_success, is_ranking_success, is_not_found_code, is_profile_not_found, refuse,
  refuse_user, profile_request, retrieval_request, rank_request, read_profile, fetch_profile, judge,
  fetch_candidates, fetch_ranked_candidates, give_up, recommend,
}

-- The gRPC code that goes with a recommendation status.
pub code_of : RecommendationStatus → StatusCode
code_of success = StatusCode.ok
code_of invalid_request = StatusCode.invalid_argument
code_of user_not_found = StatusCode.not_found
code_of system_error = StatusCode.internal

-- The two statuses of an outcome agree, and success carries no message.
abbrev IsConsistent : Status × RecommendationStatus → Type 0
IsConsistent (status, recommendation) =
    (status.code ≡ code_of recommendation) × (is_ok status ≡ true → status.error_message ≡ "")

if-IsConsistent :
    (b : Bool) (x y : Status × RecommendationStatus)
    → IsConsistent x
    → IsConsistent y
    → IsConsistent (if b then x else y)
if-IsConsistent true x y p q = p
if-IsConsistent false x y p q = q

refuse-IsConsistent : (b : Bool) (m : String) → IsConsistent (refuse b m)
unfolding refuse code_of
refuse-IsConsistent true m = (refl, λ e. absurd (ground (arith, e)))
refuse-IsConsistent false m = (refl, λ e. absurd (ground (arith, e)))

refuse_user-IsConsistent : (b : Bool) (m : String) → IsConsistent (refuse_user b m)
unfolding refuse_user code_of
refuse_user-IsConsistent true m = (refl, λ e. absurd (ground (arith, e)))
refuse_user-IsConsistent false m = (refl, λ e. absurd (ground (arith, e)))

done-IsConsistent : IsConsistent (status_ok, success)
unfolding code_of
done-IsConsistent = (refl, λ e. refl)

judge-IsConsistent :
    (request : RecommendRequest) (failed service : String) (status : Status)
    (is_success is_invalid : Bool) (number msg : String)
    → IsConsistent (judge request failed service status is_success is_invalid number msg)
unfolding judge
judge-IsConsistent request failed service status is_success is_invalid number msg =
    if-IsConsistent (not (is_ok status)) _ _ (refuse-IsConsistent _ _)
      (if-IsConsistent (not is_success) _ _ (refuse-IsConsistent _ _) done-IsConsistent)

if_first :
    {R : Type 0} (b : Bool) (x y : (Status × RecommendationStatus) × R)
    → IsConsistent x.0
    → IsConsistent y.0
    → IsConsistent (if b then x else y).0
if_first true x y p q = p
if_first false x y p q = q

module _ {R : Type 0} (guids : Guids) (request : RecommendRequest) where
  fetch_profile-IsConsistent :
      (stub : Option (ProfileStub R)) (profile : Profile R)
      → IsConsistent (fetch_profile guids request stub profile).0
  unfolding fetch_profile read_profile
  fetch_profile-IsConsistent none profile = refuse_user-IsConsistent false _
  fetch_profile-IsConsistent (some stub) profile =
      let (status, answer) = stub (profile_request guids request) in
      if_first (not (is_ok status)) _ _
        (if_first (is_not_found_code status.code || is_profile_not_found answer.status) _ _
          (refuse_user-IsConsistent true _) (refuse_user-IsConsistent false _))
        (if_first (not (is_profile_success answer.status)) _ _ (refuse_user-IsConsistent _ _)
          done-IsConsistent)

  fetch_candidates-IsConsistent :
      (stub : Option (RetrievalStub R)) (profile : Profile R) (response : RetrieveResponse R)
      → IsConsistent (fetch_candidates guids request stub profile response).0
  unfolding fetch_candidates
  fetch_candidates-IsConsistent none profile response = refuse-IsConsistent false _
  fetch_candidates-IsConsistent (some stub) profile response =
      judge-IsConsistent request _ _ _ _ _ _ _

  fetch_ranked_candidates-IsConsistent :
      (stub : Option (RankingStub R)) (profile : Profile R) (retrieved : RetrieveResponse R)
      (response : RecommendResponse R)
      → IsConsistent (fetch_ranked_candidates guids request stub profile retrieved response).0
  unfolding fetch_ranked_candidates
  fetch_ranked_candidates-IsConsistent none profile retrieved response = refuse-IsConsistent false _
  fetch_ranked_candidates-IsConsistent (some stub) profile retrieved response =
      judge-IsConsistent request _ _ _ _ _ _ _

  -- For any gateway and any answers, the gRPC code of a reply is the one that goes with its status,
  -- and its message is the error message of the gRPC status.
  pub recommend_consistent :
      (gateway : GatewayServiceImpl R) (no_profile : Profile R) (no_candidates : RetrieveResponse R)
      (given : RecommendResponse R)
      → let (status, response) = recommend gateway guids no_profile no_candidates request given in
        (status.code ≡ code_of response.status) × (response.msg ≡ status.error_message)
  unfolding recommend give_up
  recommend_consistent gateway no_profile no_candidates given =
      let response = record given { msg = "" } in
      let (outcome, profile) = fetch_profile guids request gateway.profile_stub no_profile in
      let (outcome2, retrieved) =
        fetch_candidates guids request gateway.retrieval_stub profile no_candidates in
      let (outcome3, filled) =
        fetch_ranked_candidates guids request gateway.ranking_stub profile retrieved response in
      ground (
        arith,
        fetch_profile-IsConsistent gateway.profile_stub no_profile,
        fetch_candidates-IsConsistent gateway.retrieval_stub profile no_candidates,
        fetch_ranked_candidates-IsConsistent gateway.ranking_stub profile retrieved response,
      )

refuse-fails : (b : Bool) (m : String) → is_ok (refuse b m).0 ≡ false
unfolding refuse
refuse-fails true m = refl
refuse-fails false m = refl

refuse_user-fails : (b : Bool) (m : String) → is_ok (refuse_user b m).0 ≡ false
unfolding refuse_user
refuse_user-fails true m = refl
refuse_user-fails false m = refl

judge-is_ok :
    (request : RecommendRequest) (failed service : String) (status : Status)
    (is_success is_invalid : Bool) (number msg : String)
    → is_ok (judge request failed service status is_success is_invalid number msg).0
      ≡ (is_ok status && is_success)
unfolding judge
judge-is_ok request failed service status is_success is_invalid number msg =
    elim (Bool-cases (is_ok status)) [
      | inr e ↦ rw (e, judge) (refuse-fails _ _)
      | inl e ↦ elim (Bool-cases is_success) [
        | inr f ↦ rw (e, f, judge) (refuse-fails is_invalid _)
        | inl f ↦ rw (e, f, judge) refl
      ]
    ]

module _ {R : Type 0} (guids : Guids) (request : RecommendRequest) (no_profile : Profile R) where
  read_profile-is_ok :
      (status : Status) (answer : GetProfileResponse R)
      → is_ok (read_profile guids request no_profile status answer).0.0
        ≡ (is_ok status && is_profile_success answer.status)
  unfolding read_profile
  read_profile-is_ok status answer = elim (Bool-cases (is_ok status)) [
    | inr e ↦
        elim (Bool-cases (is_not_found_code status.code || is_profile_not_found answer.status)) [
          | inl f ↦ rw (e, f, read_profile) (refuse_user-fails true _)
          | inr f ↦ rw (e, f, read_profile) (refuse_user-fails false _)
        ]
    | inl e ↦ elim (Bool-cases (is_profile_success answer.status)) [
      | inr f ↦ rw (e, f, read_profile) (refuse_user-fails _ _)
      | inl f ↦ rw (e, f, read_profile) refl
    ]
  ]

  read_profile-profile :
      (status : Status) (answer : GetProfileResponse R)
      → (is_ok status && is_profile_success answer.status) ≡ true
      → (read_profile guids request no_profile status answer).1 ≡ answer.profile
  unfolding read_profile
  read_profile-profile status answer h = ground arith

module _ {R : Type 0} (profile_stub : ProfileStub R) (retrieval_stub : RetrievalStub R)
    (ranking_stub : RankingStub R) (guids : Guids) (request : RecommendRequest) where
  -- The answers of the services to the requests that the gateway makes.
  abbrev profile_answer : Status × GetProfileResponse R
  profile_answer = profile_stub (record {
    trace_id = request.request_id;
    request_id = guids.profile;
    user_id = request.user_id;
  })

  abbrev retrieval_answer : Status × RetrieveResponse R
  retrieval_answer = retrieval_stub (record {
    trace_id = request.request_id;
    request_id = guids.retrieval;
    user_id = request.user_id;
    profile = some profile_answer.1.profile;
    max_candidate_count = request.max_results;
  })

  abbrev pub ranking_answer : Status × RankResponse R
  ranking_answer = ranking_stub (record {
    trace_id = request.request_id;
    request_id = guids.ranking;
    user_id = request.user_id;
    profile = some profile_answer.1.profile;
    candidates = retrieval_answer.1.candidates;
    max_results = request.max_results;
    options = record { ranker = ""; include_score_factors = false; include_item_features = false };
  })

  abbrev pub all_succeeded : Bool
  all_succeeded =
      (is_ok profile_answer.0 && is_profile_success profile_answer.1.status)
      && (is_ok retrieval_answer.0 && is_retrieval_success retrieval_answer.1.status)
      && (is_ok ranking_answer.0 && is_ranking_success ranking_answer.1.status)

  -- The gateway that the constructor makes of the three stubs.
  abbrev pub gateway_of : GatewayServiceImpl R
  gateway_of = record {
    profile_stub = some profile_stub;
    retrieval_stub = some retrieval_stub;
    ranking_stub = some ranking_stub;
  }

  fetch_profile-is_ok :
      (no_profile : Profile R)
      → is_ok (fetch_profile guids request (some profile_stub) no_profile).0.0
        ≡ (is_ok profile_answer.0 && is_profile_success profile_answer.1.status)
  unfolding fetch_profile profile_request
  fetch_profile-is_ok no_profile =
      read_profile-is_ok guids request no_profile profile_answer.0 profile_answer.1

  fetch_profile-profile :
      (no_profile : Profile R)
      → (is_ok profile_answer.0 && is_profile_success profile_answer.1.status) ≡ true
      → (fetch_profile guids request (some profile_stub) no_profile).1 ≡ profile_answer.1.profile
  unfolding fetch_profile profile_request
  fetch_profile-profile no_profile =
      read_profile-profile guids request no_profile profile_answer.0 profile_answer.1

  fetch_candidates-lem :
      (no_candidates : RetrieveResponse R)
      → let fetched =
          fetch_candidates guids request
            (some retrieval_stub)
            profile_answer.1.profile
            no_candidates in
        (is_ok fetched.0.0
          ≡ (is_ok retrieval_answer.0 && is_retrieval_success retrieval_answer.1.status))
        × (fetched.1 ≡ retrieval_answer.1)
  unfolding fetch_candidates retrieval_request
  fetch_candidates-lem no_candidates = (judge-is_ok request _ _ _ _ _ _ _, refl)

  fetch_ranked_candidates-lem :
      (given : RecommendResponse R)
      → let fetched =
          fetch_ranked_candidates guids request
            (some ranking_stub)
            profile_answer.1.profile
            retrieval_answer.1
            given in
        let ok = is_ok ranking_answer.0 && is_ranking_success ranking_answer.1.status in
        (is_ok fetched.0.0 ≡ ok)
        × (fetched.1.candidates ≡ (
            if ok
            then given.candidates ++ map (λ c. c.candidate) ranking_answer.1.ranked_candidates
            else given.candidates))
  unfolding fetch_ranked_candidates rank_request
  fetch_ranked_candidates-lem given = (judge-is_ok request _ _ _ _ _ _ _, ground arith)

  -- What `Recommend` does after the candidates have come.
  after_candidates :
      Profile R → RetrieveResponse R → RecommendResponse R → Status × RecommendResponse R
  after_candidates profile retrieved response =
      let (outcome3, filled) =
        fetch_ranked_candidates guids request (some ranking_stub) profile retrieved response in
      (
        outcome3.0,
        record filled {
          status = outcome3.1;
          msg = if is_ok outcome3.0 then "" else outcome3.0.error_message;
        },
      )

  -- What `Recommend` does after the profile has come.
  after_profile :
      Profile R → RetrieveResponse R → RecommendResponse R → Status × RecommendResponse R
  after_profile profile no_candidates response =
      let (outcome2, retrieved) =
        fetch_candidates guids request (some retrieval_stub) profile no_candidates in
      if not (is_ok outcome2.0)
      then give_up outcome2 response
      else after_candidates profile retrieved response

  -- A gateway with the three stubs succeeds exactly if the three services do, each asked with what
  -- the ones before have answered; then it adds the ranked candidates, in their order, to those of
  -- the given response, and otherwise none.
  pub recommend_answered :
      (no_profile : Profile R) (no_candidates : RetrieveResponse R) (given : RecommendResponse R)
      → let (status, response) =
          recommend gateway_of guids no_profile no_candidates request given in
        (is_ok status ≡ all_succeeded)
        × (response.candidates ≡ (
            if all_succeeded
            then given.candidates ++ map (λ c. c.candidate) ranking_answer.1.ranked_candidates
            else given.candidates))
  unfolding recommend give_up after_profile after_candidates
  recommend_answered no_profile no_candidates given =
      let P = profile_answer in
      let first = fetch_profile-is_ok no_profile in
      elim (Bool-cases (is_ok P.0 && is_profile_success P.1.status)) [
        | inr e ↦ ground (arith, first, e)
        | inl e ↦
            let read = fetch_profile-profile no_profile e in
            let response = record given { msg = "" } in
            let (second, retrieved) = fetch_candidates-lem no_candidates in
            let (third, filled) = fetch_ranked_candidates-lem response in
            ground (
              arith,
              first,
              e,
              second,
              third,
              filled,
              ap (λ p. after_profile p no_candidates response) read,
              ap (λ v. after_candidates profile_answer.1.profile v response) retrieved,
            )
      ]
