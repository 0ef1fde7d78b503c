-- ===== src/Retrieval/Retrievers/UserCf.antt =====
-- retriever_user_cf.cpp: similar users as trigger seeds, their profiles in one batch from the
-- profile service, a pool of scored candidates from their behaviour, the best as the response.
-- Logging is left out. The similarity store and the profile service's stub are arguments, and so is
-- the GUID of the downstream request.
pub mod Alignment
pub mod Results
use shooting_star.Base.{
  ℕ, suc, ◌+◌, String, Bool, true, false, List, [], ◌∷◌, ◌++◌, Option, none, some, if◌then◌else◌,
  ◌==◌, ◌||◌, ◌&&◌, not, map, length, update, leb, Attempt, returned, thrown,
}
use shooting_star.Base.Int.{ℤ, pos, pos_part, leb_ℤ}
use shooting_star.Base.Text.{concat, to_string}
use shooting_star.Base.Sets.{contains}
use shooting_star.Base.Floats.{Double}
use shooting_star.Messages.Status.{
  StatusCode, Status, status_ok, failure, is_ok, ProfileServiceStatus, profile_success,
  profile_status_number, retriever_success, retriever_system_error, retriever_empty_trigger_seeds,
}
use shooting_star.Messages.Profiles.{Profile, UserCfProfile}
use shooting_star.Messages.Candidates.{entity_type_user, reason_type_user_cf}
use shooting_star.Messages.Services.{
  RetrieverRequest, RetrieverResponse, BatchGetUserCfProfilesRequest, UserCfProfileResult,
  BatchGetUserCfProfilesResponse,
}
use shooting_star.Retrieval.Retrievers.Scores.{
  Scored, Pool, Collected, is_nonpositive, append_weighted_items, add_candidate_contribution,
  sort_candidates, Labels, fill_response,
}
use shooting_star.Retrieval.Retrievers.Base.{Reply, Handler, collect_item_ids_to_filter_out}

-- `FindNeighborsByUserId` of a UserSimilarityStore.
abbrev UserSimilarityStore : Type 0 → Type 0
UserSimilarityStore R = ℕ → ℤ → Attempt (List (Scored R))

abbrev pub ProfileStub : Type 0 → Type 0
ProfileStub R = BatchGetUserCfProfilesRequest → Status × BatchGetUserCfProfilesResponse R

pub record RetrieverUserCf (R : Type 0) : Type 0 where
  pub store : UserSimilarityStore R
  pub profile_stub : ProfileStub R
  pub default_max_candidate_count : ℤ
  pub trigger_seed_user_count : ℤ
  pub score_multiplier : R

unfoldable pub construct :
    {R : Type 0} ⦃d : Double R⦄
    → Option (UserSimilarityStore R)
    → Option (ProfileStub R)
    → ℤ
    → ℤ
    → R
    → Attempt (RetrieverUserCf R)
construct ⦃d⦄ none stub default_count user_count multiplier =
    thrown "RetrieverUserCf user_similarity_store must not be null"
construct ⦃d⦄ (some store) none default_count user_count multiplier =
    thrown "RetrieverUserCf profile_stub must not be null"
construct ⦃d⦄ (some store) (some stub) default_count user_count multiplier =
    if leb_ℤ default_count (pos 0)
    then thrown "RetrieverUserCf default_max_candidate_count must be positive"
    else if leb_ℤ user_count (pos 0)
    then thrown "RetrieverUserCf trigger_seed_user_count must be positive"
    else if is_nonpositive multiplier
    then thrown "RetrieverUserCf score_multiplier must be positive"
    else returned (record {
      store = store;
      profile_stub = stub;
      default_max_candidate_count = default_count;
      trigger_seed_user_count = user_count;
      score_multiplier = multiplier;
    })

abbrev int64_max : ℕ
int64_max = 9223372036854775807

abbrev is_profile_success : ProfileServiceStatus → Bool
is_profile_success profile_success = true
is_profile_success _ = false

-- `user_id == 0 || user_id > int64_max` does not hold.
abbrev pub is_valid_user : ℕ → Bool
is_valid_user id = not (id == 0) && leb id int64_max

-- The positions of the valid users, counted from `i`, and those users.
unfoldable pub valid_indexes : ℕ → List ℕ → List ℕ
valid_indexes i [] = []
valid_indexes i (id ∷ ids) =
    if is_valid_user id then i ∷ valid_indexes (suc i) ids else valid_indexes (suc i) ids

unfoldable pub valid_user_ids : List ℕ → List ℤ
valid_user_ids [] = []
valid_user_ids (id ∷ ids) =
    if is_valid_user id then pos id ∷ valid_user_ids ids else valid_user_ids ids

module _ {R : Type 0} where
  unfoldable pub no_profiles : List ℕ → List (Option (UserCfProfile R))
  no_profiles [] = []
  no_profiles (_ ∷ ids) = none ∷ no_profiles ids

  -- The loop over the results: each successful one goes to the position of its user.
  unfoldable pub assign_results :
      List ℕ
      → List (UserCfProfileResult R)
      → List (Option (UserCfProfile R))
      → List (Option (UserCfProfile R))
  assign_results [] _ profiles = profiles
  assign_results (_ ∷ _) [] profiles = profiles
  assign_results (i ∷ indexes) (result ∷ results) profiles = assign_results indexes results (
      if is_profile_success result.status
      then update profiles i (λ _. some result.profile)
      else profiles)

  -- The `try` block of `LoadTriggerUserProfiles`.
  unfoldable pub load_trigger_user_profiles :
      ProfileStub R → String → String → List ℕ → Attempt (List (Option (UserCfProfile R)))
  load_trigger_user_profiles stub trace_id guid user_ids =
      let request_ids = valid_user_ids user_ids in
      let (status, response) =
        stub (record { trace_id = trace_id; request_id = guid; user_ids = request_ids }) in
      elim (valid_indexes 0 user_ids) [
        | [] ↦ returned (no_profiles user_ids)
        | i ∷ indexes ↦
            if not (is_ok status)
            then thrown (concat ("Failed to fetch user_cf profiles: " ∷ status.error_message ∷ []))
            else if not (is_profile_success response.status)
            then thrown (
                concat (
                  "Profile service returned status "
                  ∷ to_string (profile_status_number response.status)
                  ∷ " for user_cf profile batch."
                  ∷ []))
            else if not (length response.results == length (i ∷ indexes))
            then thrown "Profile service user_cf batch returned mismatched result size"
            else returned (assign_results (i ∷ indexes) response.results (no_profiles user_ids))
      ]

pub record SessionData (R : Type 0) : Type 0 where
  pub item_ids_to_filter_out : List ℕ
  pub candidates : Pool R
  pub missing_profile_count : ℕ
  pub total_neighbor_items_seen : ℕ
  pub total_neighbor_items_filtered_out : ℕ

module _ {R : Type 0} ⦃d : Double R⦄ where
  -- The loop of `CollectTriggerSeeds`: the users seen, and the seeds so far.
  unfoldable pub collect_seeds_from : ℕ → List (Scored R) → Collected R → Collected R
  collect_seeds_from request_user_id [] (seen, seeds) = (seen, seeds)
  collect_seeds_from request_user_id (neighbor ∷ rest) (seen, seeds) =
      collect_seeds_from request_user_id rest (
        if neighbor.id == 0 || neighbor.id == request_user_id || is_nonpositive neighbor.score
        then (seen, seeds)
        else if contains neighbor.id seen
        then (seen, seeds)
        else (neighbor.id ∷ seen, seeds ++ (neighbor ∷ [])))

  unfoldable pub collect_trigger_seeds : ℕ → List (Scored R) → List (Scored R)
  collect_trigger_seeds request_user_id neighbors =
      (collect_seeds_from request_user_id neighbors ([], [])).1

  unfoldable pub collect_neighbor_candidate_items : UserCfProfile R → List (Scored R)
  collect_neighbor_candidate_items profile =
      let recent =
        append_weighted_items (d.of_decimal (pos 1) 0) profile.recent_liked_items ([], []) in
      let liked = append_weighted_items (d.of_decimal (pos 7) 1) profile.liked_items recent in
      (append_weighted_items (d.of_decimal (pos 3) 1) profile.interested_items liked).1

  pub aggregate_items : Scored R → List (Scored R) → SessionData R → SessionData R
  aggregate_items seed [] session = session
  aggregate_items seed (item ∷ rest) session = aggregate_items seed rest (
      if contains item.id session.item_ids_to_filter_out
      then record session {
        total_neighbor_items_filtered_out = suc session.total_neighbor_items_filtered_out;
      }
      else record session { candidates = add_candidate_contribution seed item session.candidates })

  pub aggregate_profile : Scored R → Option (UserCfProfile R) → SessionData R → SessionData R
  aggregate_profile seed none session = record session {
    missing_profile_count = suc session.missing_profile_count;
  }
  aggregate_profile seed (some profile) session =
      let items = collect_neighbor_candidate_items profile in
      aggregate_items seed items (record session {
        total_neighbor_items_seen = session.total_neighbor_items_seen + length items;
      })

  -- The loop of `AggregateCandidates` over the seeds and their profiles.
  pub aggregate_candidates :
      List (Scored R) → List (Option (UserCfProfile R)) → SessionData R → SessionData R
  aggregate_candidates [] _ session = session
  aggregate_candidates (_ ∷ _) [] session = session
  aggregate_candidates (seed ∷ seeds) (profile ∷ profiles) session =
      aggregate_candidates seeds profiles (aggregate_profile seed profile session)

unfoldable pub user_cf_labels : Labels
user_cf_labels = record {
  retriever_name = "user_cf";
  reason_type = reason_type_user_cf;
  entity_type = entity_type_user;
  description = "Retrieved from user_cf using similar user ";
}

module _ {R : Type 0} ⦃d : Double R⦄ (retriever : RetrieverUserCf R) (guid : String) where
  -- `LoadTriggerSeeds`.
  unfoldable pub load_trigger_seeds : RetrieverRequest R → Attempt (List (Scored R))
  load_trigger_seeds request =
      let user_id = pos_part request.user_id in
      elim (retriever.store user_id retriever.trigger_seed_user_count) [
        | thrown message ↦ thrown message
        | returned neighbors ↦ returned (collect_trigger_seeds user_id neighbors)
      ]

  unfoldable pub system_error : RetrieverResponse R → String → Reply R
  system_error response message = (
    failure StatusCode.internal message,
    record response { status = retriever_system_error; msg = message },
  )

  pub empty_session : Profile R → SessionData R
  empty_session profile = record {
    item_ids_to_filter_out = collect_item_ids_to_filter_out profile;
    candidates = [];
    missing_profile_count = 0;
    total_neighbor_items_seen = 0;
    total_neighbor_items_filtered_out = 0;
  }

  -- Steps 2 to 5 of `DoRetrieve`, once there are seeds.
  pub retrieve_from_seeds :
      RetrieverRequest R → Profile R → RetrieverResponse R → List (Scored R) → Reply R
  retrieve_from_seeds request profile response seeds =
      elim (load_trigger_user_profiles retriever.profile_stub request.trace_id guid
        (map (λ s. s.id) seeds)) [
          | thrown message ↦ system_error response message
          | returned profiles ↦ (
            status_ok,
            record response {
              status = retriever_success;
              msg = "";
              candidates =
                  fill_response user_cf_labels retriever.score_multiplier
                    request.max_candidate_count response.candidates
                    (sort_candidates
                      (aggregate_candidates seeds profiles (empty_session profile)).candidates);
            },
          )
        ]

  unfoldable pub do_retrieve : Handler R
  do_retrieve request profile response = elim (load_trigger_seeds request) [
    | thrown message ↦ system_error response message
    | returned seeds ↦ elim seeds [
      | [] ↦ (
        status_ok,
        record response {
          status = retriever_empty_trigger_seeds;
          msg = "No similar users available as trigger seeds.";
        },
      )
      | seed ∷ rest ↦ retrieve_from_seeds request profile response (seed ∷ rest)
    ]
  ]
