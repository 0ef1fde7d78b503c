-- ===== src/Tests/Profiles.antt =====
-- Runs of the profile service.
use shooting_star.Base.{
  true, Option, none, some, List, [], ◌∷◌, ◌≡◌, ◌↔◌, refl, returned, thrown, if◌then◌else◌, ◌==◌,
}
use shooting_star.Base.Int.{ℤ, pos, negsuc, pos_part}
use shooting_star.Messages.Status.{
  StatusCode, status_ok, failure, is_ok, profile_success, profile_system_error,
  profile_user_not_found, profile_invalid_request,
}
use shooting_star.Messages.Profiles.{Profile}
use shooting_star.Messages.Services.{GetProfileRequest, BatchGetUserCfProfilesRequest}
use shooting_star.Retrieval.Retrievers.UserCf.{load_trigger_user_profiles}
use shooting_star.ProfileService.{
  ProfileStore, get_profile, batch_get_user_cf_profiles, fill_user_cf_profile, new_result,
}
use shooting_star.ProfileService.Answers.{get_profile_lem}
use shooting_star.ProfileService.Batches.{
  batch_get_user_cf_profiles-results, batch_get_user_cf_profiles-thrown,
  load_trigger_user_profiles-stored,
}
use shooting_star.Tests.Data as Data

-- A store that has the user 7.
abbrev found : ℤ → Option (Profile ℤ)
found user_id = if pos_part user_id == 7 then some Data.profile else none

abbrev store : ProfileStore ℤ
store user_id = returned (found user_id)

-- A store that fails for the user 9.
abbrev failing : ProfileStore ℤ
failing user_id = if pos_part user_id == 9 then thrown "timeout" else store user_id

abbrev single : GetProfileRequest
single = record { trace_id = "t"; request_id = "r"; user_id = pos 7 }

abbrev batch : List ℤ → BatchGetUserCfProfilesRequest
batch user_ids = record { trace_id = "t"; request_id = "r"; user_ids = user_ids }

get_profile_lem_example :
    let reply = get_profile (record { profile_store = some store }) single in
    ((profile : Profile ℤ)
      → (returned (some Data.profile) ≡ returned (some profile))
        ↔ ((is_ok reply.0 ≡ true) × (reply.1.profile ≡ profile)))
    × ((returned (some Data.profile) ≡ returned none) ↔ (reply.0.code ≡ StatusCode.not_found))
    × ((is_ok reply.0 ≡ true) ↔ (reply.1.status ≡ profile_success))
    × (reply.1.msg ≡ reply.0.error_message)
get_profile_lem_example = get_profile_lem store single

batch_get_user_cf_profiles-results_example :
    batch_get_user_cf_profiles
      (record { profile_store = some store })
      (batch (pos 7 ∷ negsuc 0 ∷ pos 8 ∷ []))
    ≡ (
      status_ok,
      record {
        status = profile_success;
        msg = "";
        results =
            record {
              status = profile_success;
              user_id = pos 7;
              profile = fill_user_cf_profile Data.profile;
            }
            ∷ record (new_result (negsuc 0)) { status = profile_invalid_request }
            ∷ record (new_result (pos 8)) { status = profile_user_not_found }
            ∷ [];
      },
    )
batch_get_user_cf_profiles-results_example =
    batch_get_user_cf_profiles-results store (batch (pos 7 ∷ negsuc 0 ∷ pos 8 ∷ [])) (
      λ h. (found (pos 7), refl),
      (λ h. (found (negsuc 0), refl), (λ h. (found (pos 8), refl), tt)),
    )

batch_get_user_cf_profiles-thrown_example :
    batch_get_user_cf_profiles
      (record { profile_store = some failing })
      (batch (pos 8 ∷ pos 9 ∷ pos 7 ∷ []))
    ≡ (
      failure StatusCode.internal "timeout",
      record {
        status = profile_system_error;
        msg = "timeout";
        results =
            record (new_result (pos 8)) { status = profile_user_not_found }
            ∷ new_result (pos 9)
            ∷ [];
      },
    )
batch_get_user_cf_profiles-thrown_example =
    batch_get_user_cf_profiles-thrown failing (batch (pos 8 ∷ pos 9 ∷ pos 7 ∷ [])) (pos 8 ∷ [])
      (pos 7 ∷ []) (pos 9) "timeout" refl (λ h. (none, refl), tt) refl refl

load_trigger_user_profiles-stored_example :
    load_trigger_user_profiles
      (batch_get_user_cf_profiles (record { profile_store = some store }))
      "t"
      "g"
      (7 ∷ 8 ∷ 0 ∷ [])
    ≡ returned (some (fill_user_cf_profile Data.profile) ∷ none ∷ none ∷ [])
load_trigger_user_profiles-stored_example =
    load_trigger_user_profiles-stored store "t" "g" (7 ∷ 8 ∷ 0 ∷ [])
      (λ id h. (found (pos id), refl))
