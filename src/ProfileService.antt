-- ===== src/ProfileService.antt =====
-- profile/profile_service.cpp: profiles by user, one at a time and, for user-CF, in a batch. The store
-- is an argument, which answers a user with a profile or none, or throws. Logging is left out, and so
-- is Create, which only reads the configuration. A response starts as protobuf's default.
pub mod Answers
pub mod Batches
use shooting_star.Base.{
  String, Bool, List, [], ◌∷◌, Option, none, some, if◌then◌else◌, ◌||◌, Attempt, returned, thrown,
}
use shooting_star.Base.Int.{ℤ, pos, leb_ℤ, ltb_ℤ}
use shooting_star.Base.Text.{concat, to_string_ℤ}
use shooting_star.Messages.Status.{
  StatusCode, Status, status_ok, failure, ProfileServiceStatus, profile_success,
  profile_invalid_request, profile_user_not_found, profile_system_error,
}
use shooting_star.Messages.Profiles.{Profile, UserCfProfile, empty_profile}
use shooting_star.Messages.Services.{
  GetProfileRequest, GetProfileResponse, BatchGetUserCfProfilesRequest, UserCfProfileResult,
  BatchGetUserCfProfilesResponse,
}

-- `FindByUserId` of a ProfileStore.
abbrev pub ProfileStore : Type 0 → Type 0
ProfileStore R = ℤ → Attempt (Option (Profile R))

pub record ProfileServiceImpl (R : Type 0) : Type 0 where
  pub profile_store : Option (ProfileStore R)

abbrev user_not_found : ℤ → String
user_not_found user_id = concat ("User ID of " ∷ to_string_ℤ user_id ∷ " not found." ∷ [])

-- `numeric_limits<int>::max()`
abbrev int_max : ℤ
int_max = pos 2147483647

abbrev pub is_out_of_range : ℤ → Bool
is_out_of_range user_id = leb_ℤ user_id (pos 0) || ltb_ℤ int_max user_id

module _ {R : Type 0} where
  unfoldable pub construct : Option (ProfileStore R) → Attempt (ProfileServiceImpl R)
  construct none = thrown "ProfileServiceImpl profile_store must not be null."
  construct (some store) = returned record { profile_store = some store }

  abbrev empty_user_cf_profile : UserCfProfile R
  empty_user_cf_profile = record {
    user_id = pos 0;
    recent_liked_items = [];
    liked_items = [];
    interested_items = [];
  }

  abbrev pub fill_user_cf_profile : Profile R → UserCfProfile R
  fill_user_cf_profile source = record {
    user_id = source.user_id;
    recent_liked_items = source.behaviors.recent_liked_items;
    liked_items = source.behaviors.liked_items;
    interested_items = source.behaviors.interested_items;
  }

  abbrev refuse : StatusCode → ProfileServiceStatus → String → Status × GetProfileResponse R
  refuse code status message =
      (failure code message, record { status = status; msg = message; profile = empty_profile })

  pub get_profile : ProfileServiceImpl R → GetProfileRequest → Status × GetProfileResponse R
  get_profile service request = elim service.profile_store [
    | none ↦ refuse StatusCode.internal profile_system_error "Profile store is not initialized."
    | some store ↦ elim (store request.user_id) [
      | thrown message ↦ refuse StatusCode.internal profile_system_error message
      | returned none ↦
          refuse StatusCode.not_found profile_user_not_found (user_not_found request.user_id)
      | returned (some profile) ↦
          (status_ok, record { status = profile_success; msg = ""; profile = profile })
    ]
  ]

  -- A result as `add_results` makes it, with the user's id.
  abbrev pub new_result : ℤ → UserCfProfileResult R
  new_result user_id = record {
    status = profile_success;
    user_id = user_id;
    profile = empty_user_cf_profile;
  }

  abbrev pub found_result : ℤ → Option (Profile R) → UserCfProfileResult R
  found_result user_id none = record (new_result user_id) { status = profile_user_not_found }
  found_result user_id (some profile) = record (new_result user_id) {
    profile = fill_user_cf_profile profile;
  }

  -- The loop over the user ids: the results so far, and the exception that ended it.
  pub answer_users : ProfileStore R → List ℤ → List (UserCfProfileResult R) × Option String
  answer_users store [] = ([], none)
  answer_users store (user_id ∷ rest) =
      let answers = answer_users store rest in
      if is_out_of_range user_id
      then (record (new_result user_id) { status = profile_invalid_request } ∷ answers.0, answers.1)
      else (elim (store user_id) [
        | thrown message ↦ (new_result user_id ∷ [], some message)
        | returned profile ↦ (found_result user_id profile ∷ answers.0, answers.1)
      ])

  abbrev pub batch_reply :
      List (UserCfProfileResult R) × Option String → Status × BatchGetUserCfProfilesResponse R
  batch_reply (results, some message) = (
    failure StatusCode.internal message,
    record { status = profile_system_error; msg = message; results = results },
  )
  batch_reply (results, none) =
      (status_ok, record { status = profile_success; msg = ""; results = results })

  pub batch_get_user_cf_profiles :
      ProfileServiceImpl R
      → BatchGetUserCfProfilesRequest
      → Status × BatchGetUserCfProfilesResponse R
  batch_get_user_cf_profiles service request = elim service.profile_store [
    | none ↦ (
      failure StatusCode.internal "Profile store is not initialized.",
      record {
        status = profile_system_error;
        msg = "Profile store is not initialized.";
        results = [];
      },
    )
    | some store ↦ batch_reply (answer_users store request.user_ids)
  ]
