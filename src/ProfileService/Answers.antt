-- ===== src/ProfileService/Answers.antt =====
-- What GetProfile answers.
use shooting_star.Base.{
  true, none, some, ◌≡◌, ◌↔◌, returned, Attempt-cases, Option-cases, inl, inr, arith,
}
use shooting_star.Messages.Status.{is_ok, profile_success, StatusCode}
use shooting_star.Messages.Services.{GetProfileRequest}
use shooting_star.Messages.Profiles.{Profile}
use shooting_star.ProfileService.{ProfileStore, get_profile}

module _ {R : Type 0} (store : ProfileStore R) (request : GetProfileRequest) where
  -- The RPC succeeds exactly when the store has a profile for the user, and then it answers that
  -- profile; it fails with NOT_FOUND exactly when the store answers that it has none. The response's
  -- status is a success exactly when the RPC succeeds, and the response carries the RPC's message.
  pub get_profile_lem :
      let reply = get_profile (record { profile_store = some store }) request in
      ((profile : Profile R)
        → (store request.user_id ≡ returned (some profile))
          ↔ ((is_ok reply.0 ≡ true) × (reply.1.profile ≡ profile)))
      × ((store request.user_id ≡ returned none) ↔ (reply.0.code ≡ StatusCode.not_found))
      × ((is_ok reply.0 ≡ true) ↔ (reply.1.status ≡ profile_success))
      × (reply.1.msg ≡ reply.0.error_message)
  unfolding get_profile
  get_profile_lem = elim (Attempt-cases (store request.user_id)) [
    | inl (message, e) ↦ ground (arith, e)
    | inr (found, e) ↦ elim (Option-cases found) [
      | inl n ↦ ground (arith, e, n)
      | inr (q, n) ↦ ground (arith, e, n)
    ]
  ]
