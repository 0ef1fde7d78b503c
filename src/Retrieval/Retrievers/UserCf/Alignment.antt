-- ===== src/Retrieval/Retrievers/UserCf/Alignment.antt =====
-- Every profile of the batch goes to the user that it was asked for.
use shooting_star.Base.{
  ℕ, suc, String, true, List, [], ◌∷◌, ◌++◌, Option, none, some, map, ◌≡◌, refl, ap, arith,
  if◌then◌else◌, length, update, length-append, append_assoc, returned,
}
use shooting_star.Messages.Status.{is_ok, profile_success}
use shooting_star.Messages.Profiles.{UserCfProfile}
use shooting_star.Messages.Services.{BatchGetUserCfProfilesRequest, UserCfProfileResult}
use shooting_star.Retrieval.Retrievers.UserCf.{
  ProfileStub, is_profile_success, is_valid_user, valid_indexes, valid_user_ids, no_profiles,
  assign_results, load_trigger_user_profiles,
}

module _ {R : Type 0} (answer : ℕ → UserCfProfileResult R) where
  -- The profile that the service's answer for one user gives.
  abbrev pub profile_of : ℕ → Option (UserCfProfile R)
  profile_of id =
      if is_valid_user id
      then (if is_profile_success (answer id).status then some (answer id).profile else none)
      else none

  -- The answers for the valid users, in order.
  unfoldable pub results : List ℕ → List (UserCfProfileResult R)
  results [] = []
  results (id ∷ ids) = if is_valid_user id then answer id ∷ results ids else results ids

  length-snoc :
      (done : List (Option (UserCfProfile R))) (x : Option (UserCfProfile R))
      → length (done ++ x ∷ []) ≡ suc (length done)
  length-snoc done x = omega (arith, length-append done (x ∷ []))

  update-past :
      (done rest : List (Option (UserCfProfile R)))
      (f : Option (UserCfProfile R) → Option (UserCfProfile R)) (p : Option (UserCfProfile R))
      → update (done ++ p ∷ rest) (length done) f ≡ done ++ f p ∷ rest
  update-past [] rest f p = refl
  update-past (q ∷ done) rest f p = ap (◌∷◌ q) (update-past done rest f p)

  -- What is filled in from the end of `done` on.
  abbrev Fills :
      ℕ → List (Option (UserCfProfile R)) → List ℕ → List (Option (UserCfProfile R)) → Type 0
  Fills i profiles ids filled = assign_results (valid_indexes i ids) (results ids) profiles ≡ filled

  Fills-snoc :
      (done : List (Option (UserCfProfile R))) (ids : List ℕ) (x : Option (UserCfProfile R))
      → Fills
          (length (done ++ x ∷ []))
          ((done ++ x ∷ []) ++ no_profiles ids)
          ids
          ((done ++ x ∷ []) ++ map profile_of ids)
      → Fills (suc (length done)) (done ++ x ∷ no_profiles ids) ids (done ++ x ∷ map profile_of ids)
  Fills-snoc done ids x h =
      rw
        (
          length-snoc done x,
          append_assoc done (x ∷ []) (no_profiles ids),
          append_assoc done (x ∷ []) (map profile_of ids),
        )
        at h

  assign_results_from :
      (ids : List ℕ) (done : List (Option (UserCfProfile R)))
      → assign_results (valid_indexes (length done) ids) (results ids) (done ++ no_profiles ids)
        ≡ done ++ map profile_of ids
  unfolding assign_results valid_indexes results no_profiles
  assign_results_from [] done = refl
  assign_results_from (id ∷ ids) done =
      let found = some (answer id).profile in
      ground (
        arith,
        update-past done (no_profiles ids) (λ _. found) none,
        Fills-snoc done ids found (assign_results_from ids (done ++ found ∷ [])),
        Fills-snoc done ids none (assign_results_from ids (done ++ none ∷ [])),
      )

  length-results : (i : ℕ) (ids : List ℕ) → length (results ids) ≡ length (valid_indexes i ids)
  unfolding results valid_indexes
  length-results i [] = refl
  length-results i (id ∷ ids) = ground (arith, length-results (suc i) ids)

  -- If the service accepts the batch and answers it user by user, each trigger user gets the
  -- profile of the answer for that very user, and none if the user has no valid id or the answer is
  -- no success.
  pub load_trigger_user_profiles-aligned :
      (stub : ProfileStub R) (trace_id guid : String) (user_ids : List ℕ)
      → ((request : BatchGetUserCfProfilesRequest)
          → request.user_ids ≡ valid_user_ids user_ids
          → (is_ok (stub request).0 ≡ true)
            × ((stub request).1.status ≡ profile_success)
            × ((stub request).1.results ≡ results user_ids))
      → load_trigger_user_profiles stub trace_id guid user_ids ≡ returned (map profile_of user_ids)
  unfolding load_trigger_user_profiles assign_results
  load_trigger_user_profiles-aligned stub trace_id guid user_ids h =
      let request : BatchGetUserCfProfilesRequest = record {
        trace_id = trace_id;
        request_id = guid;
        user_ids = valid_user_ids user_ids;
      } in
      ground (arith, h request refl, length-results 0 user_ids, assign_results_from user_ids [])
