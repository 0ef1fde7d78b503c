-- ===== src/ProfileService/Batches.antt =====
-- What BatchGetUserCfProfiles answers, alone and to the user-CF retriever.
use shooting_star.Base.{
  ℕ, String, Bool, true, false, not, ◌&&◌, List, [], ◌∷◌, ◌++◌, Option, none, some, map, ◌≡◌, refl,
  sym, ◌∙◌, ap, Attempt, returned, thrown, Option-cases, Bool-cases, inl, inr, arith, All, subst,
  if◌then◌else◌,
}
use shooting_star.Base.Int.{ℤ, pos, leb_ℤ}
use shooting_star.Messages.Status.{
  is_ok, status_ok, failure, StatusCode, profile_success, profile_system_error,
  profile_invalid_request, profile_user_not_found,
}
use shooting_star.Messages.Profiles.{Profile, UserCfProfile}
use shooting_star.Messages.Services.{BatchGetUserCfProfilesRequest, UserCfProfileResult}
use shooting_star.Retrieval.Retrievers.UserCf.{
  valid_user_ids, is_valid_user, load_trigger_user_profiles,
}
use shooting_star.Retrieval.Retrievers.UserCf.Alignment.{
  profile_of, results, load_trigger_user_profiles-aligned,
}
use shooting_star.ProfileService.{
  ProfileStore, is_out_of_range, new_result, found_result, answer_users, batch_get_user_cf_profiles,
  batch_reply,
}

module _ {R : Type 0} (store : ProfileStore R) where
  -- The store answers a user id, if it is asked for it at all.
  abbrev pub Answers : ℤ → Type 0
  Answers user_id =
      is_out_of_range user_id ≡ false
      → (found : Option (Profile R)) × (store user_id ≡ returned found)

  -- The user ids that the store is asked for.
  abbrev in_range : ℤ → Bool
  in_range user_id = leb_ℤ (pos 1) user_id && leb_ℤ user_id (pos 2147483647)

  in_range-is_out_of_range : (user_id : ℤ) → in_range user_id ≡ not (is_out_of_range user_id)
  in_range-is_out_of_range user_id = ground arith

  abbrev profile_in : Attempt (Option (Profile R)) → Option (Profile R)
  profile_in (thrown message) = none
  profile_in (returned found) = found

  -- The profile that the store has for a user in range.
  abbrev pub stored : ℤ → Option (Profile R)
  stored user_id = if in_range user_id then profile_in (store user_id) else none

  -- What user-CF sees of a profile.
  abbrev pub view : Profile R → UserCfProfile R
  view p = record {
    user_id = p.user_id;
    recent_liked_items = p.behaviors.recent_liked_items;
    liked_items = p.behaviors.liked_items;
    interested_items = p.behaviors.interested_items;
  }

  -- The answer for one user: the requested id, what became of it, and the profile if there is one.
  abbrev pub expected : ℤ → UserCfProfileResult R
  expected user_id = record {
    status =
        if in_range user_id
        then (elim (stored user_id) [ none ↦ profile_user_not_found | some _ ↦ profile_success ])
        else profile_invalid_request;
    user_id = user_id;
    profile = elim (stored user_id) [
      | none ↦ record {
        user_id = pos 0;
        recent_liked_items = [];
        liked_items = [];
        interested_items = [];
      }
      | some p ↦ view p
    ];
  }

  abbrev result_of : ℤ → Attempt (Option (Profile R)) → UserCfProfileResult R
  result_of user_id (thrown message) = new_result user_id
  result_of user_id (returned found) = found_result user_id found

  -- What the loop answers for one user.
  abbrev result_for : ℤ → UserCfProfileResult R
  result_for user_id =
      if is_out_of_range user_id
      then record (new_result user_id) { status = profile_invalid_request }
      else result_of user_id (store user_id)

  result_for-expected : (user_id : ℤ) → Answers user_id → result_for user_id ≡ expected user_id
  result_for-expected user_id h = elim (Bool-cases (is_out_of_range user_id)) [
    | inl e ↦
        let off : in_range user_id ≡ false = in_range-is_out_of_range user_id ∙ ap not e in
        ground (arith, e, off)
    | inr e ↦
        let on : in_range user_id ≡ true = in_range-is_out_of_range user_id ∙ ap not e in
        let f = h e in
        elim (Option-cases f.0) [
          | inl n ↦ ground (arith, e, on, f.1, n)
          | inr (p, n) ↦ ground (arith, e, on, f.1, n)
        ]
  ]

  map-expected :
      (user_ids : List ℤ) → All Answers user_ids → map result_for user_ids ≡ map expected user_ids
  map-expected [] h = refl
  map-expected (user_id ∷ rest) h = rw (result_for-expected user_id h.0, map-expected rest h.1) refl

  answer_users-All :
      (user_ids : List ℤ)
      → All Answers user_ids
      → answer_users store user_ids ≡ (map result_for user_ids, none)
  unfolding answer_users
  answer_users-All [] h = refl
  answer_users-All (user_id ∷ rest) h = elim (Bool-cases (is_out_of_range user_id)) [
    | inl e ↦ rw (e, answer_users-All rest h.1, answer_users) refl
    | inr e ↦ let f = h.0 e in rw (e, f.1, answer_users-All rest h.1, answer_users) refl
  ]

  answer_users-thrown :
      (before after : List ℤ) (user_id : ℤ) (message : String)
      → All Answers before
      → is_out_of_range user_id ≡ false
      → store user_id ≡ thrown message
      → answer_users store (before ++ user_id ∷ after)
        ≡ (map result_for before ++ new_result user_id ∷ [], some message)
  unfolding answer_users
  answer_users-thrown [] after user_id message h r t = rw (r, t, answer_users) refl
  answer_users-thrown (first ∷ before) after user_id message h r t =
      elim (Bool-cases (is_out_of_range first)) [
        | inl e ↦
            rw (e, answer_users-thrown before after user_id message h.1 r t, answer_users) refl
        | inr e ↦
            let f = h.0 e in
            rw (e, f.1, answer_users-thrown before after user_id message h.1 r t, answer_users) refl
      ]

  -- If the store answers every user in range, the batch succeeds with one result for each requested
  -- user, in the order of the request, under the requested id: a user out of range, not from 1 to the
  -- largest `int`, is an invalid request; any other is found with the items of the store's profile, or
  -- not found if the store has none.
  pub batch_get_user_cf_profiles-results :
      (request : BatchGetUserCfProfilesRequest)
      → All Answers request.user_ids
      → batch_get_user_cf_profiles (record { profile_store = some store }) request ≡ (
        status_ok,
        record { status = profile_success; msg = ""; results = map expected request.user_ids },
      )
  unfolding batch_get_user_cf_profiles
  batch_get_user_cf_profiles-results request h =
      ap batch_reply (answer_users-All request.user_ids h)
      ∙ ap (λ rs. batch_reply (rs, none)) (map-expected request.user_ids h)

  -- If the store throws for a user in range and has answered the users before, the batch fails with
  -- the exception's message, and its results end with a bare one for that user.
  pub batch_get_user_cf_profiles-thrown :
      (request : BatchGetUserCfProfilesRequest) (before after : List ℤ) (user_id : ℤ)
      (message : String)
      → request.user_ids ≡ before ++ user_id ∷ after
      → All Answers before
      → is_out_of_range user_id ≡ false
      → store user_id ≡ thrown message
      → batch_get_user_cf_profiles (record { profile_store = some store }) request ≡ (
        failure StatusCode.internal message,
        record {
          status = profile_system_error;
          msg = message;
          results = map expected before ++ new_result user_id ∷ [];
        },
      )
  unfolding batch_get_user_cf_profiles
  batch_get_user_cf_profiles-thrown request before after user_id message split h r t =
      ap (λ ids. batch_reply (answer_users store ids)) split
      ∙ ap batch_reply (answer_users-thrown before after user_id message h r t)
      ∙ ap (λ rs. batch_reply (rs ++ new_result user_id ∷ [], some message)) (map-expected before h)

  -- What user-CF sees of the profile that the store has for a user.
  abbrev pub stored_view : ℕ → Option (UserCfProfile R)
  stored_view id = elim (stored (pos id)) [ none ↦ none | some p ↦ some (view p) ]

  expected-profile_of : (id : ℕ) → profile_of (λ n. expected (pos n)) id ≡ stored_view id
  expected-profile_of id = elim (Bool-cases (in_range (pos id))) [
    | inl e ↦ elim (Option-cases (profile_in (store (pos id)))) [
      | inl n ↦ ground (arith, e, n)
      | inr (p, n) ↦ ground (arith, e, n)
    ]
    | inr e ↦ ground (arith, e)
  ]

  map-profile_of :
      (ids : List ℕ) → map (profile_of (λ n. expected (pos n))) ids ≡ map stored_view ids
  map-profile_of [] = refl
  map-profile_of (id ∷ ids) = rw (expected-profile_of id, map-profile_of ids) refl

  results-map :
      (ids : List ℕ) → map expected (valid_user_ids ids) ≡ results (λ n. expected (pos n)) ids
  unfolding results valid_user_ids
  results-map [] = refl
  results-map (id ∷ ids) = ground (arith, results-map ids)

  All-valid_user_ids :
      (ids : List ℕ) → ((id : ℕ) → Answers (pos id)) → All Answers (valid_user_ids ids)
  unfolding valid_user_ids
  All-valid_user_ids [] h = tt
  All-valid_user_ids (id ∷ ids) h = elim (Bool-cases (is_valid_user id)) [
    | inl e ↦ rw e (h id, All-valid_user_ids ids h)
    | inr e ↦ rw e (All-valid_user_ids ids h)
  ]

  -- The retriever of user-CF, with this service behind its stub and a store that does not throw,
  -- gets for each trigger user the id and the three lists of items of the profile that the store has
  -- for that very user, and none if the store has none or the id is zero or above the largest `int`.
  pub load_trigger_user_profiles-stored :
      (trace_id guid : String) (user_ids : List ℕ)
      → ((id : ℕ) → Answers (pos id))
      → load_trigger_user_profiles
          (batch_get_user_cf_profiles (record { profile_store = some store }))
          trace_id
          guid
          user_ids
        ≡ returned (map stored_view user_ids)
  load_trigger_user_profiles-stored trace_id guid user_ids h =
      load_trigger_user_profiles-aligned (λ n. expected (pos n))
        (batch_get_user_cf_profiles (record { profile_store = some store })) trace_id guid user_ids
        (λ request e.
          let b =
            batch_get_user_cf_profiles-results request
              (subst (All Answers) (sym e) (All-valid_user_ids user_ids h)) in
          (
            ap (λ r. is_ok r.0) b,
            ap (λ r. r.1.status) b,
            ap (λ r. r.1.results) b ∙ ap (map expected) e ∙ results-map user_ids,
          ))
      ∙ ap returned (map-profile_of user_ids)
