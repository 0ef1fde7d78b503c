-- ===== src/Retrieval/Retrievers/Base/Replies.antt =====
-- What the Retrieve RPC of every retriever replies.
use Prim.Native.String.{String, ◌++◌ as ◌+++◌}
use shooting_star.Base.{
  ◌∷◌, false, true, Option, ◌&&◌, if◌then◌else◌, Bool-cases, inl, inr, Option-cases, false, [],
  none, some, ◌≡◌, ◌⊎◌, refl, ap, arith, length,
}
use shooting_star.Base.Int.{ℤ, pos, leb_ℤ, ltb_ℤ}
use shooting_star.Base.Text.{is_empty, is_empty-append, concat, to_string, to_string_ℤ}
use shooting_star.Messages.Status.{
  StatusCode, is_ok, is_retriever_success, retriever_status_number, retriever_invalid_request,
}
use shooting_star.Messages.Profiles.{Profile}
use shooting_star.Messages.Services.{RetrieverRequest}
use shooting_star.Retrieval.Retrievers.Base.{
  Handler, Reply, empty_response, check_request, refuse_request, normalize_request, finish,
  retrieve,
}

module _ {R : Type 0} (default_max_candidate_count : ℤ) (do_retrieve : Handler R) where
  -- A request with no positive user id, or with no profile, is refused as an invalid argument with
  -- no candidates, whatever the retriever does.
  pub retrieve_refused :
      (request : RetrieverRequest R)
      → (leb_ℤ request.user_id (pos 0) ≡ true) ⊎ (request.profile ≡ none)
      → let (status, response) = retrieve default_max_candidate_count do_retrieve request in
        (status.code ≡ StatusCode.invalid_argument)
        × (response.status ≡ retriever_invalid_request)
        × (response.candidates ≡ [])
  unfolding retrieve check_request refuse_request normalize_request
  retrieve_refused request h = ground arith

  -- The profile that the retriever gets: none if the request is refused.
  unfoldable pub given_profile : RetrieverRequest R → Option (Profile R)
  given_profile request = if ltb_ℤ (pos 0) request.user_id then request.profile else none

  -- What the retriever is asked: the request, with the default in place of a count that is not positive.
  abbrev pub asked : RetrieverRequest R → RetrieverRequest R
  asked request = record request {
    max_candidate_count =
        if ltb_ℤ (pos 0) request.max_candidate_count
        then request.max_candidate_count
        else default_max_candidate_count;
  }

  -- A status of the retriever that is not OK has a message.
  abbrev pub HasMessages : Type 0
  HasMessages =
      (request : RetrieverRequest R) (profile : Profile R)
      → is_ok (do_retrieve request profile empty_response).0 ≡ false
      → is_empty (do_retrieve request profile empty_response).0.error_message ≡ false

  -- The reply to a request with the given profile: a refusal, or the retriever's own outcome.
  abbrev pub IsHandled : Option (Profile R) → RetrieverRequest R → Reply R → Type 0
  IsHandled none request (status, response) =
      (status.code ≡ StatusCode.invalid_argument)
      × (response.status ≡ retriever_invalid_request)
      × (response.candidates ≡ [])
  IsHandled (some profile) request (status, response) =
      let (own_status, own_response) = do_retrieve (asked request) profile empty_response in
      (status ≡ own_status)
      × (response.status ≡ own_response.status)
      × (response.candidates ≡ own_response.candidates)

  -- The message of a response is empty exactly if the reply is a success, which counts candidates.
  abbrev pub IsConsistent : Reply R → Type 0
  IsConsistent (status, response) =
      let succeeded = is_ok status && is_retriever_success response.status in
      (is_empty response.msg ≡ succeeded)
      × ((succeeded ≡ false) ⊎ (response.candidate_count ≡ pos (length response.candidates)))

  finish-IsConsistent :
      (reply : Reply R)
      → (is_ok reply.0 ≡ false → is_empty reply.0.error_message ≡ false)
      → IsConsistent (finish reply)
        × ((finish reply).0 ≡ reply.0)
        × ((finish reply).1.status ≡ reply.1.status)
        × ((finish reply).1.candidates ≡ reply.1.candidates)
  unfolding finish
  finish-IsConsistent (status, response) h =
      let number = to_string (retriever_status_number response.status) in
      let text =
        is_empty-append "Retriever finished with status " (concat (number ∷ "." ∷ [])) refl in
      elim (Bool-cases (is_ok status)) [
        | inr e ↦ elim (Bool-cases (is_empty response.msg)) [
          | inl m ↦ rw (finish, e, m) (ground (arith, h e, e))
          | inr m ↦ rw (finish, e, m) (ground (arith, e, m))
        ]
        | inl e ↦ elim (Bool-cases (is_retriever_success response.status)) [
          | inl k ↦ rw (finish, e, k) (ground (arith, e, k))
          | inr k ↦ elim (Bool-cases (is_empty response.msg)) [
            | inl m ↦ rw (finish, e, k, m) (ground (arith, e, k, text))
            | inr m ↦ rw (finish, e, k, m) (ground (arith, e, k, m))
          ]
        ]
      ]

  normalize_request-asked :
      (request : RetrieverRequest R)
      → normalize_request default_max_candidate_count request ≡ asked request
  unfolding normalize_request
  normalize_request-asked request = ground arith

  refused :
      (request : RetrieverRequest R) (text rest : String)
      → is_empty text ≡ false
      → IsConsistent (refuse_request (text +++ rest))
        × IsHandled none request (refuse_request (text +++ rest))
  unfolding refuse_request
  refused request text rest h = ground (arith, is_empty-append text rest h)

  retrieve-checked :
      (request : RetrieverRequest R)
      → retrieve default_max_candidate_count do_retrieve request
        ≡ check_request
            (asked request)
            refuse_request
            (λ profile. finish (do_retrieve (asked request) profile empty_response))
  unfolding retrieve
  retrieve-checked request =
      ap (λ q. check_request q refuse_request (λ p. finish (do_retrieve q p empty_response)))
        (normalize_request-asked request)

  retrieve-no_user :
      (request : RetrieverRequest R)
      → ltb_ℤ (pos 0) request.user_id ≡ false
      → (given_profile request ≡ none)
        × (retrieve default_max_candidate_count do_retrieve request
            ≡ refuse_request (concat ("Invalid user_id " ∷ to_string_ℤ request.user_id ∷ "." ∷ [])))
  unfolding check_request given_profile
  retrieve-no_user request e = rw (retrieve-checked request) (ground (arith, e))

  retrieve-no_profile :
      (request : RetrieverRequest R)
      → ltb_ℤ (pos 0) request.user_id ≡ true
      → request.profile ≡ none
      → (given_profile request ≡ none)
        × (retrieve default_max_candidate_count do_retrieve request
            ≡ refuse_request
                (concat ("Profile is required for user " ∷ to_string_ℤ request.user_id ∷ "." ∷ [])))
  unfolding check_request given_profile
  retrieve-no_profile request e n = rw (retrieve-checked request) (ground (arith, e, n))

  retrieve-asked :
      (request : RetrieverRequest R) (profile : Profile R)
      → ltb_ℤ (pos 0) request.user_id ≡ true
      → request.profile ≡ some profile
      → (given_profile request ≡ some profile)
        × (retrieve default_max_candidate_count do_retrieve request
            ≡ finish (do_retrieve (asked request) profile empty_response))
  unfolding check_request given_profile
  retrieve-asked request profile e p = rw (retrieve-checked request) (ground (arith, e, p))

  -- Let every status of the retriever that is not OK have a message. Then the message of the response
  -- is empty exactly if the gRPC status is OK and the response's is a success, and then the candidates
  -- are counted. A request with a positive user id and a profile has the statuses and the candidates
  -- of the retriever, asked with the default in place of a count that is not positive; any other is
  -- refused as an invalid argument, with no candidates.
  pub retrieve-IsConsistent :
      HasMessages
      → (request : RetrieverRequest R)
      → IsConsistent (retrieve default_max_candidate_count do_retrieve request)
        × IsHandled
            (given_profile request)
            request
            (retrieve default_max_candidate_count do_retrieve request)
  retrieve-IsConsistent h request = elim (Bool-cases (ltb_ℤ (pos 0) request.user_id)) [
    | inr e ↦
        let (n, r) = retrieve-no_user request e in
        rw (n, r) (refused request "Invalid user_id " _ refl)
    | inl e ↦ elim (Option-cases request.profile) [
      | inl n ↦
          let (n', r) = retrieve-no_profile request e n in
          rw (n', r) (refused request "Profile is required for user " _ refl)
      | inr (profile, p) ↦
          let (p', r) = retrieve-asked request profile e p in
          let outcome =
            finish-IsConsistent (do_retrieve (asked request) profile empty_response)
              (h (asked request) profile) in
          rw (p', r) (outcome.0, (outcome.1, outcome.2, outcome.3))
    ]
  ]
