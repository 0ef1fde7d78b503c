-- ===== src/Retrieval/Orchestrator/Dispatch/Replies.antt =====
-- What the Retrieve RPC replies, on every path.
use shooting_star.Base.{
  String, Bool, true, false, List, [], ◌∷◌, ◌≡◌, ◌≢◌, ◌↔◌, refl, sym, ap, ◌∙◌, ◌++◌, ◌&&◌,
  if◌then◌else◌, Option, none, some, arith, length, take, ◌||◌, All,
}
use shooting_star.Base.Int.{ℤ, pos, leb_ℤ, ◌≤ℤ◌, pos_part}
use shooting_star.Base.Floats.{Double}
use shooting_star.Messages.Status.{
  StatusCode, status_ok, is_ok, RetrieverServiceStatus, retriever_success,
  retriever_empty_trigger_seeds, retrieval_success, retrieval_system_error,
}
use shooting_star.Messages.Services.{
  RetrieverRequest, RetrieverResponse, RetrieveRequest, RetrieveResponse,
}
use shooting_star.Retrieval.Orchestrator.Merge.Normal.{IsNormal}
use shooting_star.Retrieval.Orchestrator.Rounds.{Merged}
use shooting_star.Retrieval.Orchestrator.Rounds.Schedule.{round_robin}
use shooting_star.Retrieval.Orchestrator.Rounds.Index.{item_ids, IsValid}
use shooting_star.Retrieval.Orchestrator.Rounds.Items.{distinct_ids, ids-merge_responses}
use shooting_star.Retrieval.Orchestrator.Dispatch.{
  compute_retriever_max_candidate_count, RetrieverStub, RetrievalOrchestrator, answered, failed,
  fetch_candidates_from_retriever, is_retriever_response_status_accepted, fetch_all, candidates_of,
  Reply, all_failed, merged_response, retriever_request, respond, dispatch_to_retrievers,
  with_message, retrieve,
}

-- A retriever is never asked for fewer candidates than the caller wants, and for exactly as many
-- if the caller wants none.
compute_retriever_max_candidate_count_bounds :
    {R : Type 0} ⦃d : Double R⦄ (max_results : ℤ) (ratio : R)
    → (max_results ≤ℤ compute_retriever_max_candidate_count max_results ratio)
      × (max_results ≤ℤ pos 0
          → compute_retriever_max_candidate_count max_results ratio ≡ max_results)
unfolding compute_retriever_max_candidate_count
compute_retriever_max_candidate_count_bounds max_results ratio = ground arith

-- The status of an answer that holds candidates, or had no seeds to find any by.
abbrev is_useful : RetrieverServiceStatus → Bool
is_useful retriever_success = true
is_useful retriever_empty_trigger_seeds = true
is_useful _ = false

module _ {R : Type 0} where
  -- Some retriever answers with an accepted status.
  unfoldable pub any_answered : List (String × Option (RetrieverStub R)) → RetrieverRequest R → Bool
  any_answered [] request = false
  any_answered ((name, stub) ∷ rest) request =
      elim (fetch_candidates_from_retriever name stub request) [
        | answered _ ↦ true
        | failed _ ↦ false
      ]
      || any_answered rest request

  abbrev answer_of : Option (RetrieverStub R) → RetrieverRequest R → List (RetrieverResponse R)
  answer_of none request = []
  answer_of (some stub) request =
      if is_ok (stub request).0 && is_useful (stub request).1.status
      then (stub request).1 ∷ []
      else []

  -- The answers of the retrievers that have a stub, to one request, in order: those whose gRPC status
  -- is OK and whose own status is a success or a lack of seeds.
  unfoldable pub answers :
      List (String × Option (RetrieverStub R)) → RetrieverRequest R → List (RetrieverResponse R)
  answers [] request = []
  answers ((_, stub) ∷ rest) request = answer_of stub request ++ answers rest request

  fetch_candidates-answer_of :
      (name : String) (stub : Option (RetrieverStub R)) (request : RetrieverRequest R)
      → answer_of stub request ≡ elim (fetch_candidates_from_retriever name stub request) [
        | failed _ ↦ []
        | answered response ↦ response ∷ []
      ]
  unfolding fetch_candidates_from_retriever is_retriever_response_status_accepted
  fetch_candidates-answer_of name none request = refl
  fetch_candidates-answer_of name (some stub) request = ground arith

  answers-fetch_all :
      (stubs : List (String × Option (RetrieverStub R))) (request : RetrieverRequest R)
      → (fetch_all stubs request).1 ≡ answers stubs request
  unfolding answers fetch_all
  answers-fetch_all [] request = refl
  answers-fetch_all ((name, stub) ∷ rest) request =
      ground (arith, fetch_candidates-answer_of name stub request, answers-fetch_all rest request)

  any_answered-fetch_all :
      (stubs : List (String × Option (RetrieverStub R))) (request : RetrieverRequest R)
      → ((fetch_all stubs request).1 ≡ []) ↔ (any_answered stubs request ≡ false)
  unfolding any_answered fetch_all
  any_answered-fetch_all [] request = ground arith
  any_answered-fetch_all ((name, stub) ∷ rest) request =
      ground (arith, any_answered-fetch_all rest request)

  all_failed_reply :
      (messages : List String)
      → ((with_message (all_failed {R = R} messages)).0.code ≡ StatusCode.internal)
        × ((with_message (all_failed {R = R} messages)).1.status ≡ retrieval_system_error)
        × ((with_message (all_failed {R = R} messages)).1.candidates ≡ [])
  unfolding with_message all_failed
  all_failed_reply [] = ground arith
  all_failed_reply (m ∷ ms) = ground arith

module _ {R : Type 0} ⦃d : Double R⦄ (orchestrator : RetrievalOrchestrator R) (guid : String) where
  -- What every retriever is asked.
  abbrev pub downstream : RetrieveRequest R → RetrieverRequest R
  downstream request = record {
    trace_id = request.trace_id;
    request_id = guid;
    user_id = request.user_id;
    profile = request.profile;
    max_candidate_count =
        compute_retriever_max_candidate_count request.max_candidate_count
          orchestrator.recall_candidate_expand_ratio;
  }

  -- A request for a real user, with a profile.
  abbrev pub IsComplete : RetrieveRequest R → Type 0
  IsComplete request = (leb_ℤ request.user_id (pos 0) ≡ false) × (request.profile ≢ none)

  retrieve_complete :
      (request : RetrieveRequest R) {reply : Reply R}
      → IsComplete request
      → dispatch_to_retrievers orchestrator guid request ≡ some reply
      → retrieve orchestrator guid request ≡ some (with_message reply)
  unfolding retrieve
  retrieve_complete request c e = ground arith

  respond_answered :
      (request : RetrieveRequest R) (fetched : List String × List (RetrieverResponse R))
      → fetched.1 ≢ []
      → (m : Merged R) × (respond orchestrator guid request fetched ≡ some (merged_response m))
        × (item_ids m.candidates
            ≡ take
                (pos_part request.max_candidate_count)
                (distinct_ids [] (item_ids (round_robin (candidates_of fetched.1)))))
        × IsValid m
  unfolding respond
  respond_answered request (messages, []) h = absurd (h refl)
  respond_answered request (messages, a ∷ as') h =
      let (m, merged, ids, valid) =
        ids-merge_responses request.max_candidate_count (candidates_of (a ∷ as')) in
      (m, ground arith, ids, valid)

  respond_unanswered :
      (request : RetrieveRequest R) (fetched : List String × List (RetrieverResponse R))
      → fetched.1 ≡ []
      → respond orchestrator guid request fetched ≡ some (all_failed fetched.0)
  unfolding respond
  respond_unanswered request (messages, []) h = refl
  respond_unanswered request (messages, a ∷ as') h = cc

  -- Let the request have a positive user id and a profile, and some retriever answer with gRPC status
  -- OK and a status of success or of a lack of seeds. Then the orchestrator succeeds, however many
  -- other retrievers fail: the response counts and holds the first `max_candidate_count` different
  -- items of all those answers in round-robin order, each normalised.
  pub retrieve_answered :
      (request : RetrieveRequest R)
      → IsComplete request
      → answers orchestrator.retriever_stubs (downstream request) ≢ []
      → (response : RetrieveResponse R) × (retrieve orchestrator guid request
          ≡ some (status_ok, response))
        × (response.status ≡ retrieval_success)
        × (response.candidate_count ≡ pos (length response.candidates))
        × (item_ids response.candidates
            ≡ take (pos_part request.max_candidate_count) (
                distinct_ids [] (
                  item_ids (
                    round_robin (
                      candidates_of (answers orchestrator.retriever_stubs (downstream request)))))))
        × All IsNormal response.candidates
  unfolding retriever_request dispatch_to_retrievers merged_response with_message
  retrieve_answered request c h =
      let stubs = orchestrator.retriever_stubs in
      let asked = downstream request in
      let same : (fetch_all stubs asked).1 ≡ answers stubs asked = answers-fetch_all stubs asked in
      let (m, responded, ids, valid) =
        respond_answered request (fetch_all stubs asked) (λ e. h (sym same ∙ e)) in
      (
        (merged_response m).1,
        retrieve_complete request c responded,
        refl,
        refl,
        ids
            ∙ ap
                (λ rs.
                  take (pos_part request.max_candidate_count)
                    (distinct_ids [] (item_ids (round_robin (candidates_of rs)))))
                same,
        valid.normal,
      )

  -- If the request has a positive user id and a profile, and no retriever answers with an accepted
  -- status, the reply is an internal error with no candidates.
  pub retrieve_unanswered :
      (request : RetrieveRequest R)
      → IsComplete request
      → any_answered orchestrator.retriever_stubs (retriever_request orchestrator guid request)
        ≡ false
      → (reply : Reply R) × (retrieve orchestrator guid request ≡ some reply)
        × (reply.0.code ≡ StatusCode.internal)
        × (reply.1.status ≡ retrieval_system_error)
        × (reply.1.candidates ≡ [])
  unfolding dispatch_to_retrievers
  retrieve_unanswered request c h =
      let stubs = orchestrator.retriever_stubs in
      let fetched = fetch_all stubs (retriever_request orchestrator guid request) in
      let none_left : fetched.1 ≡ [] =
        (any_answered-fetch_all stubs (retriever_request orchestrator guid request)).1 h in
      let (code, status, candidates) = all_failed_reply fetched.0 in
      (
        with_message (all_failed fetched.0),
        retrieve_complete request c (respond_unanswered request fetched none_left),
        code,
        status,
        candidates,
      )
