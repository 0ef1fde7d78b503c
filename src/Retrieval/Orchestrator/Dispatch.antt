-- ===== src/Retrieval/Orchestrator/Dispatch.antt =====
-- retrieval_orchestrator.cpp: the constructor's checks, `DispatchToRetrievers` and the `Retrieve`
-- RPC. A retriever's stub is the remote call: it answers a request with a status and a response.
-- The GUID that the code generates for the downstream request is an argument.
pub mod Replies
use shooting_star.Base.{
  String, Bool, true, false, List, [], ◌∷◌, Option, none, some, if◌then◌else◌, ◌||◌, length, not,
  Attempt, returned, thrown,
}
use shooting_star.Base.Int.{ℤ, pos, leb_ℤ, max_ℤ}
use shooting_star.Base.Text.{is_empty, concat, to_string, to_string_ℤ}
use shooting_star.Base.Floats.{Double, nought}
use shooting_star.Messages.Status.{
  StatusCode, Status, status_ok, failure, is_ok, RetrieverServiceStatus, retriever_success,
  retriever_empty_trigger_seeds, retriever_status_number, retrieval_success,
  retrieval_invalid_request, retrieval_system_error,
}
use shooting_star.Messages.Profiles.{Profile}
use shooting_star.Messages.Candidates.{CandidateItem}
use shooting_star.Messages.Services.{
  RetrieverRequest, RetrieverResponse, RetrieveRequest, RetrieveResponse,
}
use shooting_star.Retrieval.Orchestrator.Rounds.{Merged, merge_responses}

unfoldable pub is_retriever_response_status_accepted : RetrieverServiceStatus → Bool
is_retriever_response_status_accepted retriever_success = true
is_retriever_response_status_accepted retriever_empty_trigger_seeds = true
is_retriever_response_status_accepted _ = false

-- The C++ conversion of an out of range `double` to `int` is undefined; `ceil` stands for its result.
pub compute_retriever_max_candidate_count : {R : Type 0} ⦃d : Double R⦄ → ℤ → R → ℤ
compute_retriever_max_candidate_count ⦃d⦄ max_results expand_ratio =
    if leb_ℤ max_results (pos 0)
    then max_results
    else max_ℤ max_results (d.ceil (d.mul (d.of_decimal max_results 0) expand_ratio))

abbrev pub RetrieverStub : Type 0 → Type 0
RetrieverStub R = RetrieverRequest R → Status × RetrieverResponse R

-- `retriever_stubs_` and `recall_candidate_expand_ratio_`; a null stub is `none`.
pub record RetrievalOrchestrator (R : Type 0) : Type 0 where
  pub retriever_stubs : List (String × Option (RetrieverStub R))
  pub recall_candidate_expand_ratio : R

unfoldable pub check_stubs : {R : Type 0} → List (String × Option (RetrieverStub R)) → Option String
check_stubs [] = none
check_stubs ((name, stub) ∷ rest) =
    if is_empty name
    then some "RetrievalOrchestrator retriever name must not be empty."
    else elim stub [
      | none ↦
          some (concat ("RetrievalOrchestrator " ∷ name ∷ " retriever_stub must not be null." ∷ []))
      | some _ ↦ check_stubs rest
    ]

unfoldable pub construct :
    {R : Type 0} ⦃d : Double R⦄
    → List (String × Option (RetrieverStub R))
    → R
    → Attempt (RetrievalOrchestrator R)
construct ⦃d⦄ [] ratio = thrown "RetrievalOrchestrator retriever_stubs must not be empty."
construct ⦃d⦄ (stub ∷ stubs) ratio =
    if d.lt ratio nought || d.eq ratio nought
    then thrown "RetrievalOrchestrator recall_candidate_expand_ratio must be positive."
    else elim (check_stubs (stub ∷ stubs)) [
      | some message ↦ thrown message
      | none ↦
          returned
            (record { retriever_stubs = stub ∷ stubs; recall_candidate_expand_ratio = ratio })
    ]

-- A fetched answer, or the reason why there is none.
pub data Fetched (R : Type 0) : Type 0 where
  answered : RetrieverResponse R → Fetched R
  failed : Status → Fetched R

unfoldable pub fetch_candidates_from_retriever :
    {R : Type 0} → String → Option (RetrieverStub R) → RetrieverRequest R → Fetched R
fetch_candidates_from_retriever name none request =
    failed
      (failure StatusCode.internal (concat (name ∷ " retriever client is not initialized." ∷ [])))
fetch_candidates_from_retriever name (some stub) request =
    let (status, response) = stub request in
    if not (is_ok status)
    then failed (
        failure StatusCode.internal (
          concat ("Failed to retrieve candidates from " ∷ name ∷ ": " ∷ status.error_message ∷ [])))
    else if not (is_retriever_response_status_accepted response.status)
    then failed (
        failure StatusCode.internal (
          concat (
            name
            ∷ " retriever returned non-success status "
            ∷ to_string (retriever_status_number response.status)
            ∷ "."
            ∷ (if is_empty response.msg then [] else " reason: " ∷ response.msg ∷ []))))
    else answered response

-- The loop over the stubs: the failure messages, and the accepted answers.
pub fetch_all :
    {R : Type 0}
    → List (String × Option (RetrieverStub R))
    → RetrieverRequest R
    → List String × List (RetrieverResponse R)
fetch_all [] request = ([], [])
fetch_all ((name, stub) ∷ rest) request =
    let (messages, answers) = fetch_all rest request in
    elim (fetch_candidates_from_retriever name stub request) [
      | failed status ↦ (concat (name ∷ ": " ∷ status.error_message ∷ []) ∷ messages, answers)
      | answered response ↦ (messages, response ∷ answers)
    ]

-- The loop that appends " " and each failure message.
unfoldable pub append_messages : String → List String → String
append_messages text [] = text
append_messages text (m ∷ ms) = append_messages (concat (text ∷ " " ∷ m ∷ [])) ms

abbrev pub candidates_of : {R : Type 0} → List (RetrieverResponse R) → List (List (CandidateItem R))
candidates_of [] = []
candidates_of (r ∷ rs) = r.candidates ∷ candidates_of rs

abbrev pub Reply : Type 0 → Type 0
Reply R = Status × RetrieveResponse R

module _ {R : Type 0} where
  -- gRPC hands the handler an empty response.
  abbrev pub empty_response : RetrieveResponse R
  empty_response = record {
    status = retrieval_success;
    msg = "";
    candidate_count = pos 0;
    candidates = [];
  }

  unfoldable pub invalid_request : String → Reply R
  invalid_request message = (
    failure StatusCode.invalid_argument message,
    record empty_response { status = retrieval_invalid_request; msg = message },
  )

  -- No answer was accepted.
  pub all_failed : List String → Reply R
  all_failed [] = (
    failure StatusCode.internal "No retrievers configured.",
    record empty_response { status = retrieval_system_error; msg = "No retrievers configured." },
  )
  all_failed (m ∷ ms) =
      let text = append_messages "Failed to retrieve candidates from all retrievers." (m ∷ ms) in
      (
        failure StatusCode.internal text,
        record empty_response { status = retrieval_system_error; msg = text },
      )

  pub merged_response : Merged R → Reply R
  merged_response m = (
    status_ok,
    record {
      status = retrieval_success;
      msg = "";
      candidate_count = pos (length m.candidates);
      candidates = m.candidates;
    },
  )

  -- A failure with no message in the response takes the status's.
  pub with_message : Reply R → Reply R
  with_message (status, response) =
      if not (is_ok status)
      then (if is_empty response.msg
          then (status, record response { msg = status.error_message })
          else (status, response))
      else (status, response)

module _ {R : Type 0} ⦃d : Double R⦄ (orchestrator : RetrievalOrchestrator R) (guid : String) where
  unfoldable pub retriever_request : RetrieveRequest R → RetrieverRequest R
  retriever_request request = record {
    trace_id = request.trace_id;
    request_id = guid;
    user_id = request.user_id;
    profile = request.profile;
    max_candidate_count =
        compute_retriever_max_candidate_count request.max_candidate_count
          orchestrator.recall_candidate_expand_ratio;
  }

  -- `none` would mean that the merging loop ran out of fuel.
  pub respond : RetrieveRequest R → List String × List (RetrieverResponse R) → Option (Reply R)
  respond request (messages, []) = some (all_failed messages)
  respond request (messages, answer ∷ answers) =
      elim (merge_responses request.max_candidate_count (candidates_of (answer ∷ answers))) [
        | none ↦ none
        | some m ↦ some (merged_response m)
      ]

  pub dispatch_to_retrievers : RetrieveRequest R → Option (Reply R)
  dispatch_to_retrievers request =
      respond request (fetch_all orchestrator.retriever_stubs (retriever_request request))

  unfoldable pub retrieve : RetrieveRequest R → Option (Reply R)
  retrieve request =
      if leb_ℤ request.user_id (pos 0)
      then some
          (invalid_request (concat ("Invalid user_id " ∷ to_string_ℤ request.user_id ∷ "." ∷ [])))
      else elim request.profile [
        | none ↦ some (
            invalid_request
              (concat ("Profile is required for user " ∷ to_string_ℤ request.user_id ∷ "." ∷ [])))
        | some _ ↦ elim (dispatch_to_retrievers request) [
          | none ↦ none
          | some reply ↦ some (with_message reply)
        ]
      ]
