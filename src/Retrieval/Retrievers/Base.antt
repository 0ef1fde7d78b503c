-- ===== src/Retrieval/Retrievers/Base.antt =====
-- retriever_base.cpp: the Retrieve RPC around a retriever's own `DoRetrieve`, and the set of the
-- items that a user has already dealt with. Logging is left out.
pub mod Filter
pub mod Replies
use shooting_star.Base.{ℕ, String, List, [], ◌∷◌, none, some, if◌then◌else◌, not, length}
use shooting_star.Base.Int.{ℤ, pos, pos_part, is_positive, leb_ℤ}
use shooting_star.Base.Text.{is_empty, concat, to_string, to_string_ℤ}
use shooting_star.Base.Sets.{insert_id}
use shooting_star.Messages.Status.{
  StatusCode, Status, failure, is_ok, retriever_invalid_request, retriever_success,
  is_retriever_success, retriever_status_number,
}
use shooting_star.Messages.Profiles.{WeightedItem, Profile}
use shooting_star.Messages.Services.{RetrieverRequest, RetrieverResponse}

pub append_item_ids : List ℤ → List ℕ → List ℕ
append_item_ids [] ids = ids
append_item_ids (item_id ∷ items) ids =
    append_item_ids items (if is_positive item_id then insert_id (pos_part item_id) ids else ids)

abbrev pub Reply : Type 0 → Type 0
Reply R = Status × RetrieverResponse R

-- `DoRetrieve` of a subclass: the normalised request, its profile, and the response so far.
abbrev pub Handler : Type 0 → Type 0
Handler R = RetrieverRequest R → Profile R → RetrieverResponse R → Reply R

module _ {R : Type 0} where
  -- `AppendItemIdsToFilterOut`, on weighted items and on bare identifiers.
  pub append_weighted_ids : List (WeightedItem R) → List ℕ → List ℕ
  append_weighted_ids [] ids = ids
  append_weighted_ids (item ∷ items) ids =
      append_weighted_ids items
        (if is_positive item.item_id then insert_id (pos_part item.item_id) ids else ids)

  pub collect_item_ids_to_filter_out : Profile R → List ℕ
  collect_item_ids_to_filter_out profile =
      let s1 = append_weighted_ids profile.behaviors.recent_liked_items [] in
      let s2 = append_weighted_ids profile.behaviors.liked_items s1 in
      let s3 = append_weighted_ids profile.behaviors.interested_items s2 in
      let s4 = append_item_ids profile.behaviors.rated_items s3 in
      append_weighted_ids profile.negative_feedbacks.items s4

  -- gRPC hands the handler an empty response.
  abbrev pub empty_response : RetrieverResponse R
  empty_response = record {
    status = retriever_success;
    msg = "";
    candidate_count = pos 0;
    candidates = [];
  }

  -- The checks of `IsRequestValid`: the profile, or the error message.
  pub check_request : RetrieverRequest R → (String → Reply R) → (Profile R → Reply R) → Reply R
  check_request request refuse accept =
      if leb_ℤ request.user_id (pos 0)
      then refuse (concat ("Invalid user_id " ∷ to_string_ℤ request.user_id ∷ "." ∷ []))
      else elim request.profile [
        | none ↦
            refuse
              (concat ("Profile is required for user " ∷ to_string_ℤ request.user_id ∷ "." ∷ []))
        | some profile ↦ accept profile
      ]

  pub refuse_request : String → Reply R
  refuse_request message = (
    failure StatusCode.invalid_argument message,
    record empty_response { status = retriever_invalid_request; msg = message },
  )

  pub normalize_request : ℤ → RetrieverRequest R → RetrieverRequest R
  normalize_request default_max_candidate_count request =
      if leb_ℤ request.max_candidate_count (pos 0)
      then record request { max_candidate_count = default_max_candidate_count }
      else request

  -- What the base class adds to the outcome of `DoRetrieve`.
  pub finish : Reply R → Reply R
  finish (status, response) =
      if not (is_ok status)
      then (if is_empty response.msg
          then (status, record response { msg = status.error_message })
          else (status, response))
      else if is_retriever_success response.status
      then (
        status,
        record response { msg = ""; candidate_count = pos (length response.candidates) },
      )
      else if is_empty response.msg
      then (
        status,
        record response {
          msg = concat (
              "Retriever finished with status "
              ∷ to_string (retriever_status_number response.status)
              ∷ "."
              ∷ []);
        },
      )
      else (status, response)

  unfoldable pub retrieve : ℤ → Handler R → RetrieverRequest R → Reply R
  retrieve default_max_candidate_count do_retrieve request =
      let normalized = normalize_request default_max_candidate_count request in
      check_request normalized refuse_request
        (λ profile. finish (do_retrieve normalized profile empty_response))
