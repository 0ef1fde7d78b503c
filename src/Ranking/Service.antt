-- ===== src/Ranking/Service.antt =====
-- ranking_service.cpp: the registry of rankers and the Rank RPC. A ranker's task answers with the
-- status or the exception's message, and with the response as it has left it. Logging is left out,
-- and so are the functions that make the item index store; request and response are never null.
pub mod Requests
use shooting_star.Base.{
  String, Bool, true, false, List, [], ◌∷◌, Option, none, some, if◌then◌else◌, ◌&&◌, ◌==◌, not,
  length, Attempt, returned, thrown,
}
use shooting_star.Base.Int.{ℤ, pos, pos_part, neg_part, leb_ℤ}
use shooting_star.Base.Text.{concat, is_empty, str_eq, to_string, to_string_ℤ}
use shooting_star.Messages.Status.{
  StatusCode, Status, failure, is_ok, RankingServiceStatus, ranking_success,
  ranking_invalid_request, ranking_system_error, ranking_status_number,
}
use shooting_star.Messages.Ranking.{RankRequest, RankResponse}

-- `RankTask::Run` on a response.
abbrev RankTask : Type 0 → Type 0
RankTask R = RankResponse R → Attempt Status × RankResponse R

-- A task that is `none` is a null pointer.
pub record Ranker (R : Type 0) : Type 0 where
  pub name : String
  pub create_task : RankRequest R → Option (RankTask R)

-- `rankers_` as an association list, and `default_ranker_name_`.
pub record RankingServiceImpl (R : Type 0) : Type 0 where
  pub rankers : List (String × Ranker R)
  pub default_ranker_name : String

abbrev same_user : ℤ → ℤ → Bool
same_user a b = pos_part a == pos_part b && neg_part a == neg_part b

abbrev pub is_ranking_success : RankingServiceStatus → Bool
is_ranking_success ranking_success = true
is_ranking_success _ = false

module _ {R : Type 0} where
  unfoldable pub find_ranker : String → List (String × Ranker R) → Option (Ranker R)
  find_ranker name [] = none
  find_ranker name ((n, ranker) ∷ rest) =
      if str_eq name n then some ranker else find_ranker name rest

  -- `RegisterRanker`, a null ranker being `none`.
  unfoldable pub register_ranker :
      Option (Ranker R) → List (String × Ranker R) → Attempt (List (String × Ranker R))
  register_ranker none rankers = thrown "RankingServiceImpl ranker is null."
  register_ranker (some ranker) rankers =
      if is_empty ranker.name
      then thrown "RankingServiceImpl ranker name is empty."
      else elim (find_ranker ranker.name rankers) [
        | some _ ↦ thrown (concat ("Duplicated ranker name " ∷ ranker.name ∷ "." ∷ []))
        | none ↦ returned ((ranker.name, ranker) ∷ rankers)
      ]

  -- The loop of `RegisterRankers`.
  unfoldable pub register_all :
      List (Option (Ranker R)) → List (String × Ranker R) → Attempt (List (String × Ranker R))
  register_all [] rankers = returned rankers
  register_all (ranker ∷ rest) rankers = elim (register_ranker ranker rankers) [
    | thrown message ↦ thrown message
    | returned registered ↦ register_all rest registered
  ]

  unfoldable pub register_rankers : List (Option (Ranker R)) → Attempt (List (String × Ranker R))
  register_rankers [] = thrown "RankingServiceImpl rankers is empty."
  register_rankers (ranker ∷ rest) = register_all (ranker ∷ rest) []

  unfoldable pub register_default_ranker :
      String → List (String × Ranker R) → Attempt (RankingServiceImpl R)
  register_default_ranker name rankers =
      if is_empty name
      then thrown "ranking.default_ranker must not be empty."
      else elim (find_ranker name rankers) [
        | none ↦ thrown (concat ("Default ranker " ∷ name ∷ " is not registered." ∷ []))
        | some _ ↦ returned (record { rankers = rankers; default_ranker_name = name })
      ]

  -- The constructor; `has_store` says that the item index store is not null.
  unfoldable pub construct :
      Bool → List (Option (Ranker R)) → String → Attempt (RankingServiceImpl R)
  construct has_store rankers default_ranker_name =
      if not has_store
      then thrown "RankingServiceImpl item_index_store must not be null."
      else elim (register_rankers rankers) [
        | thrown message ↦ thrown message
        | returned registered ↦ register_default_ranker default_ranker_name registered
      ]

  pub resolve_ranker_name : RankingServiceImpl R → RankRequest R → String
  resolve_ranker_name service request =
      if not (is_empty request.options.ranker)
      then request.options.ranker
      else service.default_ranker_name

  -- `ValidateRankRequest`: the message of a refusal.
  unfoldable pub validate_rank_request : RankRequest R → Option String
  validate_rank_request request =
      if leb_ℤ request.user_id (pos 0)
      then some (concat ("Invalid user_id " ∷ to_string_ℤ request.user_id ∷ "." ∷ []))
      else elim request.profile [
        | none ↦
            some (concat ("Profile is required for user " ∷ to_string_ℤ request.user_id ∷ "." ∷ []))
        | some profile ↦
            if not (same_user profile.user_id (pos 0))
              && not (same_user profile.user_id request.user_id)
            then some (
                concat (
                  "Profile user_id "
                  ∷ to_string_ℤ profile.user_id
                  ∷ " does not match request user_id "
                  ∷ to_string_ℤ request.user_id
                  ∷ "."
                  ∷ []))
            else if leb_ℤ request.max_results (pos 0)
            then some (concat ("Invalid max_results " ∷ to_string_ℤ request.max_results ∷ "." ∷ []))
            else none
      ]

  pub reply_with :
      StatusCode → RankingServiceStatus → String → RankResponse R → Status × RankResponse R
  reply_with code status message response =
      (failure code message, record response { status = status; msg = message })

  -- What `Rank` makes of the outcome of the task.
  unfoldable pub finish : Attempt Status × RankResponse R → Status × RankResponse R
  finish (thrown message, response) =
      reply_with StatusCode.internal ranking_system_error message response
  finish (returned status, response) =
      if not (is_ok status)
      then (
        status,
        if is_empty response.msg then record response { msg = status.error_message } else response,
      )
      else if is_ranking_success response.status
      then (status, record response { msg = "" })
      else if is_empty response.msg
      then (
        status,
        record response {
          msg = concat (
              "Ranking finished with status "
              ∷ to_string (ranking_status_number response.status)
              ∷ "."
              ∷ []);
        },
      )
      else (status, response)

  -- The `try` block.
  unfoldable pub run_ranker :
      String → Ranker R → RankRequest R → RankResponse R → Status × RankResponse R
  run_ranker name ranker request response = elim (ranker.create_task request) [
    | none ↦
        reply_with StatusCode.internal ranking_system_error
          (concat ("Ranker " ∷ name ∷ " created a null task." ∷ [])) response
    | some task ↦ finish (task response)
  ]

  pub rank : RankingServiceImpl R → RankRequest R → RankResponse R → Status × RankResponse R
  rank service request given =
      let response : RankResponse R = record given {
        msg = "";
        input_candidate_count = pos (length request.candidates);
        ranked_candidate_count = pos 0;
      } in
      elim (validate_rank_request request) [
        | some message ↦
            reply_with StatusCode.invalid_argument ranking_invalid_request message response
        | none ↦
            let name = resolve_ranker_name service request in
            elim (find_ranker name service.rankers) [
              | none ↦
                  reply_with StatusCode.invalid_argument ranking_invalid_request
                    (concat ("Unknown ranker " ∷ name ∷ "." ∷ [])) response
              | some ranker ↦ run_ranker name ranker request response
            ]
      ]
