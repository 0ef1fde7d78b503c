-- ===== src/Retrieval/Retrievers/ItemCf.antt =====
-- retriever_item_cf.cpp: trigger seeds from the user's behaviour, their neighbours from the
-- similarity store in batches, a pool of scored candidates, the best of them as the response.
-- Logging is left out; the choice of the store (local file or Redis) is the argument `store`.
pub mod Seeds
pub mod Batches
pub mod Results
use shooting_star.Base.{
  ℕ, zero, suc, ◌+◌, Bool, true, false, List, [], ◌∷◌, Option, none, some, if◌then◌else◌, ◌==◌,
  ◌||◌, map, length, take, drop, Attempt, returned, thrown,
}
use shooting_star.Base.Int.{ℤ, pos, pos_part, leb_ℤ}
use shooting_star.Base.Sets.{contains}
use shooting_star.Base.Sort.{sort}
use shooting_star.Base.Sort.Order.{higher_first}
use shooting_star.Base.Floats.{Double}
use shooting_star.Messages.Status.{
  StatusCode, status_ok, failure, retriever_success, retriever_system_error,
  retriever_empty_trigger_seeds,
}
use shooting_star.Messages.Profiles.{Profile}
use shooting_star.Messages.Candidates.{entity_type_item, reason_type_item_cf}
use shooting_star.Messages.Services.{RetrieverRequest}
use shooting_star.Retrieval.Retrievers.Scores.{
  Scored, Pool, is_nonpositive, append_weighted_items, add_candidate_contribution, sort_candidates,
  Labels, fill_response,
}
use shooting_star.Retrieval.Retrievers.Base.{Handler, collect_item_ids_to_filter_out}

-- `FindNeighborsByItemIds` of an ItemSimilarityStore.
abbrev pub ItemSimilarityStore : Type 0 → Type 0
ItemSimilarityStore R = List ℕ → ℤ → Attempt (List (List (Scored R)))

pub record RetrieverItemCf (R : Type 0) : Type 0 where
  pub store : ItemSimilarityStore R
  pub default_max_candidate_count : ℤ
  pub max_trigger_seed_count : ℤ
  pub redis_command_batch_size : ℤ
  pub score_multiplier : R

-- The constructor's checks, in order; a null store is `none`.
unfoldable pub construct :
    {R : Type 0} ⦃d : Double R⦄
    → Option (ItemSimilarityStore R)
    → ℤ
    → ℤ
    → ℤ
    → R
    → Attempt (RetrieverItemCf R)
construct ⦃d⦄ none default_count seed_count batch_size multiplier =
    thrown "RetrieverItemCf item_similarity_store must not be null"
construct ⦃d⦄ (some store) default_count seed_count batch_size multiplier =
    if leb_ℤ default_count (pos 0)
    then thrown "RetrieverItemCf default_max_candidate_count must be positive"
    else if leb_ℤ seed_count (pos 0)
    then thrown "RetrieverItemCf max_trigger_seed_count must be positive"
    else if leb_ℤ batch_size (pos 0)
    then thrown "RetrieverItemCf redis_command_batch_size must be positive"
    else if is_nonpositive multiplier
    then thrown "RetrieverItemCf score_multiplier must be positive"
    else returned (record {
      store = store;
      default_max_candidate_count = default_count;
      max_trigger_seed_count = seed_count;
      redis_command_batch_size = batch_size;
      score_multiplier = multiplier;
    })

pub record SessionData (R : Type 0) : Type 0 where
  pub trigger_seeds : List (Scored R)
  pub item_ids_to_filter_out : List ℕ
  pub candidates : Pool R
  pub total_neighbors_fetched : ℕ
  pub total_neighbors_filtered_out : ℕ

module _ {R : Type 0} where
  -- The consecutive slices that `batch_start` and `batch_end` mark off; the number of seeds is
  -- enough fuel, since every slice takes one.
  pub slices : ℕ → ℕ → List (Scored R) → List (List (Scored R))
  slices zero size seeds = []
  slices (suc fuel) size [] = []
  slices (suc fuel) size (seed ∷ seeds) =
      take size (seed ∷ seeds) ∷ slices fuel size (drop size (seed ∷ seeds))

  abbrev pub seed_ids : List (Scored R) → List ℕ
  seed_ids = map λ s. s.id

module _ {R : Type 0} ⦃d : Double R⦄ where
  unfoldable pub collect_trigger_seeds : Profile R → List (Scored R)
  collect_trigger_seeds profile =
      let recent =
        append_weighted_items (d.of_decimal (pos 1) 0) profile.behaviors.recent_liked_items
          ([], []) in
      let liked =
        append_weighted_items (d.of_decimal (pos 5) 1) profile.behaviors.liked_items recent in
      (append_weighted_items (d.of_decimal (pos 3) 1) profile.behaviors.interested_items liked).1

  abbrev pub stronger : Scored R → Scored R → Bool
  stronger = higher_first (λ s. s.score) (λ s. s.id)

  -- `partial_sort` and `resize`; a short list is left in its order.
  unfoldable pub select_top_trigger_seeds : List (Scored R) → ℤ → List (Scored R)
  select_top_trigger_seeds seeds max_count =
      if leb_ℤ max_count (pos 0) || leb_ℤ (pos (length seeds)) max_count
      then seeds
      else take (pos_part max_count) (sort stronger seeds)

  -- The loop over the neighbours of one trigger.
  pub aggregate_neighbors : Scored R → List (Scored R) → SessionData R → SessionData R
  aggregate_neighbors trigger [] session = session
  aggregate_neighbors trigger (neighbor ∷ rest) session = aggregate_neighbors trigger rest (
      if contains neighbor.id session.item_ids_to_filter_out
      then record session {
        total_neighbors_filtered_out = suc session.total_neighbors_filtered_out;
      }
      else record session {
        candidates = add_candidate_contribution trigger neighbor session.candidates;
      })

  -- The triggers of the batch with their neighbours. The counters of the batch go straight to the
  -- totals.
  pub aggregate_similarity_batch :
      List (Scored R) → List (List (Scored R)) → SessionData R → SessionData R
  aggregate_similarity_batch [] _ session = session
  aggregate_similarity_batch (_ ∷ _) [] session = session
  aggregate_similarity_batch (trigger ∷ triggers) (neighbors ∷ rest) session =
      aggregate_similarity_batch triggers rest (
        aggregate_neighbors trigger neighbors (record session {
          total_neighbors_fetched = session.total_neighbors_fetched + length neighbors;
        }))

  pub aggregate_batches :
      ItemSimilarityStore R → ℤ → List (List (Scored R)) → SessionData R → Attempt (SessionData R)
  aggregate_batches store max_count [] session = returned session
  aggregate_batches store max_count (batch ∷ batches) session =
      elim (store (seed_ids batch) max_count) [
        | thrown message ↦ thrown message
        | returned neighbors ↦ elim (length neighbors == length batch) [
          | false ↦ thrown "ItemSimilarityStore batch lookup returned mismatched result size"
          | true ↦
              aggregate_batches store max_count batches
                (aggregate_similarity_batch batch neighbors session)
        ]
      ]

unfoldable pub item_cf_labels : Labels
item_cf_labels = record {
  retriever_name = "item_cf";
  reason_type = reason_type_item_cf;
  entity_type = entity_type_item;
  description = "Retrieved from item_cf using trigger item ";
}

module _ {R : Type 0} ⦃d : Double R⦄ (retriever : RetrieverItemCf R) where
  unfoldable pub build_session : Profile R → SessionData R
  build_session profile = record {
    trigger_seeds =
        select_top_trigger_seeds (collect_trigger_seeds profile) retriever.max_trigger_seed_count;
    item_ids_to_filter_out = collect_item_ids_to_filter_out profile;
    candidates = [];
    total_neighbors_fetched = 0;
    total_neighbors_filtered_out = 0;
  }

  pub aggregate_similarity_candidates : RetrieverRequest R → SessionData R → Attempt (SessionData R)
  aggregate_similarity_candidates request session =
      aggregate_batches retriever.store request.max_candidate_count
        (slices (length session.trigger_seeds) (pos_part retriever.redis_command_batch_size)
          session.trigger_seeds)
        session

  unfoldable pub do_retrieve : Handler R
  do_retrieve request profile response =
      let session = build_session profile in
      elim session.trigger_seeds [
        | [] ↦ (
          status_ok,
          record response {
            status = retriever_empty_trigger_seeds;
            msg = "No valid trigger seeds found from user profile.";
          },
        )
        | _ ∷ _ ↦ elim (aggregate_similarity_candidates request session) [
          | thrown message ↦ (
            failure StatusCode.internal message,
            record response { status = retriever_system_error; msg = message },
          )
          | returned aggregated ↦ (
            status_ok,
            record response {
              status = retriever_success;
              msg = "";
              candidates =
                  fill_response item_cf_labels retriever.score_multiplier
                    request.max_candidate_count response.candidates
                    (sort_candidates aggregated.candidates);
            },
          )
        ]
      ]
