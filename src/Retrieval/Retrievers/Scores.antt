-- ===== src/Retrieval/Retrievers/Scores.antt =====
-- What retriever_item_cf.cpp and retriever_user_cf.cpp share, in the same words: weighted items
-- become scored ones, scored neighbours contribute to a pool of candidates, the pool is sorted and
-- written to the response. The structs TriggerSeed, ScoredItem, ItemNeighbor and UserNeighbor are
-- all an identifier with a score.
pub mod Pool
pub mod Strongest
pub mod Ranking
use shooting_star.Base.{
  ℕ, suc, String, Bool, true, false, List, [], ◌∷◌, ◌++◌, if◌then◌else◌, ◌==◌, ◌||◌, length,
}
use shooting_star.Base.Int.{ℤ, pos, pos_part, is_positive, ltb_ℤ}
use shooting_star.Base.Text.{concat, to_string}
use shooting_star.Base.Sets.{contains}
use shooting_star.Base.Sort.{sort}
use shooting_star.Base.Sort.Order.{higher_first}
use shooting_star.Base.Floats.{Double, nought}
use shooting_star.Messages.Profiles.{WeightedItem}
use shooting_star.Messages.Candidates.{
  item_type_unspecified, EntityType, ReasonType, RetrievalReason, CandidateItem,
}

pub record Scored (R : Type 0) : Type 0 where
  pub id : ℕ
  pub score : R

pub record CandidateScore (R : Type 0) : Type 0 where
  pub item_id : ℕ
  pub score : R
  pub trigger_entity_id : ℕ
  pub trigger_score : R
  pub source_score : R
  pub reason_score : R

-- `unordered_map<uint64_t, CandidateScore>`, in an order that the code does not know.
abbrev pub Pool : Type 0 → Type 0
Pool R = List (ℕ × CandidateScore R)

-- The set of the identifiers seen, and the scored items.
abbrev pub Collected : Type 0 → Type 0
Collected R = List ℕ × List (Scored R)

module _ {R : Type 0} ⦃d : Double R⦄ where
  -- `x <= 0.0`
  abbrev pub is_nonpositive : R → Bool
  is_nonpositive x = d.lt x nought || d.eq x nought

  -- The score of the item at a rank.
  unfoldable pub behavior_score : R → R → ℕ → R
  behavior_score base_score weight rank =
      let item_weight = if d.lt nought weight then weight else d.of_decimal (pos 1) 0 in
      d.div (d.mul base_score item_weight) (d.of_decimal (pos rank) 0)

  -- The loop of `AppendTriggerSeeds` and `AppendNeighborCandidateItems`; `rank` is the one of the
  -- item before. Every item has a rank, also one that is passed over.
  unfoldable pub append_ranked : R → ℕ → List (WeightedItem R) → Collected R → Collected R
  append_ranked base_score rank [] (seen, scored) = (seen, scored)
  append_ranked base_score rank (item ∷ items) (seen, scored) =
      let id = pos_part item.item_id in
      append_ranked base_score (suc rank) items (
        if is_positive item.item_id
        then (if contains id seen then (seen, scored) else (
          id ∷ seen,
          scored
              ++ (record { id = id; score = behavior_score base_score item.weight (suc rank) }
                  ∷ []),
        ))
        else (seen, scored))

  unfoldable pub append_weighted_items : R → List (WeightedItem R) → Collected R → Collected R
  append_weighted_items base_score = append_ranked base_score 0

  -- `try_emplace`: a new candidate has no score and no trigger.
  unfoldable pub empty_candidate : ℕ → CandidateScore R
  empty_candidate item_id = record {
    item_id = item_id;
    score = nought;
    trigger_entity_id = 0;
    trigger_score = nought;
    source_score = nought;
    reason_score = nought;
  }

  -- One contribution to a candidate: the score adds up, the strongest edge explains it.
  unfoldable pub contribute : Scored R → Scored R → Bool → CandidateScore R → CandidateScore R
  contribute trigger neighbor inserted candidate =
      let contribution = d.mul trigger.score neighbor.score in
      let scored = record candidate { score = d.add candidate.score contribution } in
      if inserted || d.lt candidate.reason_score contribution
      then record scored {
        trigger_entity_id = trigger.id;
        trigger_score = trigger.score;
        source_score = neighbor.score;
        reason_score = contribution;
      }
      else scored

  -- `try_emplace` and the update through its iterator.
  unfoldable pub upsert : Scored R → Scored R → Pool R → Pool R
  upsert trigger neighbor [] =
      (neighbor.id, contribute trigger neighbor true (empty_candidate neighbor.id)) ∷ []
  upsert trigger neighbor ((k, candidate) ∷ pool) =
      if neighbor.id == k
      then (k, contribute trigger neighbor false candidate) ∷ pool
      else (k, candidate) ∷ upsert trigger neighbor pool

  unfoldable pub add_candidate_contribution : Scored R → Scored R → Pool R → Pool R
  add_candidate_contribution trigger neighbor pool =
      if neighbor.id == 0 || is_nonpositive neighbor.score
      then pool
      else if is_nonpositive (d.mul trigger.score neighbor.score)
      then pool
      else upsert trigger neighbor pool

  -- The candidates of the pool.
  abbrev pub values : Pool R → List (CandidateScore R)
  values [] = []
  values ((_, candidate) ∷ pool) = candidate ∷ values pool

  abbrev pub better : CandidateScore R → CandidateScore R → Bool
  better = higher_first (λ c. c.score) (λ c. c.item_id)

  pub sort_candidates : Pool R → List (CandidateScore R)
  sort_candidates pool = sort better (values pool)

-- What differs between the two retrievers in the candidates that they write.
pub record Labels : Type 0 where
  pub retriever_name : String
  pub reason_type : ReasonType
  pub entity_type : EntityType
  pub description : String

module _ {R : Type 0} ⦃d : Double R⦄ (labels : Labels) (score_multiplier : R) where
  pub response_candidate : CandidateScore R → CandidateItem R
  response_candidate scored =
      let reason : RetrievalReason R = record {
        reason_type = labels.reason_type;
        trigger = record { entity_type = labels.entity_type; entity_id = scored.trigger_entity_id };
        reason_score = d.mul scored.reason_score score_multiplier;
        description = concat (labels.description ∷ to_string scored.trigger_entity_id ∷ "." ∷ []);
      } in
      let retrieve_score = d.mul scored.score score_multiplier in
      record {
        item_id = scored.item_id;
        item_type = item_type_unspecified;
        author_id = 0;
        retriever = labels.retriever_name;
        retrieve_score = retrieve_score;
        reasons = reason ∷ [];
        retrieval_signals =
            record {
              retriever = labels.retriever_name;
              retrieve_score = retrieve_score;
              reasons = reason ∷ [];
            }
            ∷ [];
      }

  -- The loop of `FillResponseCandidates`, which stops once the response is full.
  pub fill_response : ℤ → List (CandidateItem R) → List (CandidateScore R) → List (CandidateItem R)
  fill_response max_count filled [] = filled
  fill_response max_count filled (scored ∷ rest) = elim (ltb_ℤ (pos (length filled)) max_count) [
    | false ↦ filled
    | true ↦ fill_response max_count (filled ++ (response_candidate scored ∷ [])) rest
  ]
