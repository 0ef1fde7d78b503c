-- ===== src/Retrieval/Orchestrator/Merge.antt =====
-- retrieval_orchestrator.cpp: how two candidates for one item become one. A candidate carries a
-- list of signals, one for each retriever, and legacy fields that are recomputed from the signals.
pub mod Normal
pub mod Signals
use shooting_star.Base.{
  String, Bool, true, false, List, [], ◌∷◌, ◌++◌, foldl, if◌then◌else◌, ◌==◌, ◌&&◌, not, ◌||◌,
}
use shooting_star.Base.Text.{str_eq, is_empty, concat}
use shooting_star.Base.Floats.{Double, nought}
use shooting_star.Messages.Candidates.{
  ItemType, item_type_unspecified, RetrievalReason, RetrievalSignal, CandidateItem,
}

abbrev pub contains_name : String → List String → Bool
contains_name a [] = false
contains_name a (x ∷ xs) = str_eq a x || contains_name a xs

-- The loop of `JoinRetrieverNames`; `joined` is its accumulator.
join_onto : String → List String → String
join_onto joined [] = joined
join_onto joined (name ∷ names) =
    join_onto
      (if is_empty name
        then joined
        else if is_empty joined
        then name
        else concat (joined ∷ "," ∷ name ∷ []))
      names

unfoldable pub join_retriever_names : List String → String
unfolding join_onto
join_retriever_names names = join_onto "" names

module _ {R : Type 0} where
  unfoldable pub ensure_retrieval_signals : CandidateItem R → CandidateItem R
  ensure_retrieval_signals c = elim c.retrieval_signals [
    | [] ↦ record c {
      retrieval_signals =
          record { retriever = c.retriever; retrieve_score = c.retrieve_score; reasons = c.reasons }
          ∷ [];
    }
    | _ ∷ _ ↦ c
  ]

abbrev is_unspecified : ItemType → Bool
is_unspecified item_type_unspecified = true
is_unspecified _ = false

-- The locals of `RebuildLegacyCandidateFields`, and the reasons added so far.
pub record Rebuilt (R : Type 0) : Type 0 where
  pub aggregate_retrieve_score : R
  pub retriever_names : List String
  pub seen_retrievers : List String
  pub reasons : List (RetrievalReason R)

module _ {R : Type 0} ⦃d : Double R⦄ where
  pub rebuild_step : Rebuilt R → RetrievalSignal R → Rebuilt R
  rebuild_step st signal =
      let is_new =
        not (is_empty signal.retriever)
        && not (contains_name signal.retriever st.seen_retrievers) in
      record {
        aggregate_retrieve_score = d.add st.aggregate_retrieve_score signal.retrieve_score;
        retriever_names =
            if is_new then st.retriever_names ++ (signal.retriever ∷ []) else st.retriever_names;
        seen_retrievers =
            if is_new then signal.retriever ∷ st.seen_retrievers else st.seen_retrievers;
        reasons = st.reasons ++ signal.reasons;
      }

  pub rebuild : List (RetrievalSignal R) → Rebuilt R
  unfolding rebuild_step
  rebuild signals =
      foldl rebuild_step
        (record {
          aggregate_retrieve_score = nought;
          retriever_names = [];
          seen_retrievers = [];
          reasons = [];
        })
        signals

  unfoldable pub rebuild_legacy_candidate_fields : CandidateItem R → CandidateItem R
  rebuild_legacy_candidate_fields c =
      let r = rebuild c.retrieval_signals in
      record c {
        retriever = join_retriever_names r.retriever_names;
        retrieve_score = r.aggregate_retrieve_score;
        reasons = r.reasons;
      }

  unfoldable pub normalize_candidate : CandidateItem R → CandidateItem R
  normalize_candidate c = rebuild_legacy_candidate_fields (ensure_retrieval_signals c)

  -- The loop of `MergeRetrievalSignal` over the target's signals.
  pub merge_retrieval_signal :
      RetrievalSignal R → List (RetrievalSignal R) → List (RetrievalSignal R)
  merge_retrieval_signal source [] = source ∷ []
  merge_retrieval_signal source (target ∷ rest) =
      if str_eq target.retriever source.retriever
      then record target {
        retrieve_score = d.add target.retrieve_score source.retrieve_score;
        reasons = target.reasons ++ source.reasons;
      }
        ∷ rest
      else target ∷ merge_retrieval_signal source rest

  pub merge_retrieval_signals :
      List (RetrievalSignal R) → List (RetrievalSignal R) → List (RetrievalSignal R)
  merge_retrieval_signals sources targets =
      foldl (λ ts s. merge_retrieval_signal s ts) targets sources

  unfoldable pub merge_candidate : CandidateItem R → CandidateItem R → CandidateItem R
  merge_candidate source_candidate target =
      let source = normalize_candidate source_candidate in
      let item_type =
        if is_unspecified target.item_type && not (is_unspecified source.item_type)
        then source.item_type
        else target.item_type in
      let author_id =
        if target.author_id == 0 && not (source.author_id == 0)
        then source.author_id
        else target.author_id in
      rebuild_legacy_candidate_fields (record target {
        item_type = item_type;
        author_id = author_id;
        retrieval_signals =
            merge_retrieval_signals source.retrieval_signals target.retrieval_signals;
      })
