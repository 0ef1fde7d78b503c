-- ===== src/Retrieval/Orchestrator/Merge/Normal.antt =====
-- What normalising and merging do to the fields of a candidate.
use shooting_star.Base.{
  List, [], ◌∷◌, ◌++◌, foldl, ◌≡◌, ◌≢◌, refl, ◌∙◌, arith, append-nil, append_assoc,
}
use shooting_star.Base.Floats.{Double}
use shooting_star.Messages.Candidates.{RetrievalReason, RetrievalSignal, CandidateItem}
use shooting_star.Retrieval.Orchestrator.Merge.{
  ensure_retrieval_signals, Rebuilt, rebuild_step, rebuild, rebuild_legacy_candidate_fields,
  normalize_candidate, merge_candidate, join_retriever_names,
}

-- The reasons of a list of signals, in order.
abbrev pub all_reasons : {R : Type 0} → List (RetrievalSignal R) → List (RetrievalReason R)
all_reasons [] = []
all_reasons (s ∷ ss) = s.reasons ++ all_reasons ss

module _ {R : Type 0} ⦃d : Double R⦄ where
  -- The legacy fields say what the signals say.
  pub record IsNormal (c : CandidateItem R) : Type 0 where
    pub has_signals : c.retrieval_signals ≢ []
    pub same_retriever :
        c.retriever ≡ join_retriever_names (rebuild c.retrieval_signals).retriever_names
    pub same_score : c.retrieve_score ≡ (rebuild c.retrieval_signals).aggregate_retrieve_score
    pub same_reasons : c.reasons ≡ all_reasons c.retrieval_signals

  reasons-steps :
      (st : Rebuilt R) (signals : List (RetrievalSignal R))
      → (foldl rebuild_step st signals).reasons ≡ st.reasons ++ all_reasons signals
  unfolding rebuild_step
  reasons-steps st [] = rw append-nil
  reasons-steps st (s ∷ ss) =
      reasons-steps (rebuild_step st s) ss ∙ append_assoc st.reasons s.reasons (all_reasons ss)

  pub reasons-rebuild :
      (signals : List (RetrievalSignal R)) → (rebuild signals).reasons ≡ all_reasons signals
  unfolding rebuild
  reasons-rebuild signals = reasons-steps _ signals

  pub rebuild_legacy-IsNormal :
      (c : CandidateItem R)
      → c.retrieval_signals ≢ []
      → IsNormal (rebuild_legacy_candidate_fields c)
  unfolding rebuild_legacy_candidate_fields
  rebuild_legacy-IsNormal c h = record {
    has_signals = h;
    same_retriever = refl;
    same_score = refl;
    same_reasons = reasons-rebuild c.retrieval_signals;
  }

  ensure-ne-nil : (c : CandidateItem R) → (ensure_retrieval_signals c).retrieval_signals ≢ []
  unfolding ensure_retrieval_signals
  ensure-ne-nil c = ground arith

  -- A normalised candidate has a signal, and its legacy fields agree with its signals.
  pub normalize_candidate-IsNormal : (c : CandidateItem R) → IsNormal (normalize_candidate c)
  unfolding normalize_candidate
  normalize_candidate-IsNormal c =
      rebuild_legacy-IsNormal (ensure_retrieval_signals c) (ensure-ne-nil c)

  -- Normalising changes nothing in a candidate that agrees with its signals.
  pub normalize_candidate_of_IsNormal :
      (c : CandidateItem R) → IsNormal c → normalize_candidate c ≡ c
  unfolding normalize_candidate ensure_retrieval_signals rebuild_legacy_candidate_fields
  normalize_candidate_of_IsNormal c n = ground (arith, reasons-rebuild c.retrieval_signals)

  -- Normalising twice is normalising once.
  pub normalize_candidate_idem :
      (c : CandidateItem R) → normalize_candidate (normalize_candidate c) ≡ normalize_candidate c
  normalize_candidate_idem c =
      normalize_candidate_of_IsNormal (normalize_candidate c) (normalize_candidate-IsNormal c)

  pub item_id-normalize_candidate :
      (c : CandidateItem R) → (normalize_candidate c).item_id ≡ c.item_id
  unfolding normalize_candidate ensure_retrieval_signals rebuild_legacy_candidate_fields
  item_id-normalize_candidate c = ground arith

  pub item_id-merge_candidate :
      (source target : CandidateItem R) → (merge_candidate source target).item_id ≡ target.item_id
  unfolding merge_candidate rebuild_legacy_candidate_fields
  item_id-merge_candidate source target = refl
