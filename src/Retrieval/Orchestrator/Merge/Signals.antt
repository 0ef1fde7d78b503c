-- ===== src/Retrieval/Orchestrator/Merge/Signals.antt =====
-- Merging loses no signal and no reason.
use mathlib.Core.List.Perm
use mathlib.Core.List.{perm_append_comm}
use shooting_star.Base.{
  String, false, List, [], ◌∷◌, ◌++◌, map, ◌≡◌, ◌≢◌, refl, arith, append-nil, append_assoc, Perm,
  ◌||◌, Bool-cases, inl, inr,
}
use shooting_star.Base.Text.{str_eq, str_eq_iff}
use shooting_star.Base.Floats.{Double}
use shooting_star.Messages.Candidates.{RetrievalSignal, CandidateItem}
use shooting_star.Retrieval.Orchestrator.Merge.{
  contains_name, merge_retrieval_signal, merge_retrieval_signals, rebuild_legacy_candidate_fields,
  normalize_candidate, merge_candidate,
}
use shooting_star.Retrieval.Orchestrator.Merge.Normal.{
  all_reasons, IsNormal, reasons-rebuild, rebuild_legacy-IsNormal, normalize_candidate-IsNormal,
}

abbrev pub retrievers : {R : Type 0} → List (RetrievalSignal R) → List String
retrievers = map λ s. s.retriever

-- No retriever has two signals.
abbrev pub DistinctNames : List String → Type 0
DistinctNames [] = Unit {0}
DistinctNames (x ∷ xs) = (contains_name x xs ≡ false) × DistinctNames xs

module _ {R : Type 0} ⦃d : Double R⦄ where
  retrievers-merge_retrieval_signal :
      (s : RetrievalSignal R) (ts : List (RetrievalSignal R)) (a : String)
      → contains_name a (retrievers (merge_retrieval_signal s ts))
        ≡ (str_eq a s.retriever || contains_name a (retrievers ts))
  unfolding merge_retrieval_signal
  retrievers-merge_retrieval_signal s [] a = refl
  retrievers-merge_retrieval_signal s (t ∷ ts) a = ground (
    arith,
    retrievers-merge_retrieval_signal s ts a,
    str_eq_iff t.retriever s.retriever,
    str_eq_iff a s.retriever,
    str_eq_iff a t.retriever,
  )

  DistinctNames-merge_retrieval_signal :
      (s : RetrievalSignal R) (ts : List (RetrievalSignal R))
      → DistinctNames (retrievers ts)
      → DistinctNames (retrievers (merge_retrieval_signal s ts))
  unfolding merge_retrieval_signal
  DistinctNames-merge_retrieval_signal s [] h = (refl, tt)
  DistinctNames-merge_retrieval_signal s (t ∷ ts) h = ground (
    arith,
    retrievers-merge_retrieval_signal s ts t.retriever,
    DistinctNames-merge_retrieval_signal s ts h.1,
  )

  reasons-merge_retrieval_signal :
      (s : RetrievalSignal R) (ts : List (RetrievalSignal R))
      → Perm (all_reasons (merge_retrieval_signal s ts)) (all_reasons ts ++ s.reasons)
  unfolding merge_retrieval_signal
  reasons-merge_retrieval_signal s [] = rw append-nil (Perm.refl s.reasons)
  reasons-merge_retrieval_signal s (t ∷ ts) = elim (Bool-cases (str_eq t.retriever s.retriever)) [
    | inl same ↦
        rw (same, append_assoc, append_assoc)
          (Perm.append (Perm.refl t.reasons) (perm_append_comm s.reasons (all_reasons ts)))
    | inr other ↦
        rw (other, append_assoc)
          (Perm.append (Perm.refl t.reasons) (reasons-merge_retrieval_signal s ts))
  ]

  reasons-merge_retrieval_signals :
      (ss ts : List (RetrievalSignal R))
      → Perm (all_reasons (merge_retrieval_signals ss ts)) (all_reasons ts ++ all_reasons ss)
  unfolding merge_retrieval_signals
  reasons-merge_retrieval_signals [] ts = rw append-nil (Perm.refl (all_reasons ts))
  reasons-merge_retrieval_signals (s ∷ ss) ts =
      Perm.trans (reasons-merge_retrieval_signals ss (merge_retrieval_signal s ts)) (
        rw (← append_assoc (all_reasons ts) s.reasons (all_reasons ss))
          (Perm.append (reasons-merge_retrieval_signal s ts) (Perm.refl (all_reasons ss))))

  retrievers-merge_retrieval_signals :
      (ss ts : List (RetrievalSignal R)) (a : String)
      → contains_name a (retrievers (merge_retrieval_signals ss ts))
        ≡ (contains_name a (retrievers ts) || contains_name a (retrievers ss))
  unfolding merge_retrieval_signals
  retrievers-merge_retrieval_signals [] ts a = ground arith
  retrievers-merge_retrieval_signals (s ∷ ss) ts a = ground (
    arith,
    retrievers-merge_retrieval_signals ss (merge_retrieval_signal s ts) a,
    retrievers-merge_retrieval_signal s ts a,
  )

  DistinctNames-merge_retrieval_signals :
      (ss ts : List (RetrievalSignal R))
      → DistinctNames (retrievers ts)
      → DistinctNames (retrievers (merge_retrieval_signals ss ts))
  unfolding merge_retrieval_signals
  DistinctNames-merge_retrieval_signals [] ts h = h
  DistinctNames-merge_retrieval_signals (s ∷ ss) ts h =
      DistinctNames-merge_retrieval_signals ss (merge_retrieval_signal s ts)
        (DistinctNames-merge_retrieval_signal s ts h)

  -- Merging keeps every reason: the merged candidate has the reasons of the target's signals and
  -- of the normalised source's, each as often as before.
  pub reasons-merge_candidate :
      (source target : CandidateItem R)
      → Perm
          (merge_candidate source target).reasons
          (all_reasons target.retrieval_signals ++ (normalize_candidate source).reasons)
  unfolding merge_candidate rebuild_legacy_candidate_fields
  reasons-merge_candidate source target =
      let n = normalize_candidate source in
      rw (reasons-rebuild, (normalize_candidate-IsNormal source).same_reasons)
        (reasons-merge_retrieval_signals n.retrieval_signals target.retrieval_signals)

  -- After a merge a retriever has a signal exactly if it had one in the target or in the normalised
  -- source, and none has two if none had two in the target.
  pub retrievers-merge_candidate :
      (source target : CandidateItem R)
      → DistinctNames (retrievers target.retrieval_signals)
      → ((a : String)
          → contains_name a (retrievers (merge_candidate source target).retrieval_signals) ≡ (
              contains_name a (retrievers target.retrieval_signals)
              || contains_name a (retrievers (normalize_candidate source).retrieval_signals)))
        × DistinctNames (retrievers (merge_candidate source target).retrieval_signals)
  unfolding merge_candidate rebuild_legacy_candidate_fields
  retrievers-merge_candidate source target h = (
    retrievers-merge_retrieval_signals _ target.retrieval_signals,
    DistinctNames-merge_retrieval_signals _ target.retrieval_signals h,
  )

  merge_retrieval_signal-ne-nil :
      (s : RetrievalSignal R) (ts : List (RetrievalSignal R)) → merge_retrieval_signal s ts ≢ []
  unfolding merge_retrieval_signal
  merge_retrieval_signal-ne-nil s [] = λ e. cc
  merge_retrieval_signal-ne-nil s (t ∷ ts) = ground arith

  merge_retrieval_signals-ne-nil :
      (ss ts : List (RetrievalSignal R)) → ts ≢ [] → merge_retrieval_signals ss ts ≢ []
  unfolding merge_retrieval_signals
  merge_retrieval_signals-ne-nil [] ts h = h
  merge_retrieval_signals-ne-nil (s ∷ ss) ts h =
      merge_retrieval_signals-ne-nil ss (merge_retrieval_signal s ts)
        (merge_retrieval_signal-ne-nil s ts)

  -- A merged candidate is normalised, if its target had a signal.
  pub merge_candidate-IsNormal :
      (source target : CandidateItem R)
      → target.retrieval_signals ≢ []
      → IsNormal (merge_candidate source target)
  unfolding merge_candidate
  merge_candidate-IsNormal source target h =
      rebuild_legacy-IsNormal _ (merge_retrieval_signals-ne-nil _ target.retrieval_signals h)
