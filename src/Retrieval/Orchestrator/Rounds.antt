-- ===== src/Retrieval/Orchestrator/Rounds.antt =====
-- retrieval_orchestrator.cpp, the loop of `DispatchToRetrievers` that takes one candidate from each
-- answer in turn until a round advances none.
pub mod Schedule
pub mod Index
pub mod Items
pub mod Combined
use shooting_star.Base.{
  ℕ, zero, suc, Bool, true, false, List, [], ◌∷◌, ◌++◌, if◌then◌else◌, ◌==◌, ◌||◌, Option, none,
  some, length, get_elem?, update, max,
}
use shooting_star.Base.Int.{ℤ, pos, ltb_ℤ}
use shooting_star.Base.Sets.{lookup}
use shooting_star.Base.Floats.{Double}
use shooting_star.Messages.Candidates.{CandidateItem}
use shooting_star.Retrieval.Orchestrator.Merge.{normalize_candidate, merge_candidate}

-- The response's candidates, and `candidate_index_by_item_id`.
pub record Merged (R : Type 0) : Type 0 where
  pub candidates : List (CandidateItem R)
  pub index : List (ℕ × ℕ)

-- A retriever's answer with its entry of `next_candidate_indices`.
abbrev pub Source : Type 0 → Type 0
Source R = List (CandidateItem R) × ℕ

unfoldable pub no_candidates : {R : Type 0} → Merged R
no_candidates = record { candidates = []; index = [] }

-- Every answer from its first candidate.
pub start : {R : Type 0} → List (List (CandidateItem R)) → List (Source R)
start [] = []
start (cs ∷ rest) = (cs, 0) ∷ start rest

unfoldable pub longest : {R : Type 0} → List (List (CandidateItem R)) → ℕ
longest [] = 0
longest (cs ∷ rest) = max (length cs) (longest rest)

module _ {R : Type 0} ⦃d : Double R⦄ (max_candidate_count : ℤ) where
  -- What the loop does with one candidate.
  unfoldable pub absorb : Merged R → CandidateItem R → Merged R
  absorb m c = if c.item_id == 0 then m else elim (lookup c.item_id m.index) [
    | some position ↦ record m { candidates = update m.candidates position (merge_candidate c) }
    | none ↦
        if ltb_ℤ (pos (length m.candidates)) max_candidate_count
        then record {
          candidates = m.candidates ++ (normalize_candidate c ∷ []);
          index = (c.item_id, length m.candidates) ∷ m.index;
        }
        else m
  ]

  -- The turn of one answer: its next index, whether it advanced, the candidates.
  pub take_turn : Source R → Merged R → ℕ × Bool × Merged R
  take_turn (cs, i) m = elim (get_elem? cs i) [
    | none ↦ (i, false, m)
    | some c ↦ (suc i, true, absorb m c)
  ]

  -- One round: the `for` over the answers.
  pub round : List (Source R) → Merged R → List (Source R) × Bool × Merged R
  round [] m = ([], false, m)
  round ((cs, i) ∷ rest) m =
      let (i', moved, m') = take_turn (cs, i) m in
      let (rest', later, m'') = round rest m' in ((cs, i') ∷ rest', moved || later, m'')

  -- The `while`; `none` means that the fuel ran out.
  pub rounds : ℕ → List (Source R) → Merged R → Option (Merged R)
  rounds zero sources m = none
  rounds (suc fuel) sources m =
      let (sources', advanced, m') = round sources m in
      let again = rounds fuel sources' m' in if advanced then again else some m'

  pub merge_responses : List (List (CandidateItem R)) → Option (Merged R)
  merge_responses answers = rounds (suc (longest answers)) (start answers) no_candidates
