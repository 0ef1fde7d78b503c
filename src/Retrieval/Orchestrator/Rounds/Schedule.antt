-- ===== src/Retrieval/Orchestrator/Rounds/Schedule.antt =====
-- The loop over the rounds ends, and visits the answers column by column.
use shooting_star.Base.{
  ℕ, zero, suc, ◌+◌, ◌≤◌, ◌<◌, Bool, true, false, List, [], ◌∷◌, ◌++◌, foldl, ◌≡◌, refl, ap, sym,
  ◌∙◌, none, some, arith, length, get_elem?, min, Option-cases, inl, inr, dec_lt,
}
use shooting_star.Base.Int.{ℤ}
use shooting_star.Base.Floats.{Double}
use shooting_star.Messages.Candidates.{CandidateItem}
use shooting_star.Retrieval.Orchestrator.Rounds.{
  Merged, Source, no_candidates, start, longest, absorb, take_turn, round, rounds, merge_responses,
}

module _ {R : Type 0} where
  -- The candidates at one position of the answers that are long enough.
  unfoldable pub column : ℕ → List (List (CandidateItem R)) → List (CandidateItem R)
  column i [] = []
  column i (cs ∷ rest) = elim (get_elem? cs i) [ none ↦ column i rest | some c ↦ c ∷ column i rest ]

  -- `count` columns from column `i` on.
  unfoldable pub columns : ℕ → ℕ → List (List (CandidateItem R)) → List (CandidateItem R)
  columns zero i answers = []
  columns (suc count) i answers = column i answers ++ columns count (suc i) answers

  -- All first candidates, then all second ones, and so on.
  unfoldable pub round_robin : List (List (CandidateItem R)) → List (CandidateItem R)
  round_robin answers = columns (longest answers) 0 answers

  -- The answers as round `i` finds them: an exhausted one stays at its end.
  at_round : ℕ → List (List (CandidateItem R)) → List (Source R)
  at_round i [] = []
  at_round i (cs ∷ rest) = (cs, min i (length cs)) ∷ at_round i rest

  start-at_round : (answers : List (List (CandidateItem R))) → start answers ≡ at_round 0 answers
  unfolding start at_round
  start-at_round [] = refl
  start-at_round (cs ∷ rest) =
      rw (start-at_round rest) (ap (λ (n : ℕ). (cs, n) ∷ at_round 0 rest) (omega arith))

  is_occupied : List (CandidateItem R) → Bool
  is_occupied [] = false
  is_occupied (_ ∷ _) = true

  get_elem?-short :
      (cs : List (CandidateItem R)) (i : ℕ)
      → length cs ≤ i
      → (get_elem? cs i ≡ none) × (get_elem? cs (length cs) ≡ none)
  get_elem?-short [] i h = (refl, refl)
  get_elem?-short (c ∷ cs) zero h = elim h [ ]
  get_elem?-short (c ∷ cs) (suc i) h = get_elem?-short cs i (omega arith)

  get_elem?-long :
      (cs : List (CandidateItem R)) (i : ℕ)
      → i < length cs
      → (c : CandidateItem R) × (get_elem? cs i ≡ some c)
  get_elem?-long [] i h = elim h [ ]
  get_elem?-long (c ∷ cs) zero h = (c, refl)
  get_elem?-long (c ∷ cs) (suc i) h = get_elem?-long cs i (omega arith)

  column_past :
      (answers : List (List (CandidateItem R))) (i : ℕ)
      → longest answers ≤ i
      → column i answers ≡ []
  unfolding column longest
  column_past [] i h = refl
  column_past (cs ∷ rest) i h = ground (arith, get_elem?-short cs i, column_past rest i)

  column_reached :
      (answers : List (List (CandidateItem R))) (i : ℕ)
      → i < longest answers
      → is_occupied (column i answers) ≡ true
  unfolding column longest is_occupied
  column_reached [] i h = elim h [ ]
  column_reached (cs ∷ rest) i h = ground (arith, get_elem?-long cs i, column_reached rest i)

foldl-append {ℓ κ} :
    {A : Type ℓ} {B : Type κ} (f : B → A → B) (b : B) (xs ys : List A)
    → foldl f b (xs ++ ys) ≡ foldl f (foldl f b xs) ys
foldl-append f b [] ys = refl
foldl-append f b (x ∷ xs) ys = foldl-append f (f b x) xs ys

module _ {R : Type 0} ⦃d : Double R⦄ (max_candidate_count : ℤ) where
  absorb_all : Merged R → List (CandidateItem R) → Merged R
  absorb_all = foldl (absorb max_candidate_count)

  take_turn-at_round :
      (cs : List (CandidateItem R)) (i : ℕ) (m : Merged R)
      → take_turn max_candidate_count (cs, min i (length cs)) m ≡ elim (get_elem? cs i) [
        | none ↦ (min (suc i) (length cs), false, m)
        | some c ↦ (min (suc i) (length cs), true, absorb max_candidate_count m c)
      ]
  unfolding take_turn
  take_turn-at_round cs i m = ground (arith, get_elem?-short cs i, get_elem?-long cs i)

  -- One round absorbs one column.
  round-at_round :
      (answers : List (List (CandidateItem R))) (i : ℕ) (m : Merged R)
      → round max_candidate_count (at_round i answers) m ≡ (
        at_round (suc i) answers,
        is_occupied (column i answers),
        absorb_all m (column i answers),
      )
  unfolding round at_round column absorb_all is_occupied
  round-at_round [] i m = refl
  round-at_round (cs ∷ rest) i m = elim (Option-cases (get_elem? cs i)) [
    | inl e ↦ ground (arith, take_turn-at_round cs i m, round-at_round rest i m)
    | inr (c, e) ↦
        ground
          (arith, take_turn-at_round cs i m, round-at_round rest i (absorb max_candidate_count m c))
  ]

  columns_past :
      (count i : ℕ) (answers : List (List (CandidateItem R)))
      → longest answers ≤ i
      → columns count i answers ≡ []
  unfolding columns
  columns_past zero i answers h = refl
  columns_past (suc count) i answers h =
      rw (column_past answers i h) (columns_past count (suc i) answers (omega arith))

  rounds-at_round :
      (count i : ℕ) (answers : List (List (CandidateItem R))) (m : Merged R)
      → longest answers ≤ i + count
      → rounds max_candidate_count (suc count) (at_round i answers) m
        ≡ some (absorb_all m (columns count i answers))
  unfolding rounds columns is_occupied absorb_all
  rounds-at_round zero i answers m h =
      rw (round-at_round answers i m, column_past answers i (omega arith))
  rounds-at_round (suc count) i answers m h = elim (dec_lt i (longest answers)) [
    | yes p ↦
        rw (round-at_round answers i m, column_reached answers i p)
          (rounds-at_round count (suc i) answers (absorb_all m (column i answers)) (omega arith)
            ∙ ap some (sym (foldl-append _ m (column i answers) _)))
    | no p ↦ rw (
      round-at_round answers i m,
      column_past answers i (omega arith),
      columns_past count (suc i) answers (omega arith),
    )
  ]

  -- The loop over the rounds ends, whatever the answers are, and merges their candidates in
  -- round-robin order: all first candidates, then all second ones, and so on.
  pub merge_responses-round_robin :
      (answers : List (List (CandidateItem R)))
      → merge_responses max_candidate_count answers
        ≡ some (foldl (absorb max_candidate_count) no_candidates (round_robin answers))
  unfolding merge_responses round_robin absorb_all
  merge_responses-round_robin answers =
      rw (start-at_round answers)
        (rounds-at_round (longest answers) 0 answers no_candidates (omega arith))
