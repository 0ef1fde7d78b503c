-- ===== src/Retrieval/Orchestrator/Rounds/Items.antt =====
-- Which items the response holds, and in which order.
use shooting_star.Base.{
  ℕ, zero, suc, ◌≤◌, true, false, List, [], ◌∷◌, ◌++◌, foldl, ◌≡◌, refl, ap, sym, ◌∙◌, some, arith,
  length, take, update, length-append, length-map, take_of_length-le, append-nil, append_assoc,
  ◌==◌, ◌||◌,
}
use shooting_star.Base.Int.{ℤ, pos_part}
use shooting_star.Base.Sets.{contains, contains-append}
use shooting_star.Base.Floats.{Double}
use shooting_star.Messages.Candidates.{CandidateItem}
use shooting_star.Retrieval.Orchestrator.Merge.{normalize_candidate, merge_candidate}
use shooting_star.Retrieval.Orchestrator.Rounds.{Merged, no_candidates, absorb, merge_responses}
use shooting_star.Retrieval.Orchestrator.Rounds.Schedule.{round_robin, merge_responses-round_robin}
use shooting_star.Retrieval.Orchestrator.Rounds.Index.{
  item_ids, index_of-none, index_of-some, IsValid, no_candidates-IsValid, item_ids-update,
  item_ids-snoc, absorb_cases, absorb-IsValid, absorb_all-IsValid,
}

-- The identifiers other than 0, each at its first occurrence, less those of `seen`.
unfoldable pub distinct_ids : List ℕ → List ℕ → List ℕ
distinct_ids seen [] = []
distinct_ids seen (x ∷ xs) = elim (x == 0 || contains x seen) [
  | true ↦ distinct_ids seen xs
  | false ↦ x ∷ distinct_ids (x ∷ seen) xs
]

-- Only membership in `seen` counts.
distinct_ids_same :
    (xs s t : List ℕ)
    → ((a : ℕ) → contains a s ≡ contains a t)
    → distinct_ids s xs ≡ distinct_ids t xs
unfolding distinct_ids
distinct_ids_same [] s t h = refl
distinct_ids_same (x ∷ xs) s t h =
    ground
      (arith, h x, distinct_ids_same xs s t h, distinct_ids_same xs (x ∷ s) (x ∷ t) (λ a. rw (h a)))

take-append_full {ℓ} :
    {A : Type ℓ} (n : ℕ) (xs ys : List A) → length xs ≡ n → take n (xs ++ ys) ≡ xs
take-append_full zero [] ys h = refl
take-append_full zero (x ∷ xs) ys h = absurd (omega arith)
take-append_full (suc n) [] ys h = absurd (omega arith)
take-append_full (suc n) (x ∷ xs) ys h = ap (◌∷◌ x) (take-append_full n xs ys (omega arith))

-- What is kept of `ids` and of the identifiers `rest` that follow.
unfoldable pub kept_ids : ℕ → List ℕ → List ℕ → List ℕ
kept_ids limit ids rest = take limit (ids ++ distinct_ids ids rest)

kept_ids_known :
    (limit : ℕ) (ids rest : List ℕ) (x : ℕ)
    → (x == 0 || contains x ids) ≡ true
    → kept_ids limit ids (x ∷ rest) ≡ kept_ids limit ids rest
unfolding kept_ids distinct_ids
kept_ids_known limit ids rest x h = ground arith

kept_ids_new :
    (limit : ℕ) (ids rest : List ℕ) (x : ℕ)
    → (x == 0 || contains x ids) ≡ false
    → kept_ids limit (ids ++ x ∷ []) rest ≡ kept_ids limit ids (x ∷ rest)
unfolding kept_ids distinct_ids
kept_ids_new limit ids rest x h = ground (
  arith,
  append_assoc ids (x ∷ []) (distinct_ids (ids ++ x ∷ []) rest),
  distinct_ids_same rest (ids ++ x ∷ []) (x ∷ ids)
      (λ a. ground (arith, contains-append a ids (x ∷ []))),
)

kept_ids_full : (limit : ℕ) (ids rest : List ℕ) → length ids ≡ limit → kept_ids limit ids rest ≡ ids
unfolding kept_ids
kept_ids_full limit ids rest h = take-append_full limit ids (distinct_ids ids rest) h

module _ {R : Type 0} ⦃d : Double R⦄ (max_candidate_count : ℤ) where
  length-item_ids : (cs : List (CandidateItem R)) → length (item_ids cs) ≡ length cs
  length-item_ids = length-map λ t. t.item_id

  kept_ids-absorb :
      (rest : List ℕ) (m : Merged R) (c : CandidateItem R)
      → IsValid m
      → length m.candidates ≤ pos_part max_candidate_count
      → kept_ids
          (pos_part max_candidate_count)
          (item_ids (absorb max_candidate_count m c).candidates)
          rest
        ≡ kept_ids (pos_part max_candidate_count) (item_ids m.candidates) (c.item_id ∷ rest)
  kept_ids-absorb rest m c v h =
      absorb_cases max_candidate_count
        (λ m'. kept_ids limit (item_ids m'.candidates) rest ≡ kept_ids limit ids (c.item_id ∷ rest))
        m c (λ z. sym (kept_ids_known limit ids rest c.item_id (ground arith)))
        (λ i e. rw (item_ids-update c m.candidates i) (
          sym (
            kept_ids_known limit ids rest c.item_id
              (ground (arith, index_of-some c.item_id i ids (sym (v.indexed c.item_id) ∙ e))))))
        (λ nz e room. rw (item_ids-snoc c m.candidates) (
          kept_ids_new limit ids rest c.item_id
            (ground (arith, index_of-none c.item_id ids (sym (v.indexed c.item_id) ∙ e)))))
        (λ e room.
          let full : length ids ≡ limit = ground (arith, length-item_ids m.candidates) in
          kept_ids_full limit ids rest full ∙ sym (kept_ids_full limit ids (c.item_id ∷ rest) full))
    where
      limit : ℕ
      limit = pos_part max_candidate_count

      ids : List ℕ
      ids = item_ids m.candidates

  length-absorb-le :
      (m : Merged R) (c : CandidateItem R)
      → length m.candidates ≤ pos_part max_candidate_count
      → length (absorb max_candidate_count m c).candidates ≤ pos_part max_candidate_count
  length-absorb-le m c h =
      absorb_cases max_candidate_count (λ m'. length m'.candidates ≤ pos_part max_candidate_count) m
        c (λ _. h)
        (λ i _. omega (
          arith,
          ap length (item_ids-update c m.candidates i),
          length-item_ids m.candidates,
          length-item_ids (update m.candidates i (merge_candidate c)),
        ))
        (λ _ _ room. ground (arith, length-append m.candidates (normalize_candidate c ∷ [])))
        (λ _ _. h)

  pub ids-absorb_all :
      (cs : List (CandidateItem R)) (m : Merged R)
      → IsValid m
      → length m.candidates ≤ pos_part max_candidate_count
      → item_ids (foldl (absorb max_candidate_count) m cs).candidates
        ≡ kept_ids (pos_part max_candidate_count) (item_ids m.candidates) (item_ids cs)
  unfolding kept_ids distinct_ids
  ids-absorb_all [] m v h = rw append-nil (
      sym
        (take_of_length-le _ (item_ids m.candidates) (omega (arith, length-item_ids m.candidates))))
  ids-absorb_all (c ∷ cs) m v h =
      ids-absorb_all cs (absorb max_candidate_count m c) (absorb-IsValid max_candidate_count m c v)
        (length-absorb-le m c h)
      ∙ kept_ids-absorb (item_ids cs) m c v h

  -- The merging loop ends, with the first `max_candidate_count` different items of the answers in
  -- round-robin order (none if the count is negative); an item id of 0 does not count. Every
  -- candidate is normalised, and the index finds each item at its place.
  pub ids-merge_responses :
      (answers : List (List (CandidateItem R)))
      → (m : Merged R) × (merge_responses max_candidate_count answers ≡ some m)
        × (item_ids m.candidates
            ≡ take
                (pos_part max_candidate_count)
                (distinct_ids [] (item_ids (round_robin answers))))
        × IsValid m
  unfolding no_candidates kept_ids
  ids-merge_responses answers = (
    foldl (absorb max_candidate_count) no_candidates (round_robin answers),
    merge_responses-round_robin max_candidate_count answers,
    ids-absorb_all (round_robin answers) no_candidates no_candidates-IsValid (omega arith),
    absorb_all-IsValid max_candidate_count (round_robin answers) no_candidates
        no_candidates-IsValid,
  )
