-- ===== src/Ranking/Heuristic/Candidates.antt =====
-- The ranker's candidates: one for each item, and none changed that the orchestrator has merged.
use shooting_star.Base.{
  ℕ, suc, ◌+◌, ◌≤◌, ◌<◌, false, List, [], ◌∷◌, ◌++◌, foldl, ◌≡◌, refl, ap, sym, ◌∙◌, arith, inl,
  inr, none, some, ◌==◌, ==_iff, length, Option-cases, append-nil, map-append, length-map,
  take_of_length-le, append_assoc, length-append, All,
}
use shooting_star.Base.Int.{ℤ, pos}
use shooting_star.Base.Sets.{contains, contains-append, Distinct, lookup}
use shooting_star.Base.Floats.{Double}
use shooting_star.Messages.Candidates.{CandidateItem}
use shooting_star.Retrieval.Orchestrator.Merge.{normalize_candidate, merge_candidate}
use shooting_star.Retrieval.Orchestrator.Merge.Normal.{IsNormal, normalize_candidate_of_IsNormal}
use shooting_star.Retrieval.Orchestrator.Rounds.{Merged, no_candidates, absorb, merge_responses}
use shooting_star.Retrieval.Orchestrator.Rounds.Index.{
  item_ids, IsValid, no_candidates-IsValid, absorb_all-IsValid, absorb-IsValid, index_of,
}
use shooting_star.Retrieval.Orchestrator.Rounds.Items.{
  distinct_ids, kept_ids, ids-absorb_all, ids-merge_responses,
}
use shooting_star.Retrieval.Orchestrator.Rounds.Combined.{
  length-update, find_item, with_item, combine, find_item-combine,
}
use shooting_star.Ranking.Heuristic.{merge_step, normalize_and_merge_candidates}

length-distinct_ids-le : (seen xs : List ℕ) → length (distinct_ids seen xs) ≤ length xs
unfolding distinct_ids
length-distinct_ids-le seen [] = omega arith
length-distinct_ids-le seen (x ∷ xs) =
    ground (arith, length-distinct_ids-le seen xs, length-distinct_ids-le (x ∷ seen) xs)

contains-apart : (a : ℕ) (xs ys : List ℕ) → Distinct (xs ++ (a ∷ ys)) → contains a xs ≡ false
contains-apart a [] ys h = refl
contains-apart a (x ∷ xs) ys h =
    ground (arith, contains-apart a xs ys h.1, contains-append x xs (a ∷ ys), ==_iff a x)

index_of-absent : (k : ℕ) (xs : List ℕ) → contains k xs ≡ false → index_of k xs ≡ none
index_of-absent k [] h = refl
index_of-absent k (x ∷ xs) h = ground (arith, index_of-absent k xs)

module _ {R : Type 0} ⦃d : Double R⦄ where
  -- With room the ranker's step is the orchestrator's.
  merge_step-absorb :
      (limit : ℕ) (m : Merged R) (c : CandidateItem R)
      → length m.candidates < limit
      → merge_step m c ≡ absorb (pos limit) m c
  unfolding merge_step absorb
  merge_step-absorb limit m c h = ground arith

  length-merge_step :
      (m : Merged R) (c : CandidateItem R)
      → length (merge_step m c).candidates ≤ suc (length m.candidates)
  unfolding merge_step
  length-merge_step m c = elim (Option-cases (lookup c.item_id m.index)) [
    | inl e ↦ ground (arith, length-append m.candidates (normalize_candidate c ∷ []))
    | inr (i, e) ↦ ground (arith, length-update m.candidates i (merge_candidate c))
  ]

  merge_steps-absorb :
      (limit : ℕ) (cs : List (CandidateItem R)) (m : Merged R)
      → length m.candidates + length cs ≤ limit
      → foldl merge_step m cs ≡ foldl (absorb (pos limit)) m cs
  merge_steps-absorb limit [] m h = refl
  merge_steps-absorb limit (c ∷ cs) m h =
      merge_steps-absorb limit cs (merge_step m c) (omega (arith, length-merge_step m c))
      ∙ ap (λ m'. foldl (absorb (pos limit)) m' cs) (merge_step-absorb limit m c (omega arith))

  merged_all : (cs : List (CandidateItem R)) → Merged R
  merged_all cs = foldl (absorb (pos (length cs))) no_candidates cs

  normalize_and_merge-absorb :
      (cs : List (CandidateItem R)) → normalize_and_merge_candidates cs ≡ (merged_all cs).candidates
  unfolding normalize_and_merge_candidates merged_all no_candidates
  normalize_and_merge-absorb cs =
      ap (λ m. m.candidates) (merge_steps-absorb (length cs) cs no_candidates (omega arith))

  -- The ranker ranks each item of the request once, in the order of their first candidates, and
  -- each candidate normalised; an item id of 0 is passed over.
  pub ids-normalize_and_merge_candidates :
      (cs : List (CandidateItem R))
      → (item_ids (normalize_and_merge_candidates cs) ≡ distinct_ids [] (item_ids cs))
        × Distinct (item_ids (normalize_and_merge_candidates cs))
        × All IsNormal (normalize_and_merge_candidates cs)
  unfolding merged_all kept_ids no_candidates
  ids-normalize_and_merge_candidates cs =
      let v = absorb_all-IsValid (pos (length cs)) cs no_candidates no_candidates-IsValid in
      rw (normalize_and_merge-absorb cs) (
        ids-absorb_all (pos (length cs)) cs no_candidates no_candidates-IsValid (omega arith)
            ∙ take_of_length-le (length cs) (distinct_ids [] (item_ids cs)) (
                omega (
                  arith,
                  length-distinct_ids-le [] (item_ids cs),
                  length-map (λ (c : CandidateItem R). c.item_id) cs,
                )),
        v.distinct,
        v.normal,
      )

  -- A candidate that the ranker ranks is the first of the request for its item, normalised, with
  -- every later one for that item merged onto it.
  find_item-normalize_and_merge_candidates :
      (cs : List (CandidateItem R)) (k : ℕ) (c : CandidateItem R)
      → find_item k (normalize_and_merge_candidates cs) ≡ some c
      → combine (with_item k cs) ≡ some c
  unfolding merged_all no_candidates find_item
  find_item-normalize_and_merge_candidates cs k c h =
      find_item-combine (pos (length cs)) k cs no_candidates c no_candidates-IsValid refl
        (sym (ap (find_item k) (normalize_and_merge-absorb cs)) ∙ h)

  merge_step-new :
      (m : Merged R) (c : CandidateItem R)
      → IsValid m
      → IsNormal c
      → contains c.item_id (item_ids m.candidates) ≡ false
      → (c.item_id == 0) ≡ false
      → (merge_step m c).candidates ≡ m.candidates ++ (c ∷ [])
  unfolding merge_step
  merge_step-new m c v n absent nz = ground (
    arith,
    normalize_candidate_of_IsNormal c n,
    v.indexed c.item_id,
    index_of-absent c.item_id (item_ids m.candidates) absent,
  )

  merge_steps-new :
      (cs : List (CandidateItem R)) (m : Merged R)
      → IsValid m
      → All IsNormal cs
      → Distinct (item_ids m.candidates ++ item_ids cs)
      → contains 0 (item_ids cs) ≡ false
      → (foldl merge_step m cs).candidates ≡ m.candidates ++ cs
  merge_steps-new [] m v n distinct real = rw append-nil
  merge_steps-new (c ∷ cs) m v n distinct real =
      let added =
        merge_step-new m c v n.0
          (contains-apart c.item_id (item_ids m.candidates) (item_ids cs) distinct)
          (ground (arith, ==_iff c.item_id 0, ==_iff 0 c.item_id)) in
      let ids : item_ids (m.candidates ++ (c ∷ [])) ++ item_ids cs
          ≡ item_ids m.candidates ++ (c.item_id ∷ item_ids cs) =
        rw (map-append (λ (t : CandidateItem R). t.item_id) m.candidates (c ∷ []))
          (append_assoc (item_ids m.candidates) (c.item_id ∷ []) (item_ids cs)) in
      merge_steps-new cs (merge_step m c)
        (rw (merge_step-absorb (suc (length m.candidates)) m c (omega arith))
          (absorb-IsValid (pos (suc (length m.candidates))) m c v))
        n.1 (rw (added, ids) distinct) (ground arith)
      ∙ ap (λ xs. xs ++ cs) added
      ∙ append_assoc m.candidates (c ∷ []) cs

  -- Candidates that are normal and for different, real items are ranked as they are.
  normalize_and_merge_candidates_same :
      (cs : List (CandidateItem R))
      → All IsNormal cs
      → Distinct (item_ids cs)
      → contains 0 (item_ids cs) ≡ false
      → normalize_and_merge_candidates cs ≡ cs
  unfolding normalize_and_merge_candidates no_candidates
  normalize_and_merge_candidates_same cs n distinct real =
      merge_steps-new cs no_candidates no_candidates-IsValid n distinct real

  -- The candidates that the orchestrator's merging loop ends with pass through the ranker's merge
  -- unchanged.
  pub normalize_and_merge-merge_responses :
      (max_candidate_count : ℤ) (answers : List (List (CandidateItem R))) (m : Merged R)
      → merge_responses max_candidate_count answers ≡ some m
      → normalize_and_merge_candidates m.candidates ≡ m.candidates
  normalize_and_merge-merge_responses max_candidate_count answers m h =
      let (m', merged, ids, v) = ids-merge_responses max_candidate_count answers in
      let same : m' ≡ m = cc in
      rw same at (normalize_and_merge_candidates_same m'.candidates v.normal v.distinct v.real)
