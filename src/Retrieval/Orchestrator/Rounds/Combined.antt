-- ===== src/Retrieval/Orchestrator/Rounds/Combined.antt =====
-- What each candidate of the response is made of.
use shooting_star.Base.{
  ℕ, zero, suc, true, false, List, [], ◌∷◌, ◌++◌, foldl, ◌≡◌, ◌≢◌, refl, ap, sym, ◌∙◌, Option, none,
  some, arith, length, update, if◌then◌else◌, ◌==◌, ==_iff, Bool-cases, inl, inr, ◌⊎◌,
}
use shooting_star.Base.Int.{ℤ, pos, ltb_ℤ}
use shooting_star.Base.Sets.{contains, lookup}
use shooting_star.Base.Floats.{Double}
use shooting_star.Messages.Candidates.{CandidateItem}
use shooting_star.Retrieval.Orchestrator.Merge.{normalize_candidate, merge_candidate}
use shooting_star.Retrieval.Orchestrator.Merge.Normal.{
  item_id-normalize_candidate, item_id-merge_candidate,
}
use shooting_star.Retrieval.Orchestrator.Rounds.{Merged, no_candidates, absorb, merge_responses}
use shooting_star.Retrieval.Orchestrator.Rounds.Schedule.{round_robin, merge_responses-round_robin}
use shooting_star.Retrieval.Orchestrator.Rounds.Index.{
  item_ids, index_of, index_of-none, index_of-some, IsValid, no_candidates-IsValid, absorb_cases,
  absorb-IsValid,
}

module _ {R : Type 0} where
  -- The candidate for an item.
  unfoldable pub find_item : ℕ → List (CandidateItem R) → Option (CandidateItem R)
  find_item k [] = none
  find_item k (c ∷ cs) = if k == c.item_id then some c else find_item k cs

  -- The candidates for an item, in order.
  pub with_item : ℕ → List (CandidateItem R) → List (CandidateItem R)
  with_item k [] = []
  with_item k (c ∷ cs) = if k == c.item_id then c ∷ with_item k cs else with_item k cs

module _ {R : Type 0} ⦃d : Double R⦄ where
  merge_onto : CandidateItem R → List (CandidateItem R) → CandidateItem R
  merge_onto = foldl (λ target source. merge_candidate source target)

  -- The first of some candidates, normalised, with the later ones merged onto it.
  pub combine : List (CandidateItem R) → Option (CandidateItem R)
  combine [] = none
  combine (c ∷ cs) = some (merge_onto (normalize_candidate c) cs)

  find_item-update :
      (k i : ℕ) (c : CandidateItem R) (ts : List (CandidateItem R))
      → index_of c.item_id (item_ids ts) ≡ some i
      → find_item k (update ts i (merge_candidate c)) ≡ (
          if k == c.item_id
          then elim (find_item k ts) [ none ↦ none | some t ↦ some (merge_candidate c t) ]
          else find_item k ts)
  unfolding find_item
  find_item-update k i c [] e = cc
  find_item-update k zero c (t ∷ ts) e = ground (
    arith,
    item_id-merge_candidate c t,
    ==_iff c.item_id t.item_id,
    ==_iff k t.item_id,
    ==_iff k c.item_id,
  )
  find_item-update k (suc i) c (t ∷ ts) e = ground (
    arith,
    find_item-update k i c ts,
    ==_iff c.item_id t.item_id,
    ==_iff k t.item_id,
    ==_iff k c.item_id,
  )

  find_item-snoc :
      (k : ℕ) (c : CandidateItem R) (ts : List (CandidateItem R))
      → contains c.item_id (item_ids ts) ≡ false
      → find_item k (ts ++ (normalize_candidate c ∷ []))
        ≡ (if k == c.item_id then some (normalize_candidate c) else find_item k ts)
  unfolding find_item
  find_item-snoc k c [] h = rw (item_id-normalize_candidate c)
  find_item-snoc k c (t ∷ ts) h = ground (
    arith,
    find_item-snoc k c ts,
    ==_iff k c.item_id,
    ==_iff k t.item_id,
    ==_iff c.item_id t.item_id,
  )

  find_item-none :
      (k : ℕ) (ts : List (CandidateItem R))
      → contains k (item_ids ts) ≡ false
      → find_item k ts ≡ none
  unfolding find_item
  find_item-none k [] h = refl
  find_item-none k (t ∷ ts) h = ground (arith, find_item-none k ts)

  find_item-some :
      (k : ℕ) (ts : List (CandidateItem R)) (t : CandidateItem R)
      → find_item k ts ≡ some t
      → contains k (item_ids ts) ≡ true
  unfolding find_item
  find_item-some k [] t h = cc
  find_item-some k (u ∷ ts) t h = ground (arith, find_item-some k ts t)

  find_item_of_contains :
      (k : ℕ) (ts : List (CandidateItem R))
      → contains k (item_ids ts) ≡ true
      → find_item k ts ≢ none
  unfolding find_item
  find_item_of_contains k [] h = λ e. cc
  find_item_of_contains k (t ∷ ts) h = ground (arith, find_item_of_contains k ts)

  pub length-update :
      (ts : List (CandidateItem R)) (i : ℕ) (f : CandidateItem R → CandidateItem R)
      → length (update ts i f) ≡ length ts
  length-update [] i f = refl
  length-update (t ∷ ts) zero f = refl
  length-update (t ∷ ts) (suc i) f = ap suc (length-update ts i f)

  module _ (max_candidate_count : ℤ) (k : ℕ) where
    -- The candidate for `k` after one more: merged if that is for `k` too.
    find_item-absorb :
        (m : Merged R) (c t : CandidateItem R)
        → IsValid m
        → find_item k m.candidates ≡ some t
        → find_item k (absorb max_candidate_count m c).candidates
          ≡ some (if k == c.item_id then merge_candidate c t else t)
    find_item-absorb m c t v f =
        absorb_cases max_candidate_count
          (λ m'.
            find_item k m'.candidates ≡ some (if k == c.item_id then merge_candidate c t else t))
          m c (λ z. ground (arith, present, v.real, ==_iff k 0))
          (λ i e.
            ground (arith, find_item-update k i c m.candidates (sym (v.indexed c.item_id) ∙ e)))
          (λ nz e room.
            ground (arith, present, absent e, find_item-snoc k c m.candidates, ==_iff k c.item_id))
          (λ e room. ground (arith, present, absent e, ==_iff k c.item_id))
      where
        present : contains k (item_ids m.candidates) ≡ true
        present = find_item-some k m.candidates t f

        absent :
            lookup c.item_id m.index ≡ none → contains c.item_id (item_ids m.candidates) ≡ false
        absent e = index_of-none c.item_id (item_ids m.candidates) (sym (v.indexed c.item_id) ∙ e)

    find_item-absorb_all :
        (cs : List (CandidateItem R)) (m : Merged R) (t : CandidateItem R)
        → IsValid m
        → find_item k m.candidates ≡ some t
        → find_item k (foldl (absorb max_candidate_count) m cs).candidates
          ≡ some (merge_onto t (with_item k cs))
    unfolding with_item merge_onto
    find_item-absorb_all [] m t v f = f
    find_item-absorb_all (c ∷ cs) m t v f = elim (Bool-cases (k == c.item_id)) [
      | inl e ↦ rw e (
          find_item-absorb_all cs (absorb max_candidate_count m c) (merge_candidate c t)
            (absorb-IsValid max_candidate_count m c v) (find_item-absorb m c t v f ∙ rw e))
      | inr e ↦ rw e (
          find_item-absorb_all cs (absorb max_candidate_count m c) t
            (absorb-IsValid max_candidate_count m c v) (find_item-absorb m c t v f ∙ rw e))
    ]

    -- What keeps `k` out: no room, or `k` is no item.
    abbrev IsClosed : Merged R → Type 0
    IsClosed m =
        (find_item k m.candidates ≡ none)
        × ((k ≡ 0) ⊎ (ltb_ℤ (pos (length m.candidates)) max_candidate_count ≡ false))

    IsClosed-absorb :
        (m : Merged R) (c : CandidateItem R)
        → IsValid m
        → IsClosed m
        → IsClosed (absorb max_candidate_count m c)
    IsClosed-absorb m c v h =
        absorb_cases max_candidate_count IsClosed m c (λ _. h)
          (λ i e. ground (
            arith,
            find_item-update k i c m.candidates (sym (v.indexed c.item_id) ∙ e),
            length-update m.candidates i (merge_candidate c),
          ))
          (λ nz e room. ground (
            arith,
            ==_iff k c.item_id,
            find_item-snoc k c m.candidates
                (index_of-none c.item_id (item_ids m.candidates) (sym (v.indexed c.item_id) ∙ e)),
          ))
          (λ _ _. h)

    IsClosed-absorb_all :
        (cs : List (CandidateItem R)) (m : Merged R)
        → IsValid m
        → IsClosed m
        → find_item k (foldl (absorb max_candidate_count) m cs).candidates ≡ none
    IsClosed-absorb_all [] m v h = h.0
    IsClosed-absorb_all (c ∷ cs) m v h =
        IsClosed-absorb_all cs (absorb max_candidate_count m c)
          (absorb-IsValid max_candidate_count m c v) (IsClosed-absorb m c v h)

    -- The first candidate for `k` enters, normalised, or `k` stays out.
    find_item-first :
        (m : Merged R) (c : CandidateItem R)
        → IsValid m
        → find_item k m.candidates ≡ none
        → (k == c.item_id) ≡ true
        → (find_item k (absorb max_candidate_count m c).candidates ≡ some (normalize_candidate c))
          ⊎ IsClosed (absorb max_candidate_count m c)
    find_item-first m c v f e =
        absorb_cases max_candidate_count
          (λ m'. (find_item k m'.candidates ≡ some (normalize_candidate c)) ⊎ IsClosed m') m c
          (λ z. inr (f, inl (ground arith))) (λ i at. absurd (known i at))
          (λ nz at room. inl (new at)) (λ at room. inr (f, inr room))
      where
        known : (i : ℕ) → lookup c.item_id m.index ≡ some i → ⊥
        known i at = ground (
          arith,
          find_item_of_contains k m.candidates,
          index_of-some c.item_id i (item_ids m.candidates) (sym (v.indexed c.item_id) ∙ at),
        )

        new :
            lookup c.item_id m.index ≡ none
            → find_item k (m.candidates ++ (normalize_candidate c ∷ []))
              ≡ some (normalize_candidate c)
        new at =
            find_item-snoc k c m.candidates
              (index_of-none c.item_id (item_ids m.candidates) (sym (v.indexed c.item_id) ∙ at))
            ∙ rw e

    find_item-later :
        (m : Merged R) (c : CandidateItem R)
        → IsValid m
        → find_item k m.candidates ≡ none
        → (k == c.item_id) ≡ false
        → find_item k (absorb max_candidate_count m c).candidates ≡ none
    find_item-later m c v f e =
        absorb_cases max_candidate_count (λ m'. find_item k m'.candidates ≡ none) m c (λ _. f)
          (λ i at. find_item-update k i c m.candidates (sym (v.indexed c.item_id) ∙ at) ∙ rw e f)
          (λ nz at room.
            find_item-snoc k c m.candidates
              (index_of-none c.item_id (item_ids m.candidates) (sym (v.indexed c.item_id) ∙ at))
            ∙ rw e f)
          (λ _ _. f)

    pub find_item-combine :
        (cs : List (CandidateItem R)) (m : Merged R) (r : CandidateItem R)
        → IsValid m
        → find_item k m.candidates ≡ none
        → find_item k (foldl (absorb max_candidate_count) m cs).candidates ≡ some r
        → combine (with_item k cs) ≡ some r
    unfolding with_item combine
    find_item-combine [] m r v f g = cc
    find_item-combine (c ∷ cs) m r v f g =
        let m' = absorb max_candidate_count m c in
        let v' = absorb-IsValid max_candidate_count m c v in
        elim (Bool-cases (k == c.item_id)) [
          | inr e ↦ rw e (find_item-combine cs m' r v' (find_item-later m c v f e) g)
          | inl e ↦ elim (find_item-first m c v f e) [
            | inl entered ↦
                rw e (sym (find_item-absorb_all cs m' (normalize_candidate c) v' entered) ∙ g)
            | inr closed ↦ cc (IsClosed-absorb_all cs m' v' closed)
          ]
        ]

  -- A candidate that the merging loop ends with is the first candidate for its item in round-robin
  -- order, normalised, with every later candidate for that item merged onto it in that order.
  pub find_item-merge_responses :
      (max_candidate_count : ℤ) (answers : List (List (CandidateItem R))) (k : ℕ) (m : Merged R)
      (c : CandidateItem R)
      → merge_responses max_candidate_count answers ≡ some m
      → find_item k m.candidates ≡ some c
      → combine (with_item k (round_robin answers)) ≡ some c
  unfolding find_item no_candidates
  find_item-merge_responses max_candidate_count answers k m c merged found =
      let same : foldl (absorb max_candidate_count) no_candidates (round_robin answers) ≡ m =
        cc (merge_responses-round_robin max_candidate_count answers) in
      find_item-combine max_candidate_count k (round_robin answers) no_candidates c
        no_candidates-IsValid refl (rw same found)
