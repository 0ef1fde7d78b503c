-- ===== src/Retrieval/Orchestrator/Rounds/Index.antt =====
-- The index of the merged candidates: it maps each item to its position.
use shooting_star.Base.{
  ℕ, zero, suc, true, false, List, [], ◌∷◌, ◌++◌, map, foldl, ◌≡◌, ◌≢◌, refl, ap, sym, ◌∙◌, Option,
  none, some, arith, length, update, length-map, map-append, map-update, if◌then◌else◌, ◌==◌,
  ==_iff, Bool-cases, Option-cases, inl, inr, All,
}
use shooting_star.Base.Int.{ℤ, pos, ltb_ℤ}
use shooting_star.Base.Sets.{contains, contains-append, Distinct, Distinct-snoc, lookup}
use shooting_star.Base.Floats.{Double}
use shooting_star.Messages.Candidates.{CandidateItem}
use shooting_star.Retrieval.Orchestrator.Merge.{normalize_candidate, merge_candidate}
use shooting_star.Retrieval.Orchestrator.Merge.Normal.{
  IsNormal, normalize_candidate-IsNormal, item_id-normalize_candidate, item_id-merge_candidate,
}
use shooting_star.Retrieval.Orchestrator.Merge.Signals.{merge_candidate-IsNormal}
use shooting_star.Retrieval.Orchestrator.Rounds.{Merged, no_candidates, absorb}

abbrev pub item_ids : {R : Type 0} → List (CandidateItem R) → List ℕ
item_ids = map λ c. c.item_id

-- The position of an identifier.
abbrev pub index_of : ℕ → List ℕ → Option ℕ
index_of k [] = none
index_of k (x ∷ xs) =
    if k == x then some 0 else elim (index_of k xs) [ none ↦ none | some i ↦ some (suc i) ]

index_of-snoc :
    (k x : ℕ) (xs : List ℕ)
    → contains x xs ≡ false
    → index_of k (xs ++ x ∷ []) ≡ (if k == x then some (length xs) else index_of k xs)
index_of-snoc k x [] h = ground arith
index_of-snoc k x (y ∷ ys) h =
    ground (arith, index_of-snoc k x ys, ==_iff k x, ==_iff k y, ==_iff x y)

pub index_of-none : (k : ℕ) (xs : List ℕ) → index_of k xs ≡ none → contains k xs ≡ false
index_of-none k [] h = refl
index_of-none k (x ∷ xs) h = ground (arith, index_of-none k xs)

pub index_of-some : (k i : ℕ) (xs : List ℕ) → index_of k xs ≡ some i → contains k xs ≡ true
index_of-some k i [] h = cc
index_of-some k i (x ∷ xs) h = elim (Option-cases (index_of k xs)) [
  | inl e ↦ ground arith
  | inr (j, e) ↦ ground (arith, index_of-some k j xs e)
]

module _ {R : Type 0} ⦃d : Double R⦄ where
  -- The items are distinct and real, the index finds each at its place, and every candidate is
  -- normalised.
  pub record IsValid (m : Merged R) : Type 0 where
    pub distinct : Distinct (item_ids m.candidates)
    pub indexed : (k : ℕ) → lookup k m.index ≡ index_of k (item_ids m.candidates)
    pub real : contains 0 (item_ids m.candidates) ≡ false
    pub normal : All IsNormal m.candidates

  pub no_candidates-IsValid : IsValid no_candidates
  unfolding no_candidates
  no_candidates-IsValid = record { distinct = tt; indexed = λ k. refl; real = refl; normal = tt }

  pub item_ids-update :
      (c : CandidateItem R) (cs : List (CandidateItem R)) (i : ℕ)
      → item_ids (update cs i (merge_candidate c)) ≡ item_ids cs
  item_ids-update c = map-update (λ t. t.item_id) (merge_candidate c) (item_id-merge_candidate c)

  pub item_ids-snoc :
      (c : CandidateItem R) (cs : List (CandidateItem R))
      → item_ids (cs ++ (normalize_candidate c ∷ [])) ≡ item_ids cs ++ (c.item_id ∷ [])
  item_ids-snoc c cs =
      map-append (λ t. t.item_id) cs (normalize_candidate c ∷ [])
      ∙ ap (λ (k : ℕ). item_ids cs ++ (k ∷ [])) (item_id-normalize_candidate c)

  IsNormal-update :
      (c : CandidateItem R) (cs : List (CandidateItem R)) (i : ℕ)
      → All IsNormal cs
      → All IsNormal (update cs i (merge_candidate c))
  IsNormal-update c [] i h = tt
  IsNormal-update c (t ∷ ts) zero h = (merge_candidate-IsNormal c t h.0.has_signals, h.1)
  IsNormal-update c (t ∷ ts) (suc i) h = (h.0, IsNormal-update c ts i h.1)

  IsNormal-snoc :
      (c : CandidateItem R) (cs : List (CandidateItem R))
      → All IsNormal cs
      → All IsNormal (cs ++ (normalize_candidate c ∷ []))
  IsNormal-snoc c [] h = (normalize_candidate-IsNormal c, tt)
  IsNormal-snoc c (t ∷ ts) h = (h.0, IsNormal-snoc c ts h.1)

  push :
      (m : Merged R) (c : CandidateItem R)
      → IsValid m
      → c.item_id ≢ 0
      → contains c.item_id (item_ids m.candidates) ≡ false
      → IsValid (record {
        candidates = m.candidates ++ (normalize_candidate c ∷ []);
        index = (c.item_id, length m.candidates) ∷ m.index;
      })
  push m c v nz absent =
      let ids = item_ids m.candidates in
      record {
        distinct =
            rw (item_ids-snoc c m.candidates) (Distinct-snoc ids c.item_id v.distinct absent);
        indexed = λ k. rw (item_ids-snoc c m.candidates) (
            ground (
              arith,
              index_of-snoc k c.item_id ids absent,
              v.indexed k,
              length-map (λ (t : CandidateItem R). t.item_id) m.candidates,
            ));
        real =
            rw (item_ids-snoc c m.candidates)
              (ground (arith, contains-append 0 ids (c.item_id ∷ []), v.real));
        normal = IsNormal-snoc c m.candidates v.normal;
      }

  module _ (max_candidate_count : ℤ) where
    -- The four cases of one candidate: no item, a known item, a new one, and no room for a new one.
    pub absorb_cases {ℓ} :
        (P : Merged R → Type ℓ) (m : Merged R) (c : CandidateItem R)
        → (c.item_id ≡ 0 → P m)
        → ((i : ℕ)
            → lookup c.item_id m.index ≡ some i
            → P (record m { candidates = update m.candidates i (merge_candidate c) }))
        → (c.item_id ≢ 0
            → lookup c.item_id m.index ≡ none
            → ltb_ℤ (pos (length m.candidates)) max_candidate_count ≡ true
            → P (record {
              candidates = m.candidates ++ (normalize_candidate c ∷ []);
              index = (c.item_id, length m.candidates) ∷ m.index;
            }))
        → (lookup c.item_id m.index ≡ none
            → ltb_ℤ (pos (length m.candidates)) max_candidate_count ≡ false
            → P m)
        → P (absorb max_candidate_count m c)
    unfolding absorb
    absorb_cases P m c unset known new full = elim (Bool-cases (c.item_id == 0)) [
      | inl z ↦ rw z (unset ((==_iff c.item_id 0).0 z))
      | inr nz ↦ elim (Option-cases (lookup c.item_id m.index)) [
        | inr (i, e) ↦ rw (nz, e) (known i e)
        | inl e ↦ elim (Bool-cases (ltb_ℤ (pos (length m.candidates)) max_candidate_count)) [
          | inl room ↦ rw (nz, e, room) (new (ground arith) e room)
          | inr none_left ↦ rw (nz, e, none_left) (full e none_left)
        ]
      ]
    ]

    pub absorb-IsValid :
        (m : Merged R) (c : CandidateItem R) → IsValid m → IsValid (absorb max_candidate_count m c)
    absorb-IsValid m c v =
        absorb_cases IsValid m c (λ _. v)
          (λ i e. record {
            distinct = rw (item_ids-update c m.candidates i) v.distinct;
            indexed = λ k. rw (item_ids-update c m.candidates i) (v.indexed k);
            real = rw (item_ids-update c m.candidates i) v.real;
            normal = IsNormal-update c m.candidates i v.normal;
          })
          (λ nz e _. push m c v nz (index_of-none c.item_id _ (sym (v.indexed c.item_id) ∙ e)))
          (λ _ _. v)

    -- The invariant holds after any sequence of candidates.
    pub absorb_all-IsValid :
        (cs : List (CandidateItem R)) (m : Merged R)
        → IsValid m
        → IsValid (foldl (absorb max_candidate_count) m cs)
    absorb_all-IsValid [] m v = v
    absorb_all-IsValid (c ∷ cs) m v =
        absorb_all-IsValid cs (absorb max_candidate_count m c) (absorb-IsValid m c v)
