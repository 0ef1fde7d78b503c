-- ===== src/Retrieval/Retrievers/Scores/Ranking.antt =====
-- The sorted candidates, and the response that they fill.
use shooting_star.Base.{
  ℕ, zero, suc, ◌+◌, ◌≤◌, ◌<◌, true, false, List, [], ◌∷◌, ◌++◌, map, ◌≡◌, refl, ap, ◌∙◌, arith,
  ◌==◌, ◌||◌, ==_iff, length, take, length-map, length-take, length-append, append-nil,
  append_assoc,
}
use mathlib.Core.List.{Permᴰ}
use shooting_star.Base.Int.{ℤ, pos, negsuc, ltb_ℤ, pos_part}
use shooting_star.Base.Sets.{contains, contains-take, Distinct, Distinct-take, keys}
use shooting_star.Base.Sort.{sort, IsSorted, contains-sort, Distinct-sort}
use shooting_star.Base.Sort.Order.{AllNumbers, sort-IsSorted, sort_perm}
use shooting_star.Base.Floats.{Double, IsOrdered}
use shooting_star.Messages.Candidates.{CandidateItem}
use shooting_star.Retrieval.Retrievers.Scores.{
  Scored, CandidateScore, Pool, empty_candidate, contribute, upsert, add_candidate_contribution,
  values, better, sort_candidates, Labels, response_candidate, fill_response,
}
use shooting_star.Retrieval.Retrievers.Scores.Pool.{Edge, add_edges}

abbrev pub score_ids : {R : Type 0} → List (CandidateScore R) → List ℕ
score_ids = map λ c. c.item_id

module _ {R : Type 0} ⦃d : Double R⦄ where
  -- Every candidate stands under its own identifier, which is not 0, and none stands twice.
  pub record IsKeyed (pool : Pool R) : Type 0 where
    pub distinct : Distinct (keys pool)
    pub own : score_ids (values pool) ≡ keys pool
    pub real : contains 0 (keys pool) ≡ false

  pub keys-upsert :
      (a : ℕ) (t n : Scored R) (pool : Pool R)
      → contains a (keys (upsert t n pool)) ≡ (a == n.id || contains a (keys pool))
  unfolding upsert
  keys-upsert a t n [] = refl
  keys-upsert a t n ((k, c) ∷ pool) =
      ground (arith, keys-upsert a t n pool, ==_iff a n.id, ==_iff a k, ==_iff n.id k)

  Distinct-upsert :
      (t n : Scored R) (pool : Pool R) → Distinct (keys pool) → Distinct (keys (upsert t n pool))
  unfolding upsert
  Distinct-upsert t n [] h = (refl, tt)
  Distinct-upsert t n ((k, c) ∷ pool) h =
      ground (arith, keys-upsert k t n pool, Distinct-upsert t n pool, ==_iff n.id k, ==_iff k n.id)

  own-upsert :
      (t n : Scored R) (pool : Pool R)
      → score_ids (values pool) ≡ keys pool
      → score_ids (values (upsert t n pool)) ≡ keys (upsert t n pool)
  unfolding upsert contribute empty_candidate
  own-upsert t n [] h = ground arith
  own-upsert t n ((k, c) ∷ pool) h = ground (arith, own-upsert t n pool)

  pub add_candidate_contribution-IsKeyed :
      (t n : Scored R) (pool : Pool R)
      → IsKeyed pool
      → IsKeyed (add_candidate_contribution t n pool)
  unfolding add_candidate_contribution
  add_candidate_contribution-IsKeyed t n pool v = ground (
    arith,
    Distinct-upsert t n pool v.distinct,
    own-upsert t n pool v.own,
    keys-upsert 0 t n pool,
    ==_iff 0 n.id,
    ==_iff n.id 0,
  )

  add_edges-IsKeyed :
      (edges : List (Edge R)) (pool : Pool R) → IsKeyed pool → IsKeyed (add_edges pool edges)
  unfolding add_edges
  add_edges-IsKeyed [] pool v = v
  add_edges-IsKeyed ((t, n) ∷ edges) pool v =
      add_edges-IsKeyed edges (add_candidate_contribution t n pool)
        (add_candidate_contribution-IsKeyed t n pool v)

  values-perm : {p q : Pool R} → Permᴰ p q → Permᴰ (values p) (values q)
  values-perm Permᴰ.nil = Permᴰ.nil
  values-perm (Permᴰ.cons e p) = Permᴰ.cons (ap (λ x. x.1) e) (values-perm p)
  values-perm (Permᴰ.swap e f) = Permᴰ.swap (ap (λ x. x.1) e) (ap (λ x. x.1) f)
  values-perm (Permᴰ.trans p q) = Permᴰ.trans (values-perm p) (values-perm q)

  abbrev pub NumberScores : Pool R → Type 0
  NumberScores pool = AllNumbers (λ c. c.score) (λ c. c.item_id) (values pool)

  -- The ranking of a pool with one entry for each item does not depend on the order in which the
  -- hash map is walked, as long as no score is NaN.
  pub sort_candidates_perm :
      (o : IsOrdered R) {p q : Pool R}
      → IsKeyed p
      → NumberScores p
      → Permᴰ p q
      → sort_candidates p ≡ sort_candidates q
  unfolding sort_candidates
  sort_candidates_perm o {p} v n pq =
      sort_perm (λ c. c.score) (λ c. c.item_id) o (values-perm pq) n (rw v.own v.distinct)

  -- If no score is NaN, the ranking of a pool with one entry for each item is by falling score,
  -- then by rising item id; it lists every item of the pool, and none twice.
  pub sort_candidates-IsSorted :
      (o : IsOrdered R) (pool : Pool R)
      → IsKeyed pool
      → NumberScores pool
      → IsSorted better (sort_candidates pool)
        × Distinct (score_ids (sort_candidates pool))
        × ((a : ℕ) → contains a (score_ids (sort_candidates pool)) ≡ contains a (keys pool))
  unfolding sort_candidates
  sort_candidates-IsSorted o pool v n =
      let distinct : Distinct (score_ids (values pool)) = rw v.own v.distinct in
      (
        sort-IsSorted (λ c. c.score) (λ c. c.item_id) o (values pool) n distinct,
        Distinct-sort better (λ c. c.item_id) (values pool) distinct,
        λ a. contains-sort better (λ c. c.item_id) a (values pool) ∙ rw v.own,
      )

no_room : (n : ℕ) (m : ℤ) → pos_part m ≤ n → ltb_ℤ (pos n) m ≡ false
no_room n (pos k) h = ground arith
no_room n (negsuc k) h = ground arith

some_room : (n : ℕ) (m : ℤ) → n < pos_part m → ltb_ℤ (pos n) m ≡ true
some_room n (pos k) h = ground arith
some_room n (negsuc k) h = ground arith

module _ {R : Type 0} ⦃d : Double R⦄ (labels : Labels) (score_multiplier : R) (max_count : ℤ) where
  fill_response_from :
      (cs : List (CandidateScore R)) (filled : List (CandidateItem R)) (room : ℕ)
      → length filled + room ≡ pos_part max_count
      → fill_response labels score_multiplier max_count filled cs
        ≡ filled ++ map (response_candidate labels score_multiplier) (take room cs)
  unfolding fill_response
  fill_response_from [] filled zero h = rw append-nil
  fill_response_from [] filled (suc room) h = rw append-nil
  fill_response_from (c ∷ cs) filled zero h =
      ground (arith, no_room (length filled) max_count (omega arith), append-nil filled)
  fill_response_from (c ∷ cs) filled (suc room) h =
      let x = response_candidate labels score_multiplier c in
      let rest = map (response_candidate labels score_multiplier) (take room cs) in
      ground (
        arith,
        some_room (length filled) max_count (omega arith),
        fill_response_from cs (filled ++ (x ∷ [])) room
            (omega (arith, length-append filled (x ∷ []))),
        append_assoc filled (x ∷ []) rest,
      )

  -- The response holds the best candidates, as many as the request asks for.
  pub fill_response_lem :
      (cs : List (CandidateScore R))
      → fill_response labels score_multiplier max_count [] cs
        ≡ map (response_candidate labels score_multiplier) (take (pos_part max_count) cs)
  fill_response_lem cs = fill_response_from cs [] (pos_part max_count) (omega arith)

  item_ids-map :
      (cs : List (CandidateScore R)) (n : ℕ)
      → map
          (λ (c : CandidateItem R). c.item_id)
          (map (response_candidate labels score_multiplier) (take n cs))
        ≡ take n (score_ids cs)
  unfolding response_candidate
  item_ids-map cs zero = refl
  item_ids-map [] (suc n) = refl
  item_ids-map (c ∷ cs) (suc n) = ap (◌∷◌ c.item_id) (item_ids-map cs n)

  -- The response never repeats an item, never exceeds the requested count, and holds no item that
  -- the pool does not.
  pub fill_response_items :
      (pool : Pool R)
      → IsKeyed pool
      → let response = fill_response labels score_multiplier max_count [] (sort_candidates pool) in
        Distinct (map (λ (c : CandidateItem R). c.item_id) response)
        × (length response ≤ pos_part max_count)
        × ((a : ℕ)
            → contains a (keys pool) ≡ false
            → contains a (map (λ (c : CandidateItem R). c.item_id) response) ≡ false)
  unfolding sort_candidates
  fill_response_items pool v =
      let sorted = sort better (values pool) in
      let ids = score_ids sorted in
      let limit = pos_part max_count in
      rw (fill_response_lem sorted, item_ids-map sorted limit)
        (
          Distinct-take limit ids
              (Distinct-sort better (λ c. c.item_id) (values pool) (rw v.own v.distinct)),
          omega (
            arith,
            length-map (response_candidate labels score_multiplier) (take limit sorted),
            length-take limit sorted,
          ),
          λ a h.
              contains-take limit a ids
                (contains-sort better (λ c. c.item_id) a (values pool) ∙ rw v.own h),
        )
