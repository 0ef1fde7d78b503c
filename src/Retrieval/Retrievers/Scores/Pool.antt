-- ===== src/Retrieval/Retrievers/Scores/Pool.antt =====
-- The pool of candidates after any sequence of contributions.
use shooting_star.Base.{
  ℕ, Bool, true, false, List, [], ◌∷◌, Option, none, some, ◌≡◌, refl, ap, ◌∙◌, arith, if◌then◌else◌,
  ◌==◌, ◌&&◌, ◌||◌, not, ==_iff, Bool-cases, inl, inr,
}
use shooting_star.Base.Sets.{lookup}
use shooting_star.Base.Floats.{Double, nought}
use shooting_star.Retrieval.Retrievers.Scores.{
  Scored, CandidateScore, Pool, is_nonpositive, empty_candidate, contribute, upsert,
  add_candidate_contribution,
}

-- A trigger with one of its neighbours.
abbrev pub Edge : Type 0 → Type 0
Edge R = Scored R × Scored R

module _ {R : Type 0} ⦃d : Double R⦄ where
  -- The edges that contribute: a real neighbour, a positive score, a positive product.
  abbrev counts : Edge R → Bool
  counts (trigger, neighbor) =
      not (neighbor.id == 0 || is_nonpositive neighbor.score)
      && not (is_nonpositive (d.mul trigger.score neighbor.score))

  unfoldable pub add_edges : Pool R → List (Edge R) → Pool R
  add_edges pool [] = pool
  add_edges pool ((trigger, neighbor) ∷ edges) =
      add_edges (add_candidate_contribution trigger neighbor pool) edges

  -- The contributing edges to an item.
  pub edges_to : ℕ → List (Edge R) → List (Edge R)
  edges_to k [] = []
  edges_to k ((trigger, neighbor) ∷ edges) =
      if counts (trigger, neighbor) && k == neighbor.id
      then (trigger, neighbor) ∷ edges_to k edges
      else edges_to k edges

  -- A candidate with further contributions.
  unfoldable pub contribute_all : CandidateScore R → List (Edge R) → CandidateScore R
  contribute_all c [] = c
  contribute_all c ((trigger, neighbor) ∷ edges) =
      contribute_all (contribute trigger neighbor false c) edges

  -- The candidate that the edges to an item make.
  unfoldable pub summary : ℕ → List (Edge R) → Option (CandidateScore R)
  summary k [] = none
  summary k ((trigger, neighbor) ∷ edges) =
      some (contribute_all (contribute trigger neighbor true (empty_candidate k)) edges)

  lookup-upsert :
      (k : ℕ) (t n : Scored R) (pool : Pool R)
      → lookup k (upsert t n pool) ≡ (
          if k == n.id
          then some (elim (lookup k pool) [
            | none ↦ contribute t n true (empty_candidate k)
            | some c ↦ contribute t n false c
          ])
          else lookup k pool)
  unfolding upsert
  lookup-upsert k t n [] = ground (arith, ==_iff k n.id)
  lookup-upsert k t n ((j, c) ∷ pool) =
      ground (arith, lookup-upsert k t n pool, ==_iff k n.id, ==_iff k j, ==_iff n.id j)

  lookup-add_candidate_contribution :
      (k : ℕ) (t n : Scored R) (pool : Pool R)
      → lookup k (add_candidate_contribution t n pool) ≡ (
          if counts (t, n) && k == n.id
          then some (elim (lookup k pool) [
            | none ↦ contribute t n true (empty_candidate k)
            | some c ↦ contribute t n false c
          ])
          else lookup k pool)
  unfolding add_candidate_contribution
  lookup-add_candidate_contribution k t n pool = ground (arith, lookup-upsert k t n pool)

  lookup-add_edges-some :
      (k : ℕ) (edges : List (Edge R)) (pool : Pool R) (c : CandidateScore R)
      → lookup k pool ≡ some c
      → lookup k (add_edges pool edges) ≡ some (contribute_all c (edges_to k edges))
  unfolding add_edges edges_to contribute_all
  lookup-add_edges-some k [] pool c h = h
  lookup-add_edges-some k ((t, n) ∷ edges) pool c h =
      elim (Bool-cases (counts (t, n) && k == n.id)) [
        | inl e ↦ rw e (
            lookup-add_edges-some k edges (add_candidate_contribution t n pool)
              (contribute t n false c) (lookup-add_candidate_contribution k t n pool ∙ rw (e, h)))
        | inr e ↦ rw e (
            lookup-add_edges-some k edges (add_candidate_contribution t n pool) c
              (lookup-add_candidate_contribution k t n pool ∙ rw (e, h)))
      ]

  lookup-add_edges-none :
      (k : ℕ) (edges : List (Edge R)) (pool : Pool R)
      → lookup k pool ≡ none
      → lookup k (add_edges pool edges) ≡ summary k (edges_to k edges)
  unfolding add_edges edges_to summary
  lookup-add_edges-none k [] pool h = h
  lookup-add_edges-none k ((t, n) ∷ edges) pool h = elim (Bool-cases (counts (t, n) && k == n.id)) [
    | inl e ↦ rw e (
        lookup-add_edges-some k edges (add_candidate_contribution t n pool)
          (contribute t n true (empty_candidate k))
          (lookup-add_candidate_contribution k t n pool ∙ rw (e, h)))
    | inr e ↦ rw e (
        lookup-add_edges-none k edges (add_candidate_contribution t n pool)
          (lookup-add_candidate_contribution k t n pool ∙ rw (e, h)))
  ]

  pub lookup-summary :
      (k : ℕ) (edges : List (Edge R)) → lookup k (add_edges [] edges) ≡ summary k (edges_to k edges)
  lookup-summary k edges = lookup-add_edges-none k edges [] refl

  -- What an edge contributes.
  abbrev pub product : Edge R → R
  product (trigger, neighbor) = d.mul trigger.score neighbor.score

  -- The products of some edges, added to a score in their order.
  unfoldable pub sum_from : R → List (Edge R) → R
  sum_from score [] = score
  sum_from score (e ∷ edges) = sum_from (d.add score (product e)) edges

  abbrev pub stronger : Edge R → Edge R → Edge R
  stronger best e = if d.lt (product best) (product e) then e else best

  -- The first of the edges with the largest product.
  unfoldable pub strongest : Edge R → List (Edge R) → Edge R
  strongest best [] = best
  strongest best (e ∷ edges) = strongest (stronger best e) edges

  -- A candidate with the given score, explained by an edge.
  abbrev pub explained_by : ℕ → R → Edge R → CandidateScore R
  explained_by k score (trigger, neighbor) = record {
    item_id = k;
    score = score;
    trigger_entity_id = trigger.id;
    trigger_score = trigger.score;
    source_score = neighbor.score;
    reason_score = d.mul trigger.score neighbor.score;
  }

  -- The candidate that the edges to an item make: their products add up from zero, and the strongest
  -- explains it.
  abbrev pub candidate_of : ℕ → List (Edge R) → Option (CandidateScore R)
  candidate_of k [] = none
  candidate_of k (e ∷ edges) =
      some (explained_by k (sum_from nought (e ∷ edges)) (strongest e edges))

  contribute-explained_by :
      (k : ℕ) (score : R) (best e : Edge R)
      → contribute e.0 e.1 false (explained_by k score best)
        ≡ explained_by k (d.add score (product e)) (stronger best e)
  unfolding contribute
  contribute-explained_by k score (bt, bn) (t, n) =
      elim (Bool-cases (d.lt (d.mul bt.score bn.score) (d.mul t.score n.score))) [
        | inl h ↦ ground (arith, h)
        | inr h ↦ ground (arith, h)
      ]

  contribute_all-explained_by :
      (k : ℕ) (edges : List (Edge R)) (score : R) (best : Edge R)
      → contribute_all (explained_by k score best) edges
        ≡ explained_by k (sum_from score edges) (strongest best edges)
  unfolding contribute_all sum_from strongest
  contribute_all-explained_by k [] score best = refl
  contribute_all-explained_by k (e ∷ edges) score best =
      ap (λ c. contribute_all c edges) (contribute-explained_by k score best e)
      ∙ contribute_all-explained_by k edges (d.add score (product e)) (stronger best e)

  summary-candidate_of : (k : ℕ) (edges : List (Edge R)) → summary k edges ≡ candidate_of k edges
  unfolding summary contribute empty_candidate sum_from
  summary-candidate_of k [] = refl
  summary-candidate_of k ((t, n) ∷ edges) =
      ap some (contribute_all-explained_by k edges (d.add nought (product (t, n))) (t, n))

  -- The pool holds an item exactly if an edge to it contributes. Its score is then the sum of what the
  -- contributing edges to it contribute, in their order, each trigger's score times the neighbour's,
  -- and it is explained by the first of those that contribute most.
  pub lookup-add_edges :
      (k : ℕ) (edges : List (Edge R))
      → lookup k (add_edges [] edges) ≡ candidate_of k (edges_to k edges)
  lookup-add_edges k edges = lookup-summary k edges ∙ summary-candidate_of k (edges_to k edges)
