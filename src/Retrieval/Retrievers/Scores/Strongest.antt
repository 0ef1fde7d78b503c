-- ===== src/Retrieval/Retrievers/Scores/Strongest.antt =====
-- The explanation of a candidate is its strongest edge.
use shooting_star.Base.{
  ℕ, true, false, List, [], ◌∷◌, some, ◌≡◌, sym, subst, ◌∙◌, ◌⊎◌, inl, inr, arith, All, Bool-cases,
}
use shooting_star.Base.Sets.{lookup}
use shooting_star.Base.Floats.{Double, IsOrdered}
use shooting_star.Retrieval.Retrievers.Scores.{Scored, CandidateScore, empty_candidate, contribute}
use shooting_star.Retrieval.Retrievers.Scores.Pool.{
  Edge, add_edges, edges_to, contribute_all, summary, lookup-summary,
}

module _ {R : Type 0} ⦃d : Double R⦄ where
  abbrev pub contribution : Edge R → R
  contribution (trigger, neighbor) = d.mul trigger.score neighbor.score

  -- The candidate names this edge as its reason.
  pub record IsExplainedBy (c : CandidateScore R) (e : Edge R) : Type 0 where
    pub same_trigger : c.trigger_entity_id ≡ e.0.id
    pub same_trigger_score : c.trigger_score ≡ e.0.score
    pub same_source_score : c.source_score ≡ e.1.score
    pub same_reason_score : c.reason_score ≡ d.mul e.0.score e.1.score

  abbrev pub AnyEdge : (Edge R → Type 0) → List (Edge R) → Type 0
  AnyEdge P [] = ⊥
  AnyEdge P (e ∷ es) = P e ⊎ AnyEdge P es

  -- No edge of the list contributes more than the reason says.
  abbrev pub IsStrongest : CandidateScore R → List (Edge R) → Type 0
  IsStrongest c edges = All (λ e. d.lt c.reason_score (contribution e) ≡ false) edges

  module _ (o : IsOrdered R) where
    contribute_all-keeps :
        (edges : List (Edge R)) (c : CandidateScore R) (x : R)
        → d.lt c.reason_score x ≡ false
        → d.lt (contribute_all c edges).reason_score x ≡ false
    unfolding contribute_all contribute
    contribute_all-keeps [] c x h = h
    contribute_all-keeps ((t, n) ∷ edges) c x h =
        contribute_all-keeps edges (contribute t n false c) x
          (ground (arith, o.lt_trans c.reason_score (d.mul t.score n.score) x))

    contribute_all-IsStrongest :
        (edges : List (Edge R)) (c : CandidateScore R) → IsStrongest (contribute_all c edges) edges
    unfolding contribute_all contribute
    contribute_all-IsStrongest [] c = tt
    contribute_all-IsStrongest ((t, n) ∷ edges) c = (
      contribute_all-keeps edges (contribute t n false c) (d.mul t.score n.score)
          (ground (arith, o.lt_irrefl (d.mul t.score n.score))),
      contribute_all-IsStrongest edges (contribute t n false c),
    )

  replaced :
      (t n : Scored R) (c : CandidateScore R)
      → d.lt c.reason_score (d.mul t.score n.score) ≡ true
      → IsExplainedBy (contribute t n false c) (t, n)
  unfolding contribute
  replaced t n c s = ground arith

  kept :
      (t n : Scored R) (c : CandidateScore R) (e : Edge R)
      → d.lt c.reason_score (d.mul t.score n.score) ≡ false
      → IsExplainedBy c e
      → IsExplainedBy (contribute t n false c) e
  unfolding contribute
  kept t n c e w h = ground arith

  contribute_all-explained :
      (edges : List (Edge R)) (c : CandidateScore R) (e : Edge R)
      → IsExplainedBy c e
      → IsExplainedBy (contribute_all c edges) e
        ⊎ AnyEdge (IsExplainedBy (contribute_all c edges)) edges
  unfolding contribute_all
  contribute_all-explained [] c e h = inl h
  contribute_all-explained ((t, n) ∷ edges) c e h =
      elim (Bool-cases (d.lt c.reason_score (d.mul t.score n.score))) [
        | inl stronger ↦ inr (
            contribute_all-explained edges (contribute t n false c) (t, n)
              (replaced t n c stronger))
        | inr weaker ↦
            elim (contribute_all-explained edges (contribute t n false c) e
              (kept t n c e weaker h)) [ inl k ↦ inl k | inr k ↦ inr (inr k) ]
      ]

  first_explained :
      (t n : Scored R) (k : ℕ) → IsExplainedBy (contribute t n true (empty_candidate k)) (t, n)
  unfolding contribute
  first_explained t n k = ground arith

  first_strongest :
      (o : IsOrdered R) (t n : Scored R) (k : ℕ)
      → d.lt (contribute t n true (empty_candidate k)).reason_score (d.mul t.score n.score) ≡ false
  unfolding contribute
  first_strongest o t n k = o.lt_irrefl (d.mul t.score n.score)

  summary-IsStrongest :
      (o : IsOrdered R) (k : ℕ) (edges : List (Edge R)) (c : CandidateScore R)
      → summary k edges ≡ some c
      → IsStrongest c edges × AnyEdge (IsExplainedBy c) edges
  unfolding summary
  summary-IsStrongest o k [] c h = cc
  summary-IsStrongest o k ((t, n) ∷ edges) c h =
      let first = contribute t n true (empty_candidate k) in
      let same : contribute_all first edges ≡ c = cc in
      subst (λ r. IsStrongest r ((t, n) ∷ edges) × AnyEdge (IsExplainedBy r) ((t, n) ∷ edges)) same
        (
          (
            contribute_all-keeps o edges first (d.mul t.score n.score) (first_strongest o t n k),
            contribute_all-IsStrongest o edges first,
          ),
          contribute_all-explained edges first (t, n) (first_explained t n k),
        )

  -- The reason of a candidate of the pool is one of the edges that contribute to it, and none of
  -- them contributes more.
  pub reason-IsStrongest :
      (o : IsOrdered R) (k : ℕ) (edges : List (Edge R)) (c : CandidateScore R)
      → lookup k (add_edges [] edges) ≡ some c
      → IsStrongest c (edges_to k edges) × AnyEdge (IsExplainedBy c) (edges_to k edges)
  reason-IsStrongest o k edges c h =
      summary-IsStrongest o k (edges_to k edges) c (sym (lookup-summary k edges) ∙ h)
