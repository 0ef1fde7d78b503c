-- ===== src/Ranking/Scoring/Factors.antt =====
-- The score of a ranked candidate and the factors that explain it.
use shooting_star.Base.{
  String, Bool, not, filter, ◌||◌, if◌then◌else◌, Bool-cases, inl, inr, List, [], ◌∷◌, ◌++◌, foldl,
  ◌≡◌, refl, ap, sym, ◌∙◌, map, Option, none, some, All,
}
use shooting_star.Base.Int.{pos, negsuc, leb_ℤ}
use shooting_star.Ranking.Weights.{lookup_weight, lookup_item_weight}
use shooting_star.Base.Floats.{Double, nought}
use shooting_star.Messages.Candidates.{CandidateItem}
use shooting_star.Messages.Ranking.{
  RankingScoreFactor, RankingScoreFactorType, factor_retrieval, factor_interest,
  factor_negative_feedback, factor_quality,
}
use shooting_star.Ranking.Scoring.{
  ItemIndexEntry, ItemIndexWeightedTag, add_genres, add_tags, compute_interest_score,
  compute_negative_feedback_score, compute_quality_score, HeuristicRankTask, ScoredCandidate,
  build_score_factor, add_factor, add_item_factors, score_candidate,
}

module _ {R : Type 0} ⦃d : Double R⦄ where
  -- The contributions of some factors, added up in order.
  pub total : List (RankingScoreFactor R) → R
  total = foldl (λ sum f. d.add sum f.contribution) nought

  -- The score is the sum of the factors, and each contribution is its value times its weight.
  pub record IsExplained (s : ScoredCandidate R) : Type 0 where
    pub summed : s.rank_score ≡ total s.score_factors
    pub products : All (λ f. f.contribution ≡ d.mul f.raw_value f.weight) s.score_factors

  foldl-snoc :
      (start : R) (fs : List (RankingScoreFactor R)) (f : RankingScoreFactor R)
      → foldl (λ sum g. d.add sum g.contribution) start (fs ++ (f ∷ []))
        ≡ d.add (foldl (λ sum g. d.add sum g.contribution) start fs) f.contribution
  foldl-snoc start [] f = refl
  foldl-snoc start (g ∷ fs) f = foldl-snoc (d.add start g.contribution) fs f

  products-snoc :
      (fs : List (RankingScoreFactor R)) (f : RankingScoreFactor R)
      → All (λ g. g.contribution ≡ d.mul g.raw_value g.weight) fs
      → f.contribution ≡ d.mul f.raw_value f.weight
      → All (λ g. g.contribution ≡ d.mul g.raw_value g.weight) (fs ++ (f ∷ []))
  products-snoc [] f h p = (p, tt)
  products-snoc (g ∷ fs) f h p = (h.0, products-snoc fs f h.1 p)

  add_factor-IsExplained :
      (raw_value weight : R) (factor_type : RankingScoreFactorType) (name description : String)
      (s : ScoredCandidate R)
      → IsExplained s
      → IsExplained (add_factor raw_value weight factor_type name description s)
  unfolding add_factor build_score_factor total
  add_factor-IsExplained raw_value weight factor_type name description s v = record {
    summed =
        ap (λ x. d.add x (d.mul raw_value weight)) v.summed
        ∙ sym (foldl-snoc nought s.score_factors _);
    products = products-snoc s.score_factors _ v.products refl;
  }

  -- Of each factor, its kind, value and weight.
  abbrev pub factors : ScoredCandidate R → List (RankingScoreFactorType × R × R)
  factors s = map (λ f. (f.factor_type, f.raw_value, f.weight)) s.score_factors

  abbrev has_weight : ItemIndexWeightedTag R → Bool
  has_weight tag = not (d.lt tag.weight nought || d.eq tag.weight nought)

  -- What weights of genres and of tags say of an entry: the weights of its genres, then of its tags
  -- with a positive weight, added up from zero.
  pub overlap : List (String × R) → List (String × R) → ItemIndexEntry R → R
  overlap genre_weights tag_weights entry = foldl d.add nought (
      map (lookup_weight genre_weights) entry.genres
      ++ map (λ tag. lookup_weight tag_weights tag.tag) (filter has_weight entry.top_tags))

  foldl-tags :
      (weights : List (String × R)) (score : R) (tags : List (ItemIndexWeightedTag R))
      → add_tags weights score tags
        ≡ foldl d.add score (map (λ tag. lookup_weight weights tag.tag) (filter has_weight tags))
  unfolding add_tags
  foldl-tags weights score [] = refl
  foldl-tags weights score (tag ∷ tags) =
      elim (Bool-cases (d.lt tag.weight nought || d.eq tag.weight nought)) [
        | inl e ↦ rw e (foldl-tags weights score tags)
        | inr e ↦ rw e (foldl-tags weights (d.add score (lookup_weight weights tag.tag)) tags)
      ]

  foldl-genres :
      (weights tag_weights : List (String × R)) (score : R) (genres : List String)
      (tags : List (ItemIndexWeightedTag R))
      → add_tags tag_weights (add_genres weights score genres) tags
        ≡ foldl d.add score (
            map (lookup_weight weights) genres
            ++ map (λ tag. lookup_weight tag_weights tag.tag) (filter has_weight tags))
  unfolding add_genres
  foldl-genres weights tag_weights score [] tags = foldl-tags tag_weights score tags
  foldl-genres weights tag_weights score (genre ∷ genres) tags =
      foldl-genres weights tag_weights (d.add score (lookup_weight weights genre)) genres tags

  interest-overlap :
      (entry : ItemIndexEntry R) (genre_weights tag_weights : List (String × R))
      → compute_interest_score entry genre_weights tag_weights
        ≡ overlap genre_weights tag_weights entry
  unfolding compute_interest_score overlap
  interest-overlap entry genre_weights tag_weights =
      foldl-genres genre_weights tag_weights nought entry.genres entry.top_tags

  negative-overlap :
      (entry : ItemIndexEntry R) (genre_weights tag_weights : List (String × R))
      → compute_negative_feedback_score entry genre_weights tag_weights
        ≡ overlap genre_weights tag_weights entry
  unfolding compute_negative_feedback_score overlap
  negative-overlap entry genre_weights tag_weights =
      foldl-genres genre_weights tag_weights nought entry.genres entry.top_tags

  -- The average rating, out of five, times the logarithm of one more than the number of ratings; zero
  -- for an entry with no ratings or no positive average.
  abbrev pub quality : ItemIndexEntry R → R
  quality entry =
      if d.lt entry.rating.avg nought
        || d.eq entry.rating.avg nought
        || leb_ℤ entry.rating.count (pos 0)
      then nought
      else d.mul (d.div entry.rating.avg (d.of_decimal (pos 5) 0))
          (d.log1p (d.of_decimal entry.rating.count 0))

  -- The factors of a candidate, from the weights of the profile.
  abbrev pub factors_of :
      HeuristicRankTask R
      → CandidateItem R
      → Option (ItemIndexEntry R)
      → List (RankingScoreFactorType × R × R)
  factors_of task c none =
      (factor_retrieval, c.retrieve_score, d.of_decimal (pos 1) 0)
      ∷ (
        factor_negative_feedback,
        lookup_item_weight task.negative_item_weights c.item_id,
        d.of_decimal (negsuc 0) 0,
      )
      ∷ []
  factors_of task c (some entry) =
      (factor_retrieval, c.retrieve_score, d.of_decimal (pos 1) 0)
      ∷ (factor_interest, overlap task.genre_weights task.tag_weights entry, d.of_decimal (pos 1) 0)
      ∷ (factor_quality, quality entry, d.of_decimal (pos 1) 1)
      ∷ (
        factor_negative_feedback,
        d.add (lookup_item_weight task.negative_item_weights c.item_id)
            (overlap task.negative_genre_weights task.negative_tag_weights entry),
        d.of_decimal (negsuc 0) 0,
      )
      ∷ []

  nothing :
      (task : HeuristicRankTask R) (c : CandidateItem R) (entry : Option (ItemIndexEntry R))
      → IsExplained (record {
        candidate = c;
        item_index_entry = entry;
        rank_score = nought;
        score_factors = [];
      })
  unfolding total
  nothing task c entry = record { summed = refl; products = tt }

  explained :
      (task : HeuristicRankTask R) (c : CandidateItem R) (entry : Option (ItemIndexEntry R))
      → IsExplained (score_candidate task c entry)
  unfolding score_candidate add_item_factors
  explained task c none =
      add_factor-IsExplained _ _ _ _ _ _ (add_factor-IsExplained _ _ _ _ _ _ (nothing task c none))
  explained task c (some entry) = add_factor-IsExplained _ _ _ _ _ _ (
      add_factor-IsExplained _ _ _ _ _ _ (
        add_factor-IsExplained _ _ _ _ _ _
          (add_factor-IsExplained _ _ _ _ _ _ (nothing task c (some entry)))))

  -- A candidate's score is the sum of its factors, each value times weight: its retrieval score with
  -- weight 1 and, last, the negative feedback on its item with weight -1. If the item is in the index,
  -- the overlap of its genres and tags with the interests, with weight 1, and its quality, with weight
  -- 0.1, stand between them, and their overlap with the negative feedback adds to the latter.
  pub score_candidate-IsExplained :
      (task : HeuristicRankTask R) (c : CandidateItem R) (entry : Option (ItemIndexEntry R))
      → IsExplained (score_candidate task c entry)
        × (factors (score_candidate task c entry) ≡ factors_of task c entry)
  unfolding score_candidate add_item_factors add_factor build_score_factor compute_quality_score
  score_candidate-IsExplained task c none = (explained task c none, refl)
  score_candidate-IsExplained task c (some entry) = (
    explained task c (some entry),
    rw
        (
          interest-overlap entry task.genre_weights task.tag_weights,
          negative-overlap entry task.negative_genre_weights task.negative_tag_weights,
        )
        refl,
  )
