-- ===== src/Ranking/Weights/Sums.antt =====
-- A weight that the ranker looks up is the sum of the weights that the profile gives to that name.
use shooting_star.Base.{
  String, Bool, true, false, List, [], ◌∷◌, ◌≡◌, refl, ap, ◌∙◌, arith, if◌then◌else◌, ◌↔◌,
}
use shooting_star.Base.Text.{str_eq, str_eq_iff, is_empty}
use shooting_star.Base.Floats.{Double, nought}
use shooting_star.Messages.Profiles.{Profile}
use shooting_star.Ranking.Weights.{
  add_at, find_weight, add_weight, add_weights, genre_pairs, tag_pairs, build_genre_weights,
  build_tag_weights, build_negative_genre_weights, build_negative_tag_weights, lookup_weight,
}

module _ {K R : Type 0} ⦃d : Double R⦄ (same : K → K → Bool) where
  -- `start` plus the weights given to `key`, in order.
  pub sum_from : K → R → List (K × R) → R
  sum_from key start [] = start
  sum_from key start ((k, w) ∷ rest) =
      sum_from key (if same key k then d.add start w else start) rest

  module _ (same_iff : (a b : K) → (same a b ≡ true) ↔ (a ≡ b)) where
    find_weight-add_at :
        (key name : K) (weight : R) (weights : List (K × R))
        → find_weight same key (add_at same name weight weights) ≡ (
            if same key name
            then d.add (find_weight same key weights) weight
            else find_weight same key weights)
    unfolding find_weight add_at
    find_weight-add_at key name weight [] = ground arith
    find_weight-add_at key name weight ((k, w) ∷ rest) = ground (
      arith,
      find_weight-add_at key name weight rest,
      same_iff key name,
      same_iff key k,
      same_iff name k,
    )

module _ {R : Type 0} ⦃d : Double R⦄ where
  find_weight-add_weight :
      (key name : String) (w : R) (weights : List (String × R))
      → is_empty key ≡ false
      → find_weight str_eq key (add_weight name w weights) ≡ (
          if str_eq key name
          then d.add (find_weight str_eq key weights) w
          else find_weight str_eq key weights)
  unfolding add_weight
  find_weight-add_weight key name w weights h = ground (
    arith,
    find_weight-add_at str_eq str_eq_iff key name w weights,
    str_eq_iff key name,
    str_eq_iff key "",
    str_eq_iff name "",
  )

  find_weight-add_weights :
      (key : String) (entries weights : List (String × R))
      → is_empty key ≡ false
      → find_weight str_eq key (add_weights entries weights)
        ≡ sum_from str_eq key (find_weight str_eq key weights) entries
  unfolding add_weights sum_from
  find_weight-add_weights key [] weights h = refl
  find_weight-add_weights key ((name, w) ∷ rest) weights h =
      find_weight-add_weights key rest (add_weight name w weights) h
      ∙ ap (λ start. sum_from str_eq key start rest) (find_weight-add_weight key name w weights h)

  -- The weight that the ranker finds for a name that is not empty is the sum, in order, of the
  -- weights of the entries of the profile with that name: for genres, for tags, and for both of the
  -- negative feedback.
  pub lookup_weight-sum :
      (profile : Profile R) (name : String)
      → is_empty name ≡ false
      → let total = λ (entries : List (String × R)). sum_from str_eq name nought entries in
        (lookup_weight (build_genre_weights profile) name
          ≡ total (genre_pairs profile.interests.genres))
        × (lookup_weight (build_tag_weights profile) name
            ≡ total (tag_pairs profile.interests.tags))
        × (lookup_weight (build_negative_genre_weights profile) name
            ≡ total (genre_pairs profile.negative_feedbacks.genres))
        × (lookup_weight (build_negative_tag_weights profile) name
            ≡ total (tag_pairs profile.negative_feedbacks.tags))
  unfolding lookup_weight build_genre_weights build_tag_weights build_negative_genre_weights
      build_negative_tag_weights find_weight
  lookup_weight-sum profile name h = (
    find_weight-add_weights name (genre_pairs profile.interests.genres) [] h,
    find_weight-add_weights name (tag_pairs profile.interests.tags) [] h,
    find_weight-add_weights name (genre_pairs profile.negative_feedbacks.genres) [] h,
    find_weight-add_weights name (tag_pairs profile.negative_feedbacks.tags) [] h,
  )
