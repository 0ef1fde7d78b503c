-- ===== src/Ranking/Weights.antt =====
-- heuristic_ranker.cpp: the weights that a profile gives to genres, tags and items, as association
-- lists for the hash maps.
pub mod Sums
use shooting_star.Base.{ℕ, String, Bool, List, [], ◌∷◌, if◌then◌else◌, ◌==◌, map}
use shooting_star.Base.Int.{pos, pos_part, leb_ℤ}
use shooting_star.Base.Text.{str_eq, is_empty}
use shooting_star.Base.Floats.{Double, nought}
use shooting_star.Messages.Profiles.{Profile, WeightedItem, GenreInterest, TagInterest}

-- `map[key] += weight`, with an empty entry of 0.0; `same` is the equality of keys.
pub add_at : {K R : Type 0} ⦃d : Double R⦄ → (K → K → Bool) → K → R → List (K × R) → List (K × R)
add_at ⦃d⦄ same key weight [] = (key, d.add nought weight) ∷ []
add_at ⦃d⦄ same key weight ((k, w) ∷ rest) =
    if same key k then (k, d.add w weight) ∷ rest else (k, w) ∷ add_at same key weight rest

-- `find`, with 0.0 for a missing key.
pub find_weight : {K R : Type 0} ⦃d : Double R⦄ → (K → K → Bool) → K → List (K × R) → R
find_weight same key [] = nought
find_weight same key ((k, w) ∷ rest) = if same key k then w else find_weight same key rest

module _ {R : Type 0} ⦃d : Double R⦄ where
  pub add_weight : String → R → List (String × R) → List (String × R)
  add_weight name weight weights =
      if is_empty name then weights else add_at str_eq name weight weights

  -- The loops of the four `Build…Weights` over genres and tags.
  pub add_weights : List (String × R) → List (String × R) → List (String × R)
  add_weights [] weights = weights
  add_weights ((name, weight) ∷ rest) weights = add_weights rest (add_weight name weight weights)

  abbrev pub genre_pairs : List (GenreInterest R) → List (String × R)
  genre_pairs = map λ g. (g.genre, g.weight)

  abbrev pub tag_pairs : List (TagInterest R) → List (String × R)
  tag_pairs = map λ t. (t.tag, t.weight)

  pub build_genre_weights : Profile R → List (String × R)
  build_genre_weights profile = add_weights (genre_pairs profile.interests.genres) []

  pub build_tag_weights : Profile R → List (String × R)
  build_tag_weights profile = add_weights (tag_pairs profile.interests.tags) []

  pub build_negative_genre_weights : Profile R → List (String × R)
  build_negative_genre_weights profile =
      add_weights (genre_pairs profile.negative_feedbacks.genres) []

  pub build_negative_tag_weights : Profile R → List (String × R)
  build_negative_tag_weights profile = add_weights (tag_pairs profile.negative_feedbacks.tags) []

  unfoldable pub add_item_weights : List (WeightedItem R) → List (ℕ × R) → List (ℕ × R)
  add_item_weights [] weights = weights
  add_item_weights (item ∷ rest) weights = add_item_weights rest (
      if leb_ℤ item.item_id (pos 0)
      then weights
      else add_at (λ a b. a == b) (pos_part item.item_id) item.weight weights)

  unfoldable pub build_negative_item_weights : Profile R → List (ℕ × R)
  build_negative_item_weights profile = add_item_weights profile.negative_feedbacks.items []

  pub lookup_weight : List (String × R) → String → R
  lookup_weight weights name = find_weight str_eq name weights

  unfoldable pub lookup_item_weight : List (ℕ × R) → ℕ → R
  lookup_item_weight weights item_id = find_weight (λ a b. a == b) item_id weights
