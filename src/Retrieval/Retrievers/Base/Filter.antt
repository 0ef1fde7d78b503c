-- ===== src/Retrieval/Retrievers/Base/Filter.antt =====
-- What the filter set holds.
use shooting_star.Base.{
  ℕ, Bool, false, List, [], ◌∷◌, ◌≡◌, refl, arith, if◌then◌else◌, ◌==◌, ◌&&◌, ◌||◌,
}
use shooting_star.Base.Int.{ℤ, pos_part, is_positive}
use shooting_star.Base.Sets.{contains, insert_id, contains-insert_id}
use shooting_star.Messages.Profiles.{WeightedItem, Profile}
use shooting_star.Retrieval.Retrievers.Base.{
  append_weighted_ids, append_item_ids, collect_item_ids_to_filter_out,
}

-- The item stands among some identifiers; those that are not positive are none.
abbrev pub has_id : ℕ → List ℤ → Bool
has_id a [] = false
has_id a (i ∷ is) = is_positive i && a == pos_part i || has_id a is

abbrev pub has_item : {R : Type 0} → ℕ → List (WeightedItem R) → Bool
has_item a [] = false
has_item a (i ∷ is) = is_positive i.item_id && a == pos_part i.item_id || has_item a is

contains-append_item_ids :
    (a : ℕ) (items : List ℤ) (ids : List ℕ)
    → contains a (append_item_ids items ids) ≡ (has_id a items || contains a ids)
unfolding append_item_ids
contains-append_item_ids a [] ids = refl
contains-append_item_ids a (i ∷ is) ids = ground (
  arith,
  contains-append_item_ids a is (if is_positive i then insert_id (pos_part i) ids else ids),
  contains-insert_id a (pos_part i) ids,
)

module _ {R : Type 0} where
  contains-append_weighted_ids :
      (a : ℕ) (items : List (WeightedItem R)) (ids : List ℕ)
      → contains a (append_weighted_ids items ids) ≡ (has_item a items || contains a ids)
  unfolding append_weighted_ids
  contains-append_weighted_ids a [] ids = refl
  contains-append_weighted_ids a (i ∷ is) ids = ground (
    arith,
    contains-append_weighted_ids a is
        (if is_positive i.item_id then insert_id (pos_part i.item_id) ids else ids),
    contains-insert_id a (pos_part i.item_id) ids,
  )

  -- The filter set holds exactly the positive item ids of the four behaviour channels and of the
  -- negative feedback.
  pub contains-collect_item_ids_to_filter_out :
      (a : ℕ) (profile : Profile R)
      → contains a (collect_item_ids_to_filter_out profile) ≡ (
          has_item a profile.behaviors.recent_liked_items
          || has_item a profile.behaviors.liked_items
          || has_item a profile.behaviors.interested_items
          || has_id a profile.behaviors.rated_items
          || has_item a profile.negative_feedbacks.items)
  unfolding collect_item_ids_to_filter_out
  contains-collect_item_ids_to_filter_out a profile =
      let b = profile.behaviors in
      let s1 = append_weighted_ids b.recent_liked_items [] in
      let s2 = append_weighted_ids b.liked_items s1 in
      let s3 = append_weighted_ids b.interested_items s2 in
      let s4 = append_item_ids b.rated_items s3 in
      ground (
        arith,
        contains-append_weighted_ids a b.recent_liked_items [],
        contains-append_weighted_ids a b.liked_items s1,
        contains-append_weighted_ids a b.interested_items s2,
        contains-append_item_ids a b.rated_items s3,
        contains-append_weighted_ids a profile.negative_feedbacks.items s4,
      )
