-- ===== src/Retrieval/Retrievers/ItemCf/Seeds.antt =====
-- The trigger seeds: which items become one, and which are kept.
use shooting_star.Base.{
  ℕ, zero, suc, ◌≤◌, false, List, [], ◌∷◌, ◌++◌, ◌≡◌, refl, sym, ◌∙◌, arith, if◌then◌else◌, ==_iff,
  ◌||◌, length, take, drop, length-take, All, map-append, Bool-cases, inl, inr,
}
use shooting_star.Base.Int.{ℤ, pos, negsuc, pos_part, is_positive, leb_ℤ}
use shooting_star.Base.Sets.{contains, contains-append, Distinct, Distinct-snoc}
use shooting_star.Base.Sort.{sort, IsSorted, contains-sort}
use shooting_star.Base.Sort.Order.{AllNumbers, sort-IsSorted}
use shooting_star.Base.Floats.{Double, IsOrdered}
use shooting_star.Messages.Profiles.{WeightedItem, Profile}
use shooting_star.Retrieval.Retrievers.Scores.{
  Scored, Collected, behavior_score, append_ranked, append_weighted_items,
}
use shooting_star.Retrieval.Retrievers.Base.Filter.{has_item}
use shooting_star.Retrieval.Retrievers.ItemCf.{
  collect_trigger_seeds, stronger, select_top_trigger_seeds, seed_ids,
}

module _ {R : Type 0} where
  -- The set of seen items is that of the scored ones, which are distinct.
  pub record IsCollected (c : Collected R) : Type 0 where
    pub distinct : Distinct (seed_ids c.1)
    pub seen : (a : ℕ) → contains a c.0 ≡ contains a (seed_ids c.1)

  nothing-IsCollected : IsCollected ([], [])
  nothing-IsCollected = record { distinct = tt; seen = λ a. refl }

module _ {R : Type 0} ⦃d : Double R⦄ (base_score : R) where
  add_seen : ℕ → WeightedItem R → Collected R → Collected R
  add_seen rank item (seen, scored) =
      let id = pos_part item.item_id in
      if is_positive item.item_id
      then (if contains id seen then (seen, scored) else (
        id ∷ seen,
        scored ++ (record { id = id; score = behavior_score base_score item.weight rank } ∷ []),
      ))
      else (seen, scored)

  seed_ids-snoc :
      (cs : List (Scored R)) (s : Scored R) → seed_ids (cs ++ s ∷ []) ≡ seed_ids cs ++ (s.id ∷ [])
  seed_ids-snoc cs s = map-append (λ t. t.id) cs (s ∷ [])

  add_seen-IsCollected :
      (rank : ℕ) (item : WeightedItem R) (c : Collected R)
      → IsCollected c
      → IsCollected (add_seen rank item c)
  unfolding add_seen
  add_seen-IsCollected rank item (seen, scored) v =
      let id = pos_part item.item_id in
      let s : Scored R = record { id = id; score = behavior_score base_score item.weight rank } in
      elim (Bool-cases (is_positive item.item_id)) [
        | inr e ↦ rw e v
        | inl e ↦ elim (Bool-cases (contains id seen)) [
          | inl old ↦ rw (e, old) v
          | inr new ↦
              rw (e, new)
                (record {
                  distinct =
                      rw (seed_ids-snoc scored s)
                        (Distinct-snoc (seed_ids scored) id v.distinct (sym (v.seen id) ∙ new));
                  seen = λ a.
                      rw (seed_ids-snoc scored s)
                        (ground (arith, contains-append a (seed_ids scored) (id ∷ []), v.seen a));
                })
        ]
      ]

  seen-add_seen :
      (rank : ℕ) (item : WeightedItem R) (items : List (WeightedItem R)) (c : Collected R) (a : ℕ)
      → (contains a (add_seen rank item c).0 || has_item a items)
        ≡ (contains a c.0 || has_item a (item ∷ items))
  unfolding add_seen
  seen-add_seen rank item items c a = ground (arith, ==_iff a (pos_part item.item_id))

  append_ranked_lem :
      (rank : ℕ) (items : List (WeightedItem R)) (c : Collected R)
      → IsCollected c
      → IsCollected (append_ranked base_score rank items c)
        × ((a : ℕ)
            → contains a (append_ranked base_score rank items c).0
              ≡ (contains a c.0 || has_item a items))
  unfolding append_ranked add_seen
  append_ranked_lem rank [] c v = (v, λ a. ground arith)
  append_ranked_lem rank (item ∷ items) c v =
      let (v', h) =
        append_ranked_lem (suc rank) items (add_seen (suc rank) item c)
          (add_seen-IsCollected (suc rank) item c v) in
      (v', λ a. h a ∙ seen-add_seen (suc rank) item items c a)

  append_weighted_items_lem :
      (items : List (WeightedItem R)) (c : Collected R)
      → IsCollected c
      → IsCollected (append_weighted_items base_score items c)
        × ((a : ℕ)
            → contains a (append_weighted_items base_score items c).0
              ≡ (contains a c.0 || has_item a items))
  unfolding append_weighted_items
  append_weighted_items_lem items c v = append_ranked_lem 0 items c v

module _ {R : Type 0} ⦃d : Double R⦄ where
  -- The seeds of item-CF are exactly the positive items that the user liked recently, liked or was
  -- interested in, each once.
  pub collect_trigger_seeds_lem :
      (profile : Profile R)
      → Distinct (seed_ids (collect_trigger_seeds profile))
        × ((a : ℕ)
            → contains a (seed_ids (collect_trigger_seeds profile)) ≡ (
                has_item a profile.behaviors.recent_liked_items
                || has_item a profile.behaviors.liked_items
                || has_item a profile.behaviors.interested_items))
  unfolding collect_trigger_seeds
  collect_trigger_seeds_lem profile =
      let b = profile.behaviors in
      let (v1, h1) =
        append_weighted_items_lem (d.of_decimal (pos 1) 0) b.recent_liked_items ([], [])
          nothing-IsCollected in
      let (v2, h2) = append_weighted_items_lem (d.of_decimal (pos 5) 1) b.liked_items _ v1 in
      let (v3, h3) = append_weighted_items_lem (d.of_decimal (pos 3) 1) b.interested_items _ v2 in
      (v3.distinct, λ a. ground (arith, v3.seen a, h1 a, h2 a, h3 a))

  -- Never more seeds than the limit, if there is one.
  length-select_top_trigger_seeds-le :
      (seeds : List (Scored R)) (max_count : ℤ)
      → leb_ℤ max_count (pos 0) ≡ false
      → length (select_top_trigger_seeds seeds max_count) ≤ pos_part max_count
  unfolding select_top_trigger_seeds
  length-select_top_trigger_seeds-le seeds (pos n) h =
      ground (arith, length-take n (sort stronger seeds))
  length-select_top_trigger_seeds-le seeds (negsuc n) h = absurd (ground arith)

  All-drop : (P : Scored R → Type 0) (n : ℕ) (xs : List (Scored R)) → All P xs → All P (drop n xs)
  All-drop P zero xs h = h
  All-drop P (suc n) [] h = tt
  All-drop P (suc n) (x ∷ xs) h = All-drop P n xs h.1

  -- No seed of the second list is to stand before one of the first.
  abbrev pub NoneBetter : List (Scored R) → List (Scored R) → Type 0
  NoneBetter kept dropped = All (λ a. All (λ b. stronger b a ≡ false) dropped) kept

  IsSorted-split :
      (n : ℕ) (xs : List (Scored R)) → IsSorted stronger xs → NoneBetter (take n xs) (drop n xs)
  IsSorted-split zero xs s = tt
  IsSorted-split (suc n) [] s = tt
  IsSorted-split (suc n) (x ∷ xs) s =
      (All-drop (λ b. stronger b x ≡ false) n xs s.0, IsSorted-split n xs s.1)

  NoneBetter-nil : (kept : List (Scored R)) → NoneBetter kept []
  NoneBetter-nil [] = tt
  NoneBetter-nil (a ∷ kept) = (tt, NoneBetter-nil kept)

  contains-split :
      (n a : ℕ) (xs : List (Scored R))
      → contains a (seed_ids xs)
        ≡ (contains a (seed_ids (take n xs)) || contains a (seed_ids (drop n xs)))
  contains-split zero a xs = refl
  contains-split (suc n) a [] = refl
  contains-split (suc n) a (x ∷ xs) = ground (arith, contains-split n a xs)

  -- If the seeds are distinct and no score is NaN, each seed is kept or dropped, and no dropped
  -- seed has a higher score than a kept one, or the same and a smaller identifier.
  pub select_top_trigger_seeds_best :
      (o : IsOrdered R) (seeds : List (Scored R)) (max_count : ℤ)
      → AllNumbers (λ s. s.score) (λ s. s.id) seeds
      → Distinct (seed_ids seeds)
      → (dropped : List (Scored R)) × ((a : ℕ)
          → contains a (seed_ids seeds) ≡ (
              contains a (seed_ids (select_top_trigger_seeds seeds max_count))
              || contains a (seed_ids dropped)))
        × NoneBetter (select_top_trigger_seeds seeds max_count) dropped
  unfolding select_top_trigger_seeds
  select_top_trigger_seeds_best o seeds max_count n d =
      elim (Bool-cases (leb_ℤ max_count (pos 0) || leb_ℤ (pos (length seeds)) max_count)) [
        | inl whole ↦ rw whole ([], λ a. ground arith, NoneBetter-nil seeds)
        | inr cut ↦ rw cut (
          drop (pos_part max_count) (sort stronger seeds),
          λ a.
              sym (contains-sort stronger (λ s. s.id) a seeds)
              ∙ contains-split (pos_part max_count) a (sort stronger seeds),
          IsSorted-split (pos_part max_count) (sort stronger seeds)
              (sort-IsSorted (λ s. s.score) (λ s. s.id) o seeds n d),
        )
      ]
