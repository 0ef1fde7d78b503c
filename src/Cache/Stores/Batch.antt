-- ===== src/Cache/Stores/Batch.antt =====
-- Batches of look-ups in an item index behind a cache.
use shooting_star.Base.{
  ℕ, Option, some, List, [], ◌∷◌, Attempt, ◌≡◌, inl, inr, refl, sym, ◌∙◌, ap, map, Attempt-cases,
}
use shooting_star.Base.Int.{ℤ}
use shooting_star.Ranking.Scoring.{ItemIndexEntry}
use shooting_star.Cache.Keyed.{nat_key}
use shooting_star.Cache.Stores.{
  Request, CachingStore, read_through, serve, find_by_item_id, find_by_item_ids, find_each,
}
use shooting_star.Cache.Stores.Freshness.{IsFresh}
use shooting_star.Cache.Stores.Histories.{
  Ready, Answered, History, read_through-Answered, serve-History, new-Ready, new_store, All-Among,
}

find_by_item_id-read_through :
    {R : Type 0} (r : Request ℕ) (s : CachingStore ℕ (ItemIndexEntry R))
    → find_by_item_id r s ≡ read_through r s
unfolding find_by_item_id
find_by_item_id-read_through r s = refl

module _ {R : Type 0} (find : ℕ → Attempt (Option (ItemIndexEntry R))) (ttl : ℤ) where
  abbrev Any : Request ℕ → Type 0
  Any r = Unit

  abbrev same_at_all_times : ℕ → ℕ → Attempt (Option (ItemIndexEntry R))
  same_at_all_times t item_id = find item_id

  answer_eq :
      (r : Request ℕ) (a : Attempt (Option (ItemIndexEntry R)))
      → IsFresh same_at_all_times ttl Any r a
      → a ≡ find r.key
  answer_eq r a f = elim f [ inl e ↦ e | inr x ↦ x.4 ∙ sym x.5 ]

  find_by_item_ids-find_each :
      (rs : List (Request ℕ)) (s : CachingStore ℕ (ItemIndexEntry R))
      → Ready same_at_all_times ttl Any s
      → (after : CachingStore ℕ (ItemIndexEntry R)) × (find_by_item_ids rs s
          ≡ some (find_each find (map Request.key rs), after))
  unfolding find_by_item_ids
  find_by_item_ids-find_each [] s y = (s, refl)
  find_by_item_ids-find_each (r ∷ rs) s y =
      let x : Answered same_at_all_times ttl Any r s =
        read_through-Answered same_at_all_times ttl Any r s y in
      let found : find_by_item_id r s ≡ some (find r.key, x.after) =
        find_by_item_id-read_through r s
        ∙ x.result
        ∙ ap (λ a. some (a, x.after)) (answer_eq r x.answer x.fresh) in
      let rest = find_by_item_ids-find_each rs x.after (x.ready tt) in
      elim (Attempt-cases (find r.key)) [
        | inl (message, e) ↦ (x.after, rw (find_by_item_ids, found, e, find_each) refl)
        | inr (entry, e) ↦ (rest.0, rw (find_by_item_ids, found, e, rest.1, find_each) refl)
      ]

  -- While the inner store's answers do not change, a batch of look-ups through the cache answers,
  -- after any earlier requests, as the batch without the cache does: the entries in the order of the
  -- identifiers, or the first exception.
  pub find_by_item_ids-uncached :
      (capacity : ℕ) (past rs : List (Request ℕ))
      → (answers : List (Attempt (Option (ItemIndexEntry R)))) × (s after : CachingStore ℕ
          (ItemIndexEntry R))
        × (serve past (new_store same_at_all_times capacity ttl) ≡ some (answers, s))
        × (find_by_item_ids rs s ≡ some (find_each find (map Request.key rs), after))
  find_by_item_ids-uncached capacity past rs =
      let h : History same_at_all_times ttl Any past (new_store same_at_all_times capacity ttl) =
        serve-History same_at_all_times ttl Any past (new_store same_at_all_times capacity ttl)
          (All-Among Any past (λ a m. tt)) (new-Ready same_at_all_times capacity ttl Any) in
      let b = find_by_item_ids-find_each rs h.after h.ready in
      (h.answers, h.after, b.0, h.result, b.1)
