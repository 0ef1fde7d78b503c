-- ===== src/Redis/Stores/Listings.antt =====
-- Replies that list neighbours, and what the client and the stores read from them.
use shooting_star.Base.{
  ℕ, ◌≤◌, ◌<◌, ◌%◌, String, true, List, [], ◌∷◌, ◌++◌, Option, some, map, length, All, ◌≡◌, refl,
  sym, ◌∙◌, ap, arith, returned, ==_refl, append_assoc, append-nil,
}
use shooting_star.Base.Text.{to_string}
use shooting_star.Base.Decimal.{uint64_max, parse_uint64-to_string}
use shooting_star.Retrieval.Retrievers.Scores.{Scored}
use shooting_star.Redis.Client.{
  RedisScoredMember, read_members, read_values, read_replies, read_pipeline, concluded, ok_status,
}
use shooting_star.Redis.Stores.{parse_item_id, read_neighbors}

-- A positive identifier of 64 bits is read back from its decimal text.
pub parse_item_id-to_string :
    (id : ℕ) → 0 < id → id ≤ uint64_max → parse_item_id (to_string id) ≡ some id
unfolding parse_item_id
parse_item_id-to_string id h k = ground (arith, parse_uint64-to_string id k, h)

module _ {R : Type 0} (parse : String → Option R) (print : R → String) where
  -- An entry that Redis can hold: its id is positive and of 64 bits, and its score is read back.
  abbrev pub IsStored : Scored R → Type 0
  IsStored n = (0 < n.id) × (n.id ≤ uint64_max) × (parse (print n.score) ≡ some n.score)

  -- The reply that lists neighbours.
  abbrev pub listing : List (Scored R) → List String
  listing [] = []
  listing (n ∷ ns) = to_string n.id ∷ print n.score ∷ listing ns

  abbrev pub members : List (Scored R) → List (RedisScoredMember R)
  members [] = []
  members (n ∷ ns) = record { member = to_string n.id; score = n.score } ∷ members ns

  even_listing : (ns : List (Scored R)) → length (listing ns) % 2 ≡ 0
  even_listing [] = refl
  even_listing (n ∷ ns) = omega (arith, even_listing ns)

  read_members-listing :
      (ns : List (Scored R))
      → All IsStored ns
      → read_members parse (listing ns) ≡ (members ns, true)
  unfolding read_members
  read_members-listing [] h = refl
  read_members-listing (n ∷ ns) h = rw (read_members, h.0.2, read_members-listing ns h.1) refl

  pub read_values-listing :
      (attempt : ℕ) (ns : List (Scored R))
      → All IsStored ns
      → read_values parse attempt (listing ns) ≡ concluded (ok_status attempt) (members ns)
  read_values-listing attempt ns h =
      rw (read_values, even_listing ns, read_members-listing ns h) refl

  pub read_neighbors-members :
      (kind key : String) (ns : List (Scored R))
      → All IsStored ns
      → read_neighbors kind key (members ns) ≡ returned ns
  unfolding read_neighbors
  read_neighbors-members kind key [] h = refl
  read_neighbors-members kind key (n ∷ ns) h =
      rw
        (
          read_neighbors,
          parse_item_id-to_string n.id h.0.0 h.0.1,
          read_neighbors-members kind key ns h.1,
        )
        refl

  read_replies-listings :
      (attempt : ℕ) (lists : List (List (Scored R))) (done : List (List (RedisScoredMember R)))
      → All (All IsStored) lists
      → read_replies parse attempt (map listing lists) done
        ≡ concluded (ok_status attempt) (done ++ map members lists)
  unfolding read_replies
  read_replies-listings attempt [] done h =
      ap (concluded (ok_status attempt)) (sym (append-nil done))
  read_replies-listings attempt (ns ∷ lists) done h =
      rw (read_replies, even_listing ns, read_members-listing ns h.0)
        (read_replies-listings attempt lists (done ++ members ns ∷ []) h.1
          ∙ ap (concluded (ok_status attempt))
              (append_assoc done (members ns ∷ []) (map members lists)))

  pub read_pipeline-listings :
      (count attempt : ℕ) (lists : List (List (Scored R)))
      → All (All IsStored) lists
      → length (map listing lists) ≡ count
      → read_pipeline parse count attempt (map listing lists)
        ≡ concluded (ok_status attempt) (map members lists)
  read_pipeline-listings count attempt lists h e =
      rw (read_pipeline, e, ==_refl count) (read_replies-listings attempt lists [] h)
