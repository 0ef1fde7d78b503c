-- ===== src/Cache/Lru.antt =====
-- utilities/lru_cache/lru_cache.h: the list of entries, the index that holds an iterator of the list
-- for each key, and a clock that each call reads once. An iterator is the address of a list node; to
-- follow one whose node is gone is undefined behaviour, and the model's operations return `none`.
pub mod Nodes
mod Eviction
pub mod Linking
pub mod Refinement
pub mod History
pub mod Laws
pub mod Recency
use shooting_star.Base.{
  ℕ, zero, suc, ◌+◌, Bool, Option, none, some, List, [], ◌∷◌, length, ◌==◌, ◌||◌, ltb, leb,
  if◌then◌else◌,
}
use shooting_star.Base.Int.{ℤ, pos, leb_ℤ, pos_part}
use shooting_star.Cache.Keyed.{Key, nat_key, find, erase, assign}

pub record Entry (K V : Type 0) : Type 0 where
  pub key : K
  pub value : V
  pub expires_at : ℕ

-- `next_address` is where the allocator puts the next node.
pub record LruCache (K V : Type 0) : Type 0 where
  pub capacity : ℕ
  pub ttl : ℤ
  pub entries : List (ℕ × Entry K V)
  pub index : List (K × ℕ)
  pub next_address : ℕ

abbrev pub construct : {K V : Type 0} → ℕ → ℤ → LruCache K V
construct capacity ttl = record {
  capacity = capacity;
  ttl = ttl;
  entries = [];
  index = [];
  next_address = 0;
}

module _ {K V : Type 0} where
  abbrev is_expired : Entry K V → ℕ → Bool
  is_expired entry now = leb entry.expires_at now

  abbrev pub size : LruCache K V → ℕ
  size c = length c.entries

  -- `entries_.pop_back()`
  abbrev pub pop_back : List (ℕ × Entry K V) → List (ℕ × Entry K V)
  pop_back [] = []
  pop_back (n ∷ []) = []
  pop_back (n ∷ m ∷ rest) = n ∷ pop_back (m ∷ rest)

module _ {K V : Type 0} ⦃q : Key K⦄ where
  -- `index_.erase(entries_.back().key)`
  abbrev pub erase_back : List (ℕ × Entry K V) → List (K × ℕ) → List (K × ℕ)
  erase_back [] index = index
  erase_back ((a, e) ∷ []) index = erase e.key index
  erase_back (n ∷ m ∷ rest) index = erase_back (m ∷ rest) index

  -- The loop that evicts while the list is longer than the capacity; each round takes one node off,
  -- so the length of the list is fuel enough.
  unfoldable pub evict :
      ℕ → ℕ → List (ℕ × Entry K V) → List (K × ℕ) → List (ℕ × Entry K V) × List (K × ℕ)
  evict zero capacity entries index = (entries, index)
  evict (suc fuel) capacity entries index =
      let rest = evict fuel capacity (pop_back entries) (erase_back entries index) in
      if ltb capacity (length entries) then rest else (entries, index)

  abbrev get_entry : ℕ → K → ℕ → Entry K V → LruCache K V → Option V × LruCache K V
  get_entry now key it entry c =
      if is_expired entry now
      then (none, record c { entries = erase it c.entries; index = erase key c.index })
      else (some entry.value, record c { entries = (it, entry) ∷ erase it c.entries })

  unfoldable pub get : ℕ → K → LruCache K V → Option (Option V × LruCache K V)
  get now key c = elim (find key c.index) [
    | none ↦ some (none, c)
    | some it ↦ elim (find it c.entries) [
      | none ↦ none
      | some entry ↦ some (get_entry now key it entry c)
    ]
  ]

  abbrev refresh : ℕ → V → ℕ → Entry K V → LruCache K V → LruCache K V
  refresh now value it entry c = record c {
    entries =
        (it, record entry { value = value; expires_at = now + pos_part c.ttl })
        ∷ erase it c.entries;
  }

  abbrev push_front : ℕ → K → V → LruCache K V → LruCache K V
  push_front now key value c =
      let entry : Entry K V = record {
        key = key;
        value = value;
        expires_at = now + pos_part c.ttl;
      } in
      let entries : List (ℕ × Entry K V) = (c.next_address, entry) ∷ c.entries in
      let rest = evict (length entries) c.capacity entries (assign key c.next_address c.index) in
      record c { entries = rest.0; index = rest.1; next_address = suc c.next_address }

  unfoldable pub put : ℕ → K → V → LruCache K V → Option (LruCache K V)
  put now key value c =
      if c.capacity == 0 || leb_ℤ c.ttl (pos 0) then some c else (elim (find key c.index) [
        | none ↦ some (push_front now key value c)
        | some it ↦ elim (find it c.entries) [
          | none ↦ none
          | some entry ↦ some (refresh now value it entry c)
        ]
      ])
