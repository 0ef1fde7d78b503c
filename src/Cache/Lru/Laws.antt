-- ===== src/Cache/Lru/Laws.antt =====
-- What LruCache::Get finds after LruCache::Put.
use shooting_star.Base.{
  ℕ, zero, suc, ◌+◌, ◌<◌, false, Option, none, some, List, [], ◌∷◌, ◌++◌, length, leb, ◌||◌, ◌==◌,
  if◌then◌else◌, ◌≡◌, refl, sym, ap, arith, take_of_length-le, take-length-append, Bool-cases, inl,
  inr,
}
use shooting_star.Base.Int.{ℤ, pos, leb_ℤ, pos_part}
use shooting_star.Cache.Keyed.{
  Key, find, erase, find-erase_other, erase_of_find-none, same_refl, length-erase_le,
}
use shooting_star.Cache.Lru.{LruCache, get, put, size}
use shooting_star.Cache.Lru.Recency.{recent, current, written}
use shooting_star.Cache.Lru.Eviction.{length-contents}
use shooting_star.Cache.Lru.Linking.{WellFormed}
use shooting_star.Cache.Lru.Refinement.{Looked, Stored, get-refines, put-refines}

not-disabled :
    (n : ℕ) (ttl : ℤ) → leb_ℤ ttl (pos 0) ≡ false → (suc n == 0 || leb_ℤ ttl (pos 0)) ≡ false
not-disabled n ttl on = ground (arith, on)

module _ {K V : Type 0} ⦃q : Key K⦄ where
  -- The answer of a look-up, without the cache that it leaves.
  abbrev pub answer : Option (Option V × LruCache K V) → Option (Option V)
  answer none = none
  answer (some r) = some r.0

  get-after :
      (now later : ℕ) (j key : K) (value : V) (c after : LruCache K V)
      → WellFormed c
      → put now key value c ≡ some after
      → answer (get later j after)
        ≡ some (current later j (written c.capacity c.ttl now key value (recent c)))
  get-after now later j key value c after w h =
      let p : Stored now key value c = put-refines now key value c w in
      let e : p.after ≡ after = ground (arith, p.result, h) in
      let g : Looked later j p.after = get-refines later j p.after p.well_formed in
      rw (sym e, g.result, p.recency) refl

  current-written_same :
      (capacity : ℕ) (ttl : ℤ) (now later : ℕ) (key : K) (value : V) (m : List (K × (V × ℕ)))
      → 0 < capacity
      → leb_ℤ ttl (pos 0) ≡ false
      → current later key (written capacity ttl now key value m)
        ≡ (if leb (now + pos_part ttl) later then none else some value)
  current-written_same zero ttl now later key value m h on = absurd (omega (arith, h))
  current-written_same (suc n) ttl now later key value m h on =
      rw (written, not-disabled n ttl on, current, same_refl key) refl

  current-written_other :
      (capacity : ℕ) (ttl : ℤ) (now later : ℕ) (j key : K) (value : V) (m : List (K × (V × ℕ)))
      → length m < capacity
      → q.same j key ≡ false
      → current later j (written capacity ttl now key value m) ≡ current later j m
  current-written_other capacity ttl now later j key value m room other =
      elim (Bool-cases (capacity == 0 || leb_ℤ ttl (pos 0))) [
        | inl off ↦ rw (written, off) refl
        | inr on ↦
            rw
              (
                written,
                on,
                take_of_length-le capacity ((key, (value, now + pos_part ttl)) ∷ erase key m)
                    (omega (arith, length-erase_le key m)),
                current,
                other,
                find-erase_other j key m other,
              )
              refl
      ]

  written-full :
      (ttl : ℤ) (now : ℕ) (key : K) (value : V) (kept : List (K × (V × ℕ))) (oldest : K × (V × ℕ))
      → leb_ℤ ttl (pos 0) ≡ false
      → find key (kept ++ oldest ∷ []) ≡ none
      → written (suc (length kept)) ttl now key value (kept ++ oldest ∷ [])
        ≡ (key, (value, now + pos_part ttl)) ∷ kept
  written-full ttl now key value kept oldest on new =
      rw
        (
          written,
          not-disabled (length kept) ttl on,
          erase_of_find-none key (kept ++ oldest ∷ []) new,
          take-length-append kept (oldest ∷ []),
        )
        refl

  -- In a well-formed cache that is in use (positive capacity and expiry time), a value written at `now`
  -- is found until its time is over, and not from then on.
  pub get-put :
      (now later : ℕ) (key : K) (value : V) (c after : LruCache K V)
      → WellFormed c
      → 0 < c.capacity
      → leb_ℤ c.ttl (pos 0) ≡ false
      → put now key value c ≡ some after
      → answer (get later key after)
        ≡ some (if leb (now + pos_part c.ttl) later then none else some value)
  get-put now later key value c after w in_use on h =
      rw (get-after now later key key value c after w h)
        (ap some (current-written_same c.capacity c.ttl now later key value (recent c) in_use on))

  -- While the cache has room, or holds the key already, a write leaves what is found of other keys.
  pub get-put_other :
      (now later : ℕ) (j key : K) (value : V) (c after : LruCache K V)
      → WellFormed c
      → size c < c.capacity
      → q.same j key ≡ false
      → put now key value c ≡ some after
      → answer (get later j after) ≡ answer (get later j c)
  get-put_other now later j key value c after w room other h =
      let g : Looked later j c = get-refines later j c w in
      rw (get-after now later j key value c after w h, g.result)
        (ap some (
          current-written_other c.capacity c.ttl now later j key value (recent c)
            (omega (arith, length-contents c.entries)) other))

  -- In a full, well-formed cache in use, a write of a new key drops the least recently used entry and
  -- no other.
  pub put-evicts :
      (now : ℕ) (key : K) (value : V) (c after : LruCache K V) (kept : List (K × (V × ℕ)))
      (oldest : K × (V × ℕ))
      → WellFormed c
      → leb_ℤ c.ttl (pos 0) ≡ false
      → recent c ≡ kept ++ oldest ∷ []
      → c.capacity ≡ suc (length kept)
      → find key (recent c) ≡ none
      → put now key value c ≡ some after
      → recent after ≡ (key, (value, now + pos_part c.ttl)) ∷ kept
  put-evicts now key value c after kept oldest w on list full new h =
      let p : Stored now key value c = put-refines now key value c w in
      let e : p.after ≡ after = ground (arith, p.result, h) in
      rw (sym e, p.recency, full, list)
        (written-full c.ttl now key value kept oldest on (rw (sym list) new))
