-- ===== src/Cache/Lru/History.antt =====
-- Sequences of calls of LruCache, and what a call finds after another.
use shooting_star.Base.{ℕ, ◌≤◌, Option, none, some, List, [], ◌∷◌, ◌≡◌, refl, arith, ◌∙◌}
use shooting_star.Base.Int.{ℤ}
use shooting_star.Cache.Keyed.{Key, find}
use shooting_star.Cache.Lru.{LruCache, get, put, size, construct}
use shooting_star.Cache.Lru.Recency.{recent, current, looked_up, written}
use shooting_star.Cache.Lru.Nodes.{locate}
use shooting_star.Cache.Lru.Linking.{WellFormed, construct-WellFormed}
use shooting_star.Cache.Lru.Refinement.{Looked, Stored, get-refines, put-refines}

pub data Call (K V : Type 0) : Type 0 where
  getting : ℕ → K → Call K V
  putting : ℕ → K → V → Call K V

module _ {K V : Type 0} ⦃q : Key K⦄ where
  -- The answers of the look-ups of a sequence of calls, in their order, and the cache after them.
  unfoldable pub run : List (Call K V) → LruCache K V → Option (List (Option V) × LruCache K V)
  run [] c = some ([], c)
  run (getting now key ∷ calls) c = elim (get now key c) [
    | none ↦ none
    | some r ↦ elim (run calls r.1) [ none ↦ none | some s ↦ some (r.0 ∷ s.0, s.1) ]
  ]
  run (putting now key value ∷ calls) c = elim (put now key value c) [
    | none ↦ none
    | some after ↦ run calls after
  ]

  -- The same on the list of recent keys.
  abbrev pub recall : ℕ → ℤ → List (Call K V) → List (K × (V × ℕ)) → List (Option V)
  recall capacity ttl [] m = []
  recall capacity ttl (getting now key ∷ calls) m =
      current now key m ∷ recall capacity ttl calls (looked_up now key m)
  recall capacity ttl (putting now key value ∷ calls) m =
      recall capacity ttl calls (written capacity ttl now key value m)

  pub record Ran (capacity : ℕ) (ttl : ℤ) (calls : List (Call K V)) (c : LruCache K V)
      : Type 0 where
    pub after : LruCache K V
    pub result : run calls c ≡ some (recall capacity ttl calls (recent c), after)
    pub well_formed : WellFormed after
    pub capacity_eq : after.capacity ≡ capacity

  run-getting :
      (capacity : ℕ) (ttl : ℤ) (now : ℕ) (key : K) (calls : List (Call K V)) (c : LruCache K V)
      → (g : Looked now key c) → Ran capacity ttl calls g.after
      → Ran capacity ttl (getting now key ∷ calls) c
  unfolding run
  run-getting capacity ttl now key calls c g r = record {
    after = r.after;
    result = rw (g.result, r.result, g.recency, run) refl;
    well_formed = r.well_formed;
    capacity_eq = r.capacity_eq;
  }

  run-putting :
      (capacity : ℕ) (ttl : ℤ) (now : ℕ) (key : K) (value : V) (calls : List (Call K V))
      (c : LruCache K V)
      → c.capacity ≡ capacity
      → c.ttl ≡ ttl
      → (p : Stored now key value c) → Ran capacity ttl calls p.after
      → Ran capacity ttl (putting now key value ∷ calls) c
  unfolding run
  run-putting capacity ttl now key value calls c hc ht p r = record {
    after = r.after;
    result = rw (p.result, r.result, p.recency, hc, ht, run) refl;
    well_formed = r.well_formed;
    capacity_eq = r.capacity_eq;
  }

  run-Ran :
      (capacity : ℕ) (ttl : ℤ) (calls : List (Call K V)) (c : LruCache K V)
      → WellFormed c
      → c.capacity ≡ capacity
      → c.ttl ≡ ttl
      → Ran capacity ttl calls c
  unfolding run
  run-Ran capacity ttl [] c w hc ht = record {
    after = c;
    result = refl;
    well_formed = w;
    capacity_eq = hc;
  }
  run-Ran capacity ttl (getting now key ∷ calls) c w hc ht =
      let g : Looked now key c = get-refines now key c w in
      run-getting capacity ttl now key calls c g
        (run-Ran capacity ttl calls g.after g.well_formed (g.capacity_eq ∙ hc) (g.ttl_eq ∙ ht))
  run-Ran capacity ttl (putting now key value ∷ calls) c w hc ht =
      let p : Stored now key value c = put-refines now key value c w in
      run-putting capacity ttl now key value calls c hc ht p
        (run-Ran capacity ttl calls p.after p.well_formed (p.capacity_eq ∙ hc) (p.ttl_eq ∙ ht))

  -- A new cache answers every sequence of calls of Get and Put as the list of recent keys does, which
  -- a look-up reorders and a write cuts to the capacity; no call follows an iterator of a node that
  -- is gone, and after the calls the cache holds at most `capacity` entries and its index leads each
  -- key to the address of the key's node, and to none where the list has no node of the key.
  pub run-refines :
      (capacity : ℕ) (ttl : ℤ) (calls : List (Call K V))
      → (after : LruCache K V) × (run calls (construct capacity ttl)
          ≡ some (recall capacity ttl calls [], after))
        × size after ≤ capacity
        × ((k : K) → find k after.index ≡ locate k after.entries)
  run-refines capacity ttl calls =
      let r : Ran capacity ttl calls (construct capacity ttl) =
        run-Ran capacity ttl calls (construct capacity ttl) (construct-WellFormed capacity ttl) refl
          refl in
      (
        r.after,
        r.result,
        omega (arith, r.well_formed.within, r.capacity_eq),
        r.well_formed.linked.agrees,
      )
