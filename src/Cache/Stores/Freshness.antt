-- ===== src/Cache/Stores/Freshness.antt =====
-- How old an answer of a caching store can be.
use shooting_star.Base.{
  ℕ, zero, suc, ◌+◌, ◌<◌, Option, none, some, List, [], ◌∷◌, Attempt, returned, thrown, ◌≡◌, ◌⊎◌,
  inl, inr, refl, sym, ◌∙◌, take, ◌==◌, ◌||◌, Bool-cases, Option-cases, Attempt-cases, arith, ap,
  String,
}
use shooting_star.Base.Int.{ℤ, pos, pos_part, leb_ℤ}
use shooting_star.Cache.Keyed.{Key, find, erase, DistinctKeys, find-erase, find-erase_other}
use shooting_star.Cache.Lru.Recency.{recent, current, looked_up, written}
use shooting_star.Cache.Lru.Linking.{WellFormed}
use shooting_star.Cache.Lru.Refinement.{Looked, Stored, put-refines}
use shooting_star.Cache.Stores.{Request, CachingStore, read_through, fetch, keep}

module _ {K V : Type 0} ⦃q : Key K⦄ where
  find-take-some :
      (n : ℕ) (j : K) (x : V × ℕ) (m : List (K × (V × ℕ)))
      → find j (take n m) ≡ some x
      → find j m ≡ some x
  find-take-some zero j x m h = cc
  find-take-some (suc n) j x [] h = h
  find-take-some (suc n) j x ((i, y) ∷ m) h = ground (arith, find-take-some n j x m)

  -- A look-up adds nothing.
  find-looked_up :
      (now : ℕ) (key j : K) (x : V × ℕ) (m : List (K × (V × ℕ)))
      → DistinctKeys m
      → find j (looked_up now key m) ≡ some x
      → find j m ≡ some x
  find-looked_up now key j x m d h = ground (arith, h, find-erase j key m d, q.same_iff j key)

  find-front :
      (key j : K) (y x : V × ℕ) (m : List (K × (V × ℕ)))
      → find j ((key, y) ∷ erase key m) ≡ some x
      → ((key ≡ j) × (x ≡ y)) ⊎ (find j m ≡ some x)
  find-front key j y x m h = elim (Bool-cases (q.same j key)) [
    | inl e ↦ inl (sym ((q.same_iff j key).0 e), ground (arith, h, e))
    | inr e ↦ inr (sym (find-erase_other j key m e) ∙ ground (arith, h, e))
  ]

  -- A write adds one entry.
  find-written :
      (capacity : ℕ) (ttl : ℤ) (now : ℕ) (key j : K) (value : V) (x : V × ℕ)
      (m : List (K × (V × ℕ)))
      → find j (written capacity ttl now key value m) ≡ some x
      → ((key ≡ j) × (x ≡ (value, now + pos_part ttl))) ⊎ (find j m ≡ some x)
  find-written capacity ttl now key j value x m h =
      elim (Bool-cases (capacity == 0 || leb_ℤ ttl (pos 0))) [
        | inl off ↦ inr (ground (arith, h, off))
        | inr on ↦
            find-front key j (value, now + pos_part ttl) x m
              (find-take-some capacity j x ((key, (value, now + pos_part ttl)) ∷ erase key m)
                (ground (arith, h, on)))
      ]

  current-found :
      (now : ℕ) (key : K) (v : V) (m : List (K × (V × ℕ)))
      → current now key m ≡ some v
      → (t : ℕ) × (find key m ≡ some (v, t)) × now < t
  current-found now key v m h = elim (Option-cases (find key m)) [
    | inl e ↦ absurd (ground (arith, h, e))
    | inr (x, e) ↦ (x.1, ground (arith, h, e), ground (arith, h, e))
  ]

  -- Each entry is an answer of the store to a known request for its key, and its time is that at which
  -- the answer was cached, plus the expiry time.
  abbrev pub Sourced :
      (ℕ → K → Attempt (Option V)) → ℤ → (Request K → Type 0) → List (K × (V × ℕ)) → Type 0
  Sourced inner ttl Known m =
      (j : K) (x : V × ℕ)
      → find j m ≡ some x
      → (p : Request K) × Known p
        × (p.key ≡ j)
        × (inner p.asked_at j ≡ returned (some x.0))
        × (x.1 ≡ p.cached_at + pos_part ttl)

  -- The answer is what the store answers to this request, or what it answered to a known request for
  -- the same key whose answer is not expired.
  abbrev pub IsFresh :
      (ℕ → K → Attempt (Option V))
      → ℤ
      → (Request K → Type 0)
      → Request K
      → Attempt (Option V)
      → Type 0
  IsFresh inner ttl Known r a =
      (a ≡ inner r.asked_at r.key)
      ⊎ ((p : Request K) × (v : V) × Known p
          × (p.key ≡ r.key)
          × (a ≡ returned (some v))
          × (inner p.asked_at r.key ≡ returned (some v))
          × r.looked_up_at < p.cached_at + pos_part ttl)

  pub record Served (Known : Request K → Type 0) (r : Request K) (s : CachingStore K V)
      : Type 0 where
    pub answer : Attempt (Option V)
    pub after : CachingStore K V
    pub result : read_through r s ≡ some (answer, after)
    pub well_formed : WellFormed after.cache
    pub inner_eq : after.inner ≡ s.inner
    pub ttl_eq : after.cache.ttl ≡ s.cache.ttl
    pub fresh : IsFresh s.inner s.cache.ttl Known r answer
    pub sourced : Known r → Sourced s.inner s.cache.ttl Known (recent after.cache)

  module _ (Known : Request K → Type 0) (r : Request K) (s : CachingStore K V)
      (g : Looked r.looked_up_at r.key s.cache) (w : WellFormed s.cache)
      (known : Sourced s.inner s.cache.ttl Known (recent s.cache)) where
    looked-Sourced : Sourced s.inner s.cache.ttl Known (recent g.after)
    looked-Sourced j x h = known j x (
        find-looked_up r.looked_up_at r.key j x (recent s.cache) w.linked.keys_distinct
          (rw (sym g.recency) h))

    serve-hit : (v : V) → current r.looked_up_at r.key (recent s.cache) ≡ some v → Served Known r s
    unfolding read_through
    serve-hit v hit =
        let f = current-found r.looked_up_at r.key v (recent s.cache) hit in
        let k = known r.key (v, f.0) f.1 in
        record {
          answer = returned (some v);
          after = record s { cache = g.after };
          result = rw (read_through, g.result, hit) refl;
          well_formed = g.well_formed;
          inner_eq = refl;
          ttl_eq = g.ttl_eq;
          fresh = inr (k.0, v, k.1, k.2, refl, k.3, rw (sym k.4) f.2);
          sourced = λ _. looked-Sourced;
        }

    serve-thrown :
        (message : String)
        → current r.looked_up_at r.key (recent s.cache) ≡ none
        → s.inner r.asked_at r.key ≡ thrown message
        → Served Known r s
    unfolding read_through
    serve-thrown message miss e = record {
      answer = thrown message;
      after = record s { cache = g.after };
      result = rw (read_through, g.result, miss, fetch, e) refl;
      well_formed = g.well_formed;
      inner_eq = refl;
      ttl_eq = g.ttl_eq;
      fresh = inl (sym e);
      sourced = λ _. looked-Sourced;
    }

    serve-absent :
        current r.looked_up_at r.key (recent s.cache) ≡ none
        → s.inner r.asked_at r.key ≡ returned none
        → Served Known r s
    unfolding read_through
    serve-absent miss e = record {
      answer = returned none;
      after = record s { cache = g.after };
      result = rw (read_through, g.result, miss, fetch, e) refl;
      well_formed = g.well_formed;
      inner_eq = refl;
      ttl_eq = g.ttl_eq;
      fresh = inl (sym e);
      sourced = λ _. looked-Sourced;
    }

    kept-Sourced :
        (v : V) (p : Stored r.cached_at r.key v g.after)
        → s.inner r.asked_at r.key ≡ returned (some v)
        → Known r
        → Sourced s.inner s.cache.ttl Known (recent p.after)
    kept-Sourced v p e k j x h =
        elim (find-written g.after.capacity g.after.ttl r.cached_at r.key j v x (recent g.after)
          (rw (sym p.recency) h)) [
            | inl (ej, ex) ↦ (
              r,
              k,
              ej,
              ap (s.inner r.asked_at) (sym ej) ∙ e ∙ rw ex refl,
              rw (ex, g.ttl_eq) refl,
            )
            | inr old ↦ looked-Sourced j x old
          ]

    serve-kept :
        (v : V)
        → current r.looked_up_at r.key (recent s.cache) ≡ none
        → s.inner r.asked_at r.key ≡ returned (some v)
        → Served Known r s
    unfolding read_through
    serve-kept v miss e =
        let p : Stored r.cached_at r.key v g.after =
          put-refines r.cached_at r.key v g.after g.well_formed in
        record {
          answer = returned (some v);
          after = record s { cache = p.after };
          result = rw (read_through, g.result, miss, fetch, e, keep, p.result) refl;
          well_formed = p.well_formed;
          inner_eq = refl;
          ttl_eq = p.ttl_eq ∙ g.ttl_eq;
          fresh = inl (sym e);
          sourced = kept-Sourced v p e;
        }

    serve-fetch : current r.looked_up_at r.key (recent s.cache) ≡ none → Served Known r s
    serve-fetch miss = elim (Attempt-cases (s.inner r.asked_at r.key)) [
      | inl (message, e) ↦ serve-thrown message miss e
      | inr (o, e) ↦ elim (Option-cases o) [
        | inl none_eq ↦ serve-absent miss (e ∙ ap returned none_eq)
        | inr (v, some_eq) ↦ serve-kept v miss (e ∙ ap returned some_eq)
      ]
    ]

    pub serve-any : Served Known r s
    serve-any = elim (Option-cases (current r.looked_up_at r.key (recent s.cache))) [
      | inl miss ↦ serve-fetch miss
      | inr (v, hit) ↦ serve-hit v hit
    ]
