-- ===== src/Cache/Stores/Histories.antt =====
-- Sequences of requests to a caching store.
use shooting_star.Base.{
  ℕ, suc, Option, some, List, [], ◌∷◌, Attempt, ◌≡◌, refl, ◌∙◌, All, get_elem?, arith, subst,
}
use shooting_star.Base.Int.{ℤ}
use shooting_star.Cache.Keyed.{Key}
use shooting_star.Cache.Lru.{LruCache}
use shooting_star.Cache.Lru as Lru
use shooting_star.Cache.Lru.Recency.{recent}
use shooting_star.Cache.Lru.Linking.{WellFormed, construct-WellFormed}
use shooting_star.Cache.Lru.Refinement.{get-refines}
use shooting_star.Cache.Stores.{Request, CachingStore, read_through, serve}
use shooting_star.Cache.Stores.Freshness.{Sourced, IsFresh, Served, serve-any}

module _ {A : Type 0} where
  abbrev pub Among : List A → A → Type 0
  Among l a = (i : ℕ) × (get_elem? l i ≡ some a)

  pub All-Among : (P : A → Type 0) (l : List A) → ((a : A) → Among l a → P a) → All P l
  All-Among P [] h = tt
  All-Among P (a ∷ l) h = (h a (0, refl), All-Among P l (λ b m. h b (suc m.0, m.1)))

module _ {K V : Type 0} ⦃q : Key K⦄ where
  abbrev pub new_store : (ℕ → K → Attempt (Option V)) → ℕ → ℤ → CachingStore K V
  new_store inner capacity ttl = record { inner = inner; cache = Lru.construct capacity ttl }

  pub record Ready (inner : ℕ → K → Attempt (Option V)) (ttl : ℤ) (Known : Request K → Type 0)
      (s : CachingStore K V) : Type 0 where
    pub well_formed : WellFormed s.cache
    pub inner_eq : s.inner ≡ inner
    pub ttl_eq : s.cache.ttl ≡ ttl
    pub sourced : Sourced inner ttl Known (recent s.cache)

  pub new-Ready :
      (inner : ℕ → K → Attempt (Option V)) (capacity : ℕ) (ttl : ℤ) (Known : Request K → Type 0)
      → Ready inner ttl Known (new_store inner capacity ttl)
  new-Ready inner capacity ttl Known = record {
    well_formed = construct-WellFormed capacity ttl;
    inner_eq = refl;
    ttl_eq = refl;
    sourced = λ j x h. absurd (ground (arith, h));
  }

  pub record Answered (inner : ℕ → K → Attempt (Option V)) (ttl : ℤ) (Known : Request K → Type 0)
      (r : Request K) (s : CachingStore K V) : Type 0 where
    pub answer : Attempt (Option V)
    pub after : CachingStore K V
    pub result : read_through r s ≡ some (answer, after)
    pub fresh : IsFresh inner ttl Known r answer
    pub ready : Known r → Ready inner ttl Known after

  pub read_through-Answered :
      (inner : ℕ → K → Attempt (Option V)) (ttl : ℤ) (Known : Request K → Type 0) (r : Request K)
      (s : CachingStore K V)
      → Ready inner ttl Known s
      → Answered inner ttl Known r s
  read_through-Answered inner ttl Known r s y =
      let v : Served Known r s =
        serve-any Known r s (get-refines r.looked_up_at r.key s.cache y.well_formed) y.well_formed
          (rw (y.inner_eq, y.ttl_eq) y.sourced) in
      record {
        answer = v.answer;
        after = v.after;
        result = v.result;
        fresh =
            subst (λ f. IsFresh f ttl Known r v.answer) y.inner_eq
              (subst (λ t. IsFresh s.inner t Known r v.answer) y.ttl_eq v.fresh);
        ready = λ k. record {
          well_formed = v.well_formed;
          inner_eq = v.inner_eq ∙ y.inner_eq;
          ttl_eq = v.ttl_eq ∙ y.ttl_eq;
          sourced =
              subst (λ f. Sourced f ttl Known (recent v.after.cache)) y.inner_eq
                (subst (λ t. Sourced s.inner t Known (recent v.after.cache)) y.ttl_eq
                  (v.sourced k));
        };
      }

  pub record History (inner : ℕ → K → Attempt (Option V)) (ttl : ℤ) (Known : Request K → Type 0)
      (rs : List (Request K)) (s : CachingStore K V) : Type 0 where
    pub answers : List (Attempt (Option V))
    pub after : CachingStore K V
    pub result : serve rs s ≡ some (answers, after)
    pub ready : Ready inner ttl Known after

  pub serve-History :
      (inner : ℕ → K → Attempt (Option V)) (ttl : ℤ) (Known : Request K → Type 0)
      (rs : List (Request K)) (s : CachingStore K V)
      → All Known rs
      → Ready inner ttl Known s
      → History inner ttl Known rs s
  unfolding serve
  serve-History inner ttl Known [] s a y = record {
    answers = [];
    after = s;
    result = refl;
    ready = y;
  }
  serve-History inner ttl Known (r ∷ rs) s a y =
      let x : Answered inner ttl Known r s = read_through-Answered inner ttl Known r s y in
      let h : History inner ttl Known rs x.after =
        serve-History inner ttl Known rs x.after a.1 (x.ready a.0) in
      record {
        answers = x.answer ∷ h.answers;
        after = h.after;
        result = rw (serve, x.result, h.result) refl;
        ready = h.ready;
      }

  -- A new caching store answers every sequence of requests, and after it every request `r`: with what
  -- the inner store answers (or throws) then, or with a value that it gave to an earlier request for
  -- the same key, as long as the cache is looked up before the expiry time has passed since that
  -- value was cached. No call follows an iterator of a node that is gone.
  pub read_through-IsFresh :
      (inner : ℕ → K → Attempt (Option V)) (capacity : ℕ) (ttl : ℤ) (past : List (Request K))
      (r : Request K)
      → (answers : List (Attempt (Option V))) × (s : CachingStore K V) × (answer : Attempt
          (Option V))
        × (after : CachingStore K V) × (serve past (new_store inner capacity ttl)
            ≡ some (answers, s))
        × (read_through r s ≡ some (answer, after))
        × IsFresh inner ttl (Among past) r answer
  read_through-IsFresh inner capacity ttl past r =
      let h : History inner ttl (Among past) past (new_store inner capacity ttl) =
        serve-History inner ttl (Among past) past (new_store inner capacity ttl)
          (All-Among (Among past) past (λ a m. m)) (new-Ready inner capacity ttl (Among past)) in
      let x : Answered inner ttl (Among past) r h.after =
        read_through-Answered inner ttl (Among past) r h.after h.ready in
      (h.answers, h.after, x.answer, x.after, h.result, x.result, x.fresh)
