-- ===== src/Cache/Lru/Refinement.antt =====
-- The operations of LruCache do what the list of recent keys says, and keep the cache well-formed.
use shooting_star.Base.{
  ℕ, suc, ◌+◌, ◌≤◌, true, false, none, some, List, ◌∷◌, length, leb, ◌||◌, ◌==◌, ◌≡◌, refl, sym, ap,
  take, length-take, arith, Bool-cases, Option-cases, inl, inr, ◌∙◌, take_of_length-le, subst,
}
use shooting_star.Base.Int.{pos, leb_ℤ, pos_part}
use shooting_star.Cache.Keyed.{
  Key, nat_key, find, erase, assign, find-none_of_erase, length-erase_found, erase_of_find-none,
}
use shooting_star.Cache.Lru.{Entry, LruCache, get, put, evict, get_entry, refresh, push_front}
use shooting_star.Cache.Lru.Recency.{contents, recent, current, looked_up, written}
use shooting_star.Cache.Lru.Nodes.{locate-none, Target, target}
use shooting_star.Cache.Lru.Eviction.{
  evict-Linked, find-evict-none, contents-evict, length-contents,
}
use shooting_star.Cache.Lru.Linking.{WellFormed, front-Linked, drop-Linked, push-Linked}

module _ {K V : Type 0} ⦃q : Key K⦄ where
  pub record Looked (now : ℕ) (key : K) (c : LruCache K V) : Type 0 where
    pub after : LruCache K V
    pub result : get now key c ≡ some (current now key (recent c), after)
    pub recency : recent after ≡ looked_up now key (recent c)
    pub well_formed : WellFormed after
    pub capacity_eq : after.capacity ≡ c.capacity
    pub ttl_eq : after.ttl ≡ c.ttl

  get-missing :
      (now : ℕ) (key : K) (c : LruCache K V)
      → WellFormed c
      → find key c.index ≡ none
      → Looked now key c
  unfolding get
  get-missing now key c w e =
      let absent : find key (recent c) ≡ none =
        locate-none key c.entries (sym (w.linked.agrees key) ∙ e) in
      record {
        after = c;
        result = rw (e, absent, get, current) refl;
        recency = rw (absent, looked_up) refl;
        well_formed = w;
        capacity_eq = refl;
        ttl_eq = refl;
      }

  get-expired :
      (now : ℕ) (key : K) (it : ℕ) (c : LruCache K V)
      → WellFormed c
      → find key c.index ≡ some it
      → (t : Target key it c.entries) → leb t.entry.expires_at now ≡ true
      → Looked now key c
  unfolding get
  get-expired now key it c w e t late = record {
    after = record c { entries = erase it c.entries; index = erase key c.index };
    result = rw (e, t.found, t.content, late, get, current, get_entry) refl;
    recency = rw (t.content, late, t.rest, looked_up) refl;
    well_formed = record {
      linked = drop-Linked key it c.entries c.index w.linked (sym (w.linked.agrees key) ∙ e);
      unused = λ a h. find-none_of_erase a it c.entries (w.unused a h);
      within = omega (arith, length-erase_found it t.entry c.entries t.found, w.within);
    };
    capacity_eq = refl;
    ttl_eq = refl;
  }

  -- No address from `next_address` on is in use after a node has moved to the front.
  front-unused :
      (it : ℕ) (old e : Entry K V) (c : LruCache K V)
      → WellFormed c
      → find it c.entries ≡ some old
      → (a : ℕ) → c.next_address ≤ a
      → find a ((it, e) ∷ erase it c.entries) ≡ none
  front-unused it old e c w h a le =
      ground (arith, w.unused a le, find-none_of_erase a it c.entries, nat_key.same_iff a it)

  get-kept :
      (now : ℕ) (key : K) (it : ℕ) (c : LruCache K V)
      → WellFormed c
      → find key c.index ≡ some it
      → (t : Target key it c.entries) → leb t.entry.expires_at now ≡ false
      → Looked now key c
  unfolding get
  get-kept now key it c w e t early = record {
    after = record c { entries = (it, t.entry) ∷ erase it c.entries };
    result = rw (e, t.found, t.content, early, get, current, get_entry) refl;
    recency = rw (t.content, early, t.rest, t.key_eq, looked_up) refl;
    well_formed = record {
      linked =
          front-Linked key it t.entry c.entries c.index w.linked (sym (w.linked.agrees key) ∙ e)
            t.key_eq;
      unused = front-unused it t.entry t.entry c w t.found;
      within = omega (arith, length-erase_found it t.entry c.entries t.found, w.within);
    };
    capacity_eq = refl;
    ttl_eq = refl;
  }

  -- A look-up in a well-formed cache follows no dangling iterator, answers as the list of recent keys
  -- does, leaves what that list says, and keeps the cache well-formed.
  pub get-refines : (now : ℕ) (key : K) (c : LruCache K V) → WellFormed c → Looked now key c
  get-refines now key c w = elim (Option-cases (find key c.index)) [
    | inl e ↦ get-missing now key c w e
    | inr (it, e) ↦
        let t : Target key it c.entries =
          target key it c.entries w.linked.addresses_distinct (sym (w.linked.agrees key) ∙ e) in
        elim (Bool-cases (leb t.entry.expires_at now)) [
          | inl late ↦ get-expired now key it c w e t late
          | inr early ↦ get-kept now key it c w e t early
        ]
  ]

  pub record Stored (now : ℕ) (key : K) (value : V) (c : LruCache K V) : Type 0 where
    pub after : LruCache K V
    pub result : put now key value c ≡ some after
    pub recency : recent after ≡ written c.capacity c.ttl now key value (recent c)
    pub well_formed : WellFormed after
    pub capacity_eq : after.capacity ≡ c.capacity
    pub ttl_eq : after.ttl ≡ c.ttl

  put-disabled :
      (now : ℕ) (key : K) (value : V) (c : LruCache K V)
      → WellFormed c
      → (c.capacity == 0 || leb_ℤ c.ttl (pos 0)) ≡ true
      → Stored now key value c
  unfolding put
  put-disabled now key value c w off = record {
    after = c;
    result = rw (off, put) refl;
    recency = rw (off, written) refl;
    well_formed = w;
    capacity_eq = refl;
    ttl_eq = refl;
  }

  put-known :
      (now : ℕ) (key : K) (value : V) (it : ℕ) (c : LruCache K V)
      → WellFormed c
      → (c.capacity == 0 || leb_ℤ c.ttl (pos 0)) ≡ false
      → find key c.index ≡ some it
      → Stored now key value c
  unfolding put
  put-known now key value it c w on e =
      let t : Target key it c.entries =
        target key it c.entries w.linked.addresses_distinct (sym (w.linked.agrees key) ∙ e) in
      let entry : Entry K V = record {
        key = t.entry.key;
        value = value;
        expires_at = now + pos_part c.ttl;
      } in
      let fits : suc (length (erase it c.entries)) ≤ c.capacity =
        omega (arith, length-erase_found it t.entry c.entries t.found, w.within) in
      record {
        after = refresh now value it t.entry c;
        result = rw (on, e, t.found, put) refl;
        recency =
            rw (on, written, t.key_eq, sym t.rest)
              (sym (
                take_of_length-le c.capacity
                  ((key, (value, now + pos_part c.ttl)) ∷ contents (erase it c.entries))
                  (omega (arith, length-contents (erase it c.entries), fits))));
        well_formed = record {
          linked =
              front-Linked key it entry c.entries c.index w.linked (sym (w.linked.agrees key) ∙ e)
                t.key_eq;
          unused = front-unused it t.entry entry c w t.found;
          within = fits;
        };
        capacity_eq = refl;
        ttl_eq = refl;
      }

  put-new :
      (now : ℕ) (key : K) (value : V) (c : LruCache K V)
      → WellFormed c
      → (c.capacity == 0 || leb_ℤ c.ttl (pos 0)) ≡ false
      → find key c.index ≡ none
      → Stored now key value c
  unfolding put
  put-new now key value c w on e =
      let absent : find key (recent c) ≡ none =
        locate-none key c.entries (sym (w.linked.agrees key) ∙ e) in
      let entry : Entry K V = record {
        key = key;
        value = value;
        expires_at = now + pos_part c.ttl;
      } in
      let nodes : List (ℕ × Entry K V) = (c.next_address, entry) ∷ c.entries in
      let index : List (K × ℕ) = assign key c.next_address c.index in
      let left : contents ((evict (length nodes) c.capacity nodes index).0)
          ≡ take c.capacity (contents nodes) =
        contents-evict (length nodes) c.capacity nodes index (omega arith) in
      record {
        after = push_front now key value c;
        result = rw (on, e, put) refl;
        recency = rw (on, written, erase_of_find-none key (recent c) absent) left;
        well_formed = record {
          linked = evict-Linked (length nodes) c.capacity nodes index (
              push-Linked c.next_address entry c.entries c.index w.linked e
                (w.unused c.next_address (omega arith)));
          unused = λ a h.
              find-evict-none a (length nodes) c.capacity nodes index
                (ground (arith, w.unused a, nat_key.same_iff a c.next_address, h));
          within = omega (
            arith,
            length-contents ((evict (length nodes) c.capacity nodes index).0),
            length-take c.capacity (contents nodes),
            ap length left,
          );
        };
        capacity_eq = refl;
        ttl_eq = refl;
      }

  -- A write into a well-formed cache follows no dangling iterator, leaves what the list of recent
  -- keys says, and keeps the cache well-formed.
  pub put-refines :
      (now : ℕ) (key : K) (value : V) (c : LruCache K V) → WellFormed c → Stored now key value c
  put-refines now key value c w = elim (Bool-cases (c.capacity == 0 || leb_ℤ c.ttl (pos 0))) [
    | inl off ↦ put-disabled now key value c w off
    | inr on ↦ elim (Option-cases (find key c.index)) [
      | inl e ↦ put-new now key value c w on e
      | inr (it, e) ↦ put-known now key value it c w on e
    ]
  ]

  pub put-WellFormed :
      (now : ℕ) (key : K) (value : V) (c after : LruCache K V)
      → WellFormed c
      → put now key value c ≡ some after
      → WellFormed after
  put-WellFormed now key value c after w h =
      let p : Stored now key value c = put-refines now key value c w in
      subst WellFormed (ground (arith, p.result, h)) p.well_formed
