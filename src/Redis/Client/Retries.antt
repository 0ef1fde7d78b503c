-- ===== src/Redis/Client/Retries.antt =====
-- The retry loop of RedisClient: which attempt it ends with, and how long it sleeps.
use shooting_star.Base.{
  ℕ, zero, suc, ◌+◌, ◌-◌, ◌*◌, ◌≤◌, ◌<◌, true, ◌≡◌, ◌⊎◌, inl, inr, refl, sym, ◌∙◌, Bool-cases,
  arith, subst, ltb, ◌==◌, ==_iff,
}
use shooting_star.Base.Int.{pos_part, is_positive}
use native.Mathlib.Nat.{suc-mul}
use shooting_star.Redis.Client.{
  RetryConfig, RedisStatus, RedisException, Tried, concluded, raised, Result, goes_on, pause,
  status_from_exception, attempts_from, with_retries, no_status,
}
use shooting_star.Redis.Client.Exceptions.{
  IsTransient, goes_on-IsTransient, reports, status_from_exception-reports,
}

module _ {A : Type 0} where
  Tried-cases :
      (t : Tried A)
      → ((s : RedisStatus) × (v : A) × (t ≡ concluded s v))
        ⊎ ((e : RedisException) × (t ≡ raised e))
  Tried-cases (concluded s v) = inl (s, v, refl)
  Tried-cases (raised e) = inr (e, refl)

times_step : (k first d : ℕ) → first < k → (k - first) * d ≡ (k - suc first) * d + d
times_step k first d h =
    let e : k - first ≡ suc (k - suc first) = omega arith in rw e (suc-mul (k - suc first) d)

module _ {A : Type 0} (retry : RetryConfig) (body : ℕ → Tried A) (value : A) where
  -- Attempt `k` raised a timeout, a closed connection or an I/O error.
  abbrev pub HasFailed : ℕ → Type 0
  HasFailed k = (e : RedisException) × (body k ≡ raised e) × IsTransient e

  -- The result is that of attempt `k`; if that one raised, the loop had no further attempt, or the
  -- exception is none of those three.
  abbrev IsFrom : ℕ → ℕ → Result A → Type 0
  IsFrom last k r =
      ((s : RedisStatus) × (v : A) × (body k ≡ concluded s v) × (r.status ≡ s) × (r.value ≡ v))
      ⊎ ((e : RedisException) × (body k ≡ raised e)
          × (r.status ≡ reports e k)
          × (r.value ≡ value)
          × (IsTransient e → k ≡ last))

  pub record Ended (first last base : ℕ) (r : Result A) : Type 0 where
    pub final : ℕ
    pub lower : first ≤ final
    pub upper : final ≤ last
    pub before : (i : ℕ) → first ≤ i → i < final → HasFailed i
    pub from : IsFrom last final r
    pub rest : r.slept ≤ base + (final - first) * pos_part retry.delay

  pause_le : (e : RedisException) (k : ℕ) → pause retry e k ≤ pos_part retry.delay
  pause_le e k = ground arith

  at_once :
      (first last base : ℕ) (r : Result A)
      → first ≤ last
      → IsFrom last first r
      → r.slept ≡ base
      → Ended first last base r
  at_once first last base r h f e = record {
    final = first;
    lower = omega arith;
    upper = h;
    before = λ i le lt. absurd (omega (arith, le, lt));
    from = f;
    rest = omega (arith, e);
  }

  later :
      (first last base : ℕ) (e : RedisException) (r : Result A)
      → body first ≡ raised e
      → goes_on e ≡ true
      → Ended (suc first) last (base + pause retry e first) r
      → Ended first last base r
  later first last base e r h g n = record {
    final = n.final;
    lower = omega (arith, n.lower);
    upper = n.upper;
    before = λ i le lt. elim (Bool-cases (i == first)) [
      | inl same ↦ rw ((==_iff i first).0 same) (e, h, (goes_on-IsTransient e).0 g)
      | inr other ↦ n.before i (ground (arith, le, other)) lt
    ];
    from = n.from;
    rest = omega (
      arith,
      n.rest,
      n.lower,
      pause_le e first,
      times_step n.final first (pos_part retry.delay) (omega (arith, n.lower)),
    );
  }

  no_pause : (e : RedisException) (k : ℕ) → pos_part retry.max_attempts ≡ k → pause retry e k ≡ 0
  no_pause e k m = ground (arith, m)

  module _ (left first base : ℕ) (last : RedisStatus) where
    abbrev looped : Result A
    looped = attempts_from retry body value (suc left) first last base

    gives_up :
        (e : RedisException)
        → body first ≡ raised e
        → goes_on e ≡ true
        → left ≡ 0
        → pos_part retry.max_attempts ≡ first + left
        → Ended first (first + left) base looped
    unfolding attempts_from
    gives_up e h g z m =
        at_once first (first + left) base looped (omega arith)
          (inr (
            e,
            h,
            rw (attempts_from, h, g, z, attempts_from) (status_from_exception-reports e first),
            rw (attempts_from, h, g, z, attempts_from) refl,
            λ t. omega (arith, z),
          ))
          (rw (attempts_from, h, g, z, attempts_from, no_pause e first (m ∙ omega (arith, z)))
            (omega arith))

    settled :
        ((e : RedisException)
          → body first ≡ raised e
          → goes_on e ≡ true
          → Ended first (first + left) base looped)
        → Ended first (first + left) base looped
    unfolding attempts_from
    settled again = elim (Tried-cases (body first)) [
      | inl (s, v, h) ↦
          at_once first (first + left) base looped (omega arith)
            (inl (s, v, h, rw (attempts_from, h) refl, rw (attempts_from, h) refl))
            (rw (attempts_from, h) refl)
      | inr (e, h) ↦ elim (Bool-cases (goes_on e)) [
        | inl g ↦ again e h g
        | inr g ↦
            at_once first (first + left) base looped (omega arith)
              (inr (
                e,
                h,
                rw (attempts_from, h, g) (status_from_exception-reports e first),
                rw (attempts_from, h, g) refl,
                λ t. absurd (ground (arith, (goes_on-IsTransient e).1 t, g)),
              ))
              (rw (attempts_from, h, g) refl)
      ]
    ]

  goes_round :
      (left first base : ℕ) (last : RedisStatus) (e : RedisException)
      → body first ≡ raised e
      → goes_on e ≡ true
      → attempts_from retry body value (suc left) first last base
        ≡ attempts_from retry body value left
            (suc first)
            (status_from_exception e first)
            (base + pause retry e first)
  unfolding attempts_from
  goes_round left first base last e h g = rw (attempts_from, h, g) refl

  attempts_from-Ended :
      (left first base : ℕ) (last : RedisStatus)
      → pos_part retry.max_attempts ≡ first + left
      → Ended first (first + left) base (attempts_from retry body value (suc left) first last base)
  unfolding attempts_from
  attempts_from-Ended zero first base last m =
      settled zero first base last (λ e h g. gives_up zero first base last e h g refl m)
  attempts_from-Ended (suc left) first base last m = settled (suc left) first base last (λ e h g.
      let n =
        attempts_from-Ended left (suc first) (base + pause retry e first)
          (status_from_exception e first) (omega (arith, m)) in
      later first (first + suc left) base e
        (attempts_from retry body value (suc (suc left)) first last base) h g
        (subst
          (λ k.
            Ended (suc first) k (base + pause retry e first)
              (attempts_from retry body value (suc (suc left)) first last base))
          (omega arith)
          (subst (Ended (suc first) (suc first + left) (base + pause retry e first))
            (sym (goes_round (suc left) first base last e h g)) n)))

  whole_loop :
      (count : ℕ)
      → pos_part retry.max_attempts ≡ count
      → 0 < count
      → Ended 1 count 0 (attempts_from retry body value count 1 no_status 0)
  whole_loop zero m h = absurd (omega (arith, h))
  whole_loop (suc count) m h =
      let e : 1 + count ≡ suc count = omega arith in
      subst (λ k. Ended 1 k 0 (attempts_from retry body value (suc count) 1 no_status 0)) e
        (attempts_from-Ended count 1 0 no_status (omega (arith, m)))

  -- With at least one attempt allowed, the loop ends with one of the attempts allowed, and every
  -- attempt before it has raised a timeout, a closed connection or an I/O error. The result is what
  -- that attempt concluded with, or a status with the code and the message of what it raised; and an
  -- exception of those three ends the loop only at the last attempt. It has slept at most once before
  -- each further attempt.
  pub with_retries-Ended :
      is_positive retry.max_attempts ≡ true
      → Ended 1 (pos_part retry.max_attempts) 0 (with_retries retry body value)
  unfolding with_retries
  with_retries-Ended h = whole_loop (pos_part retry.max_attempts) refl (ground (arith, h))

  no_conflict : (k : ℕ) (s : RedisStatus) (v : A) → HasFailed k → body k ≡ concluded s v → ⊥
  no_conflict k s v f c = ground (arith, f.1, c)

  too_early : (last k : ℕ) (r : Result A) → HasFailed k → IsFrom last k r → k ≡ last
  too_early last k r f from = elim from [
    | inl (s, v, c, es, ev) ↦ absurd (no_conflict k s v f c)
    | inr (e, c, es, ev, g) ↦ g (subst IsTransient (ground (arith, f.1, c)) f.2)
  ]

  final_eq :
      (k last base : ℕ) (s : RedisStatus) (v : A) (r : Result A) (n : Ended 1 last base r)
      → 1 ≤ k
      → k ≤ last
      → ((i : ℕ) → 1 ≤ i → i < k → HasFailed i)
      → body k ≡ concluded s v
      → n.final ≡ k
  final_eq k last base s v r n low high failing h = elim (Bool-cases (ltb n.final k)) [
    | inl early ↦
        let lt : n.final < k = ground (arith, early) in
        absurd
          (omega (arith, lt, high, too_early last n.final r (failing n.final n.lower lt) n.from))
    | inr late ↦ elim (Bool-cases (ltb k n.final)) [
      | inl l ↦ absurd (no_conflict k s v (n.before k low (ground (arith, l))) h)
      | inr l ↦ ground (arith, late, l)
    ]
  ]

  from-concluded :
      (last k : ℕ) (s : RedisStatus) (v : A) (r : Result A)
      → IsFrom last k r
      → body k ≡ concluded s v
      → (r.status ≡ s) × (r.value ≡ v)
  from-concluded last k s v r from h = elim from [
    | inl (s', v', c, es, ev) ↦ ground (arith, c, h, es, ev)
    | inr (e, c, es, ev, g) ↦ absurd (ground (arith, c, h))
  ]

  -- If an attempt concludes and those before it have failed so that the loop goes on, the result is
  -- that attempt's.
  pub with_retries-reaches :
      (k : ℕ) (s : RedisStatus) (v : A)
      → 1 ≤ k
      → k ≤ pos_part retry.max_attempts
      → ((i : ℕ) → 1 ≤ i → i < k → HasFailed i)
      → body k ≡ concluded s v
      → ((with_retries retry body value).status ≡ s) × ((with_retries retry body value).value ≡ v)
  with_retries-reaches k s v low high failing h =
      let max = pos_part retry.max_attempts in
      let n : Ended 1 max 0 (with_retries retry body value) =
        with_retries-Ended (ground (arith, low, high)) in
      from-concluded max k s v (with_retries retry body value)
        (subst (λ j. IsFrom max j (with_retries retry body value))
          (final_eq k max 0 s v (with_retries retry body value) n low high failing h) n.from)
        h
