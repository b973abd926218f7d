-- ===== src/Config/Retries.antt =====
-- When the connection to the database of packages/backend/internal/config/database.go is made, and how long
-- it is waited for.
use kkite.Prelude.{
  ℕ, zero, suc, ◌+◌, ◌*◌, ◌≤◌, ◌<◌, String, ◌≡◌, refl, sym, ap, ◌∙◌, subst, ◌⊎◌, inl, inr, arith,
}
use kkite.Store.{Result, ok, err}
use kkite.Config.{ℤ}
use kkite.Config.Database.{
  Driver, attempt, connect_from, connect_with_retries, rounds, not_connected,
}

module _ (d : Driver) (dsn : String) (delay : ℕ) where
  -- The world when the round with this number, from 0 on, begins: every round before it has failed and
  -- slept, the delay times its number from 1 on.
  unfoldable pub begin : ℕ → d.World → d.World
  begin zero w = w
  begin (suc i) w = d.sleep (delay * suc i) (attempt d dsn (begin i w)).1

  abbrev pub Connects : ℕ → d.World → d.Db → Type 0
  Connects i w db = (attempt d dsn (begin i w)).0 ≡ ok db

  abbrev pub FailsAt : d.World → ℕ → Type 0
  FailsAt w i = (e : String) × ((attempt d dsn (begin i w)).0 ≡ err e)

  -- The first of the rounds that connects, if one does.
  abbrev pub RetryAnswer : ℕ → String → d.World → Result d.Db × d.World → Type 0
  RetryAnswer n failure w (r, w') =
      ((i : ℕ) × (i < n)
        × ((j : ℕ) → j < i → FailsAt w j)
        × (db : d.Db) × Connects i w db
        × (r ≡ ok db)
        × (w' ≡ (attempt d dsn (begin i w)).1))
      ⊎ (((j : ℕ) → j < n → FailsAt w j) × (r ≡ err failure) × (w' ≡ begin n w))

  one_more :
      (w : d.World) (i : ℕ)
      → ((j : ℕ) → j < i → FailsAt w j)
      → FailsAt w i
      → (j : ℕ) → j < suc i
      → FailsAt w j
  one_more w i before now j below = elim (split_below j i below) [
    | inl less ↦ before j less
    | inr same ↦ subst (FailsAt w) (sym same) now
  ]
    where
      split_below : (j i : ℕ) → j < suc i → (j < i) ⊎ (j ≡ i)
      split_below j i below = ground arith

  round_answer :
      (m i : ℕ) (failure : String) (w : d.World) (later : Result d.Db × d.World)
      → i < m
      → ((j : ℕ) → j < i → FailsAt w j)
      → (r : Result d.Db) → (attempt d dsn (begin i w)).0 ≡ r
      → (FailsAt w i → RetryAnswer m failure w later)
      → RetryAnswer m failure w
          (elim r [ ok db ↦ (ok db, (attempt d dsn (begin i w)).1) | err e ↦ later ])
  round_answer m i failure w later below before (ok db) connects more =
      inl (i, below, before, db, connects, refl, refl)
  round_answer m i failure w later below before (err e) fails more = more (e, fails)

  from_answer :
      (n i m : ℕ) (failure : String) (w : d.World)
      → i + n ≡ m
      → ((j : ℕ) → j < i → FailsAt w j)
      → RetryAnswer m failure w (connect_from d dsn delay i n failure (begin i w))
  unfolding connect_from begin
  from_answer zero i m failure w all before =
      inr ((λ j below. before j (omega arith)), refl, ap (λ k. begin k w) (omega arith))
  from_answer (suc n) i m failure w all before =
      round_answer m i failure w _ (omega arith) before _ refl
        (λ fails. from_answer n (suc i) m failure w (omega arith) (one_more w i before fails))

  pub connect_with_retries-RetryAnswer :
      (max_retries : ℤ) (w : d.World)
      → RetryAnswer
          (rounds max_retries)
          (not_connected max_retries)
          w
          (connect_with_retries d dsn max_retries delay w)
  unfolding connect_with_retries begin
  connect_with_retries-RetryAnswer max_retries w =
      from_answer (rounds max_retries) 0 (rounds max_retries) (not_connected max_retries) w
        (omega arith) (λ j below. absurd (omega arith))

  -- What the sleeps of the first rounds add up to.
  unfoldable pub total_delay : ℕ → ℕ
  total_delay zero = 0
  total_delay (suc i) = total_delay i + delay * suc i

  total_delay-closed : (i : ℕ) → 2 * total_delay i ≡ delay * (i * suc i)
  unfolding total_delay
  total_delay-closed zero = omega arith
  total_delay-closed (suc i) = omega (arith, total_delay-closed i)

  -- The wait.
  begin-late :
      ((duration : ℕ) (w : d.World) → d.now w + duration ≤ d.now (d.sleep duration w))
      → ((w : d.World) → d.now w ≤ d.now (attempt d dsn w).1)
      → (i : ℕ) (w : d.World) → d.now w + total_delay i ≤ d.now (begin i w)
  unfolding begin total_delay
  begin-late sleeps runs zero w = omega arith
  begin-late sleeps runs (suc i) w = omega (
    arith,
    begin-late sleeps runs i w,
    runs (begin i w),
    sleeps (delay * suc i) (attempt d dsn (begin i w)).1,
  )

  -- When a sleep lasts at least its duration and an attempt does not turn back the clock: if no connection is
  -- made, at least `delay * n * (n + 1) / 2` has passed, for `n` rounds; the last sleep is one of them.
  pub connect_with_retries_waits :
      ((duration : ℕ) (w : d.World) → d.now w + duration ≤ d.now (d.sleep duration w))
      → ((w : d.World) → d.now w ≤ d.now (attempt d dsn w).1)
      → (max_retries : ℤ) (w : d.World) (e : String)
      → (connect_with_retries d dsn max_retries delay w).0 ≡ err e
      → 2 * d.now w + delay * (rounds max_retries * suc (rounds max_retries))
        ≤ 2 * d.now (connect_with_retries d dsn max_retries delay w).1
  connect_with_retries_waits sleeps runs max_retries w e failed =
      elim (connect_with_retries-RetryAnswer max_retries w) [
        | inl (i, below, before, db, connects, is, at) ↦ absurd (apart db (sym is ∙ failed))
        | inr (fails, is, at) ↦ waited (ap d.now at)
      ]
    where
      apart : (db : d.Db) → ok db ≡ err e → ⊥
      apart db same = cc

      waited :
          d.now (connect_with_retries d dsn max_retries delay w).1
            ≡ d.now (begin (rounds max_retries) w)
          → 2 * d.now w + delay * (rounds max_retries * suc (rounds max_retries))
            ≤ 2 * d.now (connect_with_retries d dsn max_retries delay w).1
      waited at = omega (
        arith,
        at,
        begin-late sleeps runs (rounds max_retries) w,
        total_delay-closed (rounds max_retries),
      )
