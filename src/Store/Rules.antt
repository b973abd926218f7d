-- ===== src/Store/Rules.antt =====
-- Rules for what actions over a database ensure: one for each way of combining them.
use kkite.Prelude.{String, ◌≡◌, refl, sym, subst, ◌∙◌}
use kkite.Store.Defs.{Tables, Result, ok, err, Action, pure, fail, wrap, relabel, ◌>>=◌}
use kkite.Store.Gorm.{clock, Gorm, GormLaws, Ensures}

-- Only where the action succeeds is something said of the tables.
abbrev pub OnSuccess : {A : Type 0} → (A → Tables → Type 0) → Result A → Tables → Type 0
OnSuccess P (ok a) u = P a u
OnSuccess P (err e) u = Unit

module _ (g : Gorm) where
  bind_at :
      {A B : Type 0} (p : Result A × g.World) (w : g.World) (f : A → Action g.World B)
      (Q : Result A → Tables → Type 0) (R : Result B → Tables → Type 0)
      → ((a : A) (u : Tables) → Q (ok a) u → Ensures g (f a) u R)
      → ((e : String) (u : Tables) → Q (err e) u → R (err e) u)
      → Q p.0 (g.tables p.1)
      → R (((λ _. p) >>= f) w).0 (g.tables (((λ _. p) >>= f) w).1)
  bind_at (ok a, w') w f Q R next failed h = next a (g.tables w') h w' refl
  bind_at (err e, w') w f Q R next failed h = failed e (g.tables w') h

  pub bind_rule :
      {A B : Type 0} (m : Action g.World A) (f : A → Action g.World B) (t : Tables)
      (Q : Result A → Tables → Type 0) (R : Result B → Tables → Type 0)
      → Ensures g m t Q
      → ((a : A) (u : Tables) → Q (ok a) u → Ensures g (f a) u R)
      → ((e : String) (u : Tables) → Q (err e) u → R (err e) u)
      → Ensures g (m >>= f) t R
  bind_rule m f t Q R first next failed w e = bind_at (m w) w f Q R next failed (first w e)

  pub weaken :
      {A : Type 0} (m : Action g.World A) (t : Tables) (Q R : Result A → Tables → Type 0)
      → Ensures g m t Q
      → ((r : Result A) (u : Tables) → Q r u → R r u)
      → Ensures g m t R
  weaken m t Q R h step w e = step (m w).0 (g.tables (m w).1) (h w e)

  wrap_at :
      {A : Type 0} (prefix : String) (p : Result A × g.World) (Q R : Result A → Tables → Type 0)
      → ((a : A) (u : Tables) → Q (ok a) u → R (ok a) u)
      → ((e e' : String) (u : Tables) → Q (err e) u → R (err e') u)
      → Q p.0 (g.tables p.1)
      → R (relabel prefix p.0) (g.tables p.1)
  wrap_at prefix (ok a, w) Q R good bad h = good a (g.tables w) h
  wrap_at prefix (err e, w) Q R good bad h = bad e _ (g.tables w) h

  pub wrap_rule :
      {A : Type 0} (prefix : String) (m : Action g.World A) (t : Tables)
      (Q R : Result A → Tables → Type 0)
      → Ensures g m t Q
      → ((a : A) (u : Tables) → Q (ok a) u → R (ok a) u)
      → ((e e' : String) (u : Tables) → Q (err e) u → R (err e') u)
      → Ensures g (wrap prefix m) t R
  wrap_rule prefix m t Q R h good bad w e = wrap_at prefix (m w) Q R good bad (h w e)

  pub pure_rule :
      {A : Type 0} (a : A) (t : Tables) (Q : Result A → Tables → Type 0)
      → Q (ok a) t
      → Ensures g (pure a) t Q
  pure_rule a t Q h w e = subst (λ u. Q (ok a) u) (sym e) h

  pub fail_rule :
      {A : Type 0} (message : String) (t : Tables) (Q : Result A → Tables → Type 0)
      → Q (err message) t
      → Ensures g (fail message) t Q
  fail_rule message t Q h w e = subst (λ u. Q (err message) u) (sym e) h

  -- A wrapped statement and what follows, where only success matters.
  pub step_rule :
      {A B : Type 0} (prefix : String) (m : Action g.World A) (f : A → Action g.World B)
      (t : Tables) (Q : Result A → Tables → Type 0) (R : B → Tables → Type 0)
      → Ensures g m t Q
      → ((a : A) (u : Tables) → Q (ok a) u → Ensures g (f a) u (OnSuccess R))
      → Ensures g (wrap prefix m >>= f) t (OnSuccess R)
  step_rule {A} prefix m f t Q R h next =
      let S : Result A → Tables → Type 0 = OnSuccess (λ a u. Q (ok a) u) in
      bind_rule (wrap prefix m) f t S (OnSuccess R)
        (wrap_rule prefix m t Q S h (λ a u q. q) (λ e e' u q. tt)) next (λ e u q. tt)

  pub then_rule :
      {A B : Type 0} (m : Action g.World A) (f : A → Action g.World B) (t : Tables)
      (Q : A → Tables → Type 0) (R : B → Tables → Type 0)
      → Ensures g m t (OnSuccess Q)
      → ((a : A) (u : Tables) → Q a u → Ensures g (f a) u (OnSuccess R))
      → Ensures g (m >>= f) t (OnSuccess R)
  then_rule m f t Q R h next = bind_rule m f t (OnSuccess Q) (OnSuccess R) h next (λ e u q. tt)

  weaken_at :
      {A : Type 0} (Q R : A → Tables → Type 0)
      → ((a : A) (u : Tables) → Q a u → R a u)
      → (r : Result A) (u : Tables) → OnSuccess Q r u
      → OnSuccess R r u
  weaken_at Q R step (ok a) u h = step a u h
  weaken_at Q R step (err e) u h = tt

  pub weaken_success :
      {A : Type 0} (m : Action g.World A) (t : Tables) (Q R : A → Tables → Type 0)
      → Ensures g m t (OnSuccess Q)
      → ((a : A) (u : Tables) → Q a u → R a u)
      → Ensures g m t (OnSuccess R)
  weaken_success m t Q R h step = weaken m t (OnSuccess Q) (OnSuccess R) h (weaken_at Q R step)

  pub at_equal :
      {A : Type 0} (m : Action g.World A) {t u : Tables} (Q : Result A → Tables → Type 0)
      → u ≡ t
      → Ensures g m t Q
      → Ensures g m u Q
  at_equal m Q e h = subst (λ v. Ensures g m v Q) (sym e) h

  pub clock_rule :
      (laws : GormLaws g) (t : Tables) → Ensures g (clock g) t (OnSuccess (λ _ u. u ≡ t))
  unfolding clock
  clock_rule laws t w e = laws.now_law w ∙ e

  pub clock_keeps : (laws : GormLaws g) (t : Tables) → Ensures g (clock g) t (λ _ u. u ≡ t)
  unfolding clock
  clock_keeps laws t w e = laws.now_law w ∙ e
