-- ===== src/Cache/Writes.antt =====
-- What a read of packages/backend/internal/pkg/cache/cache.go finds after a sequence of writes, against
-- the sequence itself.
use kkite.Prelude.{
  ℕ, ◌+◌, ◌≤◌, ◌<◌, String, ◌==◌, ◌≡◌, refl, sym, ap, ◌∙◌, inl, inr, Option, none, some, List, [],
  ◌∷◌, subst, eq_false, true, false, if◌then◌else◌, eq_refl, arith, ltb, String-cases, Bool-cases,
  some_injective, ◌↔◌, ◌⊎◌, ◌≢◌,
}
use Prim.Native.Nat.{◌/◌}
use mathlib.Core.Option.{none-ne-some}
use kkite.Cache.{Cache, CacheEntry, empty_cache, unix, value_at, set, get}

-- SHA-256 is used as if no two keys had the same hash.
abbrev pub IsCollisionFree : (String → String) → Type 0
IsCollisionFree hash = (s t : String) → hash s ≡ hash t → s ≡ t

abbrev pub hash-eq :
    (hash : String → String) → IsCollisionFree hash → (s t : String) → (hash s == hash t) ≡ (s == t)
hash-eq hash free s t = elim (String-cases s t) [
  | inl same ↦ subst (λ u. (hash s == hash u) ≡ (s == u)) same (eq_refl (hash s) ∙ sym (eq_refl s))
  | inr apart ↦ eq_false (hash s) (hash t) (λ e. apart (free s t e)) ∙ sym (eq_false s t apart)
]

pub record Write (V : Type 0) : Type 0 where
  pub key : String
  pub value : V
  pub duration : ℕ
  pub at : ℕ

module _ (hash : String → String) {V : Type 0} where
  -- The cache after the writes, the last one first.
  unfoldable pub after : List (Write V) → Cache V
  after [] = empty_cache
  after (w ∷ ws) = set hash w.key w.value w.duration w.at (after ws)

-- The last write under a key, with the second after which it is no longer read.
unfoldable pub last_write : {V : Type 0} → List (Write V) → String → Option (CacheEntry V)
last_write [] key = none
last_write (w ∷ ws) key =
    let earlier = last_write ws key in
    if key == w.key
    then some (record { value = w.value; expiration = unix (w.at + w.duration) })
    else earlier

-- A cache holds under the hash of a key what was written last under that key.
after-last_write :
    {V : Type 0} (hash : String → String)
    → IsCollisionFree hash
    → (ws : List (Write V)) (key : String) → after hash ws (hash key) ≡ last_write ws key
unfolding after last_write set
after-last_write hash free [] key = refl
after-last_write hash free (w ∷ ws) key =
    rw (hash-eq hash free key w.key, after-last_write hash free ws key)

-- The last of the writes under the key; the list has the last write first.
abbrev pub IsLast : {V : Type 0} → String → List (Write V) → Write V → Type 0
IsLast key [] w = ⊥
IsLast key (x ∷ xs) w = ((x.key ≡ key) × (x ≡ w)) ⊎ ((x.key ≢ key) × IsLast key xs w)

-- The value is that of the last write under the key, in a second no later than that to which the lifetime of
-- the write extends. Times are in nanoseconds.
abbrev pub IsReadable : {V : Type 0} → List (Write V) → String → ℕ → V → Type 0
IsReadable {V} ws key now v =
    (w : Write V) × IsLast key ws w
    × (w.value ≡ v)
    × (now / 1000000000 ≤ (w.at + w.duration) / 1000000000)

readable :
    {V : Type 0} (now second : ℕ) (value v : V)
    → (value_at now (some (record { value = value; expiration = second })) ≡ some v)
      ↔ ((value ≡ v) × (unix now ≤ second))
readable now second value v = elim (Bool-cases (ltb second (unix now))) [
  | inl past ↦ (λ e. absurd (none-ne-some v (rw past at e)), λ (same, early). absurd (ground arith))
  | inr live ↦
      (λ e. (some_injective (rw live at e), ground arith), λ (same, early). rw live (ap some same))
]

last_write-same :
    {V : Type 0} (w : Write V) (ws : List (Write V)) (key : String)
    → key ≡ w.key
    → last_write (w ∷ ws) key
      ≡ some (record { value = w.value; expiration = unix (w.at + w.duration) })
unfolding last_write
last_write-same w ws key same = rw (same, eq_refl w.key)

last_write-apart :
    {V : Type 0} (w : Write V) (ws : List (Write V)) (key : String)
    → key ≢ w.key
    → last_write (w ∷ ws) key ≡ last_write ws key
unfolding last_write
last_write-apart w ws key apart = rw (eq_false key w.key apart)

last_write-IsReadable :
    {V : Type 0} (ws : List (Write V)) (key : String) (now : ℕ) (v : V)
    → value_at now (last_write ws key) ≡ some v
    → IsReadable ws key now v
unfolding last_write
last_write-IsReadable [] key now v e = absurd (ground arith)
last_write-IsReadable (w ∷ ws) key now v e = elim (String-cases key w.key) [
  | inl same ↦
      let (value, live) =
        (readable now (unix (w.at + w.duration)) w.value v).0
          (ap (value_at now) (sym (last_write-same w ws key same)) ∙ e) in
      (w, inl (sym same, refl), value, live)
  | inr apart ↦
      let (x, last, value, live) =
        last_write-IsReadable ws key now v
          (ap (value_at now) (sym (last_write-apart w ws key apart)) ∙ e) in
      (x, inr ((λ e. apart (sym e)), last), value, live)
]

IsReadable-last_write :
    {V : Type 0} (ws : List (Write V)) (key : String) (now : ℕ) (v : V) (w : Write V)
    → IsLast key ws w
    → w.value ≡ v
    → now / 1000000000 ≤ (w.at + w.duration) / 1000000000
    → value_at now (last_write ws key) ≡ some v
unfolding last_write
IsReadable-last_write [] key now v w none_of value live = absurd none_of
IsReadable-last_write (x ∷ xs) key now v w (inl (same, is)) value live =
    ap (value_at now) (last_write-same x xs key (sym same))
    ∙ (readable now (unix (x.at + x.duration)) x.value v).1
        (subst (λ y. (y.value ≡ v) × (unix now ≤ unix (y.at + y.duration))) (sym is) (value, live))
IsReadable-last_write (x ∷ xs) key now v w (inr (apart, further)) value live =
    ap (value_at now) (last_write-apart x xs key (λ e. apart (sym e)))
    ∙ IsReadable-last_write xs key now v w further value live

-- When no two keys have the same hash, a read after any sequence of writes finds a value just where it is that of
-- the last write under its own key, and the clock is not past the second to which the lifetime of that write extends.
pub get-after :
    {V : Type 0} (hash : String → String)
    → IsCollisionFree hash
    → (ws : List (Write V)) (key : String) (now : ℕ) (v : V)
    → (get hash key now (after hash ws) ≡ some v) ↔ IsReadable ws key now v
unfolding get
get-after hash free ws key now v = (
  λ e.
      last_write-IsReadable ws key now v
        (ap (value_at now) (sym (after-last_write hash free ws key)) ∙ e),
  λ (w, last, value, live).
      ap (value_at now) (after-last_write hash free ws key)
      ∙ IsReadable-last_write ws key now v w last value live,
)

-- Whole seconds of two times, in their order, and a second or more apart.
unix_mono : (s t : ℕ) → s ≤ t → unix s ≤ unix t
unix_mono s t h = omega arith

unix-lt : (s t : ℕ) → s + 1000000000 ≤ t → unix s < unix t
unix-lt s t h = omega arith

leb_not_ltb : (s t : ℕ) → t ≤ s → ltb s t ≡ false
leb_not_ltb s t h = ground arith

lt_ltb : (s t : ℕ) → s < t → ltb s t ≡ true
lt_ltb s t h = ground arith

-- A value written for a duration is read at every time until that duration is over, and at no time that
-- is a second or more past it.
pub get-set :
    {V : Type 0} (hash : String → String) (key : String) (value : V) (duration written now : ℕ)
    (items : Cache V)
    → (now ≤ written + duration
        → get hash key now (set hash key value duration written items) ≡ some value)
      × (written + duration + 1000000000 ≤ now
          → get hash key now (set hash key value duration written items) ≡ none)
unfolding get set
get-set hash key value duration written now items = (
  λ early. rw (
    eq_refl (hash key),
    leb_not_ltb (unix (written + duration)) (unix now) (unix_mono now (written + duration) early),
  ),
  λ late. rw (
    eq_refl (hash key),
    lt_ltb (unix (written + duration)) (unix now) (unix-lt (written + duration) now late),
  ),
)
