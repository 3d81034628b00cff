-- ===== src/Base/Preds.antt =====
-- Predicates that hold of every element, or of every pair of elements, with the
-- operations on lists.
use Prim.Native.Nat.{ℕ, zero, suc}
use mathlib.Core.Path.{◌≡◌, refl, ap}
use mathlib.Core.Logic.{inl, inr}
use mathlib.Core.Bool.{Bool, true, false}
use mathlib.Core.Option.{Option, none, some}
use mathlib.Core.List.{List, [], ◌∷◌, ◌++◌}
use native.Mathlib.Omega.{arith}
use smsgate.Base.Tests.{Bool-cases, ◌>>=◌, if◌then◌else◌}
use smsgate.Base.Lists.{get_elem?, set, retain, remove, replicate, take, drop, any}

abbrev pub All {ℓ κ} : {A : Type ℓ} → (A → Type κ) → List A → Type κ
All P [] = Unit
All P (x ∷ xs) = P x × All P xs

-- `R x y` for each `x` and each later `y`.
abbrev pub Pairs {ℓ κ} : {A : Type ℓ} → (A → A → Type κ) → List A → Type κ
Pairs R [] = Unit
Pairs R (x ∷ xs) = All (R x) xs × Pairs R xs

module _ {ℓ κ} {A : Type ℓ} (P : A → Type κ) where
  pub All-append : (xs ys : List A) → All P xs → All P ys → All P (xs ++ ys)
  All-append [] ys h k = k
  All-append (x ∷ xs) ys (p, h) k = (p, All-append xs ys h k)

  pub All-retain : (p : A → Bool) (xs : List A) → All P xs → All P (retain p xs)
  unfolding retain
  All-retain p [] h = tt
  All-retain p (x ∷ xs) (a, h) = elim (Bool-cases (p x)) [
    | inl e ↦ rw e (a, All-retain p xs h)
    | inr e ↦ rw e (All-retain p xs h)
  ]

  pub All-remove : (i : ℕ) (xs : List A) → All P xs → All P (remove i xs)
  unfolding remove
  All-remove i [] h = tt
  All-remove zero (x ∷ xs) (a, h) = h
  All-remove (suc i) (x ∷ xs) (a, h) = (a, All-remove i xs h)

  pub All-set : (xs : List A) (i : ℕ) (v : A) → P v → All P xs → All P (set xs i v)
  All-set [] i v p h = tt
  All-set (x ∷ xs) zero v p (a, h) = (p, h)
  All-set (x ∷ xs) (suc i) v p (a, h) = (a, All-set xs i v p h)

  pub All-get : (xs : List A) (i : ℕ) (x : A) → All P xs → get_elem? xs i ≡ some x → P x
  All-get [] i x h e = cc
  All-get (y ∷ xs) zero x (a, h) e = rw (y-x e) at a
    where
      y-x : some y ≡ some x → y ≡ x
      y-x q = cc
  All-get (y ∷ xs) (suc i) x (a, h) e = All-get xs i x h e

  pub All-take : (n : ℕ) (xs : List A) → All P xs → All P (take n xs)
  All-take zero xs h = tt
  All-take (suc n) [] h = tt
  All-take (suc n) (x ∷ xs) (a, h) = (a, All-take n xs h)

  pub All-drop : (n : ℕ) (xs : List A) → All P xs → All P (drop n xs)
  All-drop zero xs h = h
  All-drop (suc n) [] h = tt
  All-drop (suc n) (x ∷ xs) (a, h) = All-drop n xs h

  pub All-replicate : (n : ℕ) (x : A) → P x → All P (replicate n x)
  All-replicate zero x p = tt
  All-replicate (suc n) x p = (p, All-replicate n x p)

module _ {ℓ κ} {A : Type ℓ} (R : A → A → Type κ) where
  pub Pairs-retain : (p : A → Bool) (xs : List A) → Pairs R xs → Pairs R (retain p xs)
  unfolding retain
  Pairs-retain p [] h = tt
  Pairs-retain p (x ∷ xs) (a, h) = elim (Bool-cases (p x)) [
    | inl e ↦ rw e (All-retain (R x) p xs a, Pairs-retain p xs h)
    | inr e ↦ rw e (Pairs-retain p xs h)
  ]

  pub Pairs-remove : (i : ℕ) (xs : List A) → Pairs R xs → Pairs R (remove i xs)
  unfolding remove
  Pairs-remove i [] h = tt
  Pairs-remove zero (x ∷ xs) (a, h) = h
  Pairs-remove (suc i) (x ∷ xs) (a, h) = (All-remove (R x) i xs a, Pairs-remove i xs h)

  pub Pairs-snoc :
      (xs : List A) (y : A) → Pairs R xs → All (λ x. R x y) xs → Pairs R (xs ++ (y ∷ []))
  Pairs-snoc [] y h k = (tt, tt)
  Pairs-snoc (x ∷ xs) y (a, h) (b, k) =
      (All-append (R x) xs (y ∷ []) a (b, tt), Pairs-snoc xs y h k)

  -- A new value that stands in no new relation may replace the old one.
  pub Pairs-set :
      (xs : List A) (i : ℕ) (x v : A)
      → get_elem? xs i ≡ some x
      → ((y : A) → R x y → R v y)
      → ((y : A) → R y x → R y v)
      → Pairs R xs
      → Pairs R (set xs i v)
  Pairs-set [] i x v e f g h = tt
  Pairs-set (y ∷ xs) zero x v e f g (a, h) = (from xs (rw (y-x e) at a), h)
    where
      y-x : some y ≡ some x → y ≡ x
      y-x q = cc

      from : (zs : List A) → All (R x) zs → All (R v) zs
      from [] b = tt
      from (z ∷ zs) (b, bs) = (f z b, from zs bs)
  Pairs-set (y ∷ xs) (suc i) x v e f g (a, h) =
      (All-set (R y) xs i v (g y (All-get (R y) xs i x a e)) a, Pairs-set xs i x v e f g h)

module _ {ℓ κ} {A : Type ℓ} (P : A → Type κ) where
  -- No element passes the test `p`, which decides `P`.
  pub not_any-All :
      (p : A → Bool) (xs : List A) → ((x : A) → p x ≡ false → P x) → any p xs ≡ false → All P xs
  unfolding any
  not_any-All p [] f h = tt
  not_any-All p (x ∷ xs) f h = (f x (ground arith), not_any-All p xs f (ground arith))

module _ {ℓ} {A : Type ℓ} (p : A → Bool) where
  -- What `retain` leaves passes its test, and what passes is left alone.
  pub retain-Passes : (xs : List A) → All (λ x. p x ≡ true) (retain p xs)
  unfolding retain
  retain-Passes [] = tt
  retain-Passes (x ∷ xs) = elim (Bool-cases (p x)) [
    | inl e ↦ rw e (e, retain-Passes xs)
    | inr e ↦ rw e (retain-Passes xs)
  ]

  pub retain-All : (xs : List A) → All (λ x. p x ≡ true) xs → retain p xs ≡ xs
  unfolding retain
  retain-All [] h = refl
  retain-All (x ∷ xs) (e, h) = rw e (ap (◌∷◌ x) (retain-All xs h))

  pub retain_none : (xs : List A) → any p xs ≡ false → retain p xs ≡ []
  unfolding retain any
  retain_none [] h = refl
  retain_none (x ∷ xs) h = ground (arith, retain_none xs)

-- What a function that may fail gives, if it gives anything, has the property `P`.
abbrev pub OnSome {ℓ κ} : {A : Type ℓ} → (A → Type κ) → Option A → Type κ
OnSome P none = Unit
OnSome P (some a) = P a

module _ {ℓ κ μ} {A : Type ℓ} {B : Type κ} (P : B → Type μ) where
  pub OnSome-bind :
      (o : Option A) (f : A → Option B)
      → ((a : A) → o ≡ some a → OnSome P (f a))
      → OnSome P (o >>= f)
  OnSome-bind none f h = tt
  OnSome-bind (some a) f h = h a refl

module _ {ℓ κ} {A : Type ℓ} (P : A → Type κ) where
  pub OnSome-if :
      (b : Bool) (x y : Option A)
      → (b ≡ true → OnSome P x)
      → (b ≡ false → OnSome P y)
      → OnSome P (if b then x else y)
  OnSome-if true x y h k = h refl
  OnSome-if false x y h k = k refl

  pub OnSome-get : (o : Option A) (a : A) → OnSome P o → o ≡ some a → P a
  OnSome-get o a h e = rw e at h

module _ {ℓ κ μ} {A : Type ℓ} (P : A → Type κ) (Q : A → Type μ) where
  pub OnSome-map : ((a : A) → P a → Q a) → (o : Option A) → OnSome P o → OnSome Q o
  OnSome-map f none h = tt
  OnSome-map f (some a) h = f a h
