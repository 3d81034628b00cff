-- ===== src/Sms/Codec/Safe.antt =====
-- The predicate on a parser of src/sms/codec.rs that it does not panic.
use smsgate.Base.{
  ℕ, ◌≤◌, ◌<◌, ◌≡◌, ◌≢◌, refl, leb, Bool, true, false, List, length, lt-get_elem?, arith,
}
use smsgate.Sms.Codec.Result.{
  SmsError, Result, ok, err, panic, ◌>>=◌, ◌>>◌, fail_if, byte_at, slice,
}
use Prim.Native.String.{String}

-- No panic, and a value has the property `P`.
pub data Safe {ℓ κ} {A : Type ℓ} (P : A → Type κ) : Result A → Type (ℓ ⊔ κ) where
  safe_ok : (a : A) → P a → Safe P (ok a)
  safe_err : (e : SmsError) → Safe P (err e)

pub Safe-bind {ℓ κ ι μ} :
    {A : Type ℓ} {B : Type κ} (P : A → Type ι) (Q : B → Type μ) (m : Result A) (f : A → Result B)
    → Safe P m
    → ((a : A) → P a → Safe Q (f a))
    → Safe Q (m >>= f)
Safe-bind P Q m f (safe_ok a p) h = h a p
Safe-bind P Q m f (safe_err e) h = safe_err e

pub Safe-map {ℓ κ ι} :
    {A : Type ℓ} (P : A → Type κ) (Q : A → Type ι) (m : Result A)
    → ((a : A) → P a → Q a)
    → Safe P m
    → Safe Q m
Safe-map P Q m h (safe_ok a p) = safe_ok a (h a p)
Safe-map P Q m h (safe_err e) = safe_err e

-- Any value will do.
abbrev pub Any {ℓ} : {A : Type ℓ} → A → Type 0
Any a = Unit

pub Safe-ne-panic {ℓ κ} : {A : Type ℓ} (P : A → Type κ) (m : Result A) → Safe P m → m ≢ panic
Safe-ne-panic P m (safe_ok a p) e = cc
Safe-ne-panic P m (safe_err x) e = cc

pub fail_if-Safe : (fails : Bool) (why : String) → Safe (λ _. fails ≡ false) (fail_if fails why)
fail_if-Safe true why = safe_err _
fail_if-Safe false why = safe_ok tt refl

pub byte_at-Safe : (buf : List ℕ) (i : ℕ) → i < length buf → Safe Any (byte_at buf i)
unfolding byte_at
byte_at-Safe buf i h = let (b, e) = lt-get_elem? buf i h in rw (e, byte_at) (safe_ok b tt)

pub slice-Safe :
    (buf : List ℕ) (from to : ℕ) → from ≤ to → to ≤ length buf → Safe Any (slice buf from to)
unfolding slice
slice-Safe buf from to h k =
    let p : leb from to ≡ true = ground arith in
    let q : leb to (length buf) ≡ true = ground arith in rw (p, q) (safe_ok _ tt)

module _ {ℓ κ} {B : Type ℓ} (Q : B → Type κ) where
  -- The three ways to go on: behind a guard, a read and a slice.
  pub after_guard :
      (fails : Bool) (why : String) (m : Result B)
      → (fails ≡ false → Safe Q m)
      → Safe Q (fail_if fails why >> m)
  after_guard fails why m h =
      Safe-bind (λ _. fails ≡ false) Q (fail_if fails why) (λ _. m) (fail_if-Safe fails why)
        (λ _ e. h e)

  pub after_read :
      (buf : List ℕ) (i : ℕ) (f : ℕ → Result B)
      → i < length buf
      → ((b : ℕ) → Safe Q (f b))
      → Safe Q (byte_at buf i >>= f)
  after_read buf i f h k = Safe-bind Any Q (byte_at buf i) f (byte_at-Safe buf i h) (λ b _. k b)

  pub after_slice :
      (buf : List ℕ) (from to : ℕ) (f : List ℕ → Result B)
      → from ≤ to
      → to ≤ length buf
      → ((bs : List ℕ) → Safe Q (f bs))
      → Safe Q (slice buf from to >>= f)
  after_slice buf from to f h k g =
      Safe-bind Any Q (slice buf from to) f (slice-Safe buf from to h k) (λ bs _. g bs)
