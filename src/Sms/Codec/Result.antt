-- ===== src/Sms/Codec/Result.antt =====
-- The results of src/sms/codec.rs: a value, an error of src/sms/mod.rs, or a panic, which is a read
-- or a slice out of range.
use smsgate.Base.{
  ℕ, ◌-◌, leb, ◌&&◌, if◌then◌else◌, Bool, true, false, List, Option, none, some, length, get_elem?,
  take, drop,
}
use Prim.Native.String.{String}

pub data SmsError : Type 0 where
  malformed_pdu : String → SmsError
  pdu_too_long : SmsError
  empty_input : SmsError

pub data Result {ℓ} (A : Type ℓ) : Type ℓ where
  ok : A → Result A
  err : SmsError → Result A
  panic : Result A

infixl 5 ◌>>=◌ ◌>>◌
abbrev pub ◌>>=◌ {ℓ κ} : {A : Type ℓ} {B : Type κ} → Result A → (A → Result B) → Result B
panic >>= f = panic
err why >>= f = err why
ok a >>= f = f a

abbrev pub ◌>>◌ {ℓ} : {B : Type ℓ} → Result (Unit {0}) → Result B → Result B
m >> k = m >>= λ _. k

-- `if fails { return Err(MalformedPdu(why)); }`
abbrev pub fail_if : Bool → String → Result (Unit {0})
fail_if true why = err (malformed_pdu why)
fail_if false why = ok tt

abbrev pub or_malformed {ℓ} : {A : Type ℓ} → Option A → String → Result A
or_malformed none why = err (malformed_pdu why)
or_malformed (some a) why = ok a

-- `buf[i]`.
unfoldable pub byte_at : List ℕ → ℕ → Result ℕ
byte_at buf i = elim (get_elem? buf i) [ none ↦ panic | some b ↦ ok b ]

-- `&buf[from..to]`.
unfoldable pub slice : List ℕ → ℕ → ℕ → Result (List ℕ)
slice buf from to =
    if leb from to && leb to (length buf) then ok (take (to - from) (drop from buf)) else panic
