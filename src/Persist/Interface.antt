-- ===== src/Persist/Interface.antt =====
-- The trait `Store` of src/persist/mod.rs, what the program relies on of it, and the typed helpers.
use smsgate.Base.{
  ℕ, ◌<◌, ◌^◌, ◌≡◌, ◌≢◌, ltb, ◌==◌, not, if◌then◌else◌, Bool, true, false, List, [], ◌∷◌, Option,
  none, some, ◌>>=◌, Text, codes, length, take, get_or, ap, to_le_bytes, from_le_bytes,
  from_le_bytes-to_le_bytes,
}

-- `save` answers whether it succeeded.
pub record Store {ℓ} (S : Type ℓ) : Type ℓ where
  pub load : S → Text → Option (List ℕ)
  pub save : S → Text → List ℕ → S × Bool

-- What was saved is loaded, and other keys are left alone.
pub record IsStore {ℓ} (S : Type ℓ) (store : Store S) : Type ℓ where
  pub load-save :
      (s : S) (key : Text) (value : List ℕ)
      → (store.save s key value).1 ≡ true
      → store.load (store.save s key value).0 key ≡ some value
  pub load-save_ne :
      (s : S) (key other : Text) (value : List ℕ)
      → key ≢ other
      → store.load (store.save s key value).0 other ≡ store.load s other

abbrev pub im_cursor : Text
im_cursor = codes "im_cursor"

abbrev pub reply_map : Text
reply_map = codes "reply_map"

abbrev pub block_list : Text
block_list = codes "block_list"

abbrev pub fwd_enabled : Text
fwd_enabled = codes "fwd_enabled"

module _ {ℓ} {S : Type ℓ} (store : Store S) where
  unfoldable pub load_i64 : S → Text → Option ℕ
  unfolding from_le_bytes
  load_i64 s key = do
    bs ← store.load s key
    if ltb (length bs) 8 then none else some (from_le_bytes (take 8 bs))

  unfoldable pub save_i64 : S → Text → ℕ → S × Bool
  unfolding to_le_bytes
  save_i64 s key val = store.save s key (to_le_bytes 8 val)

  unfoldable pub load_bool : S → Text → Option Bool
  load_bool s key = do bs ← store.load s key; some (not (get_or bs 0 0 == 0))

  unfoldable pub save_bool : S → Text → Bool → S × Bool
  save_bool s key val = store.save s key ((if val then 1 else 0) ∷ [])

module _ {ℓ} {S : Type ℓ} (store : Store S) (laws : IsStore S store) where
  -- A saved i64 is loaded again.
  pub load_i64-save_i64 :
      (s : S) (key : Text) (val : ℕ)
      → val < 2 ^ 64
      → (save_i64 store s key val).1 ≡ true
      → load_i64 store (save_i64 store s key val).0 key ≡ some val
  unfolding load_i64 save_i64
  load_i64-save_i64 s key val h ok =
      rw (laws.load-save s key (to_le_bytes 8 val) ok) (ap some (from_le_bytes-to_le_bytes 8 val h))

  pub load_bool-save_bool :
      (s : S) (key : Text) (val : Bool)
      → (save_bool store s key val).1 ≡ true
      → load_bool store (save_bool store s key val).0 key ≡ some val
  unfolding load_bool save_bool
  load_bool-save_bool s key true ok = rw (laws.load-save s key (1 ∷ []) ok)
  load_bool-save_bool s key false ok = rw (laws.load-save s key (0 ∷ []) ok)
