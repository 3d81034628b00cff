-- ===== src/Bridge/Blocklist.antt =====
-- The block list of src/bridge/forwarder.rs. The JSON of a list of texts is serde_json's: the
-- record `Json` is a parameter, and its law `IsJson` that what it writes it reads back.
pub mod Laws
use smsgate.Base.{
  ℕ, ◌-◌, ◌<◌, ◌≡◌, leb, ltb, not, ◌&&◌, ◌||◌, if◌then◌else◌, Bool, true, false, List, [], ◌∷◌,
  ◌++◌, Option, none, some, Text, text_eq, length, drop, any, retain,
}
use smsgate.Persist.Interface.{Store, block_list}
use smsgate.Sms.Codec.Phone.{normalize_phone}

-- `serde_json::from_slice` and `to_vec` for `Vec<String>`; `none` is an error.
pub record Json : Type 0 where
  pub from_slice : List ℕ → Option (List Text)
  pub to_vec : List Text → Option (List ℕ)

pub record IsJson (json : Json) : Type 0 where
  pub from_slice-to_vec :
      (list : List Text) (bs : List ℕ) → json.to_vec list ≡ some bs → json.from_slice bs ≡ some list

-- `str::ends_with`.
unfoldable pub ends_with : Text → Text → Bool
ends_with s suffix =
    leb (length suffix) (length s) && text_eq (drop (length s - length suffix) s) suffix

-- The numbers are the same, or one ends in the other.
unfoldable pub same_number : Text → Text → Bool
same_number normalized listed =
    let nb = normalize_phone listed in
    text_eq nb normalized || ends_with normalized nb || ends_with nb normalized

module _ {ℓ} {S : Type ℓ} (store : Store S) (json : Json) where
  -- The list that is stored, if there is one that can be read.
  unfoldable pub stored_list : S → Option (List Text)
  stored_list s = elim (store.load s block_list) [ none ↦ none | some bs ↦ json.from_slice bs ]

  unfoldable pub is_blocked : Text → S → Bool
  unfolding stored_list
  is_blocked phone s = elim (stored_list s) [
    | none ↦ false
    | some list ↦ any (same_number (normalize_phone phone)) list
  ]

  unfoldable pub load_blocklist : S → List Text
  unfolding stored_list
  load_blocklist s = elim (stored_list s) [ none ↦ [] | some list ↦ list ]

  -- `false` for an error, of the JSON or of the store.
  unfoldable pub save_blocklist : List Text → S → S × Bool
  save_blocklist list s = elim (json.to_vec list) [
    | none ↦ (s, false)
    | some bs ↦ store.save s block_list bs
  ]

  unfoldable pub add_to_blocklist : Text → S → S × Bool
  unfolding load_blocklist save_blocklist
  add_to_blocklist phone s =
      let list = load_blocklist s in
      let n = normalize_phone phone in
      if any (λ b. text_eq b n) list then (s, true) else save_blocklist (list ++ (n ∷ [])) s

  -- `some removed`, or `none` for an error.
  unfoldable pub removed_if_saved : S × Bool → S × Option Bool
  removed_if_saved (s, true) = (s, some true)
  removed_if_saved (s, false) = (s, none)

  unfoldable pub remove_from_blocklist : Text → S → S × Option Bool
  unfolding load_blocklist save_blocklist removed_if_saved
  remove_from_blocklist phone s =
      let list = load_blocklist s in
      let kept = retain (λ b. not (text_eq b (normalize_phone phone))) list in
      if ltb (length kept) (length list)
      then removed_if_saved (save_blocklist kept s)
      else (s, some false)
