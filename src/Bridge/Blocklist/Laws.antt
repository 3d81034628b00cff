-- ===== src/Bridge/Blocklist/Laws.antt =====
-- Adding to the block list of src/bridge/forwarder.rs, removing and asking.
use smsgate.Base.{
  ℕ, ◌-◌, ◌≡◌, refl, ◌∙◌, ap, inl, inr, leb, Bool-cases, Option-cases, Bool, true, false, List, [],
  ◌∷◌, ◌++◌, some, Text, text_eq, text_eq_refl, text_eq→eq, length, drop, any, arith,
}
use smsgate.Persist.Interface.{Store, IsStore, block_list}
use smsgate.Sms.Codec.Phone.{normalize_phone}
use smsgate.Sms.Codec.Phone.Laws.{is_phone_char, normalize_phone_idem, normalize_phone_name}
use smsgate.Bridge.Blocklist.{
  Json, IsJson, ends_with, same_number, stored_list, is_blocked, load_blocklist, save_blocklist,
  add_to_blocklist,
}

any-append_right {ℓ} :
    {A : Type ℓ} (p : A → Bool) (xs ys : List A) → any p ys ≡ true → any p (xs ++ ys) ≡ true
unfolding any
any-append_right p [] ys h = h
any-append_right p (x ∷ xs) ys h = ground (arith, any-append_right p xs ys h)

any-imp {ℓ} :
    {A : Type ℓ} (p q : A → Bool) (xs : List A)
    → ((x : A) → p x ≡ true → q x ≡ true)
    → any p xs ≡ true
    → any q xs ≡ true
unfolding any
any-imp p q [] f h = h
any-imp p q (x ∷ xs) f h = elim (Bool-cases (p x)) [
  | inl e ↦ rw (f x e)
  | inr e ↦ ground (arith, any-imp p q xs f (ground arith))
]

same_number_listed :
    (n b : Text) → normalize_phone n ≡ n → text_eq b n ≡ true → same_number n b ≡ true
unfolding same_number
same_number_listed n b idem h =
    let e : b ≡ n = text_eq→eq b n h in
    let m : normalize_phone b ≡ n = ap normalize_phone e ∙ idem in rw (m, text_eq_refl n)

drop-length {ℓ} : {A : Type ℓ} (xs : List A) → drop (length xs) xs ≡ []
drop-length [] = refl
drop-length (x ∷ xs) = drop-length xs

ends_with-nil : (s : Text) → ends_with s [] ≡ true
unfolding ends_with
ends_with-nil s =
    let whole : length s - 0 ≡ length s = omega arith in
    let below : leb 0 (length s) ≡ true = ground arith in
    rw (whole, below, drop-length s, text_eq_refl [])

same_number-nil : (listed : Text) → same_number [] listed ≡ true
unfolding same_number
same_number-nil listed = ground (arith, ends_with-nil (normalize_phone listed))

module _ {ℓ} {S : Type ℓ} (store : Store S) (json : Json) where
  stored_list-load :
      (s : S) (bs : List ℕ)
      → store.load s block_list ≡ some bs
      → stored_list store json s ≡ json.from_slice bs
  unfolding stored_list
  stored_list-load s bs h = rw (h, stored_list)

  is_blocked-stored :
      (phone : Text) (s : S) (list : List Text)
      → stored_list store json s ≡ some list
      → is_blocked store json phone s ≡ any (same_number (normalize_phone phone)) list
  unfolding is_blocked
  is_blocked-stored phone s list h = rw (h, is_blocked)

  -- While the list holds any entry, each sender without a digit or a plus sign is blocked, whatever
  -- the entries are.
  pub is_blocked_name :
      (phone : Text) (s : S) (b : Text) (list : List Text)
      → any is_phone_char phone ≡ false
      → stored_list store json s ≡ some (b ∷ list)
      → is_blocked store json phone s ≡ true
  unfolding any
  is_blocked_name phone s b list h stored =
      is_blocked-stored phone s (b ∷ list) stored
      ∙ ap (λ n. any (same_number n) (b ∷ list)) (normalize_phone_name phone h)
      ∙ ground (arith, same_number-nil b)

  listed-is_blocked :
      (phone : Text) (s : S) (list : List Text)
      → stored_list store json s ≡ some list
      → any (λ b. text_eq b (normalize_phone phone)) list ≡ true
      → is_blocked store json phone s ≡ true
  listed-is_blocked phone s list stored h =
      is_blocked-stored phone s list stored
      ∙ any-imp (λ b. text_eq b (normalize_phone phone)) (same_number (normalize_phone phone)) list
          (λ b e. same_number_listed (normalize_phone phone) b (normalize_phone_idem phone) e) h

  -- A list that is loaded with an entry is stored.
  load_blocklist-stored :
      (p : Text → Bool) (s : S)
      → any p (load_blocklist store json s) ≡ true
      → stored_list store json s ≡ some (load_blocklist store json s)
  unfolding load_blocklist any
  load_blocklist-stored p s h = ground arith

module _ {ℓ} {S : Type ℓ} (store : Store S) (laws : IsStore S store) (json : Json)
    (json_laws : IsJson json) where
  save_blocklist-stored :
      (list : List Text) (s : S)
      → (save_blocklist store json list s).1 ≡ true
      → stored_list store json (save_blocklist store json list s).0 ≡ some list
  unfolding save_blocklist
  save_blocklist-stored list s ok = elim (Option-cases (json.to_vec list)) [
    | inl e ↦ absurd (ground (arith, e))
    | inr (bs, e) ↦
        let saved : (store.save s block_list bs).1 ≡ true = ground (arith, e) in
        rw (e, save_blocklist)
          (stored_list-load store json (store.save s block_list bs).0 bs
              (laws.load-save s block_list bs saved)
            ∙ json_laws.from_slice-to_vec list bs e)
  ]

  -- A number that was added with success is blocked.
  pub add_to_blocklist-is_blocked :
      (phone : Text) (s : S)
      → (add_to_blocklist store json phone s).1 ≡ true
      → is_blocked store json phone (add_to_blocklist store json phone s).0 ≡ true
  unfolding add_to_blocklist
  add_to_blocklist-is_blocked phone s ok =
      let n = normalize_phone phone in
      let list = load_blocklist store json s in
      elim (Bool-cases (any (λ b. text_eq b n) list)) [
        | inl e ↦ rw e (
            listed-is_blocked store json phone s list
              (load_blocklist-stored store json (λ b. text_eq b n) s e) e)
        | inr e ↦
            let saved : (save_blocklist store json (list ++ (n ∷ [])) s).1 ≡ true =
              ground (arith, e) in
            rw e (
              listed-is_blocked store json phone (save_blocklist store json (list ++ (n ∷ [])) s).0
                (list ++ (n ∷ [])) (save_blocklist-stored (list ++ (n ∷ [])) s saved)
                (any-append_right (λ b. text_eq b n) list (n ∷ [])
                  (unfold any in ground (arith, text_eq_refl n))))
      ]
