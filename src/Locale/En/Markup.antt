-- ===== src/Locale/En/Markup.antt =====
-- The markup of a forwarded message, of src/i18n/en.rs.
use smsgate.Base.{
  ℕ, ◌≡◌, refl, ap, ◌==◌, ◌||◌, Bool, Bool-cases, inl, inr, [], ◌∷◌, ◌++◌, Text, codes, retain,
  arith,
}
use smsgate.Locale.En.{escaped, html_escape, sms_received}

abbrev pub is_angle : ℕ → Bool
is_angle c = c == 0x3C || c == 0x3E

retain-append : (p : ℕ → Bool) (s t : Text) → retain p (s ++ t) ≡ retain p s ++ retain p t
unfolding retain
retain-append p [] t = refl
retain-append p (c ∷ s) t = elim (Bool-cases (p c)) [
  | inl e ↦ rw e (ap (◌∷◌ c) (retain-append p s t))
  | inr e ↦ rw e (retain-append p s t)
]

retain-escaped : (c : ℕ) → retain is_angle (escaped c) ≡ []
unfolding retain
retain-escaped c = ground arith

retain-html_escape : (s : Text) → retain is_angle (html_escape s) ≡ []
unfolding retain html_escape
retain-html_escape [] = refl
retain-html_escape (c ∷ s) =
    rw (retain-append is_angle (escaped c) (html_escape s), retain-escaped c, retain-html_escape s)
      refl

-- Whatever the sender, the time and the message are, the only angle brackets of a forwarded message
-- are those of one pair of code tags.
pub retain-sms_received :
    (sender ts body : Text) → retain is_angle (sms_received sender ts body) ≡ codes "<><>"
unfolding retain sms_received
retain-sms_received sender ts body =
    rw
      (
        retain-append is_angle (html_escape sender)
            (codes "</code>\n🕐 " ++ (html_escape ts ++ (codes "\n\n" ++ html_escape body))),
        retain-html_escape sender,
        retain-append is_angle (html_escape ts) (codes "\n\n" ++ html_escape body),
        retain-html_escape ts,
        retain-html_escape body,
      )
      refl
