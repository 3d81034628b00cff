-- ===== src/Commands/Page.antt =====
-- The pages of the log: src/commands/builtin/log_cmd.rs. A usize has `services.usize_bits` bits.
use smsgate.Base.{
  ℕ, ◌+◌, ◌-◌, ◌^◌, ltb, leb, ◌==◌, ◌&&◌, if◌then◌else◌, List, [], ◌∷◌, ◌++◌, Option, none, some,
  ◌>>=◌, Text, codes, length, min, trim, strip_prefix, decimal_text, parse_uint,
}
use smsgate.Im.{InlineKeyboard, InlineKeyboardButton, MessageFormat, plain, html, single_row}
use smsgate.Locale.{Locale}
use smsgate.Locale.En.{escaped}
use smsgate.Log.Entry.{LogEntry, label, Page, entries, unread, log_page_size}
use smsgate.Bridge.Forwarder.{Services}
use smsgate.Commands.{CommandContext}

pub record LogPage : Type 0 where
  pub text : Text
  pub keyboard : Option InlineKeyboard
  pub format : MessageFormat

abbrev pub usize_max : ℕ → ℕ
usize_max bits = 2 ^ bits - 1

abbrev pub or_zero : Option ℕ → ℕ
or_zero none = 0
or_zero (some n) = n

unfoldable pub parse_log_offset : ℕ → Text → ℕ
unfolding trim parse_uint
parse_log_offset bits args = or_zero (parse_uint (usize_max bits) (trim args))

unfoldable pub parse_log_callback : ℕ → Text → Option ℕ
unfolding strip_prefix parse_uint
parse_log_callback bits data_text = do
  offset ← strip_prefix (codes "log:") data_text
  parse_uint (usize_max bits) offset

-- What `push_html_escaped` appends.
unfoldable pub html_escaped : Text → Text
html_escaped [] = []
html_escaped (c ∷ s) = escaped c ++ html_escaped s

unfoldable pub log_entry_html : LogEntry → Text
unfolding html_escaped
log_entry_html e =
    codes "<blockquote><b>"
    ++ (html_escaped e.timestamp
        ++ (codes "</b> "
            ++ (label e.kind
                ++ (codes " - "
                    ++ (html_escaped e.sender
                        ++ (codes ": "
                            ++ (html_escaped e.body_preview ++ codes "</blockquote>\n")))))))

unfoldable pub entries_html : List LogEntry → Text
unfolding log_entry_html
entries_html [] = []
entries_html (e ∷ rest) = log_entry_html e ++ entries_html rest

-- Where the button for newer entries leads, if there is one.
unfoldable pub newer_offset : ℕ → ℕ → Option ℕ
newer_offset total offset =
    if ltb 0 total && ltb 0 offset
    then some (if leb total offset then total - log_page_size else offset - log_page_size)
    else none

-- `offset.saturating_add(page_len)`.
unfoldable pub older_offset : ℕ → ℕ → ℕ → ℕ → Option ℕ
older_offset bits total offset page_len =
    let older = min (offset + page_len) (usize_max bits) in
    if ltb 0 page_len && ltb older total then some older else none

unfoldable pub button : Text → Option ℕ → List InlineKeyboardButton
unfolding decimal_text
button text none = []
button text (some offset) =
    record { text = text; callback_data = codes "log:" ++ decimal_text offset } ∷ []

abbrev pub keyboard_of : List InlineKeyboardButton → Option InlineKeyboard
keyboard_of [] = none
keyboard_of (button ∷ buttons) = some (single_row (button ∷ buttons))

module _ (locale : Locale) where
  unfoldable pub log_keyboard : ℕ → ℕ → ℕ → ℕ → Option InlineKeyboard
  unfolding button newer_offset older_offset
  log_keyboard bits total offset page_len = keyboard_of (
      button locale.log_button_newer (newer_offset total offset)
      ++ button locale.log_button_older (older_offset bits total offset page_len))

  unfoldable pub page_of : ℕ → ℕ → ℕ → Page → LogPage
  unfolding entries_html log_keyboard
  page_of bits total offset (unread error) = record {
    text = locale.log_read_failed error;
    keyboard = none;
    format = plain;
  }
  page_of bits total offset (entries es) = record {
    text =
        locale.log_header (length es) total offset log_page_size
        ++ (if length es == 0 then locale.log_empty else entries_html es);
    keyboard = log_keyboard bits total offset (length es);
    format = if length es == 0 then plain else html;
  }

module _ {ℓ} {M L S : Type ℓ} (services : Services M L S) where
  unfoldable pub render_log_page : CommandContext L S → ℕ → LogPage
  unfolding page_of
  render_log_page ctx offset =
      page_of services.locale services.usize_bits (services.log.len ctx.log_ring) offset
        (services.log.page ctx.log_ring offset log_page_size)

  unfoldable pub log_reply : Text → CommandContext L S → Text
  unfolding render_log_page parse_log_offset
  log_reply args ctx = (render_log_page ctx (parse_log_offset services.usize_bits args)).text
