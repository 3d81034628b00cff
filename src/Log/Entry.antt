-- ===== src/Log/Entry.antt =====
-- The kinds, entries and events of src/log_ring.rs.
use smsgate.Base.{Bool, if◌then◌else◌, Option, none, some, Text, codes, text_eq, ℕ, List}

pub data LogKind : Type 0 where
  sms call system network user ota : LogKind

abbrev pub as_str : LogKind → Text
as_str sms = codes "sms"
as_str call = codes "call"
as_str system = codes "system"
as_str network = codes "network"
as_str user = codes "user"
as_str ota = codes "ota"

abbrev pub label : LogKind → Text
label sms = codes "SMS"
label call = codes "CALL"
label system = codes "SYS"
label network = codes "NET"
label user = codes "USER"
label ota = codes "OTA"

unfoldable pub parse : Text → Option LogKind
unfolding text_eq
parse s =
    if text_eq s (codes "sms")
    then some sms
    else if text_eq s (codes "call")
    then some call
    else if text_eq s (codes "system")
    then some system
    else if text_eq s (codes "network")
    then some network
    else if text_eq s (codes "user")
    then some user
    else if text_eq s (codes "ota")
    then some ota
    else none

pub record LogEntry : Type 0 where
  pub kind : LogKind
  pub sender : Text
  pub body_preview : Text
  pub timestamp : Text
  pub forwarded : Bool

abbrev pub sms_entry : Text → Text → Text → Bool → LogEntry
sms_entry sender body_preview timestamp forwarded = record {
  kind = sms;
  sender = sender;
  body_preview = body_preview;
  timestamp = timestamp;
  forwarded = forwarded;
}

abbrev pub status_marker : LogEntry → Text
status_marker e = if e.forwarded then codes "OK" else codes "FAIL"

pub record LogEvent : Type 0 where
  pub kind : LogKind
  pub sender : Text
  pub body_preview : Text
  pub forwarded : Bool

abbrev pub new : LogKind → Text → Text → Bool → LogEvent
new kind subject detail ok = record {
  kind = kind;
  sender = subject;
  body_preview = detail;
  forwarded = ok;
}

abbrev pub network_event : Text → Text → Bool → LogEvent
network_event subject detail ok = new network subject detail ok

abbrev pub user_event : Text → Text → Bool → LogEvent
user_event subject detail ok = new user subject detail ok

unfoldable pub at : LogEvent → Text → LogEntry
at e timestamp = record {
  kind = e.kind;
  sender = e.sender;
  body_preview = e.body_preview;
  timestamp = timestamp;
  forwarded = e.forwarded;
}

-- A page of the log, or what went wrong.
pub data Page : Type 0 where
  entries : List LogEntry → Page
  unread : Text → Page

abbrev pub log_page_size : ℕ
log_page_size = 16

-- What the other modules call of `LogRing`.
pub record Log {ℓ} (L : Type ℓ) : Type ℓ where
  pub push : L → LogEntry → L
  pub len : L → ℕ
  pub latest_of_kind : L → LogKind → Option LogEntry
  pub page : L → ℕ → ℕ → Page
