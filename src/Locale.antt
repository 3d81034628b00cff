-- ===== src/Locale.antt =====
-- The texts of src/i18n, of which en.rs and zh.rs each have a version; the build takes
-- one. `Locale.En` is the English one.
pub mod En
use smsgate.Base.{ℕ, Bool, Option, Text}
use smsgate.Mms.{MmsExpiry}

-- What `format_status` is given.
pub record StatusFacts : Type 0 where
  pub h : ℕ
  pub m : ℕ
  pub s : ℕ
  pub signal : Text
  pub operator : Text
  pub registered : Option Bool
  pub free_heap_kb : ℕ
  pub min_free_heap_kb : ℕ
  pub queue_n : ℕ
  pub blocked_n : ℕ
  pub log_n : ℕ
  pub fwd_on : Bool
  pub last_sms : Option (Text × Text)
  pub wifi_info : Text

pub record Locale : Type 0 where
  pub sms_received : Text → Text → Text → Text
  pub mms_notification : Text → Option ℕ → Option MmsExpiry → Text
  pub incoming_call : Text → Text
  pub send_usage : Text
  pub send_invalid_number : Text
  pub send_empty_body : Text
  pub send_too_long : Text
  pub send_queued : Text → Text → Bool → ℕ → Text
  pub send_rate_limited : Text
  pub block_usage : Text
  pub block_ok : Text → Text
  pub blocklist_empty : Text
  pub blocklist_header : ℕ → Text
  pub unblock_usage : Text
  pub unblock_not_found : Text → Text
  pub unblock_ok : Text → Text
  pub pause_ok : ℕ → Text
  pub resume_already_active : Text
  pub resume_ok : Text
  pub restart_ok : Text
  pub storage_write_failed : Text
  pub status_op_unknown : Text
  pub status_sms_only_notice : Text
  pub status_build : Text → Text
  pub format_status : StatusFacts → Text
  pub log_empty : Text
  pub log_header : ℕ → ℕ → ℕ → ℕ → Text
  pub log_read_failed : Text → Text
  pub log_button_newer : Text
  pub log_button_older : Text
