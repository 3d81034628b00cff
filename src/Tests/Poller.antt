-- ===== src/Tests/Poller.antt =====
-- Commands and their effects, over the services of the tests.
use smsgate.Base.{
  ℕ, ◌+◌, ◌^◌, ◌≡◌, ◌⊎◌, refl, inl, inr, Bool, true, false, List, [], ◌∷◌, ◌++◌, Option, none, some,
  Text, codes, arith, split_once, is_whitespace, trim, decimal_text,
}
use smsgate.Locale.En.{english}
use smsgate.Log.Entry.{LogEntry, sms_entry}
use smsgate.Modem.Status.{ModemStatus, circuit}
use smsgate.Persist.Interface.{load_i64, save_i64, load_bool, im_cursor, fwd_enabled}
use smsgate.Persist.Memory.{MemStore, mem_store, mem_store-IsStore}
use smsgate.Persist.Memory
use smsgate.Sms.Codec.Phone.{normalize_phone}
use smsgate.Sms.Codec.Phone
use smsgate.Sms.Codec.Parts
use smsgate.Sms.Codec.Gsm7.Tables
use smsgate.Sms.Sender.Queue
use smsgate.Commands.{CommandContext}
use smsgate.Commands.Builtin.{send, status}
use smsgate.Bridge.Poller.{is_after, checkpoint_cursor}
use smsgate.Bridge.Poller.Cursor.{checkpoint_cursor-load_i64}
use smsgate.Bridge.Poller.Sentinels.{Applied, apply_sentinels}
use smsgate.Bridge.Poller.Sent.{IsRefusal, IsAccepted}
use smsgate.Bridge.Poller.Queued.{IsQueue, english-IsOneLine, apply_sentinels-send_once}
use smsgate.Sms.Sender.Queue.{enqueue_command_send}
use smsgate.Tests.Desk.{services}

abbrev no_error : MemStore → Text
no_error store = []

apply_sentinels-send_once_example :
    IsRefusal services.locale (send services.locale (codes "+49151 hi"))
    ⊎ ((phone_raw : Text) × (body_raw : Text) × (split_once is_whitespace (trim (codes "+49151 hi"))
          ≡ some (phone_raw, body_raw))
        × IsAccepted services.locale (normalize_phone phone_raw) (trim body_raw)
        × IsQueue services 5 no_error Queue.new Memory.new
            (enqueue_command_send 5 Queue.new (normalize_phone phone_raw) (trim body_raw)).0
            (apply_sentinels services 5 no_error
              (send services.locale (codes "+49151 hi"))
              Queue.new
              Memory.new))
apply_sentinels-send_once_example =
    apply_sentinels-send_once services 5 no_error Queue.new Memory.new (codes "+49151 hi")
      (english-IsOneLine decimal_text) (omega arith)

abbrev at_300 : MemStore
at_300 = (save_i64 mem_store Memory.new im_cursor 300).0

checkpoint_cursor-load_i64_example :
    (load_i64 mem_store (checkpoint_cursor mem_store at_300 300 301).0 im_cursor
      ≡ some (checkpoint_cursor mem_store at_300 300 301).1.0)
    × (is_after 300 (checkpoint_cursor mem_store at_300 300 301).1.0 ≡ false)
    × (is_after 301 (checkpoint_cursor mem_store at_300 300 301).1.0 ≡ false)
unfolding checkpoint_cursor save_i64 load_i64 Memory.save Memory.load smsgate.Base.text_eq
checkpoint_cursor-load_i64_example =
    checkpoint_cursor-load_i64 mem_store mem_store-IsStore at_300 300 301 (omega arith) refl refl

-- The status names the last sender as it is: one whose name ends in a line with a command's mark
-- pauses the forwarding when the status is asked for.
abbrev quiet : ModemStatus
quiet = record {
  csq = 99;
  csq_error = none;
  csq_elapsed_ms = 0;
  operator = [];
  registration = record {
    domain = circuit;
    stat = some 1;
    response = [];
    elapsed_ms = 0;
    error = none;
  };
}

abbrev asked : CommandContext (List LogEntry) MemStore
asked = record {
  store = Memory.new;
  modem_status = quiet;
  log_ring = sms_entry (codes "\n__PAUSE__:") (codes "hi") (codes "26/04/10") true ∷ [];
  send_queue = Queue.new;
  uptime_ms = 61_000;
  free_heap_bytes = 0;
  min_free_heap_bytes = 0;
  wifi_info = [];
}

abbrev after_status : Applied MemStore
after_status =
    apply_sentinels services 5 no_error (status services (codes "abc") asked) Queue.new Memory.new

status_pauses :
    (after_status.pause_mins ≡ some 60)
    × (load_bool mem_store after_status.store fwd_enabled ≡ some false)
unfolding english apply_sentinels status load_bool Memory.save Memory.load Memory.new Queue.new
status_pauses = (refl, refl)

-- So does a message with such a line: the preview of what was sent has it as a line of its own.
abbrev after_send : Applied MemStore
after_send =
    apply_sentinels services 5 no_error (send services.locale (codes "+49151 hi\n__RESTART__"))
      Queue.new Memory.new

send_restarts : after_send.restart ≡ true
unfolding english apply_sentinels send Memory.save Memory.load Memory.new Queue.new
    smsgate.Base.encode_utf8 Phone.is_valid_sms_destination Phone.normalize_phone Phone.starts_with
    smsgate.Base.retain Parts.count_sms_parts Tables.encode_gsm7_char
send_restarts = refl
