-- ===== src/Tests/Desk.antt =====
-- The services that the tests run with: a messenger and a log that are lists, the store in memory and
-- the English texts.
use smsgate.Base.{
  length, take, drop, text_eq, if◌then◌else◌, List, [], ◌∷◌, Option, none, some, Text, decimal_text,
}
use smsgate.Locale.{Locale}
use smsgate.Locale.En.{english}
use smsgate.Im.{MessageSink, delivered}
use smsgate.Log.Entry.{Log, LogKind, LogEntry, as_str, entries}
use smsgate.Persist.Memory.{MemStore, mem_store}
use smsgate.Persist.Memory
use smsgate.Bridge.ReplyRouter.Slots
use smsgate.Bridge.Blocklist.{Json}
use smsgate.Bridge.Forwarder.{Services, World}

-- A messenger that numbers what it is given.
abbrev pub sink : MessageSink (List Text)
sink = record { send_message_with_format = λ sent text format. (text ∷ sent, delivered 7) }

abbrev pub latest : LogKind → List LogEntry → Option LogEntry
latest kind [] = none
latest kind (entry ∷ rest) =
    if text_eq (as_str entry.kind) (as_str kind) then some entry else latest kind rest

abbrev pub log : Log (List LogEntry)
log = record {
  push = λ entries entry. entry ∷ entries;
  len = λ entries. length entries;
  latest_of_kind = λ entries kind. latest kind entries;
  page = λ log offset limit. entries (take limit (drop offset log));
}

abbrev pub no_json : Json
no_json = record { from_slice = λ bs. none; to_vec = λ list. none }

abbrev pub locale : Locale
locale = english decimal_text

abbrev pub services : Services (List Text) (List LogEntry) MemStore
services = record {
  sink = sink;
  log = log;
  store = mem_store;
  json = no_json;
  locale = locale;
  usize_bits = 32;
}

abbrev pub world : World (List Text) (List LogEntry) MemStore
world = record { messenger = []; router = Slots.new; log = []; store = Memory.new }
