-- ===== src/Lib.antt =====
-- smsgate verification library.
--
-- smsgate is the firmware of a gateway between the SMS of a cellular modem and a messenger. This
-- library models the parts that carry its logic: the codec of SMS PDUs, the table that puts the parts
-- of long messages together, the way of a message from the modem's storage to the messenger, the
-- outbound queue with its retries and rate limit, the router of replies to phone numbers, the block
-- list, the commands of the chat and the poller that carries them out, the handlers of calls and of
-- AT commands, the event log in flash, and the store of settings.
--
-- How they interact. The modem's storage is listed and read by the functions of SmsHandler/Listing and
-- SmsHandler/Storage. A PDU goes through `parse_sms_pdu`; a part of a long message then goes into the
-- table of groups with `feed_with_slot`, an MMS notice becomes a text, and a whole message is forwarded
-- by `forward_sms`, unless forwarding is paused or `is_blocked` says that its sender is on the block
-- list. What comes of it says which slots of the storage may be deleted. The router remembers with
-- `put` which message of the messenger came from which number, and `lookup` finds the number that a
-- reply goes to. `poll_and_dispatch` takes the messages of the chat: a command's reply may hold lines
-- with a mark, which `apply_sentinels` carries out; replies and the command /send go into the queue,
-- which `drain_once` works through with `build_sms_submit_pdus` and the modem.
--
-- Files and code:
-- * Sms/Pdu, Sms/Codec and its children: src/sms/codec.rs. Codec/Hex has the hex digits, Codec/Gsm7 and
--   Gsm7/Tables the GSM-7 alphabet with its extension table, Codec/Septets the packing of septets,
--   Codec/Ucs2 the two-byte alphabet, Codec/Phone the phone numbers, Codec/Scts the time stamps as
--   they stand in a PDU, Codec/Unix their conversion to seconds since 1970, Codec/Rfc3339 their text
--   form, Codec/Deliver the parser of a received PDU, one definition for each stretch
--   of the function `parse_sms_pdu`, Codec/Submit the builder of PDUs to send, Codec/Parts the count of
--   parts, Codec/StatusReport the parser of delivery reports, Codec/Clip that of call notices.
--   Codec/Result is the result of the parser: `ok`, `err` for the error it returns,
--   `panic` for a read or a slice out of range.
-- * Sms/Concat and its children: src/sms/concat.rs. Concat/Group is `Group`, Concat/Feed is
--   `ConcatReassembler`. `feed_with_slot` is none where the code would index out of range.
-- * Sms/Sender and its children: src/sms/sender.rs. Sender/Queue has the operations on the queue,
--   Sender/Drain the attempt at an entry. The modem is the parameter `ModemPort` of src/modem/mod.rs:
--   any state, and a function that says whether a PDU was accepted and what the state is then.
-- * Mms and its child: src/mms.rs. Strings: src/text.rs. Timer: src/timer.rs.
-- * Persist/Interface and Persist/Memory: src/persist/mod.rs and src/persist/mem.rs. The record
--   `IsStore` says what the code relies on: what was saved with success is loaded again and other keys
--   are left alone.
-- * Bridge/ReplyRouter and its children: src/bridge/reply_router.rs.
-- * Bridge/Blocklist, Bridge/Forwarder and their children: src/bridge/forwarder.rs. The JSON
--   library is a parameter that reads back what it wrote. The record `Services` holds what forwarding
--   uses, `World` what it changes.
-- * Bridge/SmsHandler and its children: src/bridge/sms_handler.rs. Fields has the CSV fields and texts of
--   the modem's answers, Storage the reading and deleting of a slot, Listing the lists and batches,
--   Intake the way of a PDU to the messenger. The modem is the parameter `AtTransport`; the standard
--   library's hasher is the parameter `hash`.
-- * Bridge/Poller and its children: src/bridge/poller.rs. Poller/Sentinels is `apply_sentinels`,
--   Poller/Queued what becomes of the command /send, for the locales whose line about a queued message
--   is one line without a mark.
-- * Bridge/CallHandler and Bridge/AtHandler, with a child each: src/bridge/call_handler.rs and
--   src/bridge/at_handler.rs.
-- * Commands and its children: src/commands/mod.rs and src/commands/builtin. Builtin has the commands,
--   Page the pages of the log.
-- * Modem, Modem/Status with its child and Modem/Urc: the interface of src/modem/mod.rs,
--   src/modem/status.rs and src/modem/urc.rs. Im: the types of src/im/mod.rs.
-- * Log and its children: src/log_ring.rs. Log/Entry has entries and events, Log/Payload what is kept of
--   an entry, Log/Flash the records and the ring. The flash is the parameter `LogFlashStorage`.
-- * Locale and Locale/En: the record of the texts of src/i18n, of which a build takes one version, and
--   the version of src/i18n/en.rs, for the texts that the modelled parts use. How a size is written with decimals is a parameter of it.
-- * Base and its children: shared names, lists over the native numbers, text as a list of code points
--   with its UTF-8 bytes, words of bytes, predicates on lists. The text functions and UTF-8 are the
--   standard library of Rust.
-- * Tests and its children: concrete inputs.
--
-- How the code is read. A string is the list of its code points; its bytes are those of UTF-8. Time is a
-- natural number of nanoseconds and an argument, `later` being the time after the modem has answered.
-- A machine integer is a natural number with its bound or its wrap-around written out; an i64 is given
-- by its bits; usize is `w` or `usize_bits` bits wide where its width matters. The counters that the
-- builder of PDUs keeps in statics are the record `Refs`, handed through. In the intake, the forwarding
-- and the call handler `none` is a panic, which a slice of a phone number or of a time stamp can end in.
-- Lines for the program's own console (`log::warn!` and the like) are left out.
--
-- Fuel. The split of a message into parts is recursive on fuel, its length: every part takes at least
-- one element. The information elements of a header are read with as much fuel as the header's end:
-- each element takes at least two bytes. The headers of an MMS notice are read with as much fuel as
-- there are bytes: each takes one at least. A decimal number is written with 20 digits of fuel, which
-- 64 bits do not exceed.
--
-- Not modelled: the drivers of src/modem/a76xx, the parsers of the network time and of +CNMI,
-- the readers of several log entries and the storages in src/log_ring.rs, src/log_clock.rs, credentials
-- and diagnostics, Telegram, updates over the air. Not modelled as pure I/O or tables: the flash
-- store, boards, the main loop, the Chinese texts and those of start and update, the test doubles.
pub mod Base
pub mod Strings
pub mod Timer
pub mod Mms
pub mod Locale
pub mod Modem
pub mod Im
pub mod Log
pub mod Sms
pub mod Persist
pub mod Bridge
pub mod Commands
pub mod Tests
