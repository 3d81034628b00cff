-- ===== src/Sms/Codec/Unix.antt =====
-- `pdu_timestamp_to_unix` of src/sms/codec.rs. A year is from 2000 on and an offset is at most a
-- day, so no difference is negative here.
pub mod Calendar
pub mod Zone
use smsgate.Base.{
  ℕ, ◌+◌, ◌-◌, ◌*◌, ◌/◌, ◌%◌, ltb, leb, ◌==◌, in_range, not, ◌&&◌, ◌||◌, if◌then◌else◌, Bool, true,
  false, List, [], ◌∷◌, Option, none, some, ◌>>=◌, Text, bytes, length, get_elem?, get_or, drop,
  all, is_ascii_digit,
}

abbrev pub is_leap : ℕ → Bool
is_leap year = (year % 4 == 0 && not (year % 100 == 0)) || year % 400 == 0

-- Days of the year before each month.
abbrev pub month_days : List ℕ
month_days = 0 ∷ 31 ∷ 59 ∷ 90 ∷ 120 ∷ 151 ∷ 181 ∷ 212 ∷ 243 ∷ 273 ∷ 304 ∷ 334 ∷ []

unfoldable pub max_day : Bool → ℕ → ℕ
max_day leap mo =
    if mo == 2
    then (if leap then 29 else 28)
    else if mo == 4 || mo == 6 || mo == 9 || mo == 11
    then 30
    else 31

abbrev pub leaps : ℕ → ℕ
leaps year = (year - 1) / 4 - (year - 1) / 100 + (year - 1) / 400 - (492 - 19 + 4)

unfoldable pub doy : Bool → ℕ → ℕ → ℕ
doy leap mo dd = get_or month_days (mo - 1) 0 + dd - 1 + (if ltb 2 mo && leap then 1 else 0)

-- Days since the first of January 1970.
unfoldable pub days : ℕ → ℕ → ℕ → ℕ
unfolding doy
days year mo dd = (year - 1970) * 365 + leaps year + doy (is_leap year) mo dd

-- `parse2`.
unfoldable pub parse2 : List ℕ → ℕ → Option ℕ
parse2 bs start = do
  hi ← get_elem? bs start
  lo ← get_elem? bs (start + 1)
  if is_ascii_digit hi && is_ascii_digit lo then some ((hi - b'0') * 10 + (lo - b'0')) else none

-- `parse::<i64>` of digits; a number too large for it is above 96 too.
unfoldable pub decimal : ℕ → List ℕ → ℕ
decimal acc [] = acc
decimal acc (d ∷ ds) = decimal (acc * 10 + (d - b'0')) ds

-- The time in UTC of the local time and the zone that is written behind it.
unfoldable pub in_utc : ℕ → List ℕ → ℕ
unfolding decimal all
in_utc local [] = 0
in_utc local (sign ∷ []) = 0
in_utc local (sign ∷ q ∷ quarters) =
    let raw = decimal 0 (q ∷ quarters) in
    if not (sign == 0x2B || sign == 0x2D) || not (all is_ascii_digit (q ∷ quarters)) || ltb 96 raw
    then 0
    else if sign == 0x2D
    then local + raw * 15 * 60
    else local - raw * 15 * 60

unfoldable pub is_time : ℕ → ℕ → ℕ → ℕ → Bool
is_time mo hh mm ss = in_range 1 12 mo && leb hh 23 && leb mm 59 && leb ss 60

abbrev pub has_marks : List ℕ → Bool
has_marks bs =
    get_or bs 2 0 == 0x2F
    && get_or bs 5 0 == 0x2F
    && get_or bs 8 0 == 0x2C
    && get_or bs 11 0 == 0x3A
    && get_or bs 14 0 == 0x3A

unfoldable pub parse_local : List ℕ → Option ℕ
unfolding parse2 is_time max_day days
parse_local bs = do
  yy ← parse2 bs 0
  mo ← parse2 bs 3
  dd ← parse2 bs 6
  hh ← parse2 bs 9
  mm ← parse2 bs 12
  ss ← parse2 bs 15
  let year = 2000 + yy
  if is_time mo hh mm ss && in_range 1 (max_day (is_leap year) mo) dd
      then some (days year mo dd * 86400 + hh * 3600 + mm * 60 + ss)
      else none

unfoldable pub pdu_timestamp_to_unix : Text → ℕ
unfolding bytes parse_local in_utc
pdu_timestamp_to_unix ts =
    let bs = bytes ts in
    if ltb (length bs) 17 || not (has_marks bs)
    then 0
    else (elim (parse_local bs) [ none ↦ 0 | some local ↦ in_utc local (drop 17 bs) ])
