-- ===== src/TimeUtil.antt =====
-- src/E/E_TimeUtil.cpp: units of time, their names and the conversions. `none` is a failed
-- assertion. printTime is the decimal form of get_time, which the C library makes.
pub mod Units
use Prim.Native.String.{String}
use text.Mathlib.Text.{◌==◌ as str_eq}
use kensv.Prelude.{ℕ, ◌*◌, ◌/◌, ◌%◌, ◌^◌, ◌||◌, Option, none, some, if◌then◌else◌}

pub data TimeUnit : Type 0 where
  nsec usec msec sec minute hour day no_unit : TimeUnit

unfoldable pub string_to_time_unit : String → Option TimeUnit
string_to_time_unit unit =
    if str_eq unit "nsec" || str_eq unit "NSEC"
    then some nsec
    else if str_eq unit "usec" || str_eq unit "USEC"
    then some usec
    else if str_eq unit "msec" || str_eq unit "MSEC"
    then some msec
    else if str_eq unit "sec" || str_eq unit "SEC"
    then some sec
    else if str_eq unit "minute" || str_eq unit "MINUTE"
    then some minute
    else if str_eq unit "hour" || str_eq unit "HOUR"
    then some hour
    else if str_eq unit "day" || str_eq unit "DAY"
    then some day
    else none

unfoldable pub time_unit_to_string : TimeUnit → Option String
time_unit_to_string nsec = some "NSEC"
time_unit_to_string usec = some "USEC"
time_unit_to_string msec = some "MSEC"
time_unit_to_string sec = some "SEC"
time_unit_to_string minute = some "MINUTE"
time_unit_to_string hour = some "HOUR"
time_unit_to_string day = some "DAY"
time_unit_to_string no_unit = none

-- The cases of the `switch` fall through to those below them.
unfoldable pub get_multiplier : TimeUnit → ℕ
get_multiplier nsec = 1
get_multiplier usec = 1000
get_multiplier msec = 1000 * 1000
get_multiplier sec = 1000 * (1000 * 1000)
get_multiplier minute = 60 * (1000 * (1000 * 1000))
get_multiplier hour = 60 * (60 * (1000 * (1000 * 1000)))
get_multiplier day = 24 * (60 * (60 * (1000 * (1000 * 1000))))
get_multiplier no_unit = 1

unfoldable pub make_time : ℕ → TimeUnit → ℕ
make_time time unit = time * get_multiplier unit % 2 ^ 64

unfoldable pub get_time : ℕ → TimeUnit → ℕ
get_time time unit = time / get_multiplier unit
