-- ===== src/TimeUtil/Units.antt =====
-- The conversions of times and of the names of units, there and back.
use kensv.Prelude.{ℕ, ◌*◌, ◌^◌, ◌<◌, ◌≡◌, ◌≢◌, ◌↔◌, refl, some, arith}
use kensv.Prelude.Maybe.{◌>>=◌}
use kensv.TimeUtil.{
  TimeUnit, nsec, usec, msec, sec, minute, hour, day, no_unit, string_to_time_unit,
  time_unit_to_string, get_multiplier, make_time, get_time,
}

-- A number of units, made a time, is read back as that number if the time does not overflow, and
-- only then.
pub get_time-make_time :
    (n : ℕ) (unit : TimeUnit)
    → (get_time (make_time n unit) unit ≡ n) ↔ (n * get_multiplier unit < 2 ^ 64)
unfolding get_time make_time get_multiplier
get_time-make_time n nsec = (λ h. omega arith, λ h. omega arith)
get_time-make_time n usec = (λ h. omega arith, λ h. omega arith)
get_time-make_time n msec = (λ h. omega arith, λ h. omega arith)
get_time-make_time n sec = (λ h. omega arith, λ h. omega arith)
get_time-make_time n minute = (λ h. omega arith, λ h. omega arith)
get_time-make_time n hour = (λ h. omega arith, λ h. omega arith)
get_time-make_time n day = (λ h. omega arith, λ h. omega arith)
get_time-make_time n no_unit = (λ h. omega arith, λ h. omega arith)

-- The name of every unit but NONE, which has no name, is read back as that unit.
pub string_to_time_unit-time_unit_to_string :
    (unit : TimeUnit)
    → unit ≢ no_unit
    → (time_unit_to_string unit >>= string_to_time_unit) ≡ some unit
unfolding string_to_time_unit time_unit_to_string
string_to_time_unit-time_unit_to_string nsec named = refl
string_to_time_unit-time_unit_to_string usec named = refl
string_to_time_unit-time_unit_to_string msec named = refl
string_to_time_unit-time_unit_to_string sec named = refl
string_to_time_unit-time_unit_to_string minute named = refl
string_to_time_unit-time_unit_to_string hour named = refl
string_to_time_unit-time_unit_to_string day named = refl
string_to_time_unit-time_unit_to_string no_unit named = absurd (named refl)
