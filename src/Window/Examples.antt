-- ===== src/Window/Examples.antt =====
-- Half past midnight in a window from 23:00 to 02:00.
use proxmox_management.Prelude.{arith, ◌≡◌, leb, true, refl, codes}
use proxmox_management.Window.{time_allowed, text_le}
use proxmox_management.Window.Minutes.{
  Clock, clock_text, minute_of, minutes_until, time_allowed-minutes,
}

abbrev late : Clock
late = record { h1 = 2; h2 = 3; m1 = 0; m2 = 0 }

abbrev early : Clock
early = record { h1 = 0; h2 = 2; m1 = 0; m2 = 0 }

abbrev half_past : Clock
half_past = record { h1 = 0; h2 = 0; m1 = 3; m2 = 0 }

time_allowed-minutes_example :
    time_allowed (clock_text late) (clock_text early) (clock_text half_past)
    ≡ leb
        (minutes_until (minute_of late) (minute_of half_past))
        (minutes_until (minute_of late) (minute_of early))
time_allowed-minutes_example =
    time_allowed-minutes late early half_past
      (record { hours = omega arith; digit = omega arith; tens = omega arith; ones = omega arith })
      (record { hours = omega arith; digit = omega arith; tens = omega arith; ones = omega arith })
      (record { hours = omega arith; digit = omega arith; tens = omega arith; ones = omega arith })

half_past_allowed : time_allowed (codes "23:00") (codes "02:00") (codes "00:30") ≡ true
unfolding time_allowed text_le
half_past_allowed = refl
