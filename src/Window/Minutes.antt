-- ===== src/Window/Minutes.antt =====
-- The comparison of clock texts in proxmox_fleet/window.py against minutes of the day.
use proxmox_management.Prelude.{
  ℕ, ◌+◌, ◌*◌, ◌-◌, ◌<◌, Text, ◌&&◌, ◌||◌, [], ◌∷◌, ◌≡◌, if◌then◌else◌, leb, arith,
}
use proxmox_management.Window.{text_le, time_allowed}

-- the digits of a time HH:MM
pub record Clock : Type 0 where
  pub h1 : ℕ
  pub h2 : ℕ
  pub m1 : ℕ
  pub m2 : ℕ

pub record IsClock (c : Clock) : Type 0 where
  pub hours : 10 * c.h1 + c.h2 < 24
  pub digit : c.h2 < 10
  pub tens : c.m1 < 6
  pub ones : c.m2 < 10

abbrev pub clock_text : Clock → Text
clock_text c = (48 + c.h1) ∷ (48 + c.h2) ∷ 58 ∷ (48 + c.m1) ∷ (48 + c.m2) ∷ []

abbrev pub minute_of : Clock → ℕ
minute_of c = (10 * c.h1 + c.h2) * 60 + 10 * c.m1 + c.m2

-- the minutes from a to the next time that it is b
abbrev pub minutes_until : ℕ → ℕ → ℕ
minutes_until a b = if leb a b then b - a else b + 1440 - a

text_le-clock_text :
    (a b : Clock)
    → IsClock a
    → IsClock b
    → text_le (clock_text a) (clock_text b) ≡ leb (minute_of a) (minute_of b)
unfolding text_le
text_le-clock_text a b ha hb =
    ground (arith, ha.digit, ha.tens, ha.ones, hb.digit, hb.tens, hb.ones)

around :
    (s e c : ℕ)
    → s < 1440
    → e < 1440
    → c < 1440
    → (if leb s e then leb s c && leb c e else leb s c || leb c e)
      ≡ leb (minutes_until s c) (minutes_until s e)
around s e c hs he hc = ground arith

minute-bound : (c : Clock) → IsClock c → minute_of c < 1440
minute-bound c h = omega (arith, h.hours, h.tens, h.ones)

-- For times of the day, the time check holds if and only if, counted forwards from the window's
-- start and past midnight where necessary, now comes no later than the window's end.
pub time_allowed-minutes :
    (start end now : Clock)
    → IsClock start
    → IsClock end
    → IsClock now
    → time_allowed (clock_text start) (clock_text end) (clock_text now)
      ≡ leb
          (minutes_until (minute_of start) (minute_of now))
          (minutes_until (minute_of start) (minute_of end))
unfolding time_allowed
time_allowed-minutes start end now hs he hn =
    simp
      (
        text_le-clock_text start end hs he,
        text_le-clock_text start now hs hn,
        text_le-clock_text now end hn he,
      )
      (around (minute_of start) (minute_of end) (minute_of now) (minute-bound start hs)
        (minute-bound end he) (minute-bound now hn))
