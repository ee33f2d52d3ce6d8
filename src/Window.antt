-- ===== src/Window.antt =====
-- `in_window` of proxmox_fleet/window.py. The clock of a time zone is a parameter: the weekday and
-- the "HH:MM" of now in the zone of that name, UTC for an unknown name.
pub mod Minutes
pub mod Examples
use proxmox_management.Prelude.{
  ℕ, zero, suc, Text, Bool, true, false, not, ◌&&◌, ◌||◌, List, [], ◌∷◌, Option, none, some, map,
  if◌then◌else◌, codes, text_in, lower, is_empty, ltb, ◌==◌,
}

pub record MaintenanceWindow : Type 0 where
  pub days : Option (List Text)
  pub start : Text
  pub end : Text
  pub tz : Text

pub record Moment : Type 0 where
  pub weekday : ℕ
  pub clock : Text

-- a <= b of two strings, by code points
unfoldable pub text_le : Text → Text → Bool
text_le [] b = true
text_le (x ∷ a) [] = false
text_le (x ∷ a) (y ∷ b) = ltb x y || ((x == y) && text_le a b)

-- _WEEKDAYS, indexed by datetime.weekday()
unfoldable pub day_name : ℕ → Text
day_name n =
    if n == 0
    then codes "mon"
    else if n == 1
    then codes "tue"
    else if n == 2
    then codes "wed"
    else if n == 3
    then codes "thu"
    else if n == 4
    then codes "fri"
    else if n == 5
    then codes "sat"
    else codes "sun"

-- the check of the day
unfoldable pub day_allowed : Option (List Text) → ℕ → Bool
day_allowed none weekday = true
day_allowed (some days) weekday = text_in (day_name weekday) (map lower days)

abbrev pub or_default : Text → Text → Text
or_default value default = if is_empty value then default else value

-- the check of the time
unfoldable pub time_allowed : Text → Text → Text → Bool
time_allowed start end current =
    if text_le start end
    then text_le start current && text_le current end
    else text_le start current || text_le current end

unfoldable pub in_window : (Text → Moment) → MaintenanceWindow → Bool → Bool
in_window zone window force =
    let now = zone (or_default window.tz (codes "UTC")) in
    if force
    then true
    else if not (day_allowed window.days now.weekday)
    then false
    else time_allowed (or_default window.start (codes "00:00"))
        (or_default window.end (codes "23:59")) now.clock
