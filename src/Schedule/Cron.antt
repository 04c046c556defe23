-- ===== src/Schedule/Cron.antt =====
-- When a schedule is due (`_cron_matches`, scheduler.py, and `_should_run`, backup_manager.py). A time is
-- a number of microseconds.
use emarecloud.Prelude.{
  ℕ, ◌+◌, ◌*◌, String, Bool, false, not, ◌&&◌, ◌||◌, Option, none, some, List, ◌∷◌, ltb, ◌==◌,
  nat_eq, string_eq, pair_eq,
}
use emarecloud.Text.{is_empty, strip, words}
use emarecloud.Integers.{ℤ, pos, int_beq, parse_int}

-- A `datetime` with the fields that are read of it; `weekday` is 0 on a Monday.
pub record Moment : Type 0 where
  pub minute : ℕ
  pub hour : ℕ
  pub day : ℕ
  pub month : ℕ
  pub weekday : ℕ
  pub instant : ℕ

abbrev pub is_number : ℕ → Option ℤ → Bool
is_number n none = false
is_number n (some i) = int_beq i (pos n)

-- One field of a schedule: an asterisk, or the number itself. A field that is no number raises a
-- `ValueError`, and no schedule with one is due.
unfoldable pub field_matches : String → ℕ → Bool
field_matches field n = field == "*" || is_number n (parse_int field)

-- The first five fields; with fewer of them a schedule is never due.
abbrev pub fields_match : List String → Moment → Bool
fields_match (minute ∷ hour ∷ day ∷ month ∷ dow ∷ rest) now =
    field_matches minute now.minute
    && field_matches hour now.hour
    && field_matches day now.day
    && field_matches month now.month
    && field_matches dow now.weekday
fields_match fields now = false

-- `now - last_run < timedelta(seconds=...)`, where there was a run.
abbrev pub is_recent : (seconds : ℕ) → Moment → Option ℕ → Bool
is_recent seconds now none = false
is_recent seconds now (some last_run) = ltb now.instant (last_run + seconds * 1000000)

-- `_cron_matches`
unfoldable pub cron_matches : (schedule : String) → Moment → (last_run : Option ℕ) → Bool
cron_matches schedule now last_run =
    not (is_empty schedule)
    && fields_match (words (strip schedule)) now
    && not (is_recent 55 now last_run)

-- `_should_run`: a profile that has never run is due at once.
unfoldable pub should_run : (schedule : String) → Moment → (last_run : Option ℕ) → Bool
should_run schedule now none = not (is_empty schedule)
should_run schedule now (some last_run) =
    not (is_empty schedule)
    && fields_match (words (strip schedule)) now
    && not (is_recent 60 now (some last_run))
