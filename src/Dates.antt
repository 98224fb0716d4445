-- ===== src/Dates.antt =====
-- security/dates.ts: calendar dates in `YYYY-MM-DD` form, and the range of a cost query.
pub mod Range
use aws_mcp_gateway.Base.{
  ℕ, ◌+◌, ◌-◌, ◌*◌, ◌/◌, ◌%◌, ◌≡◌, refl, Bool, true, false, ◌&&◌, ◌||◌, Option, none, some, String,
  List, [], ◌∷◌, ltb, leb, eqb, not, codes, show, ◌<>◌, if◌then◌else◌,
}
use aws_mcp_gateway.Errors.{Result, ok, thrown, ◌>>=◌, ◌>>◌, invalid}
use aws_mcp_gateway.Js.Numbers.{Num, whole, num_lt}

pub record CalendarDate : Type 0 where
  pub year : ℕ
  pub month : ℕ
  pub day : ℕ

is_leap : ℕ → Bool
is_leap y = eqb (y % 4) 0 && (not (eqb (y % 100) 0) || eqb (y % 400) 0)

days_in_month : ℕ → ℕ → ℕ
unfolding is_leap
days_in_month y m =
    if eqb m 2
    then if is_leap y then 29 else 28
    else if eqb m 4 || eqb m 6 || eqb m 9 || eqb m 11
    then 30
    else 31

-- A date that the calendar has: `new Date` accepts it and `toISOString` gives it back unchanged.
unfoldable pub is_calendar_date : CalendarDate → Bool
unfolding days_in_month
is_calendar_date d =
    leb 1 d.month && leb d.month 12 && leb 1 d.day && leb d.day (days_in_month d.year d.month)

days_before_month : ℕ → ℕ → ℕ
unfolding days_in_month
days_before_month y ℕ.zero = 0
days_before_month y (ℕ.suc ℕ.zero) = 0
days_before_month y (ℕ.suc (ℕ.suc m)) = days_before_month y (ℕ.suc m) + days_in_month y (ℕ.suc m)

-- The days from 0000-01-01 to a date; the leap years before year y number y/4 - y/100 + y/400, each
-- rounded up.
unfoldable pub day_number : CalendarDate → ℕ
unfolding days_before_month
day_number d =
    365 * d.year
    + (d.year + 3) / 4
    - (d.year + 99) / 100
    + (d.year + 399) / 400
    + days_before_month d.year d.month
    + (d.day - 1)

is_digit : ℕ → Bool
is_digit c = leb b'0' c && leb c b'9'

two : ℕ → ℕ → ℕ
two a b = (a - b'0') * 10 + (b - b'0')

-- the fields of a text that `/^\d{4}-\d{2}-\d{2}$/` matches
unfoldable pub iso_fields : List ℕ → Option CalendarDate
unfolding is_digit two
iso_fields (y ∷ u ∷ v ∷ w ∷ s ∷ m ∷ n ∷ t ∷ d ∷ e ∷ []) =
    if is_digit y
      && is_digit u
      && is_digit v
      && is_digit w
      && (is_digit m && is_digit n && is_digit d && is_digit e)
      && (eqb s b'-' && eqb t b'-')
    then some (record { year = two y u * 100 + two v w; month = two m n; day = two d e })
    else none
iso_fields cs = none

-- `parseIsoDate`: the day at whose first instant the `Date` stands
unfoldable pub parse_iso_date : String → Result ℕ
unfolding iso_fields is_calendar_date day_number
parse_iso_date value = elim (iso_fields (codes value)) [
  | none ↦ thrown (invalid "Dates must be in YYYY-MM-DD format.")
  | some date ↦
      if is_calendar_date date
      then ok (day_number date)
      else thrown (invalid "Dates must be valid calendar dates.")
]

-- `date > now`, where `now_ms` counts from 1970-01-01, day 719528
in_future : ℕ → ℕ → Bool
in_future now_ms day = ltb (now_ms + 719528 * 86400000) (day * 86400000)

ensure : Bool → String → Result (Unit {0})
ensure true message = ok tt
ensure false message = thrown (invalid message)

-- a limit as a message prints it; every limit of the program is a whole number
limit_text : Num → String
limit_text (Num.ratio n d) = show n
limit_text n = ""

-- the tests of `validateCostDates` on the two days
check_range : ℕ → ℕ → ℕ → Num → Result (Unit {0})
unfolding in_future ensure limit_text
check_range now_ms start stop max_days = do
  ensure (ltb start stop) "startDate must be before endDate."
  ensure (not (in_future now_ms start)) "startDate cannot be in the future."
  ensure (not (in_future now_ms stop)) "endDate cannot be in the future."
  ensure (not (num_lt max_days (whole (stop - start))))
      ("Date range must not exceed " <> limit_text max_days <> " days.")

-- `validateCostDates`, at a time
unfoldable pub validate_cost_dates : ℕ → String → String → Num → Result (Unit {0})
unfolding check_range
validate_cost_dates now_ms start_date end_date max_days = do
  start ← parse_iso_date start_date
  stop ← parse_iso_date end_date
  check_range now_ms start stop max_days
