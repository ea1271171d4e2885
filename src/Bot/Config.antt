-- ===== src/Bot/Config.antt =====
-- client/bot/config.go: the UTC offset of the configuration, in minutes.
use seshat_tasks.Prelude.{
  ℕ, ◌+◌, ◌-◌, ◌*◌, ◌/◌, ◌%◌, ◌<◌, Text, ltb, eqb, Bool, true, not, ◌&&◌, ◌||◌, Option, none, some,
  [], ◌∷◌, if◌then◌else◌, ◌≡◌, arith,
}
use seshat_tasks.Prelude.Int.{ℤ, pos, negsuc, sub_ℕ, ◌≤ℤ◌, ltb_ℤ}

unfoldable pub is_digit : ℕ → Bool
is_digit c = not (ltb c b'0' || ltb b'9' c)

-- `strconv.Atoi` on two digits.
unfoldable pub two_digits : ℕ → ℕ → ℕ
two_digits a b = (a - b'0') * 10 + (b - b'0')

-- The value of an offset with a checked shape.
unfoldable pub offset_value : ℕ → ℕ → ℕ → Option ℤ
offset_value sign hh mm =
    if ltb 59 mm
    then none
    else let total = if eqb sign b'-' then sub_ℕ 0 (hh * 60 + mm) else pos (hh * 60 + mm) in
      if ltb_ℤ total (sub_ℕ 0 840) || ltb_ℤ (pos 840) total then none else some total

-- `parseUTCOffset`: exactly six bytes, `+HH:MM` or `-HH:MM`; `none` is an error.
unfoldable pub parse_utc_offset : Text → Option ℤ
parse_utc_offset (a ∷ b ∷ c ∷ d ∷ e ∷ f ∷ []) =
    if not (eqb a b'+') && not (eqb a b'-') || not (eqb d b':')
    then none
    else if is_digit b && is_digit c && is_digit e && is_digit f
    then offset_value a (two_digits b c) (two_digits e f)
    else none
parse_utc_offset _ = none

-- Two digits of a number below 100.
abbrev tens : ℕ → ℕ
tens n = b'0' + n / 10

abbrev units : ℕ → ℕ
units n = b'0' + n % 10

-- The strict form of an offset.
format_minutes : ℕ → ℕ → Text
format_minutes sign n =
    sign ∷ tens (n / 60) ∷ units (n / 60) ∷ b':' ∷ tens (n % 60) ∷ units (n % 60) ∷ []

pub format_utc_offset : ℤ → Text
unfolding format_minutes
format_utc_offset (pos n) = format_minutes b'+' n
format_utc_offset (negsuc n) = format_minutes b'-' (n + 1)

is_digit-tens :
    (n : ℕ)
    → n < 100
    → (is_digit (tens n) ≡ true) × (is_digit (units n) ≡ true) × (two_digits (tens n) (units n) ≡ n)
unfolding is_digit two_digits
is_digit-tens n h = ground arith

-- Every offset within 14 hours is read back from its strict form, a sign and two times two digits.
pub parse_utc_offset-format :
    (z : ℤ) → sub_ℕ 0 840 ≤ℤ z → z ≤ℤ pos 840 → parse_utc_offset (format_utc_offset z) ≡ some z
unfolding parse_utc_offset format_utc_offset offset_value
parse_utc_offset-format (pos n) lo hi =
    let (a, b, c) = is_digit-tens (n / 60) (omega arith) in
    let (d, e, f) = is_digit-tens (n % 60) (omega arith) in rw (a, b, d, e, c, f) (ground arith)
parse_utc_offset-format (negsuc n) lo hi =
    let (a, b, c) = is_digit-tens ((n + 1) / 60) (omega arith) in
    let (d, e, f) = is_digit-tens ((n + 1) % 60) (omega arith) in
    rw (a, b, d, e, c, f) (ground arith)

offset_value_bounds :
    (sign hh mm : ℕ) (z : ℤ)
    → offset_value sign hh mm ≡ some z
    → (sub_ℕ 0 840 ≤ℤ z) × (z ≤ℤ pos 840)
unfolding offset_value
offset_value_bounds sign hh mm z h = ground arith

-- An offset that is accepted lies within 14 hours of UTC.
pub parse_utc_offset_bounds :
    (s : Text) (z : ℤ) → parse_utc_offset s ≡ some z → (sub_ℕ 0 840 ≤ℤ z) × (z ≤ℤ pos 840)
unfolding parse_utc_offset
parse_utc_offset_bounds (a ∷ b ∷ c ∷ d ∷ e ∷ f ∷ []) z h =
    ground (arith, offset_value_bounds a (two_digits b c) (two_digits e f) z)
parse_utc_offset_bounds _ z h = absurd (ground arith)
