-- ===== src/Bot/Render/Plain.antt =====
-- The parts of the texts of client/bot/render.go that need no escape: numbers, dates and glyphs.
use seshat_tasks.Prelude.{
  ℕ, zero, suc, ◌+◌, ◌-◌, ◌/◌, ◌%◌, ltb, length, Text, lit, utf8, true, Option, none, some, [], ◌∷◌,
  ◌≡◌, refl, arith, Bool-cases, inl, inr,
}
use seshat_tasks.Prelude.Int.{ℤ, pos, negsuc, sub64, quot}
use seshat_tasks.Task.{Status}
use seshat_tasks.Server.Http.{format_uint}
use seshat_tasks.Bot.View.{day}
use seshat_tasks.Bot.Text.{repeat, format_int}
use seshat_tasks.Bot.Render.{format_date, format_due, status_glyph, pad, format_year}
use seshat_tasks.Bot.Render.Reader.{is_plain, is_plain-append}

pub format_uint_plain : (digits n : ℕ) → is_plain (format_uint digits n) ≡ true
unfolding format_uint is_plain lit utf8
format_uint_plain zero n = refl
format_uint_plain (suc digits) n = elim (Bool-cases (ltb n 10)) [
  | inl last ↦ rw (last, format_uint) (ground arith)
  | inr more ↦
      rw (more, format_uint)
        (is_plain-append (format_uint digits (n / 10)) ((b'0' + n % 10) ∷ [])
          (format_uint_plain digits (n / 10)) (ground arith))
]

pub glyph_plain : (s : Status) → is_plain (status_glyph s) ≡ true
unfolding status_glyph is_plain lit utf8
glyph_plain s = ground arith

pub repeat_plain : (s : Text) (n : ℕ) → is_plain s ≡ true → is_plain (repeat s n) ≡ true
unfolding repeat is_plain
repeat_plain s zero p = refl
repeat_plain s (suc n) p = is_plain-append s (repeat s n) p (repeat_plain s n p)

pad_plain : (width : ℕ) (s : Text) → is_plain s ≡ true → is_plain (pad width s) ≡ true
unfolding pad
pad_plain width s p =
    is_plain-append (repeat (lit "0") (width - length s)) s
      (repeat_plain (lit "0") (width - length s) (unfold lit utf8 is_plain in refl)) p

year_plain : (y : ℤ) → is_plain (format_year y) ≡ true
unfolding format_year
year_plain (pos n) = pad_plain 4 (format_uint 20 n) (format_uint_plain 20 n)
year_plain (negsuc n) =
    is_plain-append (b'-' ∷ []) (pad 4 (format_uint 20 (suc n))) (unfold is_plain in refl)
      (pad_plain 4 (format_uint 20 (suc n)) (format_uint_plain 20 (suc n)))

int_plain : (z : ℤ) → is_plain (format_int z) ≡ true
unfolding format_int
int_plain (pos n) = format_uint_plain 20 n
int_plain (negsuc n) =
    is_plain-append (b'-' ∷ []) (format_uint 20 (suc n)) (unfold is_plain in refl)
      (format_uint_plain 20 (suc n))

date_plain : (unix offset_min : ℤ) → is_plain (format_date unix offset_min) ≡ true
unfolding format_date
date_plain unix offset_min = is_plain-append _ _ (year_plain _) (
    is_plain-append (lit "-") _ (unfold lit utf8 is_plain in refl) (
      is_plain-append _ _ (pad_plain 2 _ (format_uint_plain 20 _)) (
        is_plain-append (lit "-") _ (unfold lit utf8 is_plain in refl)
          (pad_plain 2 _ (format_uint_plain 20 _)))))

pub due_plain :
    (due : Option ℤ) (now offset_min : ℤ) → is_plain (format_due due now offset_min) ≡ true
unfolding format_due
due_plain none now offset_min = unfold is_plain in refl
due_plain (some due) now offset_min =
    let days = quot (sub64 due now) day in
    let in_days = is_plain-append (format_int days) (lit "d") (int_plain days) (words.3) in
    ground (arith, words, in_days, date_plain due offset_min)
  where
    words :
        (is_plain (lit "overdue") ≡ true)
        × (is_plain (lit "today") ≡ true)
        × (is_plain (lit "tomorrow") ≡ true)
        × (is_plain (lit "d") ≡ true)
    words = unfold lit utf8 is_plain in (refl, refl, refl, refl)
