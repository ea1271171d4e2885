-- ===== src/Bot/Text.antt =====
-- What the bot uses of Go's `strings`, on the bytes of a string. `strings.ToLower` goes by the
-- Unicode tables, and stays an argument of the functions that use it.
use seshat_tasks.Prelude.{
  ℕ, zero, suc, Text, eqb, leb, length, Bool, true, false, ◌&&◌, ◌||◌, Option, none, some, List, [],
  ◌∷◌, ◌++◌, if◌then◌else◌,
}
use seshat_tasks.Prelude.Int.{ℤ, pos, negsuc}
use seshat_tasks.Server.Http.{format_uint}

-- The UTF-8 bytes of `unicode.IsSpace`, of one, two and three bytes.
unfoldable pub space1 : ℕ → Bool
space1 a = leb 9 a && leb a 13 || eqb a 0x20

unfoldable pub space2 : ℕ → ℕ → Bool
space2 a b = eqb a 0xc2 && (eqb b 0x85 || eqb b 0xa0)

unfoldable pub space3 : ℕ → ℕ → ℕ → Bool
space3 a b c =
    eqb a 0xe1 && eqb b 0x9a && eqb c 0x80
    || eqb a 0xe2
      && eqb b 0x80
      && (leb 0x80 c && leb c 0x8a || eqb c 0xa8 || eqb c 0xa9 || eqb c 0xaf)
    || eqb a 0xe2 && eqb b 0x81 && eqb c 0x9f
    || eqb a 0xe3 && eqb b 0x80 && eqb c 0x80

-- The text after a space that it starts with, and the reversed text before a space that ends it.
unfoldable pub after_space : Text → Option Text
after_space [] = none
after_space (a ∷ []) = if space1 a then some [] else none
after_space (a ∷ (b ∷ [])) =
    if space1 a then some (b ∷ []) else if space2 a b then some [] else none
after_space (a ∷ (b ∷ (c ∷ s))) =
    if space1 a
    then some (b ∷ (c ∷ s))
    else if space2 a b
    then some (c ∷ s)
    else if space3 a b c
    then some s
    else none

unfoldable pub before_space : Text → Option Text
before_space [] = none
before_space (a ∷ []) = if space1 a then some [] else none
before_space (b ∷ (a ∷ [])) =
    if space1 b then some (a ∷ []) else if space2 a b then some [] else none
before_space (c ∷ (b ∷ (a ∷ s))) =
    if space1 c
    then some (b ∷ (a ∷ s))
    else if space2 b c
    then some (a ∷ s)
    else if space3 a b c
    then some s
    else none

-- Each round of the two loops makes the text shorter.
unfoldable pub strip : (Text → Option Text) → ℕ → Text → Text
strip next zero s = s
strip next (suc fuel) s = elim (next s) [ none ↦ s | some rest ↦ strip next fuel rest ]

unfoldable pub reverse_onto : Text → Text → Text
reverse_onto [] out = out
reverse_onto (a ∷ s) out = reverse_onto s (a ∷ out)

abbrev pub backwards : Text → Text
backwards s = reverse_onto s []

-- `strings.TrimSpace`
unfoldable pub trim_space : Text → Text
trim_space s =
    let front = strip after_space (length s) s in
    backwards (strip before_space (length front) (backwards front))

-- `strings.Fields(s)[0]` of a text that does not start with a space.
unfoldable pub first_field : Text → Text
first_field [] = []
first_field (a ∷ s) = elim (after_space (a ∷ s)) [ none ↦ a ∷ first_field s | some _ ↦ [] ]

-- `strings.Cut` at a byte: what is before it, and what is after it where it occurs.
unfoldable pub cut : ℕ → Text → Text × Option Text
cut sep [] = ([], none)
cut sep (a ∷ s) =
    let (before, after) = cut sep s in if eqb a sep then ([], some s) else (a ∷ before, after)

-- `strings.Split` at a byte.
unfoldable pub split_from : ℕ → Text → Text → List Text
split_from sep word [] = backwards word ∷ []
split_from sep word (a ∷ s) =
    if eqb a sep then backwards word ∷ split_from sep [] s else split_from sep (a ∷ word) s

abbrev pub split : ℕ → Text → List Text
split sep s = split_from sep [] s

-- `strings.Join`
unfoldable pub join : Text → List Text → Text
join sep [] = []
join sep (s ∷ []) = s
join sep (s ∷ (t ∷ ts)) = s ++ (sep ++ join sep (t ∷ ts))

unfoldable pub starts_with : Text → Text → Bool
starts_with [] s = true
starts_with (p ∷ prefix) [] = false
starts_with (p ∷ prefix) (a ∷ s) = eqb p a && starts_with prefix s

-- `strings.Contains`
unfoldable pub contains : Text → Text → Bool
contains [] needle = starts_with needle []
contains (a ∷ s) needle = starts_with needle (a ∷ s) || contains s needle

-- `strings.ReplaceAll` of one byte.
unfoldable pub replace_all : ℕ → Text → Text → Text
replace_all old new [] = []
replace_all old new (a ∷ s) = (if eqb a old then new else a ∷ []) ++ replace_all old new s

-- `strings.Repeat`
unfoldable pub repeat : Text → ℕ → Text
repeat s zero = []
repeat s (suc n) = s ++ repeat s n

-- `strconv.Itoa` and `%d`
unfoldable pub format_int : ℤ → Text
format_int (pos n) = format_uint 20 n
format_int (negsuc n) = b'-' ∷ format_uint 20 (suc n)
