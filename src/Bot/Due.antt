-- ===== src/Bot/Due.antt =====
-- The due-picker keywords of client/bot/view.go.
use seshat_tasks.Prelude.{
  ℕ, suc, ◌+◌, ◌*◌, ◌^◌, ◌≤◌, ◌<◌, Text, lit, ◌==◌, not, ◌&&◌, Option, none, some, if◌then◌else◌,
  ◌≡◌, ap, arith, ◌∙◌,
}
use seshat_tasks.Prelude.Int.{
  ℤ, pos, negsuc, pos_part, neg_part, sub_ℕ, ◌+ℤ◌, ◌-ℤ◌, ◌≤ℤ◌, ltb_ℤ, eqb_ℤ, wrap64, add64, sub64,
  +ℤ_parts, -ℤ_parts, eq_of_parts, wrap64_small, one_part, add64_small, sub64_small, quot, rem,
}
use seshat_tasks.Bot.View.{day}

-- An integer times a positive constant.
unfoldable pub times : ℤ → ℕ → ℤ
times (pos n) d = pos (n * d)
times (negsuc n) d = sub_ℕ 0 (suc n * d)

-- `floorDiv`, at a positive divisor.
unfoldable pub floor_div : ℤ → ℕ → ℤ
floor_div a d =
    let q = quot a d in if not (eqb_ℤ (rem a d) (pos 0)) && ltb_ℤ a (pos 0) then q -ℤ pos 1 else q

-- The last second of the local day `add_days` after today, in UTC.
unfoldable pub due_instant : ℕ → ℤ → ℤ → ℤ
due_instant add_days now offset_min =
    let off = wrap64 (times offset_min 60) in
    let here = add64 now off in
    let local_day_start = wrap64 (times (floor_div here day) day) in
    let local_end = add64 (add64 local_day_start (pos (add_days * day))) (pos 86399) in
    sub64 local_end off

-- `DueFromKeyword`: `none` is an error, and `some none` clears the date.
unfoldable pub due_from_keyword : Text → ℤ → ℤ → Option (Option ℤ)
due_from_keyword kw now offset_min =
    if kw == lit "clear"
    then some none
    else if kw == lit "today"
    then some (some (due_instant 0 now offset_min))
    else if kw == lit "tomorrow"
    then some (some (due_instant 1 now offset_min))
    else if kw == lit "+3d"
    then some (some (due_instant 3 now offset_min))
    else if kw == lit "+1w"
    then some (some (due_instant 7 now offset_min))
    else none

-- The start of the day that `floor_div` gives is at most the time, and less than a day before it,
-- for times before the epoch too.
pub floor_div-day :
    (a : ℤ) → (times (floor_div a day) day ≤ℤ a) × (a ≤ℤ (times (floor_div a day) day +ℤ pos 86399))
unfolding times floor_div quot rem ◌+ℤ◌ ◌-ℤ◌
floor_div-day (pos n) = ground arith
floor_div-day (negsuc n) = ground arith

times_parts :
    (z : ℤ) (d : ℕ)
    → (pos_part (times z d) ≡ pos_part z * d) × (neg_part (times z d) ≡ neg_part z * d)
unfolding times
times_parts (pos n) d = grind arith
times_parts (negsuc n) d = grind arith

-- A time that no sum below can take out of int64: within 2 ^ 62 seconds of the epoch.
abbrev pub InRange : ℤ → Type 0
InRange z = (pos_part z < 2 ^ 62) × (neg_part z < 2 ^ 62)

module _ (add_days : ℕ) (now offset_min : ℤ) (days : add_days < 8) (time : InRange now)
    (lo : sub_ℕ 0 840 ≤ℤ offset_min) (hi : offset_min ≤ℤ pos 840) where
  abbrev off : ℤ
  off = times offset_min 60

  abbrev here : ℤ
  here = now +ℤ off

  abbrev day_start : ℤ
  day_start = times (floor_div here day) day

  off_bounds : (pos_part off ≤ 50400) × (neg_part off ≤ 50400)
  off_bounds =
      let (a, b) = times_parts offset_min 60 in
      (omega (arith, one_part offset_min), omega (arith, one_part offset_min))

  here_eq : add64 now (wrap64 off) ≡ here
  here_eq =
      let (a, b) = off_bounds in
      ap (add64 now) (wrap64_small off (omega arith) (omega arith))
      ∙ add64_small now off (omega arith) (omega arith)

  here_bounds : (pos_part here ≤ pos_part now + 50400) × (neg_part here ≤ neg_part now + 50400)
  here_bounds = omega (arith, off_bounds, +ℤ_parts now off)

  start_bounds :
      (pos_part day_start ≤ pos_part now + 50400) × (neg_part day_start ≤ neg_part now + 136800)
  start_bounds = omega (
    arith,
    here_bounds,
    floor_div-day here,
    one_part here,
    one_part day_start,
    +ℤ_parts day_start (pos 86399),
  )

  -- For a time within 2 ^ 62 seconds of the epoch, before it too, an offset within 14 hours and at most
  -- 7 days to add: some day of 86400 seconds has the local time of now, and the due instant is in
  -- local time the last second of the day that lies the given number of days after that one. It is
  -- not before now, and no sum overflows int64.
  pub due_instant-local :
      (today : ℤ) × (times today day ≤ℤ now +ℤ times offset_min 60)
      × ((now +ℤ times offset_min 60) ≤ℤ (times today day +ℤ pos 86399))
      × (due_instant add_days now offset_min +ℤ times offset_min 60
          ≡ times today day +ℤ pos (add_days * day + 86399))
      × (now ≤ℤ due_instant add_days now offset_min)
  unfolding due_instant
  due_instant-local =
      let (a, b) = off_bounds in
      let (c, d) = start_bounds in
      let k = pos (add_days * day) in
      let e1 : add64 day_start k ≡ day_start +ℤ k =
        add64_small day_start k (omega arith) (omega arith) in
      let (p, q, r) = +ℤ_parts day_start k in
      let e2 : add64 (day_start +ℤ k) (pos 86399) ≡ day_start +ℤ k +ℤ pos 86399 =
        add64_small (day_start +ℤ k) (pos 86399) (omega arith) (omega arith) in
      let (p2, q2, r2) = +ℤ_parts (day_start +ℤ k) (pos 86399) in
      let e3 : sub64 (day_start +ℤ k +ℤ pos 86399) off ≡ day_start +ℤ k +ℤ pos 86399 -ℤ off =
        sub64_small (day_start +ℤ k +ℤ pos 86399) off (omega arith) (omega arith) in
      let w : wrap64 off ≡ off = wrap64_small off (omega arith) (omega arith) in
      let w2 : wrap64 day_start ≡ day_start = wrap64_small day_start (omega arith) (omega arith) in
      let (due, later) : (due_instant add_days now offset_min +ℤ off
            ≡ day_start +ℤ pos (add_days * day + 86399))
          × (now ≤ℤ due_instant add_days now offset_min) =
        rw (here_eq, w, w2, e1, e2, e3)
          (omega (arith, +ℤ_parts, -ℤ_parts, eq_of_parts, floor_div-day here)) in
      (floor_div here day, (floor_div-day here).0, (floor_div-day here).1, due, later)
