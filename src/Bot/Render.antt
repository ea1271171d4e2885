-- ===== src/Bot/Render.antt =====
-- client/bot/render.go: the text and the buttons of a listing, and what cards share with it.
pub mod Card
pub mod Escape
pub mod Reader
pub mod Fixed
pub mod Plain
pub mod Shown
pub mod Messages
pub mod Accepted
pub mod Size
use seshat_tasks.Prelude.{
  ℕ, zero, suc, ◌+◌, ◌-◌, ◌*◌, ◌/◌, ◌%◌, Text, lit, ◌==◌, eqb, ltb, leb, length, Bool, true, false,
  not, Option, none, some, List, [], ◌∷◌, ◌++◌, if◌then◌else◌,
}
use seshat_tasks.Prelude.Int.{
  ℤ, pos, negsuc, pos_part, neg_part, add64, sub64, wrap64, ◌+ℤ◌, ◌-ℤ◌, ltb_ℤ, leb_ℤ, eqb_ℤ, quot,
}
use seshat_tasks.Task.{Status, status_in_progress, status_done, status_cancelled, Task}
use seshat_tasks.Server.Http.{format_uint}
use seshat_tasks.Bot.View.{day, Row}
use seshat_tasks.Bot.Page.{Page}
use seshat_tasks.Bot.Due.{times, floor_div}
use seshat_tasks.Bot.Registry.{ActionKind, open_task, page, noop, Action}
use seshat_tasks.Bot.Text.{replace_all, repeat, format_int}

pub record Button : Type 0 where
  pub label : Text
  pub action : Action

abbrev pub Keyboard : Type 0
Keyboard = List (List Button)

-- `EscapeHTML`, pass by pass.
unfoldable pub escape_html : Text → Text
escape_html s =
    let s = replace_all b'&' (lit "&amp;") s in
    let s = replace_all b'<' (lit "&lt;") s in
    let s = replace_all b'>' (lit "&gt;") s in replace_all b'"' (lit "&quot;") s

-- The date of a day of the epoch in the Gregorian calendar: year, month and day. Years start in
-- March, and an era is 400 years.
pub record Date : Type 0 where
  pub year : ℤ
  pub month : ℕ
  pub dom : ℕ

unfoldable pub year_of_era : ℕ → ℕ
year_of_era doe = (doe - doe / 1460 + doe / 36524 - doe / 146096) / 365

unfoldable pub civil_date : ℤ → Date
civil_date days =
    let z = days +ℤ pos 719468 in
    let era = floor_div z 146097 in
    let doe = pos_part (z -ℤ times era 146097) in
    let yoe = year_of_era doe in
    let doy = doe - (365 * yoe + yoe / 4 - yoe / 100) in
    let mp = (5 * doy + 2) / 153 in
    let month = if ltb mp 10 then mp + 3 else mp - 9 in
    record {
      year = times era 400 +ℤ pos (yoe + (if leb month 2 then 1 else 0));
      month = month;
      dom = doy - (153 * mp + 2) / 5 + 1;
    }

-- A number with zeros in front, up to a width.
unfoldable pub pad : ℕ → Text → Text
pad width s = repeat (lit "0") (width - length s) ++ s

unfoldable pub format_year : ℤ → Text
format_year (pos n) = pad 4 (format_uint 20 n)
format_year (negsuc n) = b'-' ∷ pad 4 (format_uint 20 (suc n))

-- `FormatDate`, with Go's layout `2006-01-02`.
unfoldable pub format_date : ℤ → ℤ → Text
format_date unix offset_min =
    let d = civil_date (floor_div (add64 unix (wrap64 (times offset_min 60))) day) in
    format_year d.year
    ++ (lit "-" ++ (pad 2 (format_uint 20 d.month) ++ (lit "-" ++ pad 2 (format_uint 20 d.dom))))

-- `FormatDue`; the quotient is not negative there.
unfoldable pub format_due : Option ℤ → ℤ → ℤ → Text
format_due none now offset_min = []
format_due (some due) now offset_min =
    let delta = sub64 due now in
    if ltb_ℤ delta (pos 0)
    then lit "overdue"
    else if leb_ℤ delta (pos day)
    then lit "today"
    else if leb_ℤ delta (pos (2 * day))
    then lit "tomorrow"
    else if leb_ℤ delta (pos (7 * day))
    then format_int (quot delta day) ++ lit "d"
    else format_date due offset_min

unfoldable pub status_glyph : Status → Text
status_glyph s =
    if s == status_in_progress
    then lit "◐"
    else if s == status_done
    then lit "✓"
    else if s == status_cancelled
    then lit "✗"
    else lit "○"

-- One line of a listing, number `i` counted from 0.
unfoldable pub row_line : ℕ → Row → ℤ → ℤ → Text
row_line i r now offset_min =
    let due = format_due r.task.content.due_at now offset_min in
    format_uint 20 (i + 1)
    ++ (lit ". "
        ++ (repeat (lit "  ") r.depth
            ++ (status_glyph r.task.content.status
                ++ (lit " "
                    ++ (escape_html r.task.content.title
                        ++ ((if r.parent_title == []
                              then []
                              else lit " <i>in " ++ (escape_html r.parent_title ++ lit "</i>"))
                            ++ ((if due == [] then [] else lit "  ⏰ " ++ due) ++ lit "\n")))))))

unfoldable pub row_lines : ℕ → List Row → ℤ → ℤ → Text
row_lines i [] now offset_min = []
row_lines i (r ∷ rs) now offset_min =
    row_line i r now offset_min ++ row_lines (i + 1) rs now offset_min

-- The text of `RenderPage`.
unfoldable pub page_text : Page → Text → ℕ → ℤ → ℤ → Text
page_text p query overflow now offset_min =
    (if query == [] then [] else lit "Matches for <b>" ++ (escape_html query ++ lit "</b>\n\n"))
    ++ (row_lines 0 p.rows now offset_min
        ++ ((if ltb 0 p.overflow
              then lit "\n<i>…and " ++ (format_uint 20 p.overflow ++ lit " more subtasks</i>\n")
              else [])
            ++ (if ltb 0 overflow
                then lit "\n<i>…and "
                  ++ (format_uint 20 overflow ++ lit " more — use the TUI</i>\n")
                else [])))

-- The loop that fills rows of buttons up to a width: `row` is the one in work.
unfoldable pub fill_rows : ℕ → List Button → List Button → Keyboard
fill_rows width row [] = if ltb 0 (length row) then row ∷ [] else []
fill_rows width row (b ∷ bs) =
    let row' = row ++ (b ∷ []) in
    if eqb (length row') width then row' ∷ fill_rows width [] bs else fill_rows width row' bs

abbrev pub action_of : ActionKind → Action
action_of kind = record {
  kind = kind;
  task_id = [];
  arg = [];
  page = pos 0;
  query = [];
  has_list = false;
  expected_version = 0;
  text = [];
}

unfoldable pub open_buttons : ℕ → ℕ → Text → List Row → List Button
open_buttons i index query [] = []
open_buttons i index query (r ∷ rs) =
    record {
      label = format_uint 20 (i + 1);
      action = record (action_of open_task) {
        task_id = r.task.id;
        page = pos index;
        query = query;
        has_list = true;
      };
    }
    ∷ open_buttons (i + 1) index query rs

unfoldable pub turn_page : Text → ℕ → Text → Button
turn_page label index query = record {
  label = label;
  action = record (action_of page) { page = pos index; query = query };
}

unfoldable pub nav_buttons : Page → Text → List Button
nav_buttons p query =
    (if ltb 0 p.index then turn_page (lit "◀") (p.index - 1) query ∷ [] else [])
    ++ (record {
      label =
          lit " "
          ++ (format_uint 20 (p.index + 1) ++ (lit "/" ++ (format_uint 20 p.count ++ lit " ")));
      action = action_of noop;
    }
        ∷ (if ltb p.index (p.count - 1) then turn_page (lit "▶") (p.index + 1) query ∷ [] else []))

unfoldable pub page_keyboard : Page → Text → Keyboard
page_keyboard p query =
    fill_rows 5 [] (open_buttons 0 p.index query p.rows)
    ++ (if ltb 1 p.count then nav_buttons p query ∷ [] else [])

-- `RenderPage`
unfoldable pub render_page : Page → Text → ℕ → ℤ → ℤ → Text × Keyboard
render_page p query overflow now offset_min =
    if eqb (length p.rows) 0
    then (
      if query == []
          then lit "Nothing open."
          else lit "No open task matches <b>" ++ (escape_html query ++ lit "</b>."),
      [],
    )
    else (page_text p query overflow now offset_min, page_keyboard p query)
