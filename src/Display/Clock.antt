-- ===== src/Display/Clock.antt =====
-- The clock of src/mod_lcdproc.c: mod_lcdproc_clockstart, mod_lcdproc_timedisplay and
-- mod_lcdproc_clockstop.
use audiobase.Common.{
  ℕ, ◌+◌, ◌-◌, ◌/◌, ◌%◌, ◌^◌, [], ◌∷◌, ◌++◌, false, Option, length, ltb, if◌then◌else◌, ℤ, pos,
  negsuc, pos_part, neg_part, ◌+ℤ◌, ◌-ℤ◌, ltb_ℤ,
}
use audiobase.Text.{Text, codes, show_int}
use audiobase.Display.Globals.{Lcd, Command, plain, send, send_all}
use audiobase.Display.Draw.{Sources, mod_lcdproc_refresh}
use audiobase.Display.Connect.{text_line, mod_lcdproc_setup}

-- The conversion to a signed `char`.
abbrev pub to_char : ℤ → ℤ
to_char z =
    let r = (pos_part z % 256 + 256 - neg_part z % 256) % 256 in
    if ltb r 128 then pos r else negsuc (255 - r)

-- `if (mx<1) mx=1`
abbrev pub at_least_one : ℤ → ℕ
at_least_one z = if ltb_ℤ z (pos 1) then 1 else pos_part z

-- Where the date begins, and the time on the line below it: the places change every minute.
abbrev pub columns : Lcd → ℕ
columns d = at_least_one (to_char (pos d.wid -ℤ pos 10))

abbrev pub rows : Lcd → ℕ
rows d = at_least_one (to_char (d.hgt -ℤ pos 1))

unfoldable pub clock_x : Lcd → ℕ → ℕ
clock_x d t = t / 60 % columns d + 1

unfoldable pub clock_y : Lcd → ℕ → ℕ
clock_y d t = t / 60 / columns d % rows d + 1

-- `(strlen(datestr) - strlen(timestr)) / 2` of size_t, as a char
abbrev pub indent : Text → Text → ℤ
indent datestr timestr = to_char (pos ((length datestr + 2 ^ 64 - length timestr) % 2 ^ 64 / 2))

abbrev pub clock_widget : Text → ℤ → ℤ → Text → Command
clock_widget name x y text = plain (
    codes "widget_set lcdtime "
    ++ (name ++ (32 ∷ (show_int x ++ (32 ∷ (show_int y ++ (32 ∷ 34 ∷ (text ++ 34 ∷ 10 ∷ []))))))))

unfoldable pub mod_lcdproc_timedisplay : Sources → Lcd → Lcd
unfolding clock_x clock_y show_int
mod_lcdproc_timedisplay src d =
    let x = pos (clock_x d src.now) in
    let y = pos (clock_y d src.now) in
    send_all
      (clock_widget (codes "date") x y src.datestr
        ∷ clock_widget (codes "time") (x +ℤ indent src.datestr src.timestr) (y +ℤ pos 1) src.timestr
        ∷ [])
      d

-- `mod_lcdproc_clockmode` is not set here: the assignment is a comment.
unfoldable pub mod_lcdproc_clockstart : Sources → Lcd → Lcd
mod_lcdproc_clockstart src d = mod_lcdproc_timedisplay src (
    send_all
      (text_line "screen_del ABase"
        ∷ text_line "screen_add lcdtime"
        ∷ text_line "screen_set lcdtime -heartbeat off"
        ∷ text_line "widget_add lcdtime time string"
        ∷ text_line "widget_add lcdtime date string"
        ∷ [])
      d)

unfoldable pub mod_lcdproc_clockstop : Sources → Lcd → Option Lcd
mod_lcdproc_clockstop src d =
    mod_lcdproc_refresh src
      (record (mod_lcdproc_setup src.config (send (text_line "screen_del lcdtime") d)) {
        clockmode = false;
      })
