-- ===== src/Display/Tests.antt =====
-- Tests of the display (src/mod_lcdproc.c), and the theorems at concrete inputs.
use audiobase.Common.{
  ℕ, ◌+◌, ◌-◌, ◌*◌, ◌%◌, ◌+ℤ◌, ◌-ℤ◌, ◌/◌, ◌≤◌, [], ◌∷◌, ◌++◌, false, none, some, ◌≡◌, refl, arith,
  length, ltb, if◌then◌else◌, pos,
}
use audiobase.Text.{
  codes, show_nat, to_lower, to_int, show_int, emit, atoi, strtok, nocase_eq, show_02,
}
use audiobase.State.{Browser}
use audiobase.Bus.Msgtype
use audiobase.Tools.{Line}
use audiobase.Display.{
  Lcd, set_string, set_scroller, set_bar, print_command, send, mod_lcdproc_poll,
  mod_lcdproc_message, mod_lcdproc_refresh_browser, mod_lcdproc_settmp, tmp_text, pad_to,
  append_times, mod_lcdproc_setstring, align_text, tmp_bar, minutes_text, hours_text, clock_x,
  clock_y, long_status, averaged, entered_position, average, start_average, clock_step, dispatch,
  displaymode, mod_lcdproc_refreshtime, time_text,
}
use audiobase.Browser.{mod_browser_cursor, new_position}
use audiobase.Display.Rows.{Fits}
use audiobase.Display.Negative.{refresh_browser-short_list}
use audiobase.Display.Overrun.{filled, long_status_fills, long_status_overrun}
use audiobase.Display.Average.{shown, shown_times, average_lem}
use audiobase.Display.TimeText.{two_digits, seconds_of, time_texts}
use audiobase.Display.ClockPlace.{clock_place}
use audiobase.Display.Kept.{Kept}
use audiobase.Display.ClockMode.{here, next, message, Steps-Kept}
use audiobase.Display.Samples.{entry, browser, lcd, sources}

-- The text of a command.
prints_scroller :
    print_command (set_scroller (codes "title") (pos 2) (pos 20) (pos 2) (codes "X "))
    ≡ codes "widget_set ABase title 1 2 20 2 m 2 " ++ (34 ∷ codes "X " ++ 34 ∷ 10 ∷ [])
unfolding print_command
prints_scroller = refl

-- The greeting sets the size of the display.
reads_greeting :
    mod_lcdproc_poll []
      (Line.line (codes "connect LCDproc 0.4 protocol 0.3 lcd wid 16 hgt 2 cellwid 5 cellhgt 8") [])
      lcd
    ≡ record lcd { wid = 16; hgt = pos 2; display_wid = 16; display_hgt = pos 2 }
unfolding mod_lcdproc_poll to_lower
reads_greeting = refl

-- The volume is shown by a bar behind its name: half of the 16 columns that are left, of 5 dots.
shows_volume :
    mod_lcdproc_settmp 1000 (some (codes "Vol")) (pos 50) false lcd
    ≡ some (record lcd {
      tmptimeout = 1004;
      sent =
          set_string (codes "tmptext") (pos 1) (pos 4) (codes "Vol                 ")
          ∷ set_bar (pos 5) (pos 4) (pos 40)
          ∷ [];
    })
unfolding mod_lcdproc_settmp tmp_text pad_to append_times mod_lcdproc_setstring align_text to_int
    tmp_bar
shows_volume = refl

-- A display of eight lines for four entries.
abbrev tall : Lcd
tall = record lcd {
  hgt = pos 8;
  display_hgt = pos 8;
  browser = record browser { cursor_pos = pos 2 };
}

tall-Fits : Fits tall
tall-Fits = record {
  is_open = refl;
  some_columns = omega arith;
  columns = omega arith;
  names = omega arith;
  headline = omega arith;
}

abbrev long_list : Lcd
long_list = record tall {
  browser = record browser {
    elements =
        entry (codes "..")
        ∷ entry (codes "a")
        ∷ entry (codes "b")
        ∷ entry (codes "c")
        ∷ entry (codes "d")
        ∷ entry (codes "e")
        ∷ [];
    cursor_pos = pos 4;
  };
}

long_list-Fits : Fits long_list
long_list-Fits = record {
  is_open = refl;
  some_columns = omega arith;
  columns = omega arith;
  names = omega arith;
  headline = omega arith;
}

refresh_browser-short_list_example :
    (b : Browser) × (mod_browser_cursor 8 (codes "+1") long_list.browser ≡ some b)
    × (mod_lcdproc_refresh_browser (record long_list { browser = b }) ≡ none)
refresh_browser-short_list_example =
    refresh_browser-short_list 8 5 (codes "+1") long_list long_list-Fits refl
      (unfold new_position atoi ◌+ℤ◌ ◌-ℤ◌ in refl) (omega arith) (omega arith) (omega arith)
      (omega arith)

long_status_fills_example :
    (blanks : ℕ) × (length (filled (record lcd { wid = 26 }) blanks) ≡ 26)
    × (long_status (record lcd { wid = 26 })
        ≡ some (
            send
              (set_string
                (codes "status")
                (pos 1)
                (pos 3)
                (filled (record lcd { wid = 26 }) blanks))
              (averaged (record lcd { wid = 26 }))))
long_status_fills_example =
    long_status_fills (record lcd { wid = 26 }) refl (omega arith) refl
      (unfold entered_position show_int show_nat emit average start_average ◌+ℤ◌ in omega arith)

long_status_overrun_example : long_status lcd ≡ none
long_status_overrun_example =
    long_status_overrun lcd refl (omega arith) (omega arith) refl refl
      (unfold entered_position show_int show_nat emit average start_average ◌+ℤ◌ in omega arith)

average_lem_example :
    shown (shown_times 2 (pos 128) (pos 0, 0)) ≡ pos (if ltb 2 15 then (2 + 1) * 128 / 2 else 128)
average_lem_example = average_lem 2 128 (omega arith) (omega arith)

time_texts_example :
    (minutes_text (pos (seconds_of 1 2 3)) ≡ two_digits 2 ++ (b':' ∷ two_digits 3))
    × (hours_text (pos (seconds_of 1 2 3))
        ≡ show_nat 1 ++ (b':' ∷ (two_digits 2 ++ (b':' ∷ two_digits 3))))
time_texts_example = time_texts 1 2 3 (omega arith) (omega arith)

clock_place_example :
    (1 ≤ clock_x lcd 1000)
    × (clock_x lcd 1000 ≤ 10)
    × (1 ≤ clock_y lcd 1000)
    × (clock_y lcd 1000 ≤ 3)
    × ((clock_y lcd 1000 - 1) * 10 + (clock_x lcd 1000 - 1) ≡ 1000 / 60 % (10 * 3))
clock_place_example = clock_place 9 2 1000 lcd refl refl (omega arith) (omega arith)

-- The remaining time is shown.
abbrev remaining : Lcd
remaining = record lcd {
  mode = pos 1;
  sent = set_string (codes "time") (pos 1) (pos 4) (codes "    -02:55/03:05") ∷ [];
}

to_remaining : mod_lcdproc_message sources Msgtype.input (codes "displaymode") lcd ≡ some remaining
unfolding mod_lcdproc_message clock_step strtok dispatch nocase_eq to_lower displaymode
    mod_lcdproc_refreshtime mod_lcdproc_setstring time_text ◌+ℤ◌ align_text to_int show_02 ◌-ℤ◌
to_remaining = refl

Steps-Kept_example : Kept lcd remaining
Steps-Kept_example =
    Steps-Kept refl (next here (message sources Msgtype.input (codes "displaymode") to_remaining))
