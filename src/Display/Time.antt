-- ===== src/Display/Time.antt =====
-- `mod_lcdproc_refreshtime` of src/mod_lcdproc.c: the line with the time of the song.
use audiobase.Common.{
  ◌∷◌, ◌++◌, Bool, Option, none, if◌then◌else◌, ℤ, pos, negsuc, ◌-ℤ◌, eqb_ℤ, div_ℤ, mod_ℤ,
}
use audiobase.Text.{Text, codes, show_int, show_02}
use audiobase.State.{PlayerStatus, stopped, unknown, playing, paused}
use audiobase.Display.Globals.{Lcd}
use audiobase.Display.Widgets.{center, mod_lcdproc_setstring}

-- `%02d:%02d` of t%3600/60 and t%3600%60
abbrev pub minutes_text : ℤ → Text
minutes_text t = show_02 (div_ℤ (mod_ℤ t 3600) 60) ++ (b':' ∷ show_02 (mod_ℤ (mod_ℤ t 3600) 60))

-- `%d:%02d:%02d`, with t/3600 in front
abbrev pub hours_text : ℤ → Text
hours_text t = show_int (div_ℤ t 3600) ++ (b':' ∷ minutes_text t)

abbrev pub remaining_time : PlayerStatus → ℤ
remaining_time p = p.total_time -ℤ p.elapsed_time

abbrev pub no_time : ℤ → Bool
no_time t = eqb_ℤ t (negsuc 0)

-- What is printed into `buf` unless the player is stopped.
unfoldable pub time_text : Lcd → Text
time_text d =
    let p = d.player.player in
    if d.songtime_hours
    then (if eqb_ℤ d.mode (pos 1)
        then (if no_time d.time2
            then codes "-..:..:../..:..:.."
            else b'-' ∷ (hours_text (remaining_time p) ++ (b'/' ∷ hours_text p.total_time)))
        else if no_time d.time2
        then codes " ..:..:../..:..:.."
        else hours_text p.elapsed_time ++ (b'/' ∷ hours_text p.total_time))
    else if eqb_ℤ d.mode (pos 1)
    then (if no_time d.time2
        then codes "-..:../..:.."
        else b'-' ∷ (minutes_text (remaining_time p) ++ (b'/' ∷ minutes_text p.total_time)))
    else if no_time d.time1
    then codes " ..:../..:.."
    else minutes_text p.elapsed_time ++ (b'/' ∷ minutes_text p.total_time)

-- If the player is stopped nothing is printed into `buf`, and the bytes that happen to be there are
-- shown: the result is `none`.
unfoldable pub mod_lcdproc_refreshtime : Lcd → Option Lcd
mod_lcdproc_refreshtime d =
    let shown = mod_lcdproc_setstring (codes "time") d.time_line (time_text d) center d in
    elim d.player.player.state [
      | stopped ↦ none
      | unknown ↦ shown
      | playing ↦ shown
      | paused ↦ shown
    ]
