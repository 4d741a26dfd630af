-- ===== src/Display/Draw.antt =====
-- What `mod_lcdproc_refresh` of src/mod_lcdproc.c draws: nothing while the browser is shown, the
-- statistics if the playlist is empty, a word if the player is stopped, and else the song.
use audiobase.Common.{
  ℕ, ◌+◌, ◌-◌, ◌*◌, ◌/◌, ◌%◌, ◌^◌, [], ◌∷◌, ◌++◌, Bool, false, not, ◌&&◌, ◌==◌, Option, none, some,
  ltb, if◌then◌else◌, length, ℤ, pos, ltb_ℤ, leb_ℤ,
}
use audiobase.Text.{Text, codes, is_empty, nocase_eq, snprintf, show_int, show_02}
use audiobase.State.{stopped, unknown, playing, paused}
use audiobase.Bus.{◌>>=◌}
use audiobase.Config.{Config}
use audiobase.Mpd.{MpdState}
use audiobase.Format.{info_to_formatted_string}
use audiobase.Format.Names.{title_format}
use audiobase.Display.Globals.{Lcd, song_status, no_song, stop_screen, browser_screen, menu_screen}
use audiobase.Display.Widgets.{mod_lcdproc_setscroller, pad_to, append_times}
use audiobase.Display.Time.{mod_lcdproc_refreshtime}
use audiobase.Display.Menu.{hide_browser}
use audiobase.Display.Status.{show_status}

-- `mpd_Stats`, as far as it is shown
pub record Stats : Type 0 where
  pub number_of_songs : ℤ
  pub db_play_time : ℕ
  pub uptime : ℕ

-- What the display has from others: the conversion of texts, the statistics of the server, the time
-- in seconds, the time and the date as `strftime` prints them in the configured formats, the
-- configuration, and how `mod_mpd_update` of src/mod_mpd.c changes the state of the player.
pub record Sources : Type 0 where
  pub from_utf8 : Text → Text
  pub stats : Option Stats
  pub now : ℕ
  pub timestr : Text
  pub datestr : Text
  pub config : Config
  pub mpd_update : MpdState → MpdState

-- `" %02dd %02d:%02d:%02d …"`
abbrev pub days_text : ℕ → Text → Text
days_text t label =
    32
    ∷ (show_02 (pos (t / (24 * 3600)))
        ++ (codes "d "
            ++ (show_02 (pos (t % (24 * 3600) / 3600))
                ++ (b':'
                    ∷ (show_02 (pos (t % 3600 / 60))
                        ++ (b':' ∷ (show_02 (pos (t % 60)) ++ label)))))))

-- `(mod_lcdproc_wid-strlen(buf1))/2` of size_t
abbrev pub arrows : ℕ → ℕ
arrows wid = (wid + 2 ^ 64 - 14) % 2 ^ 64 / 2

abbrev pub playlist_empty : Text
playlist_empty = codes "playlist empty"

-- `buf2` has 50 bytes; `none` means that they are not enough.
unfoldable pub empty_title : ℕ → Option Text
empty_title wid = append_times 50 b'>' (arrows wid) [] >>= λ buf.
    if ltb (length buf + 14) 50 then pad_to 50 b'<' wid (buf ++ playlist_empty) else none

unfoldable pub line_if : Bool → Text → ℤ → Text → Lcd → Lcd
line_if wanted name y text d = if wanted then mod_lcdproc_setscroller name y text d else d

unfoldable pub show_stats : Option Stats → Lcd → Lcd
show_stats none d =
    line_if (ltb_ℤ (pos 1) d.hgt) (codes "browserline2") (pos 2) (codes " no statistics availible")
      d
show_stats (some stats) d =
    line_if (ltb_ℤ (pos 3) d.hgt) (codes "browserline4") (pos 4)
      (days_text stats.uptime (codes " uptime"))
      (line_if (ltb_ℤ (pos 2) d.hgt) (codes "browserline3") (pos 3)
        (days_text stats.db_play_time (codes " songtime"))
        (line_if (ltb_ℤ (pos 1) d.hgt) (codes "browserline2") (pos 2)
          (32 ∷ (show_int stats.number_of_songs ++ codes " songs in DB")) d))

unfoldable pub show_empty : Option Stats → Lcd → Option Lcd
show_empty stats d = empty_title d.wid >>= λ title. some (
    show_stats stats (
      mod_lcdproc_setscroller (codes "browserline1") (pos 1) title
        (record d { curr_screen = no_song })))

unfoldable pub show_stopped : Lcd → Lcd
show_stopped d =
    mod_lcdproc_setscroller (codes "browserline1") (pos 1) (codes "PLAYBACK STOPPED")
      (record d { curr_screen = stop_screen })

-- The lines of another screen are moved away first.
unfoldable pub enter_song_screen : Lcd → Option Lcd
enter_song_screen d =
    let hidden = hide_browser d >>= λ d'. some (record d' { curr_screen = song_status }) in
    elim d.curr_screen [
      | song_status ↦ some d
      | no_song ↦ hidden
      | stop_screen ↦ hidden
      | browser_screen ↦ hidden
      | menu_screen ↦ hidden
    ]

-- One line for artist and title on a display of two lines.
abbrev pub one_line_title : Lcd → Text
one_line_title d =
    let song = d.player.song in
    if not (is_empty song.artist) && not (is_empty song.title)
    then song.artist ++ (codes " - " ++ song.title)
    else song.artist ++ song.title

-- A format that yields NULL is shown as n/a. The loop of the format does not run out of rounds.
abbrev pub title_of : Option (Option Text × Text) → Text
title_of (some (some t, last)) = t
title_of (some (none, last)) = codes "n/a"
title_of none = codes "n/a"

unfoldable pub show_titles : (Text → Text) → Lcd → Lcd
show_titles from_utf8 d =
    if leb_ℤ d.hgt (pos 2)
    then mod_lcdproc_setscroller (codes "title") d.title_line (snprintf 127 (one_line_title d))
        (mod_lcdproc_setscroller (codes "artist") d.artist_line [] d)
    else if nocase_eq d.player.song.file d.file_old
    then d
    else record (mod_lcdproc_setscroller (codes "title") d.title_line
        (title_of (info_to_formatted_string from_utf8 d.player.song d.player.player title_format))
        (mod_lcdproc_setscroller (codes "artist") d.artist_line (from_utf8 d.player.song.artist)
          d)) { file_old = d.player.song.file }

unfoldable pub show_song : (Text → Text) → Lcd → Option Lcd
show_song from_utf8 d =
    enter_song_screen d >>= λ d'. show_status (show_titles from_utf8 d') >>= mod_lcdproc_refreshtime

-- `mod_lcdproc_refresh` behind its first test.
unfoldable pub draw : Sources → Lcd → Option Lcd
draw src d =
    if d.browser.active
    then some d
    else if leb_ℤ d.player.player.playlist_length (pos 0)
    then show_empty src.stats d
    else elim d.player.player.state [
      | stopped ↦ some (show_stopped d)
      | unknown ↦ show_song src.from_utf8 d
      | playing ↦ show_song src.from_utf8 d
      | paused ↦ show_song src.from_utf8 d
    ]

abbrev pub timed_out : ℕ → Lcd → Bool
timed_out now d =
    d.browser.active && (not (d.browsertimeout == 0) && not (ltb now d.browsertimeout))

-- The refresh at its end finds the browser inactive, so it comes to what is drawn.
unfoldable pub mod_lcdproc_browser_remove : Sources → Lcd → Option Lcd
mod_lcdproc_browser_remove src d = hide_browser d >>= λ d'.
    draw src (record d' { browser = record d'.browser { active = false }; file_old = [] })

-- A browser whose time is over is taken away, which draws the screen once
-- before it is drawn here.
unfoldable pub mod_lcdproc_refresh : Sources → Lcd → Option Lcd
mod_lcdproc_refresh src d =
    if timed_out src.now d then (mod_lcdproc_browser_remove src d >>= draw src) else draw src d
