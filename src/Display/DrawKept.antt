-- ===== src/Display/DrawKept.antt =====
-- What mod_lcdproc_refresh of src/mod_lcdproc.c leaves alone.
use audiobase.Common.{
  ℕ, zero, suc, Bool, true, false, Option, none, some, refl, ℤ, pos, ltb_ℤ, leb_ℤ,
}
use audiobase.Text.{Text, nocase_eq}
use audiobase.State.{Browser}
use audiobase.Bus.{◌>>=◌}
use audiobase.Display.Globals.{
  Lcd, Screen, song_status, no_song, stop_screen, browser_screen, menu_screen,
}
use audiobase.Display.Menu.{hide_rows, hide_browser}
use audiobase.Display.Status.{
  long_status, short_status, show_status, pad_position, averaged, entered_position,
}
use audiobase.Display.Draw.{
  Sources, Stats, show_stats, empty_title, show_empty, show_stopped, enter_song_screen, show_titles,
  show_song, draw, mod_lcdproc_browser_remove, mod_lcdproc_refresh, timed_out, line_if,
}
use audiobase.Display.Kept.{
  Kept, Keeps, kept, Kept-refl, Kept-trans, Keeps-trans, Keeps-bind, Keeps-text, Keeps-if, Kept-if,
  Keeps-state, setstring-Keeps, setscroller-Kept, refreshtime-Keeps,
}

hide_rows-Keeps : (n i : ℕ) (d : Lcd) → Keeps d (hide_rows n i d)
unfolding hide_rows
hide_rows-Keeps zero i d = kept (Kept-refl d)
hide_rows-Keeps (suc n) i d =
    Keeps-bind (Keeps-trans (setscroller-Kept _ _ _ d) (setstring-Keeps _ _ _ _ _))
      (λ e. hide_rows-Keeps n (suc i) e)

pub hide_browser-Keeps : (d : Lcd) → Keeps d (hide_browser d)
unfolding hide_browser
hide_browser-Keeps d = hide_rows-Keeps _ 1 d

averaged-Kept : (d : Lcd) → Kept d (averaged d)
averaged-Kept d = record { connected = refl; wid = refl; hgt = refl; clockmode = refl }

show_status-Keeps : (d : Lcd) → Keeps d (show_status d)
unfolding show_status long_status short_status
show_status-Keeps d =
    Keeps-if (ltb_ℤ (pos 2) d.hgt)
      (Keeps-text (pad_position (averaged d) (entered_position d.player))
        (λ plpos. Keeps-trans (averaged-Kept d) (setstring-Keeps _ _ _ _ (averaged d))))
      (setstring-Keeps _ _ _ _ d)

line_if-Kept :
    (wanted : Bool) (name : Text) (y : ℤ) (text : Text) (d : Lcd)
    → Kept d (line_if wanted name y text d)
unfolding line_if
line_if-Kept true name y text d = setscroller-Kept name y text d
line_if-Kept false name y text d = Kept-refl d

show_stats-Kept : (stats : Option Stats) (d : Lcd) → Kept d (show_stats stats d)
unfolding show_stats
show_stats-Kept none d = line_if-Kept _ _ _ _ d
show_stats-Kept (some stats) d =
    Kept-trans (line_if-Kept _ _ _ _ d)
      (Kept-trans (line_if-Kept _ _ _ _ _) (line_if-Kept _ _ _ _ _))

-- Another screen, and what else the drawing changes.
screen-Kept : (d : Lcd) (s : Screen) → Kept d (record d { curr_screen = s })
screen-Kept d s = record { connected = refl; wid = refl; hgt = refl; clockmode = refl }

show_empty-Keeps : (stats : Option Stats) (d : Lcd) → Keeps d (show_empty stats d)
unfolding show_empty
show_empty-Keeps stats d = Keeps-text (empty_title d.wid) (λ title. kept (
    Kept-trans (screen-Kept d no_song)
      (Kept-trans (setscroller-Kept _ _ title _) (show_stats-Kept stats _))))

show_stopped-Kept : (d : Lcd) → Kept d (show_stopped d)
unfolding show_stopped
show_stopped-Kept d = Kept-trans (screen-Kept d stop_screen) (setscroller-Kept _ _ _ _)

enter_song_screen-Keeps : (d : Lcd) → Keeps d (enter_song_screen d)
unfolding enter_song_screen
enter_song_screen-Keeps d =
    let hidden = Keeps-bind (hide_browser-Keeps d) (λ e. kept (screen-Kept e song_status)) in
    elim d.curr_screen
      as (λ s. Keeps d (elim s [
        | song_status ↦ some d
        | no_song ↦ hide_browser d >>= λ e. some (record e { curr_screen = song_status })
        | stop_screen ↦ hide_browser d >>= λ e. some (record e { curr_screen = song_status })
        | browser_screen ↦ hide_browser d >>= λ e. some (record e { curr_screen = song_status })
        | menu_screen ↦ hide_browser d >>= λ e. some (record e { curr_screen = song_status })
      ])) [
        | song_status ↦ kept (Kept-refl d)
        | no_song ↦ hidden
        | stop_screen ↦ hidden
        | browser_screen ↦ hidden
        | menu_screen ↦ hidden
      ]

file_old-Kept : (d : Lcd) {t : Text} → Kept d (record d { file_old = t })
file_old-Kept d = record { connected = refl; wid = refl; hgt = refl; clockmode = refl }

show_titles-Kept : (from_utf8 : Text → Text) (d : Lcd) → Kept d (show_titles from_utf8 d)
unfolding show_titles
show_titles-Kept from_utf8 d =
    Kept-if (leb_ℤ d.hgt (pos 2)) (Kept-trans (setscroller-Kept _ _ _ d) (setscroller-Kept _ _ _ _))
      (Kept-if (nocase_eq d.player.song.file d.file_old) (Kept-refl d) (
        Kept-trans (setscroller-Kept _ _ _ d)
          (Kept-trans (setscroller-Kept _ _ _ _) (file_old-Kept _))))

show_song-Keeps : (from_utf8 : Text → Text) (d : Lcd) → Keeps d (show_song from_utf8 d)
unfolding show_song
show_song-Keeps from_utf8 d = Keeps-bind (enter_song_screen-Keeps d) (λ e.
    Keeps-trans (show_titles-Kept from_utf8 e)
      (Keeps-bind (show_status-Keeps _) (λ f. refreshtime-Keeps f)))

pub draw-Keeps : (src : Sources) (d : Lcd) → Keeps d (draw src d)
unfolding draw
draw-Keeps src d = Keeps-if d.browser.active (kept (Kept-refl d)) (
    Keeps-if (leb_ℤ d.player.player.playlist_length (pos 0)) (show_empty-Keeps src.stats d) (
      Keeps-state d.player.player.state (kept (show_stopped-Kept d))
        (show_song-Keeps src.from_utf8 d)))

hidden-Kept : (d : Lcd) {b : Browser} {t : Text} → Kept d (record d { browser = b; file_old = t })
hidden-Kept d = record { connected = refl; wid = refl; hgt = refl; clockmode = refl }

pub browser_remove-Keeps : (src : Sources) (d : Lcd) → Keeps d (mod_lcdproc_browser_remove src d)
unfolding mod_lcdproc_browser_remove
browser_remove-Keeps src d =
    Keeps-bind (hide_browser-Keeps d) (λ e. Keeps-trans (hidden-Kept e) (draw-Keeps src _))

pub refresh-Keeps : (src : Sources) (d : Lcd) → Keeps d (mod_lcdproc_refresh src d)
unfolding mod_lcdproc_refresh
refresh-Keeps src d =
    Keeps-if (timed_out src.now d) (Keeps-bind (browser_remove-Keeps src d) (λ e. draw-Keeps src e))
      (draw-Keeps src d)
