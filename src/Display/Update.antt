-- ===== src/Display/Update.antt =====
-- `mod_lcdproc_update` and the timers of src/mod_lcdproc.c.
use audiobase.Common.{
  ℕ, suc, ◌+◌, Bool, false, not, ◌&&◌, ◌==◌, Option, none, some, length, ltb, if◌then◌else◌, pos,
  pos_part,
}
use audiobase.Text.{Text, codes}
use audiobase.Tools.{Input, skip_answers}
use audiobase.Bus.{◌>>=◌}
use audiobase.Display.Globals.{Lcd}
use audiobase.Display.Widgets.{mod_lcdproc_settmp}
use audiobase.Display.Draw.{Sources, timed_out, mod_lcdproc_browser_remove, mod_lcdproc_refresh}

unfoldable pub mod_lcdproc_browser_resettimer : ℕ → Lcd → Lcd
mod_lcdproc_browser_resettimer now d = record d {
  browsertimeout = now + pos_part d.browsertimeoutmax;
}

-- The first part, up to the answers of the server.
unfoldable pub tmp_step : ℕ → Lcd → Option Lcd
tmp_step now d =
    if not (d.tmptimeout == 0) && not (ltb now d.tmptimeout)
    then mod_lcdproc_settmp now none (pos 0) false (record d { tmptimeout = 0 })
    else some d

unfoldable pub browser_step : Sources → Lcd → Option Lcd
browser_step src d = if timed_out src.now d then mod_lcdproc_browser_remove src d else some d

unfoldable pub update_lcd : Sources → Lcd → Option Lcd
update_lcd src d = tmp_step src.now d >>= browser_step src >>= λ d'.
    mod_lcdproc_refresh src (record d' { player = src.mpd_update d'.player })

-- Then `buf`, of 512 bytes, takes the answers that wait. `mem` is what it holds at first.
unfoldable pub mod_lcdproc_update : Sources → Bool → Text → Input → Lcd → Option (Lcd × Input)
mod_lcdproc_update src terminate mem fd d = update_lcd src d >>= λ d'.
    skip_answers (suc (suc (length fd.bytes))) terminate 512 (codes "success") mem fd
    >>= λ answered. some (d', answered.1)
