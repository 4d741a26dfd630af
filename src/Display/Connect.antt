-- ===== src/Display/Connect.antt =====
-- The connection of src/mod_lcdproc.c with the LCDproc server: mod_lcdproc_disconnect,
-- mod_lcdproc_connect, mod_lcdproc_setup, mod_lcdproc_init, mod_lcdproc_deinit and
-- mod_lcdproc_reload.
use audiobase.Common.{
  ℕ, zero, suc, [], ◌∷◌, ◌++◌, List, String, true, false, Option, none, some, length, if◌then◌else◌,
  ℤ, pos, ltb_ℤ, mul_ℤ,
}
use audiobase.Text.{Text, codes, strtok, nocase_eq, atoi, show_nat}
use audiobase.Bus.{◌>>=◌, Message}
use audiobase.Bus.Msgtype
use audiobase.Config.{Config, config_getstr, config_getnum}
use audiobase.Display.Globals.{Lcd, Command, plain, send_all}
use audiobase.Display.Draw.{Sources, mod_lcdproc_refresh}

unfoldable pub mod_lcdproc_disconnect : Lcd → Lcd
mod_lcdproc_disconnect d = record d { connected = false; polled = false }

-- How far the system gets with the connection.
pub data Network : Type 0 where
  unknown_host no_socket refused accepted : Network

-- The result is the error message, if there is one.
unfoldable pub mod_lcdproc_connect : Network → Lcd → Lcd × Option Text
unfolding mod_lcdproc_disconnect
mod_lcdproc_connect net d =
    let d' = mod_lcdproc_disconnect d in
    elim net [
      | unknown_host ↦ (d', some (codes "LCDproc: Unknown host"))
      | no_socket ↦ (d', some (codes "LCDproc: error creating socket"))
      | refused ↦ (d', some (codes "LCDproc: unable to connect"))
      | accepted ↦ (record d' { connected = true; polled = true }, none)
    ]

abbrev pub text_line : String → Command
text_line s = plain (codes s ++ 10 ∷ [])

-- The two widgets for a line of the browser.
abbrev pub add_row : ℕ → List Command
add_row i =
    plain (codes "widget_add ABase browserline" ++ (show_nat i ++ (codes " scroller" ++ 10 ∷ [])))
    ∷ plain (codes "widget_add ABase browsercursor" ++ (show_nat i ++ (codes " string" ++ 10 ∷ [])))
    ∷ []

-- `while (key != NULL)`, on fuel; a key is never empty, so that the bytes of the list are enough
-- rounds.
unfoldable pub add_keys : ℕ → Text → List Command
unfolding strtok
add_keys zero keylist = []
add_keys (suc fuel) keylist = elim (strtok (codes ",") keylist) [
  | none ↦ []
  | some (key, rest) ↦ plain (codes "client_add_key " ++ (key ++ 10 ∷ [])) ∷ add_keys fuel rest
]

abbrev pub or_nothing : Option Text → Text
or_nothing none = []
or_nothing (some s) = s

abbrev pub keylist_of : Config → Text
keylist_of config = or_nothing (config_getstr config (codes "lcdproc_keylist") (some []))

-- What is sent before the keys: `display_hgt` is set to 4 for the loop over the lines.
abbrev pub setup_widgets : List Command
setup_widgets =
    text_line "hello"
    ∷ text_line "screen_add ABase"
    ∷ text_line "widget_add ABase time string"
    ∷ text_line "widget_add ABase artist scroller"
    ∷ text_line "widget_add ABase title scroller"
    ∷ text_line "widget_add ABase status string"
    ∷ (add_row 1
        ++ (add_row 2
            ++ (add_row 3
                ++ (add_row 4
                    ++ (text_line "widget_add ABase tmptext string"
                        ∷ text_line "widget_add ABase tmpbar hbar"
                        ∷ text_line "widget_set ABase tmpbar 0 0 0"
                        ∷ text_line "widget_del ABase heartbeat"
                        ∷ [])))))

unfoldable pub mod_lcdproc_setup : Config → Lcd → Lcd
unfolding add_keys config_getstr show_nat
mod_lcdproc_setup config d =
    if d.connected
    then record (send_all
        (setup_widgets ++ add_keys (suc (length (keylist_of config))) (keylist_of config)) d) {
          display_hgt = pos 4;
          display_wid = 20;
        }
    else d

abbrev pub setting : Config → String → String → Text
setting config key default = or_nothing (config_getstr config (codes key) (some (codes default)))

abbrev pub read_settings : Config → Lcd → Lcd
read_settings config d = record d {
  songtime_hours = nocase_eq (codes "yes") (setting config "lcdproc_songtime_hours" "no");
  status_alignment = nocase_eq (codes "right") (setting config "lcdproc_status_alignment" "right");
  preserve_upper_right =
      nocase_eq (codes "yes") (setting config "lcdproc_preserve_upper_right" "no");
  title_line = atoi (setting config "lcdproc_title_line" "2");
  artist_line = atoi (setting config "lcdproc_artist_line" "1");
  status_line = atoi (setting config "lcdproc_status_line" "3");
  time_line = atoi (setting config "lcdproc_time_line" "4");
}

abbrev pub at_least : ℤ → ℤ → ℤ
at_least least n = if ltb_ℤ n least then least else n

abbrev pub read_timers : Config → Lcd → Lcd
read_timers config d = record d {
  cursorpos_enabled = nocase_eq (setting config "lcdproc_browser_scrollbar" "yes") (codes "yes");
  browsertimeoutmax =
      at_least (pos 2) (config_getnum config (codes "lcdproc_browser_timeout") (pos 10));
}

abbrev pub read_clock : Config → Lcd → Lcd
read_clock config d = record d {
  clocktimer = mul_ℤ (pos 60) (config_getnum config (codes "lcdproc_clock_timer") (pos 1));
}

abbrev pub clear_display : Message
clear_display = record { msgtype = Msgtype.player; msg = codes "stop" }

-- The module is registered by `mod_register` of src/ABasemod.c in any case.
unfoldable pub mod_lcdproc_init : Config → Network → Lcd → Lcd × Option Text
unfolding mod_lcdproc_connect mod_lcdproc_setup config_getstr config_getnum nocase_eq atoi
mod_lcdproc_init config net d =
    let (d', error) = mod_lcdproc_connect net (read_settings config d) in
    elim error [
      | some s ↦ (d', some s)
      | none ↦
          let ready = read_clock config (mod_lcdproc_setup config (read_timers config d')) in
          (record ready { messages = ready.messages ++ clear_display ∷ [] }, none)
    ]

unfoldable pub mod_lcdproc_deinit : Lcd → Lcd
unfolding mod_lcdproc_disconnect
mod_lcdproc_deinit d = mod_lcdproc_disconnect d

-- The inner `none` is a connection that is open again.
unfoldable pub mod_lcdproc_reload : Sources → Network → Lcd → Option (Lcd × Option Text)
mod_lcdproc_reload src net d =
    let (d', error) = mod_lcdproc_connect net d in
    elim error [
      | some s ↦ some (d', some s)
      | none ↦ mod_lcdproc_refresh src (mod_lcdproc_setup src.config d') >>= λ e. some (e, none)
    ]
