-- ===== src/Display/Globals.antt =====
-- The state of src/mod_lcdproc.c, what it sends to the LCDproc server, and the text of these
-- commands.
use audiobase.Common.{ℕ, ◌+◌, ◌-◌, ◌%◌, ◌^◌, [], ◌∷◌, ◌++◌, List, Bool, ℤ, pos, pos_part, neg_part}
use audiobase.Text.{Text, codes, show_int, to_int}
use audiobase.State.{Browser}
use audiobase.Mpd.{MpdState}
use audiobase.Bus.{Message}

-- LCDSCREEN_*
pub data Screen : Type 0 where
  song_status no_song stop_screen browser_screen menu_screen : Screen

-- The commands that set a widget, by their format strings, and those that are sent as they are.
pub data Command : Type 0 where
  set_string : Text → ℤ → ℤ → Text → Command
  set_scroller : Text → ℤ → ℤ → ℤ → Text → Command
  set_bar : ℤ → ℤ → ℤ → Command
  plain : Text → Command

-- The conversion of an int to an unsigned int.
abbrev pub to_uint : ℤ → ℕ
to_uint z = (pos_part z % 2 ^ 32 + 2 ^ 32 - neg_part z % 2 ^ 32) % 2 ^ 32

-- a - b of unsigned ints
abbrev pub sub_uint : ℕ → ℕ → ℕ
sub_uint a b = (a + 2 ^ 32 - b % 2 ^ 32) % 2 ^ 32

-- What `sendtextWait` is given for a command, with the quotation marks and the line end.
unfoldable pub print_command : Command → Text
unfolding show_int
print_command (set_string name x y text) =
    codes "widget_set ABase "
    ++ (name ++ (32 ∷ (show_int x ++ (32 ∷ (show_int y ++ (32 ∷ 34 ∷ (text ++ 34 ∷ 10 ∷ [])))))))
print_command (set_scroller name top right bottom text) =
    codes "widget_set ABase "
    ++ (name
        ++ (codes " 1 "
            ++ (show_int top
                ++ (32
                    ∷ (show_int right
                        ++ (32
                            ∷ (show_int bottom
                                ++ (codes " m 2 " ++ (34 ∷ (text ++ 34 ∷ 10 ∷ []))))))))))
print_command (set_bar x y len) =
    codes "widget_set ABase tmpbar "
    ++ (show_int x ++ (32 ∷ (show_int y ++ (32 ∷ (show_int len ++ 10 ∷ [])))))
print_command (plain text) = text

-- The globals. `connected` says that `lcdproc_fd` is not 0, and `polled` that the poll function is
-- set. `sent` is what went to the server and `messages` what went to the queue of messages, each in
-- its order. `player` and `browser` are the globals of src/globalDef.h.
pub record Lcd : Type 0 where
  pub connected : Bool
  pub polled : Bool
  pub wid : ℕ
  pub hgt : ℤ
  pub cellwid : ℤ
  pub cellhgt : ℤ
  pub display_wid : ℕ
  pub display_hgt : ℤ
  pub mode : ℤ
  pub playmode : Text
  pub time1 : ℤ
  pub time2 : ℤ
  pub time_len : ℤ
  pub file_old : Text
  pub repeat : ℤ
  pub updatesong_data : Bool
  pub shuffle : ℤ
  pub mute : ℤ
  pub sleep : Bool
  pub tmptimeout : ℕ
  pub browsertimeout : ℕ
  pub browsertimeoutmax : ℤ
  pub cursorpos_enabled : Bool
  pub clockmode : Bool
  pub clocktimer : ℤ
  pub songtime_hours : Bool
  pub status_alignment : Bool
  pub preserve_upper_right : Bool
  pub title_line : ℤ
  pub artist_line : ℤ
  pub status_line : ℤ
  pub time_line : ℤ
  pub bitrate_counter : ℕ
  pub bitrate_sum : ℤ
  pub static_unselected : Bool
  pub curr_screen : Screen
  pub player : MpdState
  pub browser : Browser
  pub sent : List Command
  pub messages : List Message

abbrev pub send : Command → Lcd → Lcd
send c d = record d { sent = d.sent ++ c ∷ [] }

abbrev pub send_all : List Command → Lcd → Lcd
send_all cs d = record d { sent = d.sent ++ cs }

-- The display as an `int`, which is what `%d` prints of the unsigned width.
abbrev pub int_wid : Lcd → ℤ
int_wid d = to_int (pos d.wid)
