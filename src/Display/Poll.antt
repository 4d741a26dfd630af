-- ===== src/Display/Poll.antt =====
-- `mod_lcdproc_poll` of src/mod_lcdproc.c: what the LCDproc server says.
use audiobase.Common.{
  ℕ, zero, suc, [], ◌∷◌, ◌++◌, Bool, true, false, Option, none, some, length, if◌then◌else◌, ℤ, pos,
}
use audiobase.Text.{Text, codes, strtok, blanks, nocase_eq, atoi, snprintf}
use audiobase.Tools.{Line, closed}
use audiobase.Bus.Msgtype
use audiobase.Config.{Config, config_getstr}
use audiobase.Display.Globals.{Lcd, to_uint}
use audiobase.Display.Connect.{mod_lcdproc_disconnect}

-- `c3 ? atoi(c3) : 0`
abbrev pub number : Option Text → ℤ
number none = pos 0
number (some s) = atoi s

abbrev pub token : Option (Text × Text) → Option Text
token none = none
token (some (c, rest)) = some c

abbrev pub rest_of : Option (Text × Text) → Text
rest_of none = []
rest_of (some (c, rest)) = rest

-- What a word of the greeting sets, with the next word.
abbrev pub set_size : Text → ℤ → Lcd → Lcd
set_size c3 n d =
    if nocase_eq c3 (codes "wid")
    then record d { wid = to_uint n; display_wid = to_uint n }
    else if nocase_eq c3 (codes "hgt")
    then record d { hgt = n; display_hgt = n }
    else if nocase_eq c3 (codes "cellwid")
    then record d { cellwid = n }
    else record d { cellhgt = n }

abbrev pub is_size : Text → Bool
is_size c3 =
    if nocase_eq c3 (codes "wid")
    then true
    else if nocase_eq c3 (codes "hgt")
    then true
    else if nocase_eq c3 (codes "cellwid")
    then true
    else nocase_eq c3 (codes "cellhgt")

-- The do-while loop over the words; each round takes a word, so that the bytes are enough rounds.
unfoldable pub read_sizes : ℕ → Text → Lcd → Lcd
unfolding strtok nocase_eq atoi
read_sizes zero rest d = d
read_sizes (suc fuel) rest d = elim (strtok blanks rest) [
  | none ↦ d
  | some (c3, rest') ↦ elim (is_size c3) [
    | false ↦ read_sizes fuel rest' d
    | true ↦ elim (strtok blanks rest') [
      | none ↦ set_size c3 (pos 0) d
      | some (n, rest'') ↦ read_sizes fuel rest'' (set_size c3 (atoi n) d)
    ]
  ]
]

-- A key is looked up in the configuration, and its message is sent.
unfoldable pub press_key : Config → Text → Lcd → Lcd
unfolding config_getstr
press_key config key d =
    elim (config_getstr config (snprintf 127 (codes "lcdproc_key_" ++ key)) none) [
      | none ↦ d
      | some msg ↦ record d {
        messages = d.messages ++ record { msgtype = Msgtype.input; msg = msg } ∷ [];
      }
    ]

-- A line of the server, by its first word.
unfoldable pub answer : Config → Text → Text → Lcd → Lcd
unfolding read_sizes press_key mod_lcdproc_disconnect strtok nocase_eq
answer config c1 rest d =
    if nocase_eq c1 (codes "connect")
    then (let behind = rest_of (strtok blanks rest) in read_sizes (suc (length behind)) behind d)
    else if nocase_eq c1 (codes "listen")
    then d
    else if nocase_eq c1 (codes "ignore")
    then d
    else if nocase_eq c1 (codes "key")
    then elim (strtok blanks rest) [ none ↦ d | some (c2, _) ↦ press_key config c2 d ]
    else if nocase_eq c1 (codes "bye")
    then mod_lcdproc_disconnect d
    else d

-- `readline` has left a line in `s`, or has failed.
unfoldable pub mod_lcdproc_poll : Config → Line → Lcd → Lcd
unfolding answer strtok mod_lcdproc_disconnect
mod_lcdproc_poll config (closed rc) d = mod_lcdproc_disconnect d
mod_lcdproc_poll config (Line.line s rest) d = elim (strtok blanks s) [
  | none ↦ d
  | some (c1, rest') ↦ answer config c1 rest' d
]
