-- ===== src/Display/Events.antt =====
-- `mod_lcdproc_message` of src/mod_lcdproc.c.
use audiobase.Common.{
  ℕ, [], ◌∷◌, ◌++◌, Bool, true, false, ◌&&◌, ◌==◌, Option, none, some, length, drop, ltb,
  if◌then◌else◌, ℤ, pos, ◌+ℤ◌, ltb_ℤ, leb_ℤ, eqb_ℤ,
}
use audiobase.Text.{
  Text, codes, strtok, blanks, nocase_eq, strncmp_eq, to_lower, atoi, show_int, skip_space, signed,
  read_any_base,
}
use audiobase.Bus.{◌>>=◌}
use audiobase.Bus.Msgtype
use audiobase.Commands.{whole_rest}
use audiobase.Display.Globals.{Lcd}
use audiobase.Display.Widgets.{mod_lcdproc_settmp}
use audiobase.Display.Time.{mod_lcdproc_refreshtime}
use audiobase.Display.Draw.{Sources, mod_lcdproc_refresh}
use audiobase.Display.Clock.{mod_lcdproc_timedisplay, mod_lcdproc_clockstart, mod_lcdproc_clockstop}
use audiobase.Display.Poll.{number, token, rest_of}

abbrev pub lower : Text → Text
lower [] = []
lower (c ∷ s) = to_lower c ∷ lower s

-- `!strncasecmp(msg, "idle", 4)`
abbrev pub is_idle : Text → Bool
is_idle msg = strncmp_eq (lower msg) (codes "idle") 4

-- A `strtol` from the byte behind the word and the blank, in any base. A message that ends with the
-- word has no such byte.
abbrev pub idle_time : Text → Option ℤ
idle_time msg =
    if ltb (length msg) 5 then none else some (signed read_any_base (skip_space (drop 5 msg)))

-- `clockstart` once the program has been idle for long enough.
unfoldable pub on_idle : Sources → Text → Lcd → Option Lcd
on_idle src msg d =
    if d.clockmode
    then some (mod_lcdproc_timedisplay src d)
    else if eqb_ℤ d.clocktimer (pos 0)
    then some d
    else (idle_time msg >>= λ t.
        some (if leb_ℤ d.clocktimer t then mod_lcdproc_clockstart src d else d))

unfoldable pub clock_step : Sources → ℕ → Text → Lcd → Option Lcd
clock_step src msgtype msg d =
    if msgtype == Msgtype.event && is_idle msg
    then on_idle src msg d
    else if d.clockmode
    then mod_lcdproc_clockstop src d
    else some d

-- A text for some seconds, with no bar.
abbrev pub tell : Sources → Text → Lcd → Option Lcd
tell src text d = mod_lcdproc_settmp src.now (some text) (pos 0) false d

unfoldable pub displaymode : Lcd → Option Lcd
displaymode d =
    let next = d.mode +ℤ pos 1 in
    mod_lcdproc_refreshtime (record d { mode = if ltb_ℤ (pos 1) next then pos 0 else next })

-- The times of a new song are added up to its length.
unfoldable pub time_message : Text → Lcd → Option Lcd
time_message rest d =
    let c2 = strtok blanks rest in
    let t1 = number (token c2) in
    let t2 = number (whole_rest (rest_of c2)) in
    mod_lcdproc_refreshtime (record d {
      time1 = t1;
      time2 = t2;
      time_len = if d.updatesong_data then t1 +ℤ t2 else d.time_len;
      updatesong_data = false;
    })

abbrev pub minutes : ℤ → ℤ → Text
minutes i j =
    if eqb_ℤ j (pos 0)
    then codes "Sleep " ++ (show_int i ++ codes " min")
    else codes "Sleep " ++ (show_int i ++ (b'/' ∷ (show_int j ++ codes " min")))

-- `none` is the null pointer that is compared if no word follows.
unfoldable pub sleep_message : Sources → Text → Lcd → Option Lcd
sleep_message src rest d = elim (strtok blanks rest) [
  | none ↦ none
  | some (c2, rest') ↦
      (if nocase_eq c2 (codes "trigered")
        then (tell src (codes "Sleep timer expired") d >>= λ d'. some (record d' { sleep = false }))
        else if nocase_eq c2 (codes "decreased")
        then tell src (codes "Fading out") d
        else if eqb_ℤ (atoi c2) (pos 0)
        then (tell src (codes "Sleep timer off") d >>= λ d'. some (record d' { sleep = false }))
        else (tell src (minutes (atoi c2) (number (whole_rest rest'))) d >>= λ d'.
            some (record d' { sleep = true })))
      >>= mod_lcdproc_refresh src
]

-- The mixer: bars for its values, and the mute flag.
unfoldable pub mixer_message : Sources → Text → Lcd → Option Lcd
mixer_message src rest d = elim (strtok blanks rest) [
  | none ↦ some d
  | some (c2, rest') ↦
      let n = number (whole_rest rest') in
      if nocase_eq c2 (codes "volume")
      then mod_lcdproc_settmp src.now (some (codes "Vol")) n false d
      else if nocase_eq c2 (codes "balance")
      then mod_lcdproc_settmp src.now (some (codes "Balance")) n true d
      else if nocase_eq c2 (codes "bass")
      then mod_lcdproc_settmp src.now (some (codes "Bass")) n false d
      else if nocase_eq c2 (codes "treble")
      then mod_lcdproc_settmp src.now (some (codes "Treble")) n false d
      else if nocase_eq c2 (codes "mute")
      then mod_lcdproc_refresh src (record d { mute = n })
      else some d
]

-- The state of the song ends: the times are cleared.
abbrev pub ended : Text → Lcd → Lcd
ended playmode d = record d { playmode = playmode; time1 = pos 0; time2 = pos 0; time_len = pos 0 }

-- The second half of the chain of events.
unfoldable pub play_message : Sources → Text → Text → Lcd → Option Lcd
play_message src c1 rest d =
    if nocase_eq c1 (codes "mixer")
    then mixer_message src rest d
    else if nocase_eq c1 (codes "play")
    then mod_lcdproc_refresh src (record d { playmode = codes " "; updatesong_data = true })
    else if nocase_eq c1 (codes "stop")
    then mod_lcdproc_refresh src (ended (codes "S") d)
    else if nocase_eq c1 (codes "unpause")
    then mod_lcdproc_refreshtime (record d { playmode = codes " " })
    else if nocase_eq c1 (codes "pause")
    then mod_lcdproc_refreshtime (record d { playmode = codes "P" })
    else if nocase_eq c1 (codes "halt")
    then mod_lcdproc_refresh src (ended (codes "H") d)
    else some d

abbrev pub text_of : Option Text → Text
text_of none = []
text_of (some s) = s

unfoldable pub event_message : Sources → Text → Text → Lcd → Option Lcd
event_message src c1 rest d =
    if nocase_eq c1 (codes "repeat")
    then mod_lcdproc_refresh src (record d { repeat = number (whole_rest rest) })
    else if nocase_eq c1 (codes "shuffle")
    then mod_lcdproc_refresh src (record d { shuffle = number (whole_rest rest) })
    else if nocase_eq c1 (codes "sleep")
    then sleep_message src rest d
    else if nocase_eq c1 (codes "alarm")
    then (if eqb_ℤ (number (whole_rest rest)) (pos 0)
        then tell src (codes "Alarms disabled") d
        else tell src (codes "Alarms enabled") d)
    else if nocase_eq c1 (codes "loadplaylist")
    then tell src (text_of (whole_rest rest)) d
    else play_message src c1 rest d

unfoldable pub info_message : Sources → Text → Text → Lcd → Option Lcd
info_message src c1 rest d = elim (strtok blanks rest) [
  | none ↦ some d
  | some (c2, rest') ↦
      if nocase_eq c1 (codes "browser")
      then (if nocase_eq c2 (codes "info") then tell src (text_of (whole_rest rest')) d else some d)
      else if nocase_eq c1 (codes "lcdproc")
      then (if nocase_eq c2 (codes "refresh") then mod_lcdproc_refresh src d else some d)
      else some d
]

-- The dispatch on the type, and then on the first word.
unfoldable pub dispatch : Sources → ℕ → Text → Text → Lcd → Option Lcd
dispatch src msgtype c1 rest d =
    if msgtype == Msgtype.input
    then (if nocase_eq c1 (codes "displaymode") then displaymode d else some d)
    else if msgtype == Msgtype.player
    then (if nocase_eq c1 (codes "time") then time_message rest d else some d)
    else if msgtype == Msgtype.event
    then event_message src c1 rest d
    else if msgtype == Msgtype.info
    then info_message src c1 rest d
    else some d

abbrev pub dispatch_words : Sources → ℕ → Option (Text × Text) → Lcd → Option Lcd
dispatch_words src msgtype none d = some d
dispatch_words src msgtype (some (c1, rest)) d = dispatch src msgtype c1 rest d

unfoldable pub mod_lcdproc_message : Sources → ℕ → Text → Lcd → Option Lcd
mod_lcdproc_message src msgtype msg d =
    if d.connected
    then (clock_step src msgtype msg d >>= dispatch_words src msgtype (strtok blanks msg))
    else some d
