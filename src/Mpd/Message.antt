-- ===== src/Mpd/Message.antt =====
-- `mod_mpd_message` of src/mod_mpd.c.
use audiobase.Common.{
  ℕ, zero, suc, [], ◌∷◌, ◌++◌, List, Bool, true, false, not, Option, none, some, ◌==◌,
  if◌then◌else◌, take, length, ltb, ◌+ℤ◌,
}
use audiobase.Text.{Text, codes, nocase_eq, atoi, show_int, strtok, blanks}
use audiobase.State.{PlayState, unknown, stopped, playing, paused}
use audiobase.Commands.{Start, ignored, command, read_command}
use audiobase.Bus.{◌>>=◌}
use audiobase.Bus.Msgtype
use audiobase.Mpd.Player.{
  Sent, seek, pause, stop, clear, volume, repeat_mode, random_mode, delete_id, message, MpdState,
  Server, mod_mpd_update_status, mod_mpd_play,
}
use audiobase.Mpd.Jump.{jump, djump}

-- A handler's result; `none` means that it reads a null pointer, an argument that is not there or
-- bytes behind a buffer, or divides by zero.
abbrev pub MpdResult : Type 0
MpdResult = Option (MpdState × List Sent)

-- The status is read again after what has been sent.
abbrev pub then_update : Server → MpdState → List Sent → MpdResult
then_update server m sent = some (mod_mpd_update_status server sent m, sent)

abbrev pub pause_command : PlayState → List Sent
pause_command paused = pause false ∷ []
pause_command playing = pause true ∷ []
pause_command stopped = []
pause_command unknown = []

-- What `vsnprintf` makes of a message that is its format and has no arguments: `none` for a
-- conversion, which reads an argument that is not there. Two percent signs print one.
unfoldable pub format_text : Text → Option Text
format_text [] = some []
format_text (c ∷ []) = if c == b'%' then none else some (c ∷ [])
format_text (c ∷ d ∷ s) =
    let next = format_text (d ∷ s) in
    let percent = format_text s in
    if c == b'%'
    then (if d == b'%' then (percent >>= λ t. some (b'%' ∷ t)) else none)
    else (next >>= λ t. some (c ∷ t))

-- `mod_sendmsgf` with a message only: the text that is sent, of which the buffer holds 1022 bytes.
unfoldable pub mod_sendmsgf : Text → Option Text
unfolding format_text
mod_sendmsgf msg = format_text msg >>= λ buf. some (take 1022 buf)

-- `strncpy(msg, rawmsg, sizeof(msg))`: `none` means that the 512 bytes of the copy have no end.
unfoldable pub copy_message : Text → Option Text
copy_message rawmsg = if ltb (length rawmsg) 512 then some rawmsg else none

module _ (server : Server) where
  unfoldable pub stop_command : Text → MpdState → MpdResult
  unfolding mod_mpd_update_status mod_sendmsgf
  stop_command rawmsg m = mod_sendmsgf rawmsg >>= λ msg.
      then_update server m (message Msgtype.player msg ∷ message Msgtype.event msg ∷ stop ∷ [])

  unfoldable pub toggle_pause : Text → MpdState → MpdResult
  unfolding mod_mpd_update_status mod_sendmsgf
  toggle_pause rawmsg m = mod_sendmsgf rawmsg >>= λ msg.
      then_update server m (message Msgtype.player msg ∷ pause_command m.player.state)

  -- Every second seek is left out.
  unfoldable pub seek_command : Text → Text → MpdState → MpdResult
  unfolding mod_mpd_update_status mod_sendmsgf
  seek_command rawmsg rest m = mod_sendmsgf rawmsg >>= λ msg. elim m.seekcounter [
    | suc n ↦ some (record m { seekcounter = n }, message Msgtype.player msg ∷ [])
    | zero ↦
        let m' = record m { seekcounter = 1 } in
        elim (strtok blanks rest) [
          | none ↦ some (m', message Msgtype.player msg ∷ [])
          | some (c2, _) ↦ then_update server m' (
              message Msgtype.player msg
              ∷ seek m.player.song (m.player.elapsed_time +ℤ atoi c2)
              ∷ [])
        ]
  ]

  unfoldable pub volume_command : Text → MpdState → MpdResult
  volume_command rest m = elim (strtok blanks rest) [
    | none ↦ some (m, [])
    | some (c2, _) ↦ some (m, volume (atoi c2) ∷ [])
  ]

  -- The commands at the end of the chain.
  unfoldable pub mode_command : Text → Text → MpdState → MpdResult
  unfolding volume_command
  mode_command c1 rest m =
      if nocase_eq c1 (codes "volume")
      then volume_command rest m
      else if nocase_eq c1 (codes "repeat")
      then some (m, repeat_mode (not m.player.repeat) ∷ [])
      else if nocase_eq c1 (codes "random")
      then some (m, random_mode (not m.player.random) ∷ [])
      else if nocase_eq c1 (codes "delcurrsong")
      then some (m, delete_id m.song.id ∷ [])
      else if nocase_eq c1 (codes "pl_clear")
      then some (m, clear ∷ [])
      else some (m, [])

  unfoldable pub mpd_command : Text → Text → Text → MpdState → MpdResult
  unfolding mod_mpd_play stop_command toggle_pause seek_command jump djump mode_command
  mpd_command rawmsg c1 rest m =
      if nocase_eq c1 (codes "play")
      then some (mod_mpd_play server m)
      else if nocase_eq c1 (codes "stop")
      then stop_command rawmsg m
      else if nocase_eq c1 (codes "pause")
      then toggle_pause rawmsg m
      else if nocase_eq c1 (codes "seek")
      then seek_command rawmsg rest m
      else if nocase_eq c1 (codes "jump")
      then jump rest m
      else if nocase_eq c1 (codes "djump")
      then some (djump rest m)
      else mode_command c1 rest m

  -- A condition with no command behind it leaves a null pointer to be compared.
  abbrev pub input_message : Text → Start → MpdState → MpdResult
  input_message rawmsg ignored m = some (m, [])
  input_message rawmsg (command none rest) m = none
  input_message rawmsg (command (some c1) rest) m = mpd_command rawmsg c1 rest m

  unfoldable pub player_message : Text → MpdState → MpdResult
  player_message msg m = elim (strtok blanks msg) [
    | none ↦ some (m, [])
    | some (c1, _) ↦
        if nocase_eq c1 (codes "endofsong")
        then some (m, message Msgtype.event (codes "endofsong") ∷ [])
        else some (m, [])
  ]

  abbrev pub status_answer : MpdState → List Sent
  status_answer m = elim m.player.state [
    | stopped ↦ message Msgtype.info (codes "stop") ∷ []
    | playing ↦ message Msgtype.info (codes "play mpc " ++ show_int m.player.song) ∷ []
    | paused ↦ message Msgtype.info (codes "pause") ∷ []
    | unknown ↦ []
  ]

  unfoldable pub query_message : Text → MpdState → MpdResult
  query_message msg m = elim (strtok blanks msg) [
    | none ↦ some (m, [])
    | some (c1, _) ↦
        if nocase_eq c1 (codes "status") then some (m, status_answer m) else some (m, [])
  ]

  -- `active` is the status of the browser. The copy of the message is what the words are read from.
  unfoldable pub mod_mpd_message : Bool → ℕ → Text → MpdState → MpdResult
  unfolding copy_message mpd_command player_message query_message read_command
  mod_mpd_message active msgtype rawmsg m =
      if msgtype == Msgtype.input
      then (copy_message rawmsg >>= λ msg. input_message rawmsg (read_command active msg) m)
      else if msgtype == Msgtype.player
      then (copy_message rawmsg >>= λ msg. player_message msg m)
      else if msgtype == Msgtype.query
      then (copy_message rawmsg >>= λ msg. query_message msg m)
      else some (m, [])
