-- ===== src/Mpd/Tests.antt =====
-- Tests of the commands to the player (src/mod_mpd.c), and the theorems at concrete inputs.
use audiobase.Common.{
  replicate, ℕ, ◌≤◌, ◌<◌, [], ◌∷◌, true, false, none, some, ◌≡◌, ◌↔◌, refl, arith, All, pos, negsuc,
  ◌+ℤ◌, ◌-ℤ◌, ◌≤ℤ◌,
}
use audiobase.Text.{Text, codes, nocase_eq, to_lower, atoi, show_int, strtok}
use audiobase.State.{Song, PlayerStatus, playing}
use audiobase.Bus.Msgtype
use audiobase.Mpd.{
  play, MpdState, Server, jump_target, djump, lcd_refresh, mod_sendmsgf, copy_message, stop_command,
  mod_mpd_message,
}
use audiobase.Mpd.Bounds.{IsSong, IsNumber, djump_lem}
use audiobase.Mpd.Wrap.{IsCongruent, jump_target_repeat, jump_target_once}
use audiobase.Mpd.Returns.{Returns}

abbrev status : PlayerStatus
status = record {
  volume = pos 60;
  repeat = true;
  random = false;
  playlist_length = pos 30;
  state = playing;
  song = pos 3;
  elapsed_time = pos 10;
  total_time = pos 185;
  bit_rate = pos 128;
  updating_db = false;
}

abbrev song : Song
song = record {
  file = codes "a.mp3";
  artist = [];
  title = [];
  album = [];
  track = [];
  name = [];
  fileext = [];
  time = pos 185;
  pos = pos 3;
  id = pos 8;
}

abbrev start : MpdState
start = record {
  player = status;
  song = song;
  seekcounter = 0;
  djump_cursor = 0;
  djump_value = pos 0;
}

abbrev entering : MpdState
entering = record start { djump_cursor = 1; djump_value = pos 20 }

abbrev silent : Server
silent sent = none

-- Two digits: >10, then 2, then 4 gives song 24, whose position is 23.
enters_24 :
    ((djump (codes ">") start).0.djump_value ≡ pos 10)
    × ((djump (codes "2") (djump (codes ">") start).0).0 ≡ entering)
    × ((djump (codes "4") entering).1 ≡ play (pos 23) ∷ lcd_refresh ∷ [])
    × ((djump (codes "+") entering).0.djump_value ≡ pos 30)
    × ((djump (codes ">") entering).0.djump_value ≡ pos 0)
unfolding djump atoi show_int ◌+ℤ◌ ◌-ℤ◌
enters_24 = (refl, refl, refl, refl, refl)

jumps :
    (jump_target (pos 30) true (pos 33) ≡ some (pos 3))
    × (jump_target (pos 30) true (negsuc 1) ≡ some (pos 28))
    × (jump_target (pos 30) true (negsuc 29) ≡ some (pos 0))
    × (jump_target (pos 30) false (pos 33) ≡ some (pos 30))
    × (jump_target (pos 0) true (pos 0) ≡ none)
unfolding jump_target ◌-ℤ◌
jumps = (refl, refl, refl, refl, refl)

-- A condition alone, which holds.
null_command : mod_mpd_message silent true Msgtype.input (codes "c_browser") start ≡ none
unfolding mod_mpd_message nocase_eq to_lower strtok
null_command = refl

-- A format with a conversion, and a message that fills the copy.
unsafe_messages :
    (mod_mpd_message silent true Msgtype.input (codes "stop %s") start ≡ none)
    × (mod_mpd_message silent true Msgtype.input (replicate 512 b'x') start ≡ none)
unfolding mod_mpd_message copy_message stop_command mod_sendmsgf nocase_eq to_lower strtok
unsafe_messages = (refl, refl)

djump_lem_example :
    IsNumber (pos 30) (djump (codes "4") entering).0.djump_value
    × ((djump (codes "4") entering).0.player ≡ status)
    × All (IsSong (pos 30)) (djump (codes "4") entering).1
djump_lem_example = djump_lem (codes "4") entering (omega arith) (omega arith, omega arith)

jump_target_repeat_example :
    (target : ℕ) × (jump_target (pos 30) true (negsuc 1) ≡ some (pos target))
    × (target < 30)
    × IsCongruent 30 (negsuc 1) target
jump_target_repeat_example = jump_target_repeat 30 (negsuc 1) (omega arith)

jump_target_once_example :
    (target : ℕ) × (jump_target (pos 30) false (pos 33) ≡ some (pos target))
    × (target ≤ 30)
    × ((target ≡ 30) ↔ (pos 30 ≤ℤ pos 33))
jump_target_once_example = jump_target_once 30 (pos 33) (omega arith)
