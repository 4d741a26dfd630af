-- ===== src/Mpd/Player.antt =====
-- The state of src/mod_mpd.c, what it sends, and how it keeps the state of the player: the functions
-- mod_mpd_update_status, mod_mpd_update_songinfo and mod_mpd_play.
use audiobase.Common.{ℕ, [], ◌∷◌, List, Bool, false, Option, none, some, ℤ, pos}
use audiobase.Text.{Text, strrchr}
use audiobase.State.{
  Song, MpdSong, copy_song, PlayerStatus, PlayState, unknown, stopped, playing, paused,
}
use audiobase.Browser.{Entity, directory, song_info, playlist_file}

-- What is sent to the player's server (`mpd_send…Command`) and to the queue of messages.
pub data Sent : Type 0 where
  play : ℤ → Sent
  seek : ℤ → ℤ → Sent
  pause : Bool → Sent
  stop next prev clear : Sent
  volume : ℤ → Sent
  repeat_mode random_mode : Bool → Sent
  delete_id : ℤ → Sent
  message : ℕ → Text → Sent

-- The globals: `player_status`, `player_song`, `seekcounter` and `djump_status`. The position of the
-- digit that is edited is never negative.
pub record MpdState : Type 0 where
  pub player : PlayerStatus
  pub song : Song
  pub seekcounter : ℕ
  pub djump_cursor : ℕ
  pub djump_value : ℤ

-- The server's answer to the status command after what was sent; `none` is an error.
abbrev pub Server : Type 0
Server = List Sent → Option PlayerStatus

unfoldable pub mod_mpd_update_status : Server → List Sent → MpdState → MpdState
mod_mpd_update_status server sent m = elim (server sent) [
  | none ↦ m
  | some status ↦ record m { player = status }
]

-- The first song among the entities that the server sends.
abbrev pub first_song : List Entity → Option MpdSong
first_song [] = none
first_song (directory path ∷ es) = first_song es
first_song (playlist_file ∷ es) = first_song es
first_song (song_info info ∷ es) = some info

-- `strrchr(player_song.file,'.')+1`, if there is a dot; else the extension stays.
abbrev pub set_fileext : Song → Song
set_fileext song = elim (strrchr b'.' song.file) [
  | some (c ∷ s) ↦ record song { fileext = s }
  | _ ↦ song
]

-- `state` is that of the status which is read together with the song; the global status stays.
unfoldable pub mod_mpd_update_songinfo : PlayState → List Entity → MpdState → MpdState
unfolding copy_song
mod_mpd_update_songinfo state es m =
    let updated = record m {
      song =
          set_fileext (elim (first_song es) [ none ↦ m.song | some info ↦ copy_song info m.song ]);
    } in
    elim state [ playing ↦ updated | paused ↦ updated | stopped ↦ m | unknown ↦ m ]

-- Resume, start the song again, or start the playlist.
abbrev pub play_command : PlayerStatus → Sent
play_command p = elim p.state [
  | paused ↦ pause false
  | playing ↦ seek p.song (pos 0)
  | stopped ↦ play (pos 0)
  | unknown ↦ play (pos 0)
]

unfoldable pub mod_mpd_play : Server → MpdState → MpdState × List Sent
unfolding mod_mpd_update_status
mod_mpd_play server m =
    let m' = mod_mpd_update_status server [] m in (m', play_command m'.player ∷ [])
