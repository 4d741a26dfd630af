-- ===== src/State.antt =====
-- src/globalDef.h: the records that the modules of the program share, as they are declared there.
-- `char` arrays are strings without the terminating zero.
use audiobase.Common.{[], Option, none, some, ℕ, List, Bool, ℤ, negsuc}
use audiobase.Text.{Text}

-- `struct MPD_PLAYER_SONG`
pub record Song : Type 0 where
  pub file : Text
  pub artist : Text
  pub title : Text
  pub album : Text
  pub track : Text
  pub name : Text
  pub fileext : Text
  pub time : ℤ
  pub pos : ℤ
  pub id : ℤ

-- `mpd_Song` of libmpdclient.h, with `none` for a null pointer
pub record MpdSong : Type 0 where
  pub file : Option Text
  pub artist : Option Text
  pub title : Option Text
  pub album : Option Text
  pub track : Option Text
  pub name : Option Text
  pub time : ℤ
  pub pos : ℤ
  pub id : ℤ

abbrev pub or_empty : Option Text → Text
or_empty none = []
or_empty (some s) = s

-- The copy of a song of the server, field by field; `fileext` stays.
unfoldable pub copy_song : MpdSong → Song → Song
copy_song info song = record song {
  file = or_empty info.file;
  album = or_empty info.album;
  artist = or_empty info.artist;
  name = or_empty info.name;
  title = or_empty info.title;
  track = or_empty info.track;
  time = info.time;
  pos = info.pos;
  id = info.id;
}

-- MPD_SONG_NO_TIME of libmpdclient.h
abbrev pub song_no_time : ℤ
song_no_time = negsuc 0

-- MPD_STATUS_STATE_* of libmpdclient.h
pub data PlayState : Type 0 where
  unknown stopped playing paused : PlayState

-- The fields of `struct MPD_PLAYER_STATUS` that the modules read.
pub record PlayerStatus : Type 0 where
  pub volume : ℤ
  pub repeat : Bool
  pub random : Bool
  pub playlist_length : ℤ
  pub state : PlayState
  pub song : ℤ
  pub elapsed_time : ℤ
  pub total_time : ℤ
  pub bit_rate : ℤ
  pub updating_db : Bool

-- `struct BROWSER_ELEMENT`: the fields in use. `status` is one of ELEMENT_*, `info_type` one of
-- BROWSER_INFO_*.
pub record Element : Type 0 where
  pub name : Text
  pub info_path : Text
  pub info_type : ℕ
  pub status : ℕ

abbrev pub element_standard : ℕ
element_standard = 0

abbrev pub element_submenu : ℕ
element_submenu = 7

abbrev pub info_undefined : ℕ
info_undefined = 0

abbrev pub info_directory : ℕ
info_directory = 1

abbrev pub info_songfile : ℕ
info_songfile = 2

abbrev pub info_playlist : ℕ
info_playlist = 3

abbrev pub info_script : ℕ
info_script = 4

-- `struct BROWSER_PROPERTIES`. `elements` are the entries of `pElements` below `ElementCount`, and
-- `spare` those that follow up to the first null pointer; `active` says whether the status is
-- BROWSER_STATUS_ACTIVE.
pub record Browser : Type 0 where
  pub head_line_fixed : Text
  pub current_dir : Text
  pub active : Bool
  pub elements : List Element
  pub spare : List Element
  pub display_pos : ℤ
  pub cursor_pos : ℤ
