-- ===== src/Display/Samples.antt =====
-- A display, with a player and a browser, for the tests of src/mod_lcdproc.c.
use audiobase.Common.{[], ◌∷◌, true, false, none, pos}
use audiobase.Text.{Text, codes}
use audiobase.State.{Song, PlayerStatus, playing, Element, Browser, element_standard, info_songfile}
use audiobase.Mpd.{MpdState}
use audiobase.Display.{Lcd, song_status, Sources}

abbrev pub song : Song
song = record {
  file = codes "a.mp3";
  artist = [];
  title = codes "X";
  album = [];
  track = [];
  name = [];
  fileext = codes "mp3";
  time = pos 185;
  pos = pos 3;
  id = pos 8;
}

abbrev pub status : PlayerStatus
status = record {
  volume = pos 60;
  repeat = true;
  random = false;
  playlist_length = pos 30;
  state = playing;
  song = pos 3;
  elapsed_time = pos 10;
  total_time = pos 185;
  bit_rate = pos 128;
  updating_db = false;
}

abbrev pub player : MpdState
player = record {
  player = status;
  song = song;
  seekcounter = 0;
  djump_cursor = 0;
  djump_value = pos 0;
}

abbrev pub entry : Text → Element
entry name = record {
  name = name;
  info_path = name;
  info_type = info_songfile;
  status = element_standard;
}

abbrev pub browser : Browser
browser = record {
  head_line_fixed = codes "Rock";
  current_dir = codes "Rock";
  active = true;
  elements = entry (codes "..") ∷ entry (codes "a") ∷ entry (codes "b") ∷ entry (codes "c") ∷ [];
  spare = [];
  display_pos = pos 0;
  cursor_pos = pos 1;
}

abbrev pub lcd : Lcd
lcd = record {
  connected = true;
  polled = true;
  wid = 20;
  hgt = pos 4;
  cellwid = pos 5;
  cellhgt = pos 8;
  display_wid = 20;
  display_hgt = pos 4;
  mode = pos 0;
  playmode = [];
  time1 = pos 0;
  time2 = pos 0;
  time_len = pos 0;
  file_old = [];
  repeat = pos 0;
  updatesong_data = true;
  shuffle = pos 0;
  mute = pos 0;
  sleep = false;
  tmptimeout = 0;
  browsertimeout = 0;
  browsertimeoutmax = pos 10;
  cursorpos_enabled = false;
  clockmode = false;
  clocktimer = pos 60;
  songtime_hours = false;
  status_alignment = true;
  preserve_upper_right = false;
  title_line = pos 2;
  artist_line = pos 1;
  status_line = pos 3;
  time_line = pos 4;
  bitrate_counter = 0;
  bitrate_sum = pos 0;
  static_unselected = true;
  curr_screen = song_status;
  player = player;
  browser = browser;
  sent = [];
  messages = [];
}

abbrev pub sources : Sources
sources = record {
  from_utf8 = λ s. s;
  stats = none;
  now = 1000;
  timestr = codes "12:30";
  datestr = codes "03/01/05";
  config = [];
  mpd_update = λ m. m;
}
