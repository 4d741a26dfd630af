-- ===== src/Format/Tests.antt =====
-- Tests of the formats (src/util.c), and the theorems at concrete inputs.
use mathlib.Core.List.{cons-ne-nil}
use audiobase.Common.{[], true, false, Option, some, ◌≡◌, refl, ◌≤◌, length, pos}
use audiobase.Text.{Text, codes, strncmp_eq, show_int, show_02, strrchr}
use audiobase.State.{Song, PlayerStatus, playing}
use audiobase.Format.{
  append_to_string, skip_formatting, count_lower, info_label, song_to_formatted_string,
  info_to_formatted_string,
}
use audiobase.Format.Total.{song_to_formatted_string_total}
use audiobase.Format.Plain.{escape, format-escape}
use audiobase.Format.Names.{browser_format, browser_name, browser_format_lem}

abbrev song : Song
song = record {
  file = codes "rock/a.mp3";
  artist = codes "X";
  title = [];
  album = [];
  track = codes "7";
  name = [];
  fileext = codes "mp3";
  time = pos 185;
  pos = pos 3;
  id = pos 0;
}

abbrev player : PlayerStatus
player = record {
  volume = pos 60;
  repeat = true;
  random = false;
  playlist_length = pos 9;
  state = playing;
  song = pos 3;
  elapsed_time = pos 10;
  total_time = pos 185;
  bit_rate = pos 128;
  updating_db = false;
}

abbrev same : Text → Text
same s = s

formats :
    (song_to_formatted_string same song (codes "[%title%|%artist%] (%time%) ##%plpos%")
      ≡ some (some (codes "X (3:05) #3"), []))
    × (song_to_formatted_string same song (codes "[%title% - ]%track%]rest")
        ≡ some (some (codes "7"), codes "rest"))
    × (song_to_formatted_string same song (codes "%title%&%artist%|%shortfile%")
        ≡ some (some (codes "a.mp3"), []))
    × (info_to_formatted_string same song player (codes "[%repeat%R][%random%S]%bad%")
        ≡ some (some (codes "R%bad%"), []))
unfolding song_to_formatted_string info_to_formatted_string info_label append_to_string
    skip_formatting count_lower strncmp_eq show_int show_02 strrchr
formats = (refl, refl, refl, refl)

browser_format_lem_example :
    song_to_formatted_string same song browser_format ≡ some (some (browser_name same song), [])
browser_format_lem_example = browser_format_lem same song

format-escape_example :
    song_to_formatted_string same song (escape (codes "50% [a|b]"))
    ≡ some (some (codes "50% [a|b]"), [])
format-escape_example =
    format-escape same song (codes "50% [a|b]") (cons-ne-nil b'5' (codes "0% [a|b]"))

song_to_formatted_string_total_example :
    (r : Option Text) × (last : Text) × (song_to_formatted_string same song (codes "[[%a|]&]#")
      ≡ some (r, last))
    × (length last ≤ length (codes "[[%a|]&]#"))
song_to_formatted_string_total_example =
    song_to_formatted_string_total same song (codes "[[%a|]&]#")
