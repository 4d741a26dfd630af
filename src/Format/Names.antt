-- ===== src/Format/Names.antt =====
-- The names that the program itself shows: the format of a browser line in src/mod_browser.c and
-- the format of the title line in src/mod_lcdproc.c, each for every song.
use audiobase.Common.{
  [], ◌∷◌, ◌++◌, some, ◌≡◌, refl, if◌then◌else◌, ◌&&◌, String, append-nil, append_assoc, ℤ,
}
use audiobase.Text.{Text, codes, is_empty, strncmp_eq}
use audiobase.State.{Song, PlayerStatus}
use audiobase.Format.Syntax.{append_to_string, skip_formatting, count_lower}
use audiobase.Format.Labels.{short_file, song_label, info_label}
use audiobase.Format.Loop.{song_to_formatted_string, info_to_formatted_string}

-- `char ctmp[512]` of `mod_browser_get_mpddir`
abbrev pub browser_format : Text
browser_format = codes "[%track%. ][%artist% - ][%title%]|%shortfile%"

-- `char ctmp[512]` of `mod_lcdproc_refresh`
abbrev pub title_format : Text
title_format = codes "%title%|%shortfile%"

abbrev pub part : (Text → Text) → Text → String → Text
part from_utf8 [] behind = []
part from_utf8 (c ∷ s) behind = from_utf8 (c ∷ s) ++ codes behind

-- What a browser line should be: the tags that the song has, and the file name if it has none.
abbrev pub browser_name : (Text → Text) → Song → Text
browser_name from_utf8 song =
    if is_empty song.track && (is_empty song.artist && is_empty song.title)
    then short_file from_utf8 song.file
    else part from_utf8 song.track ". "
      ++ (part from_utf8 song.artist " - " ++ part from_utf8 song.title "")

-- A song given by its fields, those first that the two formats test.
abbrev tagged : Text → Text → Text → Song → Song
tagged track artist title song = record song { track = track; artist = artist; title = title }

title_cases :
    (from_utf8 : Text → Text) (track artist title : Text) (song : Song) (player : PlayerStatus)
    → info_to_formatted_string from_utf8 (tagged track artist title song) player title_format
      ≡ some (some (if is_empty title then short_file from_utf8 song.file else from_utf8 title), [])
unfolding info_to_formatted_string info_label append_to_string skip_formatting count_lower
    strncmp_eq
title_cases from_utf8 track artist [] song player = refl
title_cases from_utf8 track artist (c ∷ title) song player = refl

-- For every song the format of the title line gives the title, and the name of the file without its
-- directories if there is no title.
title_format_lem :
    (from_utf8 : Text → Text) (song : Song) (player : PlayerStatus)
    → info_to_formatted_string from_utf8 song player title_format
      ≡ some (
        some (if is_empty song.title then short_file from_utf8 song.file else from_utf8 song.title),
        [],
      )
title_format_lem from_utf8 song player =
    title_cases from_utf8 song.track song.artist song.title song player

browser_cases :
    (from_utf8 : Text → Text) (track artist title : Text) (song : Song)
    → song_to_formatted_string from_utf8 (tagged track artist title song) browser_format
      ≡ some (some (browser_name from_utf8 (tagged track artist title song)), [])
unfolding song_to_formatted_string song_label append_to_string skip_formatting count_lower
    strncmp_eq
browser_cases from_utf8 [] [] [] song = refl
browser_cases from_utf8 [] [] (c ∷ title) song = simp append-nil
browser_cases from_utf8 [] (b ∷ artist) [] song = simp (append-nil, append_assoc)
browser_cases from_utf8 [] (b ∷ artist) (c ∷ title) song = simp (append-nil, append_assoc)
browser_cases from_utf8 (a ∷ track) [] [] song = simp (append-nil, append_assoc)
browser_cases from_utf8 (a ∷ track) [] (c ∷ title) song = simp (append-nil, append_assoc)
browser_cases from_utf8 (a ∷ track) (b ∷ artist) [] song = simp (append-nil, append_assoc)
browser_cases from_utf8 (a ∷ track) (b ∷ artist) (c ∷ title) song = simp (append-nil, append_assoc)

-- For every song the format of a browser line gives the track number, the artist and the title,
-- each if it is there, and the name of the file without its directories if none is.
pub browser_format_lem :
    (from_utf8 : Text → Text) (song : Song)
    → song_to_formatted_string from_utf8 song browser_format
      ≡ some (some (browser_name from_utf8 song), [])
browser_format_lem from_utf8 song = browser_cases from_utf8 song.track song.artist song.title song

-- The volume of the player is never seen: at every volume, every format gives what it gives at any
-- other, though there is a label %volume%.
info_to_formatted_string-volume :
    (from_utf8 : Text → Text) (song : Song) (player : PlayerStatus) (format : Text) (volume : ℤ)
    → info_to_formatted_string from_utf8 song (record player { volume = volume }) format
      ≡ info_to_formatted_string from_utf8 song player format
unfolding info_to_formatted_string info_label
info_to_formatted_string-volume from_utf8 song player format volume = refl
