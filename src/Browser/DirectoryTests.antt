-- ===== src/Browser/DirectoryTests.antt =====
-- Tests of the directories and the messages of the browser (src/mod_browser.c), and the theorems at
-- concrete inputs.
use audiobase.Common.{
  [], ◌∷◌, List, true, false, none, some, leb, if◌then◌else◌, ◌≡◌, refl, arith, length, All, pos,
  negsuc, ◌-ℤ◌,
}
use audiobase.Text.{
  Text, codes, nocase_eq, text_eq, to_lower, strrchr, before_last, strcasecmp, atoi, strtok,
}
use audiobase.State.{
  MpdSong, copy_song, Element, Browser, element_standard, element_submenu, info_directory,
  info_songfile,
}
use audiobase.Bus.Msgtype
use audiobase.Format.{
  song_label, append_to_string, skip_formatting, count_lower, song_to_formatted_string,
}
use audiobase.Text.{strncmp_eq}
use audiobase.Browser.{
  Entity, directory, song_info, playlist_file, clean_path, base_name, read_entities, qsort,
  mod_browser_cmp_bwrelemnts, store_listing, mod_browser_get_mpddir, mod_browser_find_element,
  last_part, parent_dir, mod_browser_back, mod_browser_into, new_headline, mod_browser_open,
  Setting, browser_command, mod_browser_message, refresh_browser, reset_timer,
}
use audiobase.Browser.Listing.{shown_count, length-read_entities}
use audiobase.Browser.Back.{slashes, mod_browser_back_nested}
use audiobase.Browser.Guards.{SamePlace, command-SamePlace}

abbrev same : Text → Text
same s = s

abbrev song : Text → Text → MpdSong
song file title = record {
  file = some file;
  artist = none;
  title = some title;
  album = none;
  track = none;
  name = none;
  time = pos 60;
  pos = pos 0;
  id = pos 0;
}

-- The root holds the directories b and a, the directory a holds two songs and a directory.
abbrev lsinfo : Text → List Entity
lsinfo path =
    if text_eq path (codes "a")
    then song_info (song (codes "a/x.mp3") (codes "10 x"))
      ∷ song_info (song (codes "a/y.mp3") (codes "9 y"))
      ∷ directory (codes "a/z")
      ∷ []
    else if text_eq path (codes "/")
    then directory (codes "b") ∷ playlist_file ∷ directory (codes "a") ∷ []
    else []

abbrev in_root : Browser
in_root = record {
  head_line_fixed = codes "Root";
  current_dir = codes "/";
  active = true;
  elements =
      (record {
        name = codes "a/";
        info_path = codes "a";
        info_type = info_directory;
        status = element_submenu;
      })
      ∷ (record {
        name = codes "b/";
        info_path = codes "b";
        info_type = info_directory;
        status = element_submenu;
      })
      ∷ [];
  spare = [];
  display_pos = pos 0;
  cursor_pos = pos 0;
}

abbrev song_entry : Text → Text → Element
song_entry file name = record {
  name = name;
  info_path = file;
  info_type = info_songfile;
  status = element_standard;
}

abbrev in_a : Browser
in_a = record {
  head_line_fixed = codes "a";
  current_dir = codes "a";
  active = true;
  elements =
      (record {
        name = codes "z/";
        info_path = codes "a/z";
        info_type = info_directory;
        status = element_submenu;
      })
      ∷ song_entry (codes "a/y.mp3") (codes "9 y")
      ∷ song_entry (codes "a/x.mp3") (codes "10 x")
      ∷ [];
  spare = [];
  display_pos = pos 0;
  cursor_pos = pos 0;
}

abbrev root_listed : Browser
root_listed = record in_root { active = false }

enters : mod_browser_into same lsinfo (codes "b") (λ _ b. some b) in_root ≡ some in_a
unfolding mod_browser_into mod_browser_get_mpddir store_listing read_entities qsort
    mod_browser_cmp_bwrelemnts strcasecmp atoi to_lower clean_path base_name text_eq nocase_eq
    strrchr before_last copy_song song_to_formatted_string append_to_string skip_formatting
    count_lower strncmp_eq ◌-ℤ◌ new_headline song_label
enters = refl

abbrev in_z : Browser
in_z = record in_a { current_dir = codes "a/z"; head_line_fixed = codes "z" }

goes_back : mod_browser_back same lsinfo 4 in_z ≡ some (in_a, true)
unfolding mod_browser_get_mpddir store_listing read_entities qsort mod_browser_cmp_bwrelemnts
    strcasecmp atoi to_lower clean_path base_name text_eq nocase_eq strrchr before_last copy_song
    song_to_formatted_string song_label append_to_string skip_formatting count_lower strncmp_eq ◌-ℤ◌
    mod_browser_back mod_browser_find_element last_part parent_dir
goes_back = refl

back_message :
    mod_browser_message
      (record {
        from_utf8 = same;
        lsinfo = lsinfo;
        exec_dir = codes "b";
        read_dir = λ _. none;
        cdup = true;
        display_hgt = 4;
        playlists = codes "/";
      })
      Msgtype.input
      (codes "c_browser browser Back")
      in_z
    ≡ some (in_a, reset_timer ∷ refresh_browser ∷ [])
unfolding mod_browser_get_mpddir store_listing read_entities qsort mod_browser_cmp_bwrelemnts
    strcasecmp atoi to_lower clean_path base_name text_eq nocase_eq strrchr before_last copy_song
    song_to_formatted_string song_label append_to_string skip_formatting count_lower strncmp_eq ◌-ℤ◌
    mod_browser_back mod_browser_find_element last_part parent_dir mod_browser_message strtok
back_message = refl

length-read_entities_example : length (read_entities same 0 (lsinfo (codes "/"))) ≡ (
    if leb (shown_count (lsinfo (codes "/"))) 1025 then shown_count (lsinfo (codes "/")) else 1025)
length-read_entities_example = length-read_entities same (lsinfo (codes "/"))

-- A directory that has lost entries: the cursor stays behind the last one.
loses_entries :
    mod_browser_open same
      (λ _. directory (codes "b") ∷ [])
      (record root_listed { cursor_pos = pos 1 })
    ≡ some (record in_root {
      elements =
          (record {
            name = codes "b/";
            info_path = codes "b";
            info_type = info_directory;
            status = element_submenu;
          })
          ∷ [];
      cursor_pos = pos 1;
    })
unfolding mod_browser_get_mpddir store_listing read_entities qsort mod_browser_cmp_bwrelemnts
    strcasecmp atoi to_lower clean_path base_name text_eq nocase_eq strrchr before_last copy_song
    song_to_formatted_string song_label append_to_string skip_formatting count_lower strncmp_eq ◌-ℤ◌
    mod_browser_open
loses_entries = refl

nested_paths :
    All
      (λ e. slashes e.info_path ≡ true)
      (read_entities same 0 (lsinfo (clean_path (parent_dir in_z.current_dir))))
unfolding mod_browser_get_mpddir store_listing read_entities qsort mod_browser_cmp_bwrelemnts
    strcasecmp atoi to_lower clean_path base_name text_eq nocase_eq strrchr before_last copy_song
    song_to_formatted_string song_label append_to_string skip_formatting count_lower strncmp_eq ◌-ℤ◌
    parent_dir
nested_paths = (refl, (refl, (refl, tt)))

mod_browser_back_nested_example :
    (mod_browser_find_element false (last_part in_z.current_dir) in_a.elements ≡ negsuc 0)
    × (in_a.cursor_pos ≡ pos 0)
    × (in_a.display_pos ≡ pos 0)
mod_browser_back_nested_example =
    mod_browser_back_nested same lsinfo 4 in_z in_a refl (omega arith) nested_paths goes_back

abbrev setting : Setting
setting = record {
  from_utf8 = same;
  lsinfo = lsinfo;
  exec_dir = codes "b";
  read_dir = λ _. none;
  cdup = true;
  display_hgt = 4;
  playlists = codes "/";
}

command-SamePlace_example : SamePlace (record in_a { active = false }) in_a
command-SamePlace_example =
    command-SamePlace setting (codes "show") [] (record in_a { active = false }) refl
      (unfold nocase_eq to_lower in refl) in_a (reset_timer ∷ refresh_browser ∷ [])
      (unfold browser_command nocase_eq to_lower in refl)
