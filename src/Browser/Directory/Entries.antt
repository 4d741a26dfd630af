-- ===== src/Browser/Directory/Entries.antt =====
-- `mod_browser_get_mpddir` of src/mod_browser.c. What the player's server lists for a path is an
-- argument.
use audiobase.Common.{
  ℕ, suc, [], ◌∷◌, ◌++◌, List, Bool, true, false, Option, none, some, ltb, ◌==◌, if◌then◌else◌,
  length, pos,
}
use audiobase.Text.{Text, codes, strrchr, before_last}
use audiobase.State.{
  Song, MpdSong, copy_song, Element, Browser, element_standard, element_submenu, info_undefined,
  info_directory, info_songfile,
}
use audiobase.Format.{song_to_formatted_string}
use audiobase.Format.Names.{browser_format}
use audiobase.Browser.Sort.{qsort}

-- `mpd_InfoEntity`: a directory with its path, a song with its tags, or a playlist.
pub data Entity : Type 0 where
  directory : Text → Entity
  song_info : MpdSong → Entity
  playlist_file : Entity

-- MOD_BROWSER_MAXENTRY, the length of `pElements`
abbrev pub max_entry : ℕ
max_entry = 1024

-- A leading slash is removed from a path that is longer, and then a slash at its end.
abbrev pub drop_leading : Text → Text
drop_leading [] = []
drop_leading (c ∷ []) = c ∷ []
drop_leading (c ∷ d ∷ s) = if c == b'/' then d ∷ s else c ∷ d ∷ s

abbrev pub drop_ending : Text → Text
drop_ending s = elim (strrchr b'/' s) [
  | some (c ∷ []) ↦ if ltb 1 (length s) then before_last b'/' s else s
  | _ ↦ s
]

unfoldable pub clean_path : Text → Text
clean_path path = drop_ending (drop_leading path)

-- The part behind the last slash, if a byte follows it.
unfoldable pub base_name : Text → Text
base_name path = elim (strrchr b'/' path) [ none ↦ path | some (c ∷ d ∷ s) ↦ d ∷ s | some s ↦ s ]

abbrev unset_song : Song
unset_song = record {
  file = [];
  artist = [];
  title = [];
  album = [];
  track = [];
  name = [];
  fileext = [];
  time = pos 0;
  pos = pos 0;
  id = pos 0;
}

module _ (from_utf8 : Text → Text) where
  unfoldable pub directory_element : Text → Element
  unfolding base_name
  directory_element path = record {
    name = from_utf8 (base_name path) ++ b'/' ∷ [];
    info_path = from_utf8 path;
    info_type = info_directory;
    status = element_submenu;
  }

  -- The name is what the format gives, or n/a. (The format always comes to an end.) The field
  -- `fileext`, which is not set here, has no part in this format.
  unfoldable pub song_element : MpdSong → Element
  unfolding copy_song
  song_element info =
      let song = copy_song info unset_song in
      record {
        name = elim (song_to_formatted_string from_utf8 song browser_format) [
          | some (some s, last) ↦ s
          | some (none, last) ↦ codes "n/a"
          | none ↦ codes "n/a"
        ];
        info_path = from_utf8 song.file;
        info_type = info_songfile;
        status = element_standard;
      }

  -- The while loop, where `count` is i + 1: it stops when i reaches the maximum.
  unfoldable pub read_entities : ℕ → List Entity → List Element
  unfolding directory_element song_element
  read_entities count [] = []
  read_entities count (directory path ∷ es) =
      directory_element path
      ∷ (if ltb max_entry (suc count) then [] else read_entities (suc count) es)
  read_entities count (song_info info ∷ es) =
      song_element info ∷ (if ltb max_entry (suc count) then [] else read_entities (suc count) es)
  read_entities count (playlist_file ∷ es) =
      if ltb max_entry count then [] else read_entities count es

-- The end of `mod_browser_get_mpddir`. The result says whether there is an entry. An empty directory
-- has its text written into the first entry of `pElements`; `none` means that this is a null pointer.
unfoldable pub store_listing : Text → List Element → Browser → Option (Browser × Bool)
store_listing ls [] b = elim (b.elements ++ b.spare) [
  | [] ↦ none
  | e ∷ es ↦ some (
    record b {
      current_dir = ls;
      elements = [];
      spare = (record e { name = codes "<NONE>"; info_type = info_undefined }) ∷ es;
    },
    false,
  )
]
store_listing ls (e ∷ es) b =
    some (record b { current_dir = ls; elements = qsort (e ∷ es); spare = [] }, true)

unfoldable pub mod_browser_get_mpddir :
    (Text → Text) → (Text → List Entity) → Text → Browser → Option (Browser × Bool)
mod_browser_get_mpddir from_utf8 lsinfo path b =
    let ls = clean_path path in store_listing ls (read_entities from_utf8 0 (lsinfo ls)) b
