-- ===== src/Browser/Directory/Ways.antt =====
-- `mod_browser_find_element`, `mod_browser_back`, `mod_browser_into`, `mod_browser_intodirscan`,
-- `mod_browser_open` and `mod_browser_init` of src/mod_browser.c.
use audiobase.Common.{
  ℕ, suc, [], ◌∷◌, ◌++◌, List, Bool, true, false, not, ◌&&◌, ◌||◌, Option, none, some, ltb, ◌==◌,
  if◌then◌else◌, length, ℤ, pos, negsuc, ◌-ℤ◌, ltb_ℤ,
}
use audiobase.Text.{Text, codes, is_empty, strrchr, before_last, text_eq, nocase_eq}
use audiobase.State.{info_script, Element, Browser, element_submenu, info_undefined, info_directory}
use audiobase.Browser.Cursor.{element_at}
use audiobase.Browser.Directory.Entries.{Entity, drop_ending, mod_browser_get_mpddir}

abbrev pub find_from : (Element → Text) → Text → ℕ → List Element → ℤ
find_from key name i [] = negsuc 0
find_from key name i (e ∷ es) =
    if nocase_eq (key e) name then pos i else find_from key name (suc i) es

-- `mod_browser_find_element`: by the name (BROWSER_FIND_NAME) or by the path.
unfoldable pub mod_browser_find_element : Bool → Text → List Element → ℤ
mod_browser_find_element by_name name elements =
    if is_empty name
    then negsuc 0
    else find_from (λ e. if by_name then e.name else e.info_path) name 0 elements

-- What stands behind the last slash of a directory.
unfoldable pub last_part : Text → Text
last_part dir = elim (strrchr b'/' dir) [
  | some (c ∷ s) ↦ if ltb 1 (length dir) then s else dir
  | _ ↦ dir
]

-- The directory without its last part; `/` if it has one part only.
unfoldable pub parent_dir : Text → Text
parent_dir dir = elim (strrchr b'/' dir) [ some s ↦ before_last b'/' dir | none ↦ codes "/" ]

-- Where the display starts after the way back: one line above the cursor, if there is space.
abbrev pub back_display : ℕ → Text → ℤ → ℤ
back_display display_hgt headline cursor =
    if ltb_ℤ (pos 0) cursor
      && ((ltb 3 display_hgt && is_empty headline)
          || (ltb 2 display_hgt && not (is_empty headline)))
    then cursor -ℤ pos 1
    else pos 0

abbrev pub found_or_first : ℤ → ℤ
found_or_first (pos i) = pos i
found_or_first (negsuc i) = pos 0

unfoldable pub mod_browser_back :
    (Text → Text) → (Text → List Entity) → ℕ → Browser → Option (Browser × Bool)
mod_browser_back from_utf8 lsinfo display_hgt b =
    if text_eq b.current_dir (codes "/")
    then some (b, true)
    else (let parent = parent_dir b.current_dir in
        elim (mod_browser_get_mpddir from_utf8 lsinfo parent b) [
          | none ↦ none
          | some (b', false) ↦ some (b', false)
          | some (b', true) ↦
              let headline = last_part parent in
              let cursor =
                found_or_first
                  (mod_browser_find_element false (last_part b.current_dir) b'.elements) in
              some (
                record b' {
                  head_line_fixed = headline;
                  cursor_pos = cursor;
                  active = true;
                  display_pos = back_display display_hgt headline cursor;
                },
                true,
              )
        ])

-- A slash at the end of a name that is longer is removed.
unfoldable pub new_headline : Text → Text
new_headline name = drop_ending name

-- The entry under the cursor, as far as `pElements` is allocated.
abbrev pub under_cursor : Browser → Option Element
under_cursor b = element_at (b.elements ++ b.spare) b.cursor_pos

-- What `readdir` and `stat` yield for a name: `none` if it cannot be examined, or whether it is a
-- directory.
abbrev pub DirEntry : Type 0
DirEntry = Text × Option Bool

-- The loop of `mod_browser_intodirscan` stores each name in the same entry, since `dircount` is
-- never counted up.
unfoldable pub scan_entries : Bool → Element → List DirEntry → Element
scan_entries cdup e [] = e
scan_entries cdup e ((name, st) ∷ ds) =
    let skipped = scan_entries cdup e ds in
    elim st [
      | none ↦ skipped
      | some is_dir ↦
          let stored =
            scan_entries cdup
              (record e {
                info_type = if is_dir then info_directory else info_script;
                info_path = name;
                name = name;
              })
              ds in
          if text_eq name (codes ".") || (text_eq name (codes "..") && not cdup)
          then skipped
          else stored
    ]

-- After it `dircount` is 0, so that entry is marked as empty. `none` means that it is a null pointer.
unfoldable pub mod_browser_intodirscan :
    (Text → Option (List DirEntry)) → Bool → Text → Browser → Option Browser
unfolding scan_entries
mod_browser_intodirscan read_dir cdup dest b = elim (read_dir dest) [
  | none ↦ some b
  | some ds ↦ elim (b.elements ++ b.spare) [
    | [] ↦ none
    | e ∷ es ↦ some (record b {
      current_dir = dest;
      cursor_pos = pos 0;
      elements =
          (record (scan_entries cdup e ds) {
            info_path = codes "EMPTY";
            info_type = info_undefined;
          })
          ∷ [];
      spare = es;
    })
  ]
]

-- What stays to do for `mod_browser_into` after the entries of a directory have been read.
abbrev pub entered : Text → Browser → Browser
entered name b = record b {
  head_line_fixed = new_headline name;
  display_pos = pos 0;
  cursor_pos = pos 0;
  active = true;
}

-- `mod_browser_exec` is the path of the directory of scripts, which `scan` reads.
unfoldable pub mod_browser_into :
    (Text → Text)
    → (Text → List Entity)
    → Text
    → (Text → Browser → Option Browser)
    → Browser
    → Option Browser
mod_browser_into from_utf8 lsinfo mod_browser_exec scan b = elim (under_cursor b) [
  | none ↦ none
  | some e ↦
      if not (e.status == element_submenu)
      then some b
      else if nocase_eq e.info_path mod_browser_exec
      then elim (scan e.info_path b) [ none ↦ none | some b' ↦ some (entered e.name b') ]
      else elim (mod_browser_get_mpddir from_utf8 lsinfo e.info_path b) [
        | none ↦ none
        | some (b', true) ↦ some (entered e.name b')
        | some (b', false) ↦ some (record b' { active = true })
      ]
]

-- `mod_browser_open` reads the current directory again. The cursor stays where it is.
unfoldable pub mod_browser_open : (Text → Text) → (Text → List Entity) → Browser → Option Browser
mod_browser_open from_utf8 lsinfo b =
    elim (mod_browser_get_mpddir from_utf8 lsinfo b.current_dir b) [
      | none ↦ none
      | some (b', found) ↦ some (record b' { active = true })
    ]

-- The browser after `mod_browser_init`.
unfoldable pub mod_browser_init : Text → Browser
mod_browser_init mod_browser_root = record {
  head_line_fixed = mod_browser_root;
  current_dir = codes "/";
  active = false;
  elements = [];
  spare = [];
  display_pos = pos 0;
  cursor_pos = pos 0;
}
