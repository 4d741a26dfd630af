-- ===== src/Browser/Tests.antt =====
-- Tests of the browser (src/mod_browser.c), and the theorems at concrete inputs.
use audiobase.Common.{[], ◌∷◌, List, true, some, ◌≡◌, refl, pos, negsuc, ◌+ℤ◌, ◌-ℤ◌}
use audiobase.Text.{Text, codes, atoi, to_lower}
use audiobase.State.{Element, Browser, element_standard, info_songfile}
use audiobase.Browser.{new_position, mod_browser_cursor}

abbrev entry : Text → Element
entry name = record {
  name = name;
  info_path = name;
  info_type = info_songfile;
  status = element_standard;
}

abbrev entries : List Element
entries =
    entry (codes "Abba")
    ∷ entry (codes "air")
    ∷ entry (codes "Blur")
    ∷ entry (codes "Can")
    ∷ entry (codes "Cure")
    ∷ entry (codes "Dio")
    ∷ []

abbrev browser : Browser
browser = record {
  head_line_fixed = codes "Browser";
  current_dir = [];
  active = true;
  elements = entries;
  spare = [];
  display_pos = pos 0;
  cursor_pos = pos 1;
}

-- To the next letter, to the letter before, to a place, and past the ends.
moves :
    (mod_browser_cursor 4 (codes "+") browser
      ≡ some (record browser { cursor_pos = pos 2; display_pos = pos 1 }))
    × (mod_browser_cursor 4 (codes "-") browser
        ≡ some (record browser { cursor_pos = pos 5; display_pos = pos 3 }))
    × (mod_browser_cursor 4 (codes "+3") browser
        ≡ some (record browser { cursor_pos = pos 4; display_pos = pos 3 }))
    × (mod_browser_cursor 4 (codes "+9") browser
        ≡ some (record browser { cursor_pos = pos 0; display_pos = pos 0 }))
unfolding mod_browser_cursor ◌+ℤ◌ ◌-ℤ◌ atoi to_lower
moves = (refl, refl, refl, refl)

-- In an empty directory, whose first entry is still allocated, the search downwards leaves the list.
leaves_empty :
    new_position (codes "-") (record browser { elements = []; spare = entries; cursor_pos = pos 0 })
    ≡ some (negsuc 0)
unfolding new_position ◌-ℤ◌ atoi to_lower
leaves_empty = refl
