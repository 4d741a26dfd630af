-- ===== src/Commands.antt =====
-- How `mod_browser_message` (src/mod_browser.c) and `mod_mpd_message` (src/mod_mpd.c) start: the first
-- word of a message, and the conditions c_browser and c_nbrowser that may stand before it.
use audiobase.Common.{[], ◌∷◌, Bool, Option, none, some, if◌then◌else◌}
use audiobase.Text.{Text, codes, nocase_eq, strtok, blanks}

-- The message is not for this state of the browser, or its command, `none` if no word follows the
-- condition, with what is left to read.
pub data Start : Type 0 where
  ignored : Start
  command : Option Text → Text → Start

-- `c1 = strtok(NULL, " \t")`
unfoldable pub next_word : Text → Start
next_word rest = elim (strtok blanks rest) [
  | none ↦ command none []
  | some (c1, rest') ↦ command (some c1) rest'
]

unfoldable pub read_command : Bool → Text → Start
unfolding next_word
read_command active msg = elim (strtok blanks msg) [
  | none ↦ ignored
  | some (c1, rest) ↦
      if nocase_eq c1 (codes "c_nbrowser")
      then (if active then ignored else next_word rest)
      else if nocase_eq c1 (codes "c_browser")
      then (if active then next_word rest else ignored)
      else command (some c1) rest
]

-- `strtok(NULL, "")`: all that is left, if anything is.
abbrev pub whole_rest : Text → Option Text
whole_rest [] = none
whole_rest (c ∷ s) = some (c ∷ s)
