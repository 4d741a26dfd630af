-- ===== src/Browser/Cursor.antt =====
-- `mod_browser_cursor` of src/mod_browser.c: where the cursor goes, and which entry is shown first.
use audiobase.Common.{
  ℕ, zero, suc, ◌+◌, ◌-◌, ◌/◌, [], ◌∷◌, ◌++◌, List, Bool, true, false, not, ◌&&◌, ◌||◌, Option,
  none, some, ltb, leb, ◌==◌, if◌then◌else◌, length, get_elem?, ℤ, pos, negsuc, ◌+ℤ◌, ◌-ℤ◌, ltb_ℤ,
  leb_ℤ,
}
use audiobase.Text.{Text, is_empty, to_lower, atoi}
use audiobase.State.{Element, Browser}

-- `!strncasecmp(s, t, 1)`
abbrev pub same_letter : Text → Text → Bool
same_letter [] [] = true
same_letter [] (d ∷ t) = false
same_letter (c ∷ s) [] = false
same_letter (c ∷ s) (d ∷ t) = to_lower c == to_lower d

-- Whether the entry at i starts like the name `current`; the entries are those that are allocated.
abbrev pub starts_like : List Element → Text → ℕ → Bool
starts_like allocated current i = elim (get_elem? allocated i) [
  | none ↦ false
  | some e ↦ same_letter e.name current
]

-- `newpos+step >= 0 && newpos+step <= browser.ElementCount-1`
abbrev pub has_next : Bool → ℕ → ℕ → Bool
has_next up count newpos = if up then ltb (newpos + 1) count else ltb 0 newpos && leb newpos count

-- The while loop; `up` says that the step is 1, and `count` is `ElementCount`.
unfoldable pub next_letter : ℕ → Bool → ℕ → List Element → Text → ℕ → ℕ
next_letter zero up count allocated current newpos = newpos
next_letter (suc fuel) up count allocated current newpos =
    let on = next_letter fuel up count allocated current (if up then newpos + 1 else newpos - 1) in
    if has_next up count newpos && starts_like allocated current newpos then on else newpos

unfoldable pub letter_position : Bool → ℕ → List Element → Text → ℕ → ℤ
unfolding next_letter
letter_position up count allocated current cursor =
    let newpos = next_letter count up count allocated current cursor in
    if starts_like allocated current newpos
    then (if up then pos 0 else pos count -ℤ pos 1)
    else pos newpos

-- Scrolling by `step` from `newpos`, with wrapping at both ends.
unfoldable pub scroll_position : ℕ → ℤ → ℤ → ℤ
scroll_position count newpos step =
    let target = newpos +ℤ step in
    if ltb_ℤ target (pos 0)
    then pos count -ℤ pos 1
    else if ltb_ℤ (pos count -ℤ pos 1) target
    then pos 0
    else target

-- `((float)(display_hgt+1))/2.0+0.5`, cut to an int
abbrev pub middle_line : ℕ → ℕ
middle_line display_hgt = (display_hgt + 2) / 2

-- `newdisp` after the cursor went down: at the beginning, in the middle or at the end of the list.
unfoldable pub window_down : ℤ → ℤ → ℤ → ℤ → ℤ
window_down hgt count middleline newpos =
    if leb_ℤ (newpos +ℤ pos 1) middleline
    then pos 0
    else if ltb_ℤ (newpos +ℤ pos 1 -ℤ middleline +ℤ hgt) count
    then newpos +ℤ pos 1 -ℤ middleline
    else count -ℤ hgt

-- The same after it went up, or stayed.
unfoldable pub window_up : ℤ → ℤ → ℤ → ℤ → ℤ
window_up hgt count middleline newpos =
    if leb_ℤ (newpos +ℤ pos 1) (middleline -ℤ pos 1)
    then pos 0
    else if ltb_ℤ (newpos +ℤ pos 1 -ℤ middleline +ℤ pos 1 +ℤ hgt) count
    then newpos +ℤ pos 1 -ℤ middleline +ℤ pos 1
    else count -ℤ hgt

-- A headline takes the first line of the display.
unfoldable pub below_headline : Bool → ℤ → ℤ → ℤ → ℤ
below_headline headline middleline newpos newdisp =
    if headline && leb_ℤ (middleline -ℤ pos 1) (newpos -ℤ newdisp)
    then newdisp +ℤ pos 1
    else newdisp

-- The first entry on the display after the cursor went from `cursor` to `newpos`.
unfoldable pub first_shown : ℕ → ℕ → Bool → ℤ → ℤ → ℤ
unfolding window_down window_up below_headline
first_shown display_hgt count headline cursor newpos =
    let mid = pos (middle_line display_hgt) in
    below_headline headline mid newpos (
      if ltb_ℤ cursor newpos
      then window_down (pos display_hgt) (pos count) mid newpos
      else window_up (pos display_hgt) (pos count) mid newpos)

-- The entry at an `int` index of `pElements`, if there is one.
abbrev pub element_at : List Element → ℤ → Option Element
element_at elements (pos i) = get_elem? elements i
element_at elements (negsuc i) = none

abbrev pub is_sign : ℕ → Bool
is_sign c = c == b'+' || c == b'-'

-- The new position; `none` means that an entry is read that is not allocated.
unfoldable pub new_position : Text → Browser → Option ℤ
unfolding scroll_position letter_position
new_position [] b = some (scroll_position (length b.elements) (pos 0) (atoi []))
new_position (c ∷ []) b =
    if is_sign c
    then elim b.cursor_pos [
      | negsuc i ↦ none
      | pos i ↦ elim (get_elem? (b.elements ++ b.spare) i) [
        | none ↦ none
        | some e ↦
            some (letter_position (c == b'+') (length b.elements) (b.elements ++ b.spare) e.name i)
      ]
    ]
    else some (scroll_position (length b.elements) (pos 0) (atoi (c ∷ [])))
new_position (c ∷ d ∷ p) b = some (
    scroll_position (length b.elements) (if is_sign c then b.cursor_pos else pos 0)
      (atoi (c ∷ d ∷ p)))

-- The refresh of the display marks the browser as active.
unfoldable pub mod_browser_cursor : ℕ → Text → Browser → Option Browser
unfolding new_position first_shown
mod_browser_cursor display_hgt p b = elim (new_position p b) [
  | none ↦ none
  | some newpos ↦ some (record b {
    active = true;
    cursor_pos = newpos;
    display_pos =
        first_shown display_hgt (length b.elements) (not (is_empty b.head_line_fixed)) b.cursor_pos
          newpos;
  })
]
