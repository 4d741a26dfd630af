-- ===== src/Browser/Range.antt =====
-- The cursor of `mod_browser_cursor` (src/mod_browser.c) stays on the entries, and the search for
-- the next letter finds one or goes to the other end.
use audiobase.Common.{
  ℕ, zero, suc, ◌+◌, ◌-◌, ◌≤◌, ◌<◌, [], ◌∷◌, List, Bool, true, false, not, some, ◌==◌,
  if◌then◌else◌, ◌≡◌, ◌⊎◌, inl, inr, refl, ap, arith, Bool-cases, length, ◌++◌, length-append,
  get_elem?, ℤ, pos, negsuc, ◌+ℤ◌, ◌-ℤ◌, ◌≤ℤ◌, ◌<ℤ◌, ltb_ℤ, int_laws,
}
use audiobase.Text.{Text, is_empty, atoi}
use audiobase.State.{Element, Browser}
use audiobase.Browser.Cursor.{
  starts_like, next_letter, letter_position, scroll_position, first_shown, is_sign, new_position,
  mod_browser_cursor,
}
use audiobase.Browser.Visible.{headline_rows, first_shown_lem}

-- An `int` that is the index of an entry.
abbrev pub IsIndex : ℕ → ℤ → Type 0
IsIndex count z = (pos 0 ≤ℤ z) × (z <ℤ pos count)

pub scroll_position-IsIndex :
    (count : ℕ) (newpos step : ℤ) → 0 < count → IsIndex count (scroll_position count newpos step)
unfolding scroll_position
scroll_position-IsIndex count newpos step h = elim (Bool-cases (ltb_ℤ (newpos +ℤ step) (pos 0))) [
  | inl e ↦ rw (e, scroll_position) (omega int_laws)
  | inr e ↦ elim (Bool-cases (ltb_ℤ (pos count -ℤ pos 1) (newpos +ℤ step))) [
    | inl e' ↦ rw (e, e', scroll_position) (omega int_laws)
    | inr e' ↦ rw (e, e', scroll_position) (omega int_laws)
  ]
]

-- How far it is to the end in the direction of the search.
abbrev left_to_go : Bool → ℕ → ℕ → ℕ
left_to_go up count i = if up then count - i else i + 1

next_letter_lem :
    (fuel : ℕ) (up : Bool) (count : ℕ) (allocated : List Element) (current : Text) (i : ℕ)
    → i < count
    → left_to_go up count i ≤ fuel
    → (next_letter fuel up count allocated current i < count)
      × ((starts_like allocated current (next_letter fuel up count allocated current i) ≡ false)
          ⊎ (next_letter fuel up count allocated current i ≡ (if up then count - 1 else 0)))
unfolding next_letter
next_letter_lem zero true count allocated current i h k = absurd (omega arith)
next_letter_lem zero false count allocated current i h k = absurd (omega arith)
next_letter_lem (suc fuel) true count allocated current i h k =
    ground (arith, next_letter_lem fuel true count allocated current (i + 1))
next_letter_lem (suc fuel) false count allocated current i h k =
    ground (arith, next_letter_lem fuel false count allocated current (i - 1))

-- The search for the next letter, from an entry, ends on an entry that starts with another letter
-- than the given name, or on the first entry if it goes up and on the last one if it goes down.
letter_position_lem :
    (up : Bool) (count : ℕ) (allocated : List Element) (current : Text) (i : ℕ)
    → i < count
    → (n : ℕ) × (letter_position up count allocated current i ≡ pos n)
      × (n < count)
      × ((starts_like allocated current n ≡ false) ⊎ (n ≡ (if up then 0 else count - 1)))
unfolding letter_position
letter_position_lem up count allocated current i h =
    let (inside, ended) = next_letter_lem count up count allocated current i h (enough up) in
    elim (Bool-cases
      (starts_like allocated current (next_letter count up count allocated current i))) [
        | inl same ↦ to_end up same
        | inr other ↦ (
          next_letter count up count allocated current i,
          rw (other, letter_position) refl,
          inside,
          inl other,
        )
      ]
  where
    enough : (up' : Bool) → left_to_go up' count i ≤ count
    enough true = omega arith
    enough false = omega arith

    to_end :
        (up' : Bool)
        → starts_like allocated current (next_letter count up' count allocated current i) ≡ true
        → (n : ℕ) × (letter_position up' count allocated current i ≡ pos n)
          × (n < count)
          × ((starts_like allocated current n ≡ false) ⊎ (n ≡ (if up' then 0 else count - 1)))
    to_end true same = (0, rw (same, letter_position) refl, omega arith, inr refl)
    to_end false same =
        (count - 1, rw (same, letter_position) (omega int_laws), omega arith, inr refl)

pub get_elem?_in {ℓ} :
    {A : Type ℓ} (l : List A) (i : ℕ) → i < length l → (a : A) × (get_elem? l i ≡ some a)
get_elem?_in [] i h = absurd (omega arith)
get_elem?_in (x ∷ l) zero h = (x, refl)
get_elem?_in (x ∷ l) (suc i) h = get_elem?_in l i (omega arith)

IsIndex-pos : (count : ℕ) (z : ℤ) → IsIndex count z → (n : ℕ) × (z ≡ pos n) × (n < count)
IsIndex-pos count (pos n) h = (n, refl, omega arith)
IsIndex-pos count (negsuc n) h = absurd (omega arith)

scrolled :
    (count : ℕ) (newpos step : ℤ)
    → 0 < count
    → (n : ℕ) × (some (scroll_position count newpos step) ≡ some (pos n)) × (n < count)
scrolled count newpos step h =
    let (n, e, k) = IsIndex-pos count _ (scroll_position-IsIndex count newpos step h) in
    (n, ap some e, k)

pub new_position-IsIndex :
    (p : Text) (b : Browser) (i : ℕ)
    → b.cursor_pos ≡ pos i
    → i < length b.elements
    → (n : ℕ) × (new_position p b ≡ some (pos n)) × (n < length b.elements)
unfolding new_position
new_position-IsIndex [] b i c h = scrolled (length b.elements) (pos 0) (atoi []) (omega arith)
new_position-IsIndex (a ∷ []) b i c h = elim (Bool-cases (is_sign a)) [
  | inl sign ↦
      let bound : i < length (b.elements ++ b.spare) =
        omega (arith, length-append b.elements b.spare) in
      let allocated = b.elements ++ b.spare in
      let (e, found) = get_elem?_in allocated i bound in
      let (n, place, inside, ended) =
        letter_position_lem (a == b'+') (length b.elements) allocated e.name i h in
      (n, rw (sign, c, found, place, new_position) refl, inside)
  | inr other ↦
      rw (other, new_position) (scrolled (length b.elements) (pos 0) (atoi (a ∷ [])) (omega arith))
]
new_position-IsIndex (a ∷ d ∷ p) b i c h =
    scrolled (length b.elements) (if is_sign a then b.cursor_pos else pos 0) (atoi (a ∷ d ∷ p))
      (omega arith)

-- What `mod_browser_cursor` makes of a cursor on an entry.
abbrev pub IsPlaced : ℕ → Browser → ℕ → Browser → Type 0
IsPlaced hgt b n b' =
    (b'.elements ≡ b.elements)
    × (b'.cursor_pos ≡ pos n)
    × (n < length b.elements)
    × (b'.display_pos ≤ℤ pos n)
    × (pos (n + headline_rows (not (is_empty b.head_line_fixed))) <ℤ b'.display_pos +ℤ pos hgt)
    × (b'.head_line_fixed ≡ b.head_line_fixed)

-- On a display of at least two lines, if the cursor is on an entry and the entries and the headline
-- fill the display, the command `browser cursor` does not have the display start before the first
-- entry.
pub mod_browser_cursor_start :
    (hgt : ℕ) (p : Text) (b b' : Browser) (i : ℕ)
    → 2 ≤ hgt
    → b.cursor_pos ≡ pos i
    → i < length b.elements
    → hgt ≤ length b.elements + headline_rows (not (is_empty b.head_line_fixed))
    → mod_browser_cursor hgt p b ≡ some b'
    → pos 0 ≤ℤ b'.display_pos
mod_browser_cursor_start hgt p b b' i two c h fills done =
    let (n, e, k) = new_position-IsIndex p b i c h in
    let headline = not (is_empty b.head_line_fixed) in
    let (above, below, start) =
      first_shown_lem hgt (length b.elements) n headline b.cursor_pos two k in
    let result : some (record b {
      active = true;
      cursor_pos = pos n;
      display_pos = first_shown hgt (length b.elements) headline b.cursor_pos (pos n);
    })
        ≡ some b' =
      unfold mod_browser_cursor in rw (e, mod_browser_cursor) at done in
    let shown : first_shown hgt (length b.elements) headline b.cursor_pos (pos n) ≡ b'.display_pos =
      ground arith in
    rw shown at (start fills)
