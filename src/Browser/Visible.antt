-- ===== src/Browser/Visible.antt =====
-- The cursor stays on the display: the arithmetic of `mod_browser_cursor` (src/mod_browser.c).
use audiobase.Common.{
  lt→ltb, int_laws, Bool-cases, inl, inr, ◌⊎◌, ℕ, ◌+◌, ◌≤◌, ◌<◌, Bool, true, false, if◌then◌else◌,
  ◌≡◌, arith, ℤ, pos, pos_part, neg_part, ◌+ℤ◌, ◌-ℤ◌, ◌≤ℤ◌, ◌<ℤ◌, ltb_ℤ, leb_ℤ,
}
use audiobase.Browser.Cursor.{middle_line, first_shown, window_up, window_down, below_headline}

-- The lines that show entries: all but the one that the headline takes.
abbrev pub headline_rows : Bool → ℕ
headline_rows headline = if headline then 1 else 0

-- What is wanted of the first entry shown, d.
abbrev Shows : ℕ → ℕ → ℕ → ℕ → ℤ → Type 0
Shows hgt count rows newpos d =
    (d ≤ℤ pos newpos) × (pos (newpos + rows) <ℤ d +ℤ pos hgt) × (hgt ≤ count + rows → pos 0 ≤ℤ d)

abbrev shown_down : ℕ → ℕ → Bool → ℕ → ℤ
shown_down hgt count headline newpos =
    below_headline headline (pos (middle_line hgt)) (pos newpos)
      (window_down (pos hgt) (pos count) (pos (middle_line hgt)) (pos newpos))

-- What the two windows have in common before the headline is counted.
abbrev Window : ℕ → ℕ → ℕ → ℤ → Type 0
Window hgt count newpos d =
    (d ≤ℤ pos newpos)
    × (pos newpos <ℤ d +ℤ pos hgt)
    × ((pos 0 ≤ℤ d) ⊎ ((pos_part d + hgt ≡ neg_part d + count) × (middle_line hgt ≤ newpos + 1)))
    × ((pos newpos <ℤ d +ℤ pos (middle_line hgt)) ⊎ (pos_part d + hgt ≡ neg_part d + count))

window_down-Window :
    (hgt count newpos : ℕ)
    → 2 ≤ hgt
    → newpos < count
    → Window hgt count newpos
        (window_down (pos hgt) (pos count) (pos (middle_line hgt)) (pos newpos))
unfolding window_down
window_down-Window hgt count newpos h k =
    elim (Bool-cases (leb_ℤ (pos newpos +ℤ pos 1) (pos (middle_line hgt)))) [
      | inl e ↦ rw (e, window_down) (omega int_laws)
      | inr e ↦
          elim (Bool-cases
            (ltb_ℤ (pos newpos +ℤ pos 1 -ℤ pos (middle_line hgt) +ℤ pos hgt) (pos count))) [
              | inl e' ↦ rw (e, e', window_down) (omega int_laws)
              | inr e' ↦ rw (e, e', window_down) (omega int_laws)
            ]
    ]

window_up-Window :
    (hgt count newpos : ℕ)
    → 2 ≤ hgt
    → newpos < count
    → Window hgt count newpos (window_up (pos hgt) (pos count) (pos (middle_line hgt)) (pos newpos))
unfolding window_up
window_up-Window hgt count newpos h k =
    elim (Bool-cases (leb_ℤ (pos newpos +ℤ pos 1) (pos (middle_line hgt) -ℤ pos 1))) [
      | inl e ↦ rw (e, window_up) (omega int_laws)
      | inr e ↦
          elim (Bool-cases (
            ltb_ℤ (pos newpos +ℤ pos 1 -ℤ pos (middle_line hgt) +ℤ pos 1 +ℤ pos hgt) (pos count))) [
              | inl e' ↦ rw (e, e', window_up) (omega int_laws)
              | inr e' ↦ rw (e, e', window_up) (omega int_laws)
            ]
    ]

below_headline-Shows :
    (hgt count newpos : ℕ) (headline : Bool) (d : ℤ)
    → 2 ≤ hgt
    → newpos < count
    → Window hgt count newpos d
    → Shows hgt count
        (headline_rows headline)
        newpos
        (below_headline headline (pos (middle_line hgt)) (pos newpos) d)
unfolding below_headline
below_headline-Shows hgt count newpos false d h k w = omega int_laws
below_headline-Shows hgt count newpos true d h k w =
    elim (Bool-cases (leb_ℤ (pos (middle_line hgt) -ℤ pos 1) (pos newpos -ℤ d))) [
      | inl e ↦ rw (e, below_headline) (omega int_laws)
      | inr e ↦ rw (e, below_headline) (omega int_laws)
    ]

-- On a display of at least two lines the entry under the cursor is one of those shown, wherever the
-- cursor came from; and if the entries and the headline fill the display, the first entry shown is
-- not before the first of the list.
pub first_shown_lem :
    (hgt count newpos : ℕ) (headline : Bool) (cursor : ℤ)
    → 2 ≤ hgt
    → newpos < count
    → (first_shown hgt count headline cursor (pos newpos) ≤ℤ pos newpos)
      × (pos (newpos + headline_rows headline)
          <ℤ first_shown hgt count headline cursor (pos newpos) +ℤ pos hgt)
      × (hgt ≤ count + headline_rows headline
          → pos 0 ≤ℤ first_shown hgt count headline cursor (pos newpos))
first_shown_lem hgt count newpos headline cursor h k =
    elim (Bool-cases (ltb_ℤ cursor (pos newpos))) [
      | inl down ↦
          unfold first_shown in
          rw down (
            below_headline-Shows hgt count newpos headline _ h k
              (window_down-Window hgt count newpos h k))
      | inr up ↦
          unfold first_shown in
          rw up (
            below_headline-Shows hgt count newpos headline _ h k
              (window_up-Window hgt count newpos h k))
    ]

window_down_short :
    (hgt count newpos : ℕ)
    → count < hgt
    → newpos < count
    → middle_line hgt < newpos + 1
    → window_down (pos hgt) (pos count) (pos (middle_line hgt)) (pos newpos) ≡ pos count -ℤ pos hgt
unfolding window_down
window_down_short hgt count newpos h k m =
    elim (Bool-cases (leb_ℤ (pos newpos +ℤ pos 1) (pos (middle_line hgt)))) [
      | inl e ↦ absurd (omega int_laws)
      | inr e ↦
          elim (Bool-cases
            (ltb_ℤ (pos newpos +ℤ pos 1 -ℤ pos (middle_line hgt) +ℤ pos hgt) (pos count))) [
              | inl e' ↦ absurd (omega int_laws)
              | inr e' ↦ rw (e, e', window_down)
            ]
    ]

below_headline-le :
    (headline : Bool) (middleline newpos d : ℤ)
    → below_headline headline middleline newpos d ≤ℤ d +ℤ pos (headline_rows headline)
unfolding below_headline
below_headline-le false middleline newpos d = omega int_laws
below_headline-le true middleline newpos d =
    elim (Bool-cases (leb_ℤ (middleline -ℤ pos 1) (newpos -ℤ d))) [
      | inl e ↦ rw (e, below_headline) (omega int_laws)
      | inr e ↦ rw (e, below_headline) (omega int_laws)
    ]

-- If the entries and the headline leave lines of the display free, and the cursor goes down to an
-- entry past the middle line, the first entry shown has a negative index.
pub first_shown_negative :
    (hgt count newpos : ℕ) (headline : Bool) (cursor : ℤ)
    → count + headline_rows headline < hgt
    → newpos < count
    → middle_line hgt < newpos + 1
    → cursor <ℤ pos newpos
    → first_shown hgt count headline cursor (pos newpos) <ℤ pos 0
first_shown_negative hgt count newpos headline cursor h k m down =
    unfold first_shown in
    rw (lt→ltb _ _ down) (
      rw (window_down_short hgt count newpos (omega arith) k m) (
        omega (
          int_laws,
          below_headline-le headline (pos (middle_line hgt)) (pos newpos) (pos count -ℤ pos hgt),
        )))
