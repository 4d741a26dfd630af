-- ===== src/Display/Lines.antt =====
-- What the lines of the browser are on the display (`mod_lcdproc_refresh_browser` of
-- src/mod_lcdproc.c), if the display starts with one of the entries.
use audiobase.Common.{
  ℕ, zero, suc, ◌+◌, ◌-◌, ◌≤◌, ◌<◌, [], ◌∷◌, List, Bool, Bool-cases, inl, inr, true, false, not,
  ◌&&◌, ◌==◌, none, some, ltb, if◌then◌else◌, ◌≡◌, refl, ◌∙◌, arith, length, get_elem?, All, ℤ, pos,
  negsuc, eqb_ℤ, int_laws,
}
use audiobase.Text.{Text, codes, is_empty}
use audiobase.State.{Element, Browser}
use audiobase.Display.Menu.{Row, row, row_index, mark_of, cursor_marks, view_marks}

pub get_elem?-All :
    {P : Element → Type 0} (xs : List Element) (k : ℕ)
    → k < length xs
    → All P xs
    → (e : Element) × (get_elem? xs k ≡ some e) × P e
get_elem?-All [] k h all = elim h [ ]
get_elem?-All (x ∷ xs) zero h all = (x, refl, all.0)
get_elem?-All (x ∷ xs) (suc k) h all = get_elem?-All xs k (omega arith) all.1

-- The row of an entry, of the headline, and below the last entry.
abbrev entry_row : Browser → ℕ → Element → ℤ → Row
entry_row b k e corr = record {
  text = 32 ∷ e.name;
  mark =
      if eqb_ℤ (pos k) b.cursor_pos
      then mark_of cursor_marks e.status
      else mark_of view_marks e.status;
  corr = corr;
}

row_entry :
    (b : Browser) (i k : ℕ) (corr : ℤ) (e : Element)
    → row_index b i corr ≡ pos k
    → k < length b.elements
    → get_elem? b.elements k ≡ some e
    → (i == 0 && not (is_empty b.head_line_fixed)) ≡ false
    → length e.name + 1 < 128
    → row b i corr ≡ some (entry_row b k e corr)
unfolding row
row_entry b i k corr e index below entry line short = rw (index, line, row) (ground arith)

row_end :
    (b : Browser) (i k : ℕ) (corr : ℤ)
    → row_index b i corr ≡ pos k
    → length b.elements ≤ k
    → row b i corr ≡ some (record { text = codes " "; mark = []; corr = corr })
unfolding row
row_end b i k corr index above = rw (index, row) (ground arith)

row_headline :
    (b : Browser) (k : ℕ)
    → row_index b 0 (pos 0) ≡ pos k
    → k < length b.elements
    → is_empty b.head_line_fixed ≡ false
    → row b 0 (pos 0) ≡ some (record { text = b.head_line_fixed; mark = []; corr = negsuc 0 })
unfolding row
row_headline b k index below headline = rw (index, row) (ground arith)

-- The value of `corr` at the line i, if the headline is shown in the first line.
abbrev pub corr_at : Browser → ℕ → ℤ
corr_at b zero = pos 0
corr_at b (suc i) = if is_empty b.head_line_fixed then pos 0 else negsuc 0

abbrev pub headline_height : Browser → ℕ
headline_height b = if is_empty b.head_line_fixed then 0 else 1

-- The entry that belongs to the line i below the headline, if the display starts with the entry p.
abbrev pub entry_at : Browser → ℕ → ℕ → ℕ
entry_at b p i = p + i - headline_height b

pub row_index_first : (b : Browser) (p : ℕ) → b.display_pos ≡ pos p → row_index b 0 (pos 0) ≡ pos p
row_index_first b p start = rw start (omega int_laws)

row_index_next :
    (b : Browser) (p i : ℕ)
    → b.display_pos ≡ pos p
    → row_index b (suc i) (corr_at b (suc i)) ≡ pos (entry_at b p (suc i))
row_index_next b p i start = elim (Bool-cases (is_empty b.head_line_fixed)) [
  | inl bare ↦ rw (start, bare) (omega int_laws)
  | inr headline ↦ rw (start, headline) (omega int_laws)
]

pub mark_of-length : (marks : Text) (status : ℕ) → length (mark_of marks status) < 128
mark_of-length marks status = ground arith

-- What the loop needs to know of a row.
abbrev pub IsRow : Browser → ℕ → Row → Type 0
IsRow b i r = (length r.text < 128) × (length r.mark < 128) × (r.corr ≡ corr_at b (suc i))

abbrev Short : Browser → Type 0
Short b =
    All (λ (e : Element). length e.name + 1 < 128) b.elements × (length b.head_line_fixed < 128)

mark_short :
    (b : Browser) (k : ℕ) (e : Element) (corr : ℤ) → length (entry_row b k e corr).mark < 128
mark_short b k e corr =
    ground (arith, mark_of-length cursor_marks e.status, mark_of-length view_marks e.status)

-- The line i of the display, if it starts with the entry p: the headline, if there is one, in the
-- first line, then the entries one by one, each with its mark, and below the last one a blank.
abbrev pub is_headline : Browser → ℕ → Bool
is_headline b i = i == 0 && not (is_empty b.head_line_fixed)

abbrev pub line_row : Browser → ℕ → ℕ → Row
line_row b p i =
    let corr = corr_at b (suc i) in
    if is_headline b i
    then record { text = b.head_line_fixed; mark = []; corr = corr }
    else elim (get_elem? b.elements (entry_at b p i)) [
      | none ↦ record { text = codes " "; mark = []; corr = corr }
      | some e ↦ entry_row b (entry_at b p i) e corr
    ]

get_elem?-end : (xs : List Element) (k : ℕ) → length xs ≤ k → get_elem? xs k ≡ none
get_elem?-end [] k h = refl
get_elem?-end (x ∷ xs) zero h = absurd (omega arith)
get_elem?-end (x ∷ xs) (suc k) h = get_elem?-end xs k (omega arith)

-- Where the headline is not, the index and the correction are those of an entry.
row_index_at :
    (b : Browser) (p i : ℕ)
    → b.display_pos ≡ pos p
    → is_headline b i ≡ false
    → (row_index b i (corr_at b (suc i)) ≡ pos (entry_at b p i)) × (corr_at b i ≡ corr_at b (suc i))
row_index_at b p zero start line =
    let bare : is_empty b.head_line_fixed ≡ true = ground arith in
    (rw (start, bare) (omega int_laws), rw bare refl)
row_index_at b p (suc i) start line = (row_index_next b p i start, refl)

line_entry :
    (b : Browser) (p i : ℕ) (e : Element)
    → is_headline b i ≡ false
    → get_elem? b.elements (entry_at b p i) ≡ some e
    → line_row b p i ≡ entry_row b (entry_at b p i) e (corr_at b (suc i))
line_entry b p i e line found = rw (line, found) refl

line_end :
    (b : Browser) (p i : ℕ)
    → is_headline b i ≡ false
    → get_elem? b.elements (entry_at b p i) ≡ none
    → line_row b p i ≡ record { text = codes " "; mark = []; corr = corr_at b (suc i) }
line_end b p i line found = rw (line, found) refl

line_below :
    (b : Browser) (p i : ℕ)
    → b.display_pos ≡ pos p
    → Short b
    → is_headline b i ≡ false
    → (row b i (corr_at b i) ≡ some (line_row b p i)) × IsRow b i (line_row b p i)
line_below b p i start short line =
    let k = entry_at b p i in
    let corr = corr_at b (suc i) in
    let (index, same) = row_index_at b p i start line in
    elim (Bool-cases (ltb k (length b.elements))) [
      | inl below ↦
          let (e, found, name) = get_elem?-All b.elements k (ground arith) short.0 in
          rw (line_entry b p i e line found, same)
            (
              row_entry b i k corr e index (ground arith) found line name,
              (omega arith, mark_short b k e corr, refl),
            )
      | inr above ↦
          let behind = get_elem?-end b.elements k (ground arith) in
          rw (line_end b p i line behind, same)
            (row_end b i k corr index (ground arith), (omega arith, omega arith, refl))
    ]

line_headline :
    (b : Browser) (p : ℕ)
    → b.display_pos ≡ pos p
    → p < length b.elements
    → Short b
    → is_headline b 0 ≡ true
    → (row b 0 (pos 0) ≡ some (line_row b p 0)) × IsRow b 0 (line_row b p 0)
line_headline b p start below short line =
    let headline : is_empty b.head_line_fixed ≡ false = ground arith in
    let same : line_row b p 0 ≡ record { text = b.head_line_fixed; mark = []; corr = negsuc 0 } =
      rw headline refl in
    rw same (
      row_headline b p (row_index_first b p start) below headline,
      (short.1, omega arith, rw headline refl),
    )

pub row-line_row :
    (b : Browser) (p i : ℕ)
    → b.display_pos ≡ pos p
    → p < length b.elements
    → Short b
    → (row b i (corr_at b i) ≡ some (line_row b p i)) × IsRow b i (line_row b p i)
row-line_row b p zero start below short = elim (Bool-cases (is_headline b 0)) [
  | inl line ↦ line_headline b p start below short line
  | inr line ↦ line_below b p 0 start short line
]
row-line_row b p (suc i) start below short = line_below b p (suc i) start short (ground arith)

-- The row of the entry under the cursor.
abbrev pub cursor_row : Browser → ℕ → Element → Row
cursor_row b i e = record {
  text = 32 ∷ e.name;
  mark = mark_of cursor_marks e.status;
  corr = corr_at b (suc i);
}

entry_row-cursor :
    (b : Browser) (i n : ℕ) (e : Element)
    → b.cursor_pos ≡ pos n
    → entry_row b n e (corr_at b (suc i)) ≡ cursor_row b i e
entry_row-cursor b i n e h = rw h (ground arith)

pub line_row-cursor :
    (b : Browser) (p n i : ℕ) (e : Element)
    → b.cursor_pos ≡ pos n
    → p ≤ n
    → get_elem? b.elements n ≡ some e
    → i + p ≡ n + headline_height b
    → line_row b p i ≡ cursor_row b i e
line_row-cursor b p n i e cursor le found place =
    let at : entry_at b p i ≡ n = ground arith in
    let line : is_headline b i ≡ false = ground arith in
    line_entry b p i e line (rw at found) ∙ rw at (entry_row-cursor b i n e cursor)
