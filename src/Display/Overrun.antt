-- ===== src/Display/Overrun.antt =====
-- The length of the status line of `mod_lcdproc_refresh` (src/mod_lcdproc.c).
use audiobase.Common.{
  ℕ, zero, suc, ◌+◌, ◌-◌, ◌≤◌, ◌<◌, ◌^◌, [], ◌∷◌, ◌++◌, Bool, Bool-cases, ◌⊎◌, inl, inr, true,
  false, none, some, ◌≡◌, refl, ap, arith, take, take-all, replicate, length, length-append,
  length-replicate, ltb, leb, ℤ, pos,
}
use audiobase.Text.{Text, codes, snprintf, is_empty}
use audiobase.Display.Globals.{Lcd, set_string, sub_uint, send}
use audiobase.Display.Widgets.{
  Align, right, left, string_width, pad_to, append_times, align_text, mod_lcdproc_setstring,
}
use audiobase.Display.Status.{
  status_align, entered_position, shown_rate, show_3, flag, status_text, pad_position, averaged,
  long_status,
}
use audiobase.Display.Rows.{pad_to_lem, to_int_small, padded}

flag-length : (on : Bool) (c : ℕ) → length (flag on c) ≡ 1
flag-length true c = refl
flag-length false c = refl

-- The columns that the status needs.
abbrev pub needed : Lcd → Text → ℕ
needed d plpos =
    length plpos + (length d.player.song.fileext + (length (show_3 (shown_rate d)) + 12))

status_text-length : (d : Lcd) (plpos : Text) → length (status_text d plpos) ≡ needed d plpos
status_text-length d plpos = omega (arith, length-append {0}, flag-length)

take-length : (n : ℕ) (s : Text) → n ≤ length s → length (take n s) ≡ n
take-length zero s h = refl
take-length (suc n) [] h = absurd (omega arith)
take-length (suc n) (c ∷ s) h = ap suc (take-length n s (omega arith))

sub_uint_small : (a b : ℕ) → b ≤ a → a < 2 ^ 32 → sub_uint a b ≡ a - b
sub_uint_small a b h k = omega arith

align_right_wide :
    (wid : ℕ) (text : Text) → wid < length text → align_text (pos wid) right text ≡ none
unfolding align_text
align_right_wide wid text h = ground arith

align_full :
    (wid : ℕ) (text : Text)
    → wid < 128
    → length text ≡ wid
    → (align_text (pos wid) right text ≡ some text) × (align_text (pos wid) left text ≡ some text)
unfolding align_text
align_full wid text h k =
    let none_left : wid - length text ≡ 0 = omega arith in
    (rw none_left (ground arith), ground arith)

setstring_some :
    (name : Text) (y : ℤ) (text buf : Text) (align : Align) (d : Lcd)
    → d.connected ≡ true
    → is_empty text ≡ false
    → align_text (string_width d y align) align text ≡ some buf
    → mod_lcdproc_setstring name y text align d ≡ some (send (set_string name (pos 1) y buf) d)
unfolding mod_lcdproc_setstring
setstring_some name y text buf align d h k e = ground arith

setstring_none :
    (name : Text) (y : ℤ) (text : Text) (align : Align) (d : Lcd)
    → d.connected ≡ true
    → is_empty text ≡ false
    → align_text (string_width d y align) align text ≡ none
    → mod_lcdproc_setstring name y text align d ≡ none
unfolding mod_lcdproc_setstring
setstring_none name y text align d h k e = ground arith

-- The width for the text, if the upper right corner is not kept free.
width_right :
    (d : Lcd) (y : ℤ)
    → d.preserve_upper_right ≡ false
    → d.wid < 128
    → string_width d y right ≡ pos d.wid
width_right d y h w = ground (arith, to_int_small d.wid)

status_align-right : (d : Lcd) → 20 ≤ d.wid → d.status_alignment ≡ true → status_align d ≡ right
status_align-right d h k = ground arith

pad_to_none : (size c n : ℕ) (text : Text) → n ≤ length text → pad_to size c n text ≡ some text
unfolding pad_to append_times
pad_to_none size c n text h = let full : n - length text ≡ 0 = omega arith in rw full refl

snprintf-length : (n : ℕ) (s : Text) → n < 126 → n < length s → n < length (snprintf 127 s)
snprintf-length n s h k = elim (Bool-cases (leb 126 (length s))) [
  | inl long ↦ rw (take-length 126 s (ground arith)) h
  | inr short ↦ rw (take-all 126 s (ground arith)) k
]

pad_position_full :
    (d : Lcd) (plpos : Text)
    → 12 ≤ d.wid
    → d.wid < 128
    → d.wid ≤ needed d plpos
    → pad_position d plpos ≡ some plpos
unfolding pad_position
pad_position_full d plpos h k full =
    pad_to_none 128 32 _ plpos (omega (arith, sub_uint_small d.wid 12))

-- If the position in the playlist, the extension of the file and the bit rate need more columns
-- than the display has, which are at least 20 and less than 126, and the status is aligned right
-- with the upper right corner in use, it is copied to an address before the buffer.
pub long_status_overrun :
    (d : Lcd)
    → d.connected ≡ true
    → 20 ≤ d.wid
    → d.wid < 126
    → d.status_alignment ≡ true
    → d.preserve_upper_right ≡ false
    → d.wid < needed (averaged d) (entered_position d.player)
    → long_status d ≡ none
unfolding long_status
long_status_overrun d h few many align corner wide =
    let plpos = entered_position d.player in
    let text = status_text (averaged d) plpos in
    let width = width_right (averaged d) d.status_line corner (omega arith) in
    let cut : d.wid < length (snprintf 127 text) =
      snprintf-length d.wid text many (omega (arith, status_text-length (averaged d) plpos)) in
    rw (
      pad_position_full (averaged d) plpos (omega arith) (omega arith) (omega arith),
      status_align-right d few align,
      setstring_none (codes "status") d.status_line (snprintf 127 text) right (averaged d) h refl
          (rw width (align_right_wide d.wid (snprintf 127 text) cut)),
    )

align_cases : (d : Lcd) → (status_align d ≡ left) ⊎ (status_align d ≡ right)
align_cases d = elim (Bool-cases (ltb d.wid 20)) [
  | inl few ↦ inl (rw few refl)
  | inr many ↦ elim (Bool-cases d.status_alignment) [
    | inl yes_right ↦ inr (ground arith)
    | inr no_right ↦ inl (ground arith)
  ]
]

-- The text that fills the line is shown however it is aligned.
align_status :
    (d : Lcd) (text : Text)
    → d.wid < 128
    → d.preserve_upper_right ≡ false
    → length text ≡ d.wid
    → align_text (string_width d d.status_line (status_align d)) (status_align d) text ≡ some text
align_status d text few corner full =
    let (fit_right, fit_left) = align_full d.wid text few full in
    elim (align_cases d) [
      | inl e ↦ rw (e, to_int_small d.wid (omega arith)) fit_left
      | inr e ↦ rw (e, width_right d d.status_line corner few) fit_right
    ]

padded-length : (c n : ℕ) (s : Text) → length s ≤ n → length (padded c n s) ≡ n
padded-length c n s h =
    omega (arith, length-append s (replicate (n - length s) c), length-replicate (n - length s) c)

-- The columns that are left for the position in the playlist.
abbrev room : Lcd → ℕ
room d = sub_uint d.wid 12 - (length d.player.song.fileext + length (show_3 (shown_rate d)))

filled-length :
    (d : Lcd) (plpos : Text)
    → d.wid ≤ 126
    → needed d plpos ≤ d.wid
    → length (status_text d (padded 32 (room d) plpos)) ≡ d.wid
filled-length d plpos few fits = omega (
  arith,
  status_text-length d (padded 32 (room d) plpos),
  padded-length 32 (room d) plpos,
  sub_uint_small d.wid 12,
)

pad_position-room :
    (d : Lcd) (plpos : Text)
    → d.wid ≤ 126
    → needed d plpos ≤ d.wid
    → pad_position d plpos ≡ some (padded 32 (room d) plpos)
unfolding pad_position
pad_position-room d plpos few fits =
    pad_to_lem 128 32 (room d) plpos (omega (arith, sub_uint_small d.wid 12)) (omega arith)

-- The status with some blanks behind the position in the playlist.
abbrev pub filled : Lcd → ℕ → Text
filled d blanks = status_text (averaged d) (entered_position d.player ++ replicate blanks 32)

-- If the connection is open, the display has the columns that the status needs, and at most 126, and
-- the upper right corner is not kept free, the status is the line with as many blanks behind the
-- position in the playlist as make it as long as the display is wide, and this text is sent as it
-- is, however it is aligned.
pub long_status_fills :
    (d : Lcd)
    → d.connected ≡ true
    → d.wid ≤ 126
    → d.preserve_upper_right ≡ false
    → needed (averaged d) (entered_position d.player) ≤ d.wid
    → (blanks : ℕ) × (length (filled d blanks) ≡ d.wid)
      × (long_status d
          ≡ some (
              send
                (set_string (codes "status") (pos 1) d.status_line (filled d blanks))
                (averaged d)))
unfolding long_status
long_status_fills d h many corner fits =
    let plpos = entered_position d.player in
    let text = status_text (averaged d) (padded 32 (room (averaged d)) plpos) in
    let full = filled-length (averaged d) plpos many fits in
    (
      room (averaged d) - length plpos,
      full,
      rw (
        pad_position-room (averaged d) plpos many fits,
        take-all 126 text (omega arith),
        setstring_some (codes "status") d.status_line text text (status_align d) (averaged d) h refl
            (align_status (averaged d) text (omega arith) corner full),
      ),
    )
