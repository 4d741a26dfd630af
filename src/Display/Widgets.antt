-- ===== src/Display/Widgets.antt =====
-- The widgets of src/mod_lcdproc.c: mod_lcdproc_setstring, mod_lcdproc_setscroller and
-- mod_lcdproc_settmp. A result `none` means that a buffer is written outside of its bounds.
use audiobase.Common.{
  ℕ, zero, suc, ◌+◌, ◌-◌, ◌*◌, ◌/◌, ◌%◌, ◌^◌, [], ◌∷◌, ◌++◌, Bool, true, false, not, ◌&&◌, Option,
  none, some, ltb, leb, if◌then◌else◌, replicate, length, ℤ, pos, pos_part, ◌-ℤ◌, leb_ℤ, eqb_ℤ,
  mul_ℤ, div_ℤ,
}
use audiobase.Text.{Text, codes, is_empty, to_int}
use audiobase.Bus.{◌>>=◌}
use audiobase.Display.Globals.{
  Lcd, set_string, set_scroller, set_bar, to_uint, sub_uint, send, int_wid,
}

-- The numbers of `align`
pub data Align : Type 0 where
  left right center : Align

-- `strcpy(buf+offset, text)` on a buffer of `size` bytes that starts with blanks.
abbrev pub copy_at : ℕ → ℕ → Text → Option Text
copy_at size offset text =
    if ltb (offset + length text) size then some (replicate offset 32 ++ text) else none

-- What `mod_lcdproc_setstring` prints into `buf`, of 128 bytes, for a display of `wid` columns. A
-- text that is wider than the display is copied to an address before the buffer, unless it is
-- aligned left.
unfoldable pub align_text : ℤ → Align → Text → Option Text
align_text wid align text =
    if leb_ℤ (pos 0) wid && leb_ℤ wid (pos 128)
    then elim align [
      | left ↦ copy_at 128 0 text
      | right ↦
          if leb (length text) (pos_part wid)
          then copy_at 128 (pos_part wid - length text) text
          else none
      | center ↦
          if leb (length text) (pos_part wid)
          then copy_at 128 ((pos_part wid - length text) / 2) text
          else none
    ]
    else none

-- The upper right corner is left to the heartbeat.
abbrev pub string_width : Lcd → ℤ → Align → ℤ
string_width d y left = int_wid d
string_width d y center = int_wid d
string_width d y right =
    if d.preserve_upper_right && eqb_ℤ y (pos 1) then int_wid d -ℤ pos 1 else int_wid d

-- A text that is NULL is `[]` here.
unfoldable pub mod_lcdproc_setstring : Text → ℤ → Text → Align → Lcd → Option Lcd
mod_lcdproc_setstring name y text align d =
    if not d.connected
    then some d
    else if is_empty text
    then some (send (set_string name (pos 0) (pos 0) (codes " ")) d)
    else elim (align_text (string_width d y align) align text) [
      | none ↦ none
      | some buf ↦ some (send (set_string name (pos 1) y buf) d)
    ]

unfoldable pub mod_lcdproc_setscroller : Text → ℤ → Text → Lcd → Lcd
mod_lcdproc_setscroller name y text d =
    if not d.connected
    then d
    else if is_empty text
    then send (set_scroller name (pos 1) (pos 1) (pos 1) (codes " ")) d
    else if ltb d.wid (length text)
    then send (set_scroller name y (int_wid d) y (text ++ codes " *** ")) d
    else send (set_scroller name y (int_wid d) y (text ++ codes " ")) d

-- `strcat(buf, c)` for `rounds` times, on a buffer of `size` bytes.
unfoldable pub append_times : ℕ → ℕ → ℕ → Text → Option Text
append_times size c zero text = some text
append_times size c (suc rounds) text =
    let rest = append_times size c rounds (text ++ c ∷ []) in
    if ltb (length text + 1) size then rest else none

-- `while (strlen(buf) < n) strcat(buf, c)`
unfoldable pub pad_to : ℕ → ℕ → ℕ → Text → Option Text
pad_to size c n text = append_times size c (n - length text) text

-- `x = text ? strlen(text)+2 : 1;`, in the middle of what is left if the bar is centred.
abbrev pub bar_start : ℕ → Option Text → Bool → ℕ
bar_start wid text centerbar =
    let x : ℕ = elim text [ none ↦ 1 | some s ↦ length s + 2 ] in
    if centerbar then (x + sub_uint wid x / 2) % 2 ^ 32 else x

abbrev pub bar_length : Lcd → ℕ → ℤ → ℤ
bar_length d x percent =
    let wid = to_int (pos ((sub_uint d.wid x + 1) * to_uint d.cellwid % 2 ^ 32)) in
    div_ℤ (mul_ℤ wid percent) 100

abbrev pub no_bar : Lcd → Lcd
no_bar d = send (set_bar (pos 0) (pos 0) (pos 0)) d

-- The text, filled up with blanks to the width of the display, in `buf` of 128 bytes.
unfoldable pub tmp_text : Option Text → Lcd → Option Lcd
tmp_text none d = mod_lcdproc_setstring (codes "tmptext") (pos 0) [] left d
tmp_text (some text) d =
    if ltb (length text) 128
    then (pad_to 128 32 d.wid text >>= λ buf.
        mod_lcdproc_setstring (codes "tmptext") d.hgt buf left d)
    else none

unfoldable pub tmp_bar : Option Text → ℤ → Bool → Lcd → Lcd
tmp_bar text percent centerbar d =
    if eqb_ℤ percent (pos 0)
    then no_bar d
    else (let x = bar_start d.wid text centerbar in
        let shown = if centerbar then mul_ℤ percent (pos 2) else percent in
        send (set_bar (to_int (pos x)) d.hgt (bar_length d x shown)) d)

abbrev pub is_none : Option Text → Bool
is_none none = true
is_none (some s) = false

-- `now` is `time(NULL)`.
unfoldable pub mod_lcdproc_settmp : ℕ → Option Text → ℤ → Bool → Lcd → Option Lcd
mod_lcdproc_settmp now text percent centerbar d =
    if not d.connected
    then some d
    else if is_none text && (eqb_ℤ percent (pos 0) && not centerbar)
    then (tmp_text none d >>= λ d'. some (no_bar d'))
    else (tmp_text text (record d { tmptimeout = now + 4 }) >>= λ d'.
        some (tmp_bar text percent centerbar d'))
