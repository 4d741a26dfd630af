-- ===== src/Display/Status.antt =====
-- The status line of `mod_lcdproc_refresh` of src/mod_lcdproc.c: the position in the playlist, the
-- bit rate and the flags.
use audiobase.Common.{
  ℕ, ◌+◌, ◌-◌, [], ◌∷◌, ◌++◌, Bool, not, Option, none, some, ltb, leb, if◌then◌else◌, length, take,
  replicate, ℤ, pos, ◌+ℤ◌, ltb_ℤ, eqb_ℤ, div_ℤ,
}
use audiobase.Text.{Text, codes, snprintf, strchr, show_int}
use audiobase.Mpd.{MpdState}
use audiobase.Bus.{◌>>=◌}
use audiobase.Display.Globals.{Lcd, sub_uint}
use audiobase.Display.Widgets.{Align, left, right, mod_lcdproc_setstring, pad_to}

-- The status is aligned left on displays of less than 20 columns.
abbrev pub status_align : Lcd → Align
status_align d = if ltb d.wid 20 then left else if d.status_alignment then right else left

-- `"%i/%i"`
abbrev pub playlist_position : MpdState → Text
playlist_position m =
    show_int (m.player.song +ℤ pos 1) ++ (b'/' ∷ show_int m.player.playlist_length)

abbrev pub behind_slash : Text → Text
behind_slash s = elim (strchr b'/' s) [ none ↦ [] | some t ↦ t ]

-- While a number is entered its digits are shown up to the cursor, and underscores for the others.
unfoldable pub entered_position : MpdState → Text
unfolding show_int strchr
entered_position m =
    let hc = show_int m.djump_value in
    if eqb_ℤ m.djump_value (pos 0)
    then playlist_position m
    else take m.djump_cursor hc
      ++ (replicate (length hc - m.djump_cursor) b'_' ++ behind_slash (playlist_position m))

-- The average of the bit rate: the sum and the number of rates in it.
unfoldable pub start_average : ℤ → ℤ → ℕ → ℤ × ℕ
start_average bit_rate sum counter =
    if eqb_ℤ bit_rate (pos 0)
    then (pos 0, 0)
    else if eqb_ℤ sum (pos 0)
    then (bit_rate, counter)
    else (sum, counter)

unfoldable pub average : ℤ → ℤ → ℕ → ℤ × ℕ
unfolding start_average
average bit_rate sum counter =
    let (sum', counter') = start_average bit_rate sum counter in
    if leb 15 (counter' + 1) then (pos 0 +ℤ bit_rate, 1) else (sum' +ℤ bit_rate, counter' + 1)

-- A division by zero is not reached: the number of rates is at least 1.
abbrev pub shown_rate : Lcd → ℤ
shown_rate d = div_ℤ d.bitrate_sum d.bitrate_counter

-- `%3d`
abbrev pub show_3 : ℤ → Text
show_3 n = replicate (3 - length (show_int n)) 32 ++ show_int n

abbrev pub flag : Bool → ℕ → Text
flag on c = if on then c ∷ [] else 32 ∷ []

abbrev pub is_set : ℤ → Bool
is_set n = not (eqb_ℤ n (pos 0))

-- `"#%s %s %3dkbs %s%s%s%s%s"`
abbrev pub status_text : Lcd → Text → Text
status_text d plpos =
    b'#'
    ∷ (plpos
        ++ (32
            ∷ (d.player.song.fileext
                ++ (32
                    ∷ (show_3 (shown_rate d)
                        ++ (codes "kbs "
                            ++ (flag d.player.player.updating_db b'U'
                                ++ (flag (is_set d.mute) b'M'
                                    ++ (flag d.sleep b'S'
                                        ++ (flag d.player.player.random b'?'
                                            ++ flag d.player.player.repeat b'R'))))))))))

-- `while (strlen(plpos)+strlen(player_song.fileext)+strlen(buf)<mod_lcdproc_wid-12)`; `plpos` has 128
-- bytes.
unfoldable pub pad_position : Lcd → Text → Option Text
pad_position d plpos =
    pad_to 128 32
      (sub_uint d.wid 12 - (length d.player.song.fileext + length (show_3 (shown_rate d)))) plpos

-- The average is taken each time that the line is shown.
abbrev pub averaged : Lcd → Lcd
averaged d =
    let next = average d.player.player.bit_rate d.bitrate_sum d.bitrate_counter in
    record d { bitrate_sum = next.0; bitrate_counter = next.1 }

unfoldable pub long_status : Lcd → Option Lcd
long_status d = pad_position (averaged d) (entered_position d.player) >>= λ plpos.
    mod_lcdproc_setstring (codes "status") d.status_line
      (snprintf 127 (status_text (averaged d) plpos)) (status_align d) (averaged d)

-- `"%c%c%c%c"`
unfoldable pub short_status : Lcd → Option Lcd
short_status d =
    mod_lcdproc_setstring (codes "status") d.status_line
      (flag d.player.player.repeat b'R'
        ++ (flag (is_set d.mute) b'm' ++ (flag d.player.player.random b'?' ++ flag d.sleep b's')))
      (status_align d) d

unfoldable pub show_status : Lcd → Option Lcd
show_status d = if ltb_ℤ (pos 2) d.hgt then long_status d else short_status d
