-- ===== src/Mpd/Jump.antt =====
-- The commands jump and djump of `mod_mpd_message` in src/mod_mpd.c.
use audiobase.Common.{
  ℕ, zero, suc, ◌+◌, ◌-◌, ◌*◌, [], ◌∷◌, List, Bool, true, false, not, ◌&&◌, ◌||◌, Option, none,
  some, ltb, leb, ◌==◌, if◌then◌else◌, length, ℤ, pos, negsuc, pos_part, neg_part, ◌+ℤ◌, ◌-ℤ◌,
  ltb_ℤ, leb_ℤ, eqb_ℤ, mod_ℤ,
}
use audiobase.Text.{Text, codes, nocase_eq, atoi, show_int, strtok, blanks}
use audiobase.State.{PlayerStatus, PlayState, unknown, stopped, playing, paused}
use audiobase.Commands.{whole_rest}
use audiobase.Bus.Msgtype
use audiobase.Mpd.Player.{Sent, play, pause, next, prev, message, MpdState}

-- `a % b`; `none` is a division by zero.
abbrev pub rem : ℤ → ℤ → Option ℤ
rem a (pos zero) = none
rem a (pos (suc n)) = some (mod_ℤ a (suc n))
rem a (negsuc n) = some (mod_ℤ a (suc n))

abbrev pub abs : ℤ → ℤ
abs a = pos (pos_part a + neg_part a)

-- Where a jump goes, from `newpos`: around the ends of the playlist, or to them.
unfoldable pub jump_target : ℤ → Bool → ℤ → Option ℤ
jump_target len repeat newpos =
    if leb_ℤ len newpos
    then (if repeat then rem newpos len else some len)
    else if ltb_ℤ newpos (pos 0)
    then (if repeat
        then elim (rem (abs newpos) len) [
          | none ↦ none
          | some r ↦ some (let q = len -ℤ r in if leb_ℤ len q then pos 0 else q)
        ]
        else some (pos 0))
    else some newpos

abbrev pub can_jump : PlayState → Bool
can_jump playing = true
can_jump paused = true
can_jump stopped = false
can_jump unknown = false

-- A player that was paused is paused again.
abbrev pub paused_again : PlayState → List Sent
paused_again paused = pause true ∷ []
paused_again _ = []

unfoldable pub jump_command : PlayerStatus → Text → Option Sent
jump_command p c2 =
    if nocase_eq c2 (codes "+1")
    then some next
    else if nocase_eq c2 (codes "-1")
    then some prev
    else elim (jump_target p.playlist_length p.repeat (p.song +ℤ atoi c2)) [
      | none ↦ none
      | some newpos ↦ some (play newpos)
    ]

unfoldable pub jump : Text → MpdState → Option (MpdState × List Sent)
jump rest m = if not (can_jump m.player.state) then some (m, []) else elim (strtok blanks rest) [
  | none ↦ some (m, [])
  | some (c2, rest') ↦ elim (jump_command m.player c2) [
    | none ↦ none
    | some sent ↦ some (m, sent ∷ paused_again m.player.state)
  ]
]

-- `hc[i] = c`
abbrev pub set_at : ℕ → ℕ → Text → Text
set_at i c [] = []
set_at zero c (x ∷ s) = c ∷ s
set_at (suc i) c (x ∷ s) = x ∷ set_at i c s

abbrev pub first_byte : Text → ℕ
first_byte [] = 0
first_byte (c ∷ s) = c

-- A number that is longer than the playlist ends the input.
abbrev pub at_most : ℤ → ℤ → ℤ
at_most len value = if ltb_ℤ len value then pos 0 else value

abbrev pub lcd_refresh : Sent
lcd_refresh = message Msgtype.info (codes "lcdproc refresh")

-- `djump +`: ten more; the last digit is edited next.
unfoldable pub djump_plus : MpdState → MpdState
djump_plus m =
    let value = m.djump_value +ℤ pos 10 in
    record m {
      djump_cursor = length (show_int value) - 1;
      djump_value = at_most m.player.playlist_length value;
    }

abbrev pub times_ten : ℤ → ℤ
times_ten (pos n) = pos (n * 10)
times_ten (negsuc n) = pos 0 -ℤ pos (suc n * 10)

-- `djump >`: one digit more.
unfoldable pub djump_more : MpdState → MpdState
djump_more m =
    let value = if eqb_ℤ m.djump_value (pos 0) then pos 1 else m.djump_value in
    record m { djump_value = at_most m.player.playlist_length (times_ten value) }

-- The number with the digit at the cursor replaced. A first digit 0 is kept, and a second one is set
-- to 1 if nothing but zeros would be left.
unfoldable pub edited : ℤ → ℕ → ℤ → Text
edited value cursor hint =
    let shown = show_int value in
    let hc =
      if ltb cursor (length shown)
      then set_at cursor (first_byte (show_int hint)) shown
      else shown in
    if eqb_ℤ hint (pos 0) && (cursor == 0 && (eqb_ℤ (atoi hc) (pos 0) && ltb 1 (length hc)))
    then set_at 1 b'1' hc
    else hc

-- The end of the input: a number that is no song's ends it, and one whose last digit has been edited
-- is played.
unfoldable pub play_or_wait : ℤ → ℕ → MpdState → MpdState × List Sent
play_or_wait value cursor m =
    if leb (length (show_int value)) cursor
    then (
      record m { djump_value = pos 0; djump_cursor = 0 },
      play (value -ℤ pos 1) ∷ lcd_refresh ∷ [],
    )
    else (record m { djump_value = value; djump_cursor = cursor }, lcd_refresh ∷ [])

unfoldable pub finish_digit : ℤ → ℕ → MpdState → MpdState × List Sent
unfolding play_or_wait
finish_digit value cursor m =
    if ltb_ℤ m.player.playlist_length value || leb_ℤ value (pos 0)
    then play_or_wait (pos 0) 0 m
    else play_or_wait value cursor m

unfoldable pub djump_digit : Text → MpdState → MpdState × List Sent
unfolding edited finish_digit
djump_digit c2 m =
    let hint = atoi c2 in
    finish_digit (atoi (edited m.djump_value m.djump_cursor hint))
      (if eqb_ℤ hint (pos 0) && m.djump_cursor == 0 then 0 else m.djump_cursor + 1) m

-- `djump` with what is left of the message.
abbrev pub djump_with : Option Text → MpdState → MpdState × List Sent
djump_with none m = (m, [])
djump_with (some []) m = djump_digit [] m
djump_with (some (c ∷ s)) m =
    if c == b'+'
    then (djump_plus m, lcd_refresh ∷ [])
    else if c == b'>'
    then (djump_more m, lcd_refresh ∷ [])
    else djump_digit (c ∷ s) m

-- Without a number the cursor is at the start.
unfoldable pub djump : Text → MpdState → MpdState × List Sent
unfolding djump_plus djump_more djump_digit
djump rest m =
    djump_with (whole_rest rest)
      (if eqb_ℤ m.djump_value (pos 0) then record m { djump_cursor = 0 } else m)
