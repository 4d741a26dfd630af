-- ===== src/Mpd/Bounds.antt =====
-- Which songs the commands jump and djump of src/mod_mpd.c have the server play.
use audiobase.Common.{
  ℕ, [], ◌∷◌, List, Option, none, some, leb, ◌==◌, ◌≡◌, inl, inr, refl, arith, Bool-cases, length,
  All, ℤ, pos, negsuc, ◌≤ℤ◌, ◌<ℤ◌, ltb_ℤ, leb_ℤ, eqb_ℤ, int_laws,
}
use audiobase.Text.{Text, show_int}
use audiobase.Commands.{whole_rest}
use audiobase.Mpd.Player.{Sent, play, MpdState}
use audiobase.Mpd.Jump.{
  at_most, times_ten, djump_plus, djump_more, djump_digit, play_or_wait, finish_digit, djump_with,
  djump,
}

-- A song of the playlist, or no song at all.
abbrev pub IsSong : ℤ → Sent → Type 0
IsSong len (play z) = (pos 0 ≤ℤ z) × (z <ℤ len)
IsSong len _ = Unit {0}

-- The number that is entered is 0 or that of a song.
abbrev pub IsNumber : ℤ → ℤ → Type 0
IsNumber len value = (pos 0 ≤ℤ value) × (value ≤ℤ len)

at_most-IsNumber :
    (len value : ℤ) → pos 0 ≤ℤ len → pos 0 ≤ℤ value → IsNumber len (at_most len value)
at_most-IsNumber len value h k = elim (Bool-cases (ltb_ℤ len value)) [
  | inl e ↦ rw e (omega int_laws)
  | inr e ↦ rw e (omega int_laws)
]

-- What a handler leaves: the number, the status, and what it sends.
abbrev Fine : ℤ → MpdState → MpdState × List Sent → Type 0
Fine len m r = IsNumber len r.0.djump_value × (r.0.player ≡ m.player) × All (IsSong len) r.1

play_or_wait-zero :
    (m : MpdState)
    → pos 0 ≤ℤ m.player.playlist_length
    → Fine m.player.playlist_length m (play_or_wait (pos 0) 0 m)
unfolding play_or_wait show_int
play_or_wait-zero m h = ((omega arith, h), refl, (tt, tt))

play_or_wait-song :
    (value : ℤ) (cursor : ℕ) (m : MpdState)
    → pos 0 ≤ℤ m.player.playlist_length
    → pos 0 <ℤ value
    → value ≤ℤ m.player.playlist_length
    → Fine m.player.playlist_length m (play_or_wait value cursor m)
unfolding play_or_wait
play_or_wait-song value cursor m h k l = elim (Bool-cases (leb (length (show_int value)) cursor)) [
  | inl e ↦
      rw (e, play_or_wait) ((omega arith, h), refl, ((omega int_laws, omega int_laws), (tt, tt)))
  | inr e ↦ rw (e, play_or_wait) ((omega arith, l), refl, (tt, tt))
]

finish_digit-Fine :
    (value : ℤ) (cursor : ℕ) (m : MpdState)
    → pos 0 ≤ℤ m.player.playlist_length
    → Fine m.player.playlist_length m (finish_digit value cursor m)
unfolding finish_digit
finish_digit-Fine value cursor m h = elim (Bool-cases (ltb_ℤ m.player.playlist_length value)) [
  | inl e ↦ rw (e, finish_digit) (play_or_wait-zero m h)
  | inr e ↦ elim (Bool-cases (leb_ℤ value (pos 0))) [
    | inl e' ↦ rw (e, e', finish_digit) (play_or_wait-zero m h)
    | inr e' ↦
        rw (e, e', finish_digit)
          (play_or_wait-song value cursor m h (omega int_laws) (omega int_laws))
  ]
]

plus-Fine :
    (m : MpdState)
    → pos 0 ≤ℤ m.player.playlist_length
    → IsNumber m.player.playlist_length m.djump_value
    → IsNumber m.player.playlist_length (djump_plus m).djump_value
unfolding djump_plus
plus-Fine m h k = at_most-IsNumber m.player.playlist_length _ h (omega (int_laws, k))

times_ten-positive : (z : ℤ) → pos 0 ≤ℤ z → pos 0 ≤ℤ times_ten z
times_ten-positive (pos n) h = omega arith
times_ten-positive (negsuc n) h = absurd (omega arith)

more-Fine :
    (m : MpdState)
    → pos 0 ≤ℤ m.player.playlist_length
    → IsNumber m.player.playlist_length m.djump_value
    → IsNumber m.player.playlist_length (djump_more m).djump_value
unfolding djump_more
more-Fine m h k =
    at_most-IsNumber m.player.playlist_length _ h (elim (Bool-cases (eqb_ℤ m.djump_value (pos 0))) [
      | inl e ↦ rw e (omega arith)
      | inr e ↦ rw e (times_ten-positive m.djump_value k.0)
    ])

with-Fine :
    (rest : Option Text) (m : MpdState)
    → pos 0 ≤ℤ m.player.playlist_length
    → IsNumber m.player.playlist_length m.djump_value
    → Fine m.player.playlist_length m (djump_with rest m)
unfolding djump_plus djump_more djump_digit
with-Fine none m h k = (k, refl, tt)
with-Fine (some []) m h k = finish_digit-Fine _ _ m h
with-Fine (some (c ∷ s)) m h k = elim (Bool-cases (c == b'+')) [
  | inl plus ↦ rw plus (plus-Fine m h k, refl, (tt, tt))
  | inr other ↦ elim (Bool-cases (c == b'>')) [
    | inl more ↦ rw (other, more) (more-Fine m h k, refl, (tt, tt))
    | inr digit ↦ rw (other, digit) (finish_digit-Fine _ _ m h)
  ]
]

-- If the length of the playlist is not negative and the number that is being entered is between 0
-- and that length, every djump message leaves it so and the status as it is, and a position that it
-- has the server play is that of a song of the playlist.
pub djump_lem :
    (rest : Text) (m : MpdState)
    → pos 0 ≤ℤ m.player.playlist_length
    → IsNumber m.player.playlist_length m.djump_value
    → IsNumber m.player.playlist_length (djump rest m).0.djump_value
      × ((djump rest m).0.player ≡ m.player)
      × All (IsSong m.player.playlist_length) (djump rest m).1
unfolding djump
djump_lem rest m h k = elim (Bool-cases (eqb_ℤ m.djump_value (pos 0))) [
  | inl zero_value ↦
      rw (zero_value, djump) (with-Fine (whole_rest rest) (record m { djump_cursor = 0 }) h k)
  | inr some_value ↦ rw (some_value, djump) (with-Fine (whole_rest rest) m h k)
]
