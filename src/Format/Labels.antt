-- ===== src/Format/Labels.antt =====
-- The labels of src/util.c: what a specifier such as %title% stands for.
use audiobase.Common.{
  ℕ, [], ◌∷◌, ◌++◌, String, Bool, none, some, if◌then◌else◌, ℤ, pos, ltb_ℤ, eqb_ℤ, div_ℤ, mod_ℤ,
}
use audiobase.Text.{Text, codes, is_empty, strncmp_eq, strrchr, snprintf, show_int, show_02}
use audiobase.State.{Song, PlayerStatus, song_no_time}

-- `raw`: no label, the specifier is copied; `absent`: a label with no value; `shown`: its value.
pub data Label : Type 0 where
  raw absent : Label
  shown : Text → Label

abbrev pub is_label : String → Text → ℕ → Bool
is_label name p n = strncmp_eq (codes name) p n

-- The conversion `fromUtf8` of src/charConv.c rests on the system's iconv; it is an argument.
module _ (from_utf8 : Text → Text) where
  -- `*song->x ? fromUtf8(song->x) : NULL`
  abbrev pub optional : Text → Label
  optional t = if is_empty t then absent else shown (from_utf8 t)

  -- The part behind the last slash of the converted name. A conversion that loses the slash would
  -- have the program step off the null pointer; the result is the empty string there.
  unfoldable pub short_file : Text → Text
  short_file file = elim (strrchr b'/' file) [
    | none ↦ from_utf8 file
    | some _ ↦ elim (strrchr b'/' (from_utf8 file)) [ some (c ∷ s) ↦ s | some [] ↦ [] | none ↦ [] ]
  ]

  unfoldable pub position : ℤ → Label
  position n = if ltb_ℤ (pos 0) n then shown (from_utf8 (snprintf 9 (show_int n))) else absent

  unfoldable pub duration : ℤ → Label
  duration t =
      if eqb_ℤ t song_no_time
      then absent
      else shown (from_utf8 (snprintf 9 (show_int (div_ℤ t 60) ++ b':' ∷ show_02 (mod_ℤ t 60))))

  -- The chain of comparisons in `songToFormatedString`, for a specifier of n bytes at p.
  unfoldable pub song_label : Song → Text → ℕ → Label
  unfolding short_file position duration
  song_label song p n =
      if is_label "%file%" p n
      then shown (from_utf8 song.file)
      else if is_label "%shortfile%" p n
      then shown (short_file song.file)
      else if is_label "%fileext%" p n
      then optional song.fileext
      else if is_label "%artist%" p n
      then optional song.artist
      else if is_label "%title%" p n
      then optional song.title
      else if is_label "%album%" p n
      then optional song.album
      else if is_label "%track%" p n
      then optional song.track
      else if is_label "%name%" p n
      then optional song.name
      else if is_label "%plpos%" p n
      then position song.pos
      else if is_label "%time%" p n
      then duration song.time
      else raw

  -- `infoToFormatedString` goes on with three labels of the player. The number that %volume% prints
  -- is never handed on, so that label has no value; %repeat% and %random% stand for nothing, and
  -- are there for their effect on `&` and `|`.
  unfoldable pub info_label : Song → PlayerStatus → Text → ℕ → Label
  unfolding song_label
  info_label song player p n = elim (song_label song p n) [
    | shown t ↦ shown t
    | absent ↦ absent
    | raw ↦
        if is_label "%volume%" p n
        then absent
        else if is_label "%repeat%" p n
        then (if player.repeat then shown [] else absent)
        else if is_label "%random%" p n
        then (if player.random then shown [] else absent)
        else raw
  ]
