-- ===== src/Format/Loop.antt =====
-- The loop of `songToFormatedString` and `infoToFormatedString` (src/util.c). The two functions
-- differ in their labels only, so the loop takes the labels as an argument.
use audiobase.Common.{
  ℕ, zero, suc, ◌+◌, [], ◌∷◌, Bool, true, false, not, ◌&&◌, Option, none, some, ◌==◌, if◌then◌else◌,
  length, take, drop,
}
use audiobase.Text.{Text}
use audiobase.State.{Song, PlayerStatus}
use audiobase.Format.Syntax.{append_to_string, skip_formatting, count_lower}
use audiobase.Format.Labels.{Label, raw, absent, shown, song_label, info_label}

-- How a round of the loop ends: it goes on at p, it formats a bracket at p, or it returns.
pub data Round : Type 0 where
  next : Text → Option Text → Bool → Round
  group : Text → Round
  stop : Option Text → Text → Round

-- The byte at `end`, behind the letters.
abbrev pub ends_with_percent : Text → Bool
ends_with_percent [] = false
ends_with_percent (c ∷ s) = c == b'%'

-- `length` of the specifier at p = c ∷ s
abbrev pub extent : Text → ℕ
extent s =
    if ends_with_percent (drop (count_lower s) s) then count_lower s + 2 else count_lower s + 1

module _ (label : Text → ℕ → Label) where
  unfoldable pub specifier : ℕ → Text → Option Text → Bool → Round
  specifier c s ret found =
      let n = extent s in
      let p : Text = c ∷ s in
      elim (if ends_with_percent (drop (count_lower s) s) then label p n else raw) [
        | raw ↦ next (drop n p) (append_to_string ret (take n p)) found
        | absent ↦ next (drop n p) ret found
        | shown temp ↦ next (drop n p) (append_to_string ret temp) true
      ]

  unfoldable pub escape_or_specifier : ℕ → Text → Option Text → Bool → Round
  unfolding specifier
  escape_or_specifier c [] ret found = specifier c [] ret found
  escape_or_specifier c (d ∷ s) ret found =
      if c == b'#'
      then next s (append_to_string ret (d ∷ [])) found
      else specifier c (d ∷ s) ret found

  unfoldable pub format_round : Text → Option Text → Bool → Round
  unfolding escape_or_specifier
  format_round [] ret found = stop ret []
  format_round (c ∷ s) ret found =
      if c == b'|'
      then (if found then next (skip_formatting 0 s) ret found else next s none found)
      else if c == b'&'
      then (if found then next s ret false else next (skip_formatting 0 s) ret found)
      else if c == b'['
      then group s
      else if c == b']'
      then stop (if found then ret else none) s
      else if not (c == b'#') && not (c == b'%')
      then next s (append_to_string ret (c ∷ [])) found
      else escape_or_specifier c s ret found

  -- The result is the string, or `none` for NULL, and `*last`. The outer `none` means that the
  -- fuel ran out.
  unfoldable pub format_loop : ℕ → Text → Option Text → Bool → Option (Option Text × Text)
  unfolding format_round
  format_loop zero p ret found = none
  format_loop (suc fuel) p ret found = elim (format_round p ret found) [
    | next p' ret' found' ↦ format_loop fuel p' ret' found'
    | stop ret' last ↦ some (ret', last)
    | group s ↦ elim (format_loop fuel s none false) [
      | none ↦ none
      | some (none, p') ↦ format_loop fuel p' ret found
      | some (some temp, p') ↦ format_loop fuel p' (append_to_string ret temp) true
    ]
  ]

  unfoldable pub format_with : Text → Option (Option Text × Text)
  unfolding format_loop
  format_with format = format_loop (suc (length format)) format none false

unfoldable pub song_to_formatted_string : (Text → Text) → Song → Text → Option (Option Text × Text)
unfolding format_with
song_to_formatted_string from_utf8 song format = format_with (song_label from_utf8 song) format

unfoldable pub info_to_formatted_string :
    (Text → Text) → Song → PlayerStatus → Text → Option (Option Text × Text)
unfolding format_with
info_to_formatted_string from_utf8 song player format =
    format_with (info_label from_utf8 song player) format
