-- ===== src/Format/Total.antt =====
-- The loop of src/util.c ends, on every format: each round consumes a byte at least.
use audiobase.Common.{
  ℕ, zero, suc, ◌+◌, ◌-◌, ◌≤◌, ◌<◌, [], ◌∷◌, Bool, false, Option, none, some, ◌==◌, if◌then◌else◌,
  ◌≡◌, refl, arith, length, length-drop, ◌⊎◌, inl, inr,
}
use audiobase.Text.{Text}
use audiobase.State.{Song, PlayerStatus}
use audiobase.Format.Syntax.{skip_formatting}
use audiobase.Format.Labels.{Label, song_label, info_label}
use audiobase.Format.Steps.{after_group, found_after, loop_next, loop_group, loop_stop}
use audiobase.Format.Loop.{
  Round, next, group, stop, extent, specifier, escape_or_specifier, format_round, format_loop,
  song_to_formatted_string, info_to_formatted_string,
}

pub skip_formatting-length : (stack : ℕ) (p : Text) → length (skip_formatting stack p) ≤ length p
unfolding skip_formatting
skip_formatting-length stack [] = omega arith
skip_formatting-length stack (c ∷ []) = ground arith
skip_formatting-length stack (c ∷ d ∷ p) =
    let open' : ℕ = (if c == b'[' then stack + 1 else stack) in
    ground (
      arith,
      skip_formatting-length open' p,
      skip_formatting-length (if c == b']' then open' - 1 else open') (d ∷ p),
    )

-- What a round leaves to do is shorter than what it starts from; a result leaves no more.
abbrev Consumes : ℕ → Round → Type 0
Consumes n (next p ret found) = length p < n
Consumes n (group s) = length s < n
Consumes n (stop ret last) = length last ≤ n

Round-cases :
    (r : Round)
    → ((p : Text) × (ret : Option Text) × (found : Bool) × (r ≡ next p ret found))
      ⊎ (((s : Text) × (r ≡ group s)) ⊎ ((ret : Option Text) × (last : Text) × (r ≡ stop ret last)))
Round-cases (next p ret found) = inl (p, ret, found, refl)
Round-cases (group s) = inr (inl (s, refl))
Round-cases (stop ret last) = inr (inr (ret, last, refl))

module _ (label : Text → ℕ → Label) where
  specifier-Consumes :
      (c : ℕ) (s : Text) (ret : Option Text) (found : Bool)
      → Consumes (suc (length s)) (specifier label c s ret found)
  unfolding specifier
  specifier-Consumes c s ret found = ground (arith, length-drop (extent s) (c ∷ s))

  escape_or_specifier-Consumes :
      (c : ℕ) (s : Text) (ret : Option Text) (found : Bool)
      → Consumes (suc (length s)) (escape_or_specifier label c s ret found)
  unfolding escape_or_specifier
  escape_or_specifier-Consumes c [] ret found = specifier-Consumes c [] ret found
  escape_or_specifier-Consumes c (d ∷ s) ret found =
      ground (arith, specifier-Consumes c (d ∷ s) ret found)

  format_round-Consumes :
      (p : Text) (ret : Option Text) (found : Bool)
      → Consumes (length p) (format_round label p ret found)
  unfolding format_round
  format_round-Consumes [] ret found = omega arith
  format_round-Consumes (c ∷ s) ret found =
      ground (arith, skip_formatting-length 0 s, escape_or_specifier-Consumes c s ret found)

  -- The loop returns, with at most the bytes that it was given still to read.
  format_loop_total :
      (fuel : ℕ) (p : Text) (ret : Option Text) (found : Bool)
      → length p < fuel
      → (r : Option Text) × (last : Text) × (format_loop label fuel p ret found ≡ some (r, last))
        × (length last ≤ length p)
  format_loop_total zero p ret found h = absurd (omega arith)
  format_loop_total (suc fuel) p ret found h =
      let k = format_round-Consumes p ret found in
      elim (Round-cases (format_round label p ret found)) [
        | inl (p', ret', found', e) ↦
            let k' : length p' < length p = rw e at k in
            let (r, last, returns, shorter) = format_loop_total fuel p' ret' found' (omega arith) in
            (r, last, rw (loop_next label fuel p ret found p' ret' found' e) returns, omega arith)
        | inr (inl (s, e)) ↦
            let k' : length s < length p = rw e at k in
            let (r, p', inner, shorter) = format_loop_total fuel s none false (omega arith) in
            let (r', last, returns, shorter') =
              format_loop_total fuel p' (after_group ret r) (found_after found r) (omega arith) in
            (r', last, rw (loop_group label fuel p ret found s p' r e inner) returns, omega arith)
        | inr (inr (ret', last, e)) ↦
            let k' : length last ≤ length p = rw e at k in
            (ret', last, loop_stop label fuel p ret found ret' last e, k')
      ]

-- On every format string `songToFormatedString` returns, and leaves no more of the format than it
-- was given.
pub song_to_formatted_string_total :
    (from_utf8 : Text → Text) (song : Song) (format : Text)
    → (r : Option Text) × (last : Text) × (song_to_formatted_string from_utf8 song format
        ≡ some (r, last))
      × (length last ≤ length format)
unfolding song_to_formatted_string
song_to_formatted_string_total from_utf8 song format =
    format_loop_total (song_label from_utf8 song) (suc (length format)) format none false
      (omega arith)

-- On every format string `infoToFormatedString` returns, and leaves no more of the format than it
-- was given.
info_to_formatted_string_total :
    (from_utf8 : Text → Text) (song : Song) (player : PlayerStatus) (format : Text)
    → (r : Option Text) × (last : Text) × (info_to_formatted_string from_utf8 song player format
        ≡ some (r, last))
      × (length last ≤ length format)
unfolding info_to_formatted_string
info_to_formatted_string_total from_utf8 song player format =
    format_loop_total (info_label from_utf8 song player) (suc (length format)) format none false
      (omega arith)
