-- ===== src/Format/Plain.antt =====
-- Formats without labels: plain text, escapes, and what `&`, `|` and brackets do with it
-- (src/util.c).
use audiobase.Common.{
  Bool-cases, inl, inr, ℕ, zero, suc, ◌≤◌, ◌<◌, [], ◌∷◌, ◌++◌, append_assoc, append-nil, Bool, true,
  false, ◌||◌, Option, none, some, ◌==◌, if◌then◌else◌, ◌≡◌, ◌≢◌, refl, arith, length,
}
use audiobase.Text.{Text}
use audiobase.State.{Song}
use audiobase.Format.Syntax.{append_to_string}
use audiobase.Format.Labels.{Label, song_label}
use audiobase.Format.Steps.{loop_next, loop_stop}
use audiobase.Format.Loop.{next, format_round, format_loop, song_to_formatted_string}

-- The bytes with a meaning in a format.
abbrev pub is_special : ℕ → Bool
is_special c = c == b'#' || (c == b'%' || (c == b'|' || (c == b'&' || (c == b'[' || c == b']'))))

-- The text with a `#` in front of each of them.
unfoldable pub escape : Text → Text
escape [] = []
escape (c ∷ s) = if is_special c then b'#' ∷ c ∷ escape s else c ∷ escape s

-- What is built by appending the bytes of s one by one.
abbrev grown : Option Text → Text → Option Text
grown ret [] = ret
grown ret (c ∷ s) = grown (append_to_string ret (c ∷ [])) s

escape_special : (c : ℕ) (s : Text) → is_special c ≡ true → escape (c ∷ s) ≡ b'#' ∷ c ∷ escape s
unfolding escape
escape_special c s h = rw h

escape_plain : (c : ℕ) (s : Text) → is_special c ≡ false → escape (c ∷ s) ≡ c ∷ escape s
unfolding escape
escape_plain c s h = rw h

module _ (label : Text → ℕ → Label) where
  round_escaped :
      (c : ℕ) (s : Text) (ret : Option Text) (found : Bool)
      → format_round label (b'#' ∷ c ∷ s) ret found ≡ next s (append_to_string ret (c ∷ [])) found
  unfolding format_round
  round_escaped c s ret found = refl

  round_plain :
      (c : ℕ) (s : Text) (ret : Option Text) (found : Bool)
      → is_special c ≡ false
      → format_round label (c ∷ s) ret found ≡ next s (append_to_string ret (c ∷ [])) found
  unfolding format_round
  round_plain c s ret found h = ground arith

  loop_escape :
      (fuel : ℕ) (s : Text) (ret : Option Text) (found : Bool)
      → length s < fuel
      → format_loop label fuel (escape s) ret found ≡ some (grown ret s, [])
  loop_escape zero s ret found h = absurd (omega arith)
  loop_escape (suc fuel) [] ret found h =
      unfold escape in loop_stop label fuel [] ret found ret [] (unfold format_round in refl)
  loop_escape (suc fuel) (c ∷ s) ret found h = elim (Bool-cases (is_special c)) [
    | inl special ↦ rw (escape_special c s special) (
        rw (loop_next label fuel _ ret found _ _ found (round_escaped c (escape s) ret found))
          (loop_escape fuel s (append_to_string ret (c ∷ [])) found (omega arith)))
    | inr plain ↦ rw (escape_plain c s plain) (
        rw (loop_next label fuel _ ret found _ _ found (round_plain c (escape s) ret found plain))
          (loop_escape fuel s (append_to_string ret (c ∷ [])) found (omega arith)))
  ]

grown-some : (t s : Text) → grown (some t) s ≡ some (t ++ s)
unfolding append_to_string
grown-some t [] = rw append-nil
grown-some t (c ∷ s) = rw (grown-some (t ++ c ∷ []) s, append_assoc)

grown-none : (s : Text) → s ≢ [] → grown none s ≡ some s
grown-none [] h = absurd (h refl)
grown-none (c ∷ s) h = unfold append_to_string in grown-some (c ∷ []) s

length-escape : (s : Text) → length s ≤ length (escape s)
unfolding escape
length-escape [] = omega arith
length-escape (c ∷ s) = ground (arith, length-escape s)

-- A text that is not empty, with `#` in front of every byte that has a meaning in a format, is
-- shown as it is by `songToFormatedString`.
pub format-escape :
    (from_utf8 : Text → Text) (song : Song) (s : Text)
    → s ≢ []
    → song_to_formatted_string from_utf8 song (escape s) ≡ some (some s, [])
unfolding song_to_formatted_string
format-escape from_utf8 song s h = rw (
  loop_escape (song_label from_utf8 song) (suc (length (escape s))) s none false
      (omega (arith, length-escape s)),
  grown-none s h,
)
