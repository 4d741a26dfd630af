-- ===== src/Display/TimeText.antt =====
-- How the times of a song are shown (`mod_lcdproc_refreshtime` of src/mod_lcdproc.c).
use audiobase.Common.{
  ℕ, zero, suc, ◌+◌, ◌*◌, ◌/◌, ◌%◌, ◌<◌, [], ◌∷◌, ◌++◌, ◌≡◌, refl, arith, pos, mod_ℤ, div_ℤ,
}
use audiobase.Text.{Text, show_nat, emit, show_02, show_int}
use audiobase.Display.Time.{minutes_text, hours_text}

abbrev pub two_digits : ℕ → Text
two_digits n = (b'0' + n / 10) ∷ (b'0' + n % 10) ∷ []

show_02-digits : (n : ℕ) → n < 100 → show_02 (pos n) ≡ two_digits n
unfolding show_02 show_nat emit
show_02-digits zero h = refl
show_02-digits (suc n) h = ground arith

-- The time h:m:s as a number of seconds.
abbrev pub seconds_of : ℕ → ℕ → ℕ → ℕ
seconds_of h m s = h * 3600 + (m * 60 + s)

minutes_part :
    (h m s : ℕ)
    → m < 60
    → s < 60
    → (div_ℤ (mod_ℤ (pos (seconds_of h m s)) 3600) 60 ≡ pos m)
      × (mod_ℤ (mod_ℤ (pos (seconds_of h m s)) 3600) 60 ≡ pos s)
minutes_part h m s lm ls = (ground arith, ground arith)

hours_part : (h m s : ℕ) → m < 60 → s < 60 → div_ℤ (pos (seconds_of h m s)) 3600 ≡ pos h
hours_part h m s lm ls = ground arith

-- A time of h hours, m minutes and s seconds is shown as m:s, each with two digits, if hours are not
-- shown, and the hours are lost; and as h:m:s if they are.
pub time_texts :
    (h m s : ℕ)
    → m < 60
    → s < 60
    → (minutes_text (pos (seconds_of h m s)) ≡ two_digits m ++ (b':' ∷ two_digits s))
      × (hours_text (pos (seconds_of h m s))
          ≡ show_nat h ++ (b':' ∷ (two_digits m ++ (b':' ∷ two_digits s))))
unfolding show_int show_nat
time_texts h m s lm ls =
    let (minutes, seconds) = minutes_part h m s lm ls in
    (
      rw (minutes, seconds, show_02-digits m (omega arith), show_02-digits s (omega arith)),
      rw (
        hours_part h m s lm ls,
        minutes,
        seconds,
        show_02-digits m (omega arith),
        show_02-digits s (omega arith),
      ),
    )
