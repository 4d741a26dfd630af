-- ===== src/Tools/Lines.antt =====
-- What `readline` of src/ABasetools.c returns, and where it stores the terminating zero.
use mathlib.Core.List.{cons-ne-nil}
use mathlib.Core.Logic.{◌≢◌}
use audiobase.Common.{
  ◌⊎◌, inl, inr, Option-cases, ℕ, ◌+◌, ◌≤◌, ◌<◌, [], ◌∷◌, ◌++◌, append_assoc, append-nil, Bool,
  true, false, none, some, ◌≡◌, refl, arith, All, length, length-append, ℤ, negsuc,
}
use audiobase.Text.{Text}
use audiobase.Tools.Readline.{
  Input, Line, line, closed, is_line_end, read_loop, readline, terminator,
}

-- A line without its end: no byte of it ends a line.
abbrev pub IsOneLine : Text → Type 0
IsOneLine = All (λ b. is_line_end b ≡ false)

-- The three ways on after a byte: the line goes on, it ends, or the buffer is full.
read_loop_more :
    (count : ℕ) (buf : Text) (b : ℕ) (rest : Text)
    → is_line_end b ≡ false
    → length buf + 1 < count
    → read_loop false count buf (b ∷ rest) ≡ read_loop false count (buf ++ b ∷ []) rest
unfolding read_loop
read_loop_more count buf b rest hb h = rw hb (ground arith)

read_loop_full :
    (count : ℕ) (buf : Text) (b : ℕ) (rest : Text)
    → is_line_end b ≡ false
    → count ≤ length buf + 1
    → read_loop false count buf (b ∷ rest) ≡ some (buf ++ b ∷ [], rest)
unfolding read_loop
read_loop_full count buf b rest hb h = rw hb (ground arith)

read_loop_line :
    (count : ℕ) (buf s : Text) (e : ℕ) (rest : Text)
    → IsOneLine s
    → is_line_end e ≡ true
    → length buf + length s < count
    → read_loop false count buf (s ++ e ∷ rest) ≡ some (buf ++ s, rest)
read_loop_line count buf [] e rest hs he h = unfold read_loop in rw (he, append-nil)
read_loop_line count buf (b ∷ s) e rest hs he h =
    rw (read_loop_more count buf b _ hs.0 (omega arith)) (
      rw (
        read_loop_line count (buf ++ b ∷ []) s e rest hs.1 he
            (omega (arith, length-append buf (b ∷ []))),
        append_assoc buf (b ∷ []) s,
      ))

-- If no signal has set `terminate`, a line that is shorter than the buffer and ended by a line end
-- is read whole, without its end, and what follows the end is left to read.
pub readline_line :
    (count : ℕ) (s : Text) (e : ℕ) (rest : Text) (failing : Bool)
    → IsOneLine s
    → is_line_end e ≡ true
    → length s < count
    → readline false count (record { bytes = s ++ e ∷ rest; failing = failing }) ≡ line s rest
unfolding readline
readline_line count s e rest failing hs he h =
    rw (readline, read_loop_line count [] s e rest hs he (omega arith))

read_loop_bounds :
    (terminate : Bool) (count : ℕ) (buf bytes s rest : Text)
    → length buf < count
    → read_loop terminate count buf bytes ≡ some (s, rest)
    → length s ≤ count
unfolding read_loop
read_loop_bounds terminate count buf [] s rest h e = cc
read_loop_bounds terminate count buf (b ∷ bytes) s rest h e = ground (
  arith,
  length-append buf (b ∷ []),
  read_loop_bounds terminate count (buf ++ b ∷ []) bytes s rest,
)

-- The index at which `readline` stores the terminating zero is at most the length of the buffer, if
-- that is not 0: one past its end at the worst.
readline_bounds :
    (terminate : Bool) (count : ℕ) (fd : Input) (at : ℕ)
    → 0 < count
    → terminator (readline terminate count fd) ≡ some at
    → at ≤ count
unfolding readline
readline_bounds terminate count fd at h e =
    elim (Option-cases (read_loop terminate count [] fd.bytes)) [
      | inl none_read ↦ ground arith
      | inr ((s, rest), read) ↦
          ground (arith, read_loop_bounds terminate count [] fd.bytes s rest h read)
    ]

read_loop_overrun :
    (count : ℕ) (buf s t : Text)
    → IsOneLine s
    → s ≢ []
    → count ≡ length buf + length s
    → read_loop false count buf (s ++ t) ≡ some (buf ++ s, t)
read_loop_overrun count buf [] t hs h n = absurd (h refl)
read_loop_overrun count buf (b ∷ []) t hs h n = read_loop_full count buf b t hs.0 (omega arith)
read_loop_overrun count buf (b ∷ c ∷ s) t hs h n =
    rw (read_loop_more count buf b _ hs.0 (omega arith)) (
      rw (
        read_loop_overrun count (buf ++ b ∷ []) (c ∷ s) t hs.1 (cons-ne-nil c s)
            (omega (arith, length-append buf (b ∷ []))),
        append_assoc buf (b ∷ []) (c ∷ s),
      ))

-- If no signal has set `terminate`, a line that is not empty and as long as the buffer or longer is
-- cut at the length of the buffer, and its terminating zero is stored at that index, behind the
-- last element.
pub readline_overrun :
    (s t : Text) (failing : Bool)
    → IsOneLine s
    → s ≢ []
    → (readline false (length s) (record { bytes = s ++ t; failing = failing }) ≡ line s t)
      × (terminator (readline false (length s) (record { bytes = s ++ t; failing = failing }))
          ≡ some (length s))
unfolding readline
readline_overrun s t failing hs h =
    ground (arith, read_loop_overrun (length s) [] s t hs h (omega arith))

read_loop_unfinished :
    (count : ℕ) (buf s : Text)
    → IsOneLine s
    → length buf + length s < count
    → read_loop false count buf s ≡ none
read_loop_unfinished count buf [] hs h = unfold read_loop in refl
read_loop_unfinished count buf (b ∷ s) hs h =
    rw (read_loop_more count buf b _ hs.0 (omega arith)) (
      read_loop_unfinished count (buf ++ b ∷ []) s hs.1 (omega (arith, length-append buf (b ∷ []))))

-- If no signal has set `terminate`, a line that is shorter than the buffer and ended by the end of
-- the input is lost: the result is a failure.
pub readline_unfinished :
    (count : ℕ) (s : Text)
    → IsOneLine s
    → length s < count
    → readline false count (record { bytes = s; failing = false }) ≡ closed (negsuc 0)
unfolding readline
readline_unfinished count s hs h = rw (readline, read_loop_unfinished count [] s hs (omega arith))

read_loop_progress :
    (terminate : Bool) (count : ℕ) (buf bytes s rest : Text)
    → read_loop terminate count buf bytes ≡ some (s, rest)
    → length rest < length bytes
unfolding read_loop
read_loop_progress terminate count buf [] s rest h = cc
read_loop_progress terminate count buf (b ∷ bytes) s rest h =
    ground (arith, read_loop_progress terminate count (buf ++ b ∷ []) bytes s rest)

-- A line that is read leaves less to read.
pub readline_progress :
    (terminate : Bool) (count : ℕ) (fd : Input) (s rest : Text)
    → readline terminate count fd ≡ line s rest
    → length rest < length fd.bytes
unfolding readline
readline_progress terminate count fd s rest h =
    elim (Option-cases (read_loop terminate count [] fd.bytes)) [
      | inl none_read ↦ ground arith
      | inr ((s', rest'), read) ↦
          ground (arith, read_loop_progress terminate count [] fd.bytes s' rest' read)
    ]

pub Line-cases :
    (r : Line) → ((rc : ℤ) × (r ≡ closed rc)) ⊎ ((s : Text) × (rest : Text) × (r ≡ line s rest))
Line-cases (closed rc) = inl (rc, refl)
Line-cases (line s rest) = inr (s, rest, refl)
