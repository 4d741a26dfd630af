-- ===== src/Tools/Answers.antt =====
-- What `sendtextWait` of src/ABasetools.c and `mod_lcdproc_update` of src/mod_lcdproc.c take from the
-- answers of the server.
use mathlib.Core.Logic.{◌≢◌}
use audiobase.Common.{
  ℕ, zero, suc, ◌+◌, ◌<◌, [], ◌∷◌, ◌++◌, List, Bool, Bool-cases, inl, inr, true, false, some, ◌≡◌,
  refl, arith, All, length, ℤ,
}
use audiobase.Text.{Text, nocase_eq}
use audiobase.Tools.Readline.{Input, closed, readline, c_string, overlay, unfinished, skip_answers}
use audiobase.Tools.Lines.{IsOneLine, readline_line, readline_progress, Line-cases}

-- A line that repeats the answer, whatever the case of its letters.
abbrev pub IsAnswer : ℕ → Text → Text → Type 0
IsAnswer count success s = (IsOneLine s) × (length s < count) × (nocase_eq s success ≡ true)

-- Lines as the server sends them.
abbrev pub sent_lines : List Text → Text → Text
sent_lines [] rest = rest
sent_lines (s ∷ lines) rest = s ++ 10 ∷ sent_lines lines rest

skip_answer :
    (fuel count : ℕ) (success mem s rest : Text) (failing : Bool)
    → IsAnswer count success s
    → skip_answers
        (suc fuel)
        false
        count
        success
        mem
        (record { bytes = s ++ 10 ∷ rest; failing = failing })
      ≡ skip_answers fuel false count success
          (overlay (s ++ 0 ∷ []) mem)
          (record { bytes = rest; failing = failing })
unfolding skip_answers
skip_answer fuel count success mem s rest failing (one, short, same) =
    rw (skip_answers, readline_line count s 10 rest failing one refl short, same)

take_other :
    (fuel count : ℕ) (success mem s rest : Text) (failing : Bool)
    → IsOneLine s
    → length s < count
    → nocase_eq s success ≡ false
    → skip_answers
        (suc fuel)
        false
        count
        success
        mem
        (record { bytes = s ++ 10 ∷ rest; failing = failing })
      ≡ some (s, record { bytes = rest; failing = failing })
unfolding skip_answers
take_other fuel count success mem s rest failing one short other =
    rw (skip_answers, readline_line count s 10 rest failing one refl short, other)

-- If no signal has set `terminate`, the wait for an answer takes the lines that repeat the answer,
-- and the first line that says something else as well: what is left to read is what follows that
-- line. All these lines are shorter than the buffer, and there are more rounds than answers.
pub skip_answers_lem :
    (fuel count : ℕ) (success mem : Text) (answers : List Text) (s rest : Text) (failing : Bool)
    → All (IsAnswer count success) answers
    → IsOneLine s
    → length s < count
    → nocase_eq s success ≡ false
    → length answers < fuel
    → skip_answers fuel false count success mem
        (record { bytes = sent_lines answers (s ++ 10 ∷ rest); failing = failing })
      ≡ some (s, record { bytes = rest; failing = failing })
skip_answers_lem zero count success mem answers s rest failing all one short other h = elim h [ ]
skip_answers_lem (suc fuel) count success mem [] s rest failing all one short other h =
    take_other fuel count success mem s rest failing one short other
skip_answers_lem (suc fuel) count success mem (a ∷ answers) s rest failing all one short other h =
    rw (skip_answer fuel count success mem a (sent_lines answers (s ++ 10 ∷ rest)) failing all.0) (
      skip_answers_lem fuel count success (overlay (a ++ 0 ∷ []) mem) answers s rest failing all.1
        one short other (omega arith))

-- A failed read at the end of the input leaves an empty string.
skip_end :
    (fuel count : ℕ) (terminate failing : Bool) (success mem : Text)
    → success ≢ []
    → skip_answers (suc fuel) terminate count success mem (record { bytes = []; failing = failing })
      ≡ some ([], record { bytes = []; failing = failing })
unfolding skip_answers readline nocase_eq
skip_end fuel count terminate failing [] mem h = absurd (h refl)
skip_end fuel count terminate failing (c ∷ s) mem h = refl

-- One more round after a failed read is enough.
skip_closed :
    (fuel count : ℕ) (terminate : Bool) (success mem : Text) (fd : Input) (rc : ℤ)
    → success ≢ []
    → readline terminate count fd ≡ closed rc
    → (s : Text) × (fd' : Input) × (skip_answers (suc (suc fuel)) terminate count success mem fd
        ≡ some (s, fd'))
unfolding skip_answers
skip_closed fuel count terminate success mem fd rc h e =
    let left = unfinished fd.bytes mem in
    elim (Bool-cases (nocase_eq (c_string left) success)) [
      | inl same ↦ (
        [],
        record fd { bytes = [] },
        rw (skip_answers, e, same) (skip_end fuel count terminate fd.failing success left h),
      )
      | inr other ↦ (c_string left, record fd { bytes = [] }, rw (skip_answers, e, other))
    ]

-- The wait for an answer that is not empty comes to an end, if the rounds are two more than the
-- bytes that the server sends.
pub skip_answers_total :
    (fuel count : ℕ) (terminate : Bool) (success mem : Text) (fd : Input)
    → success ≢ []
    → length fd.bytes + 1 < fuel
    → (s : Text) × (fd' : Input) × (skip_answers fuel terminate count success mem fd
        ≡ some (s, fd'))
unfolding skip_answers
skip_answers_total zero count terminate success mem fd h enough = elim enough [ ]
skip_answers_total (suc zero) count terminate success mem fd h enough = absurd (omega arith)
skip_answers_total (suc (suc fuel)) count terminate success mem fd h enough =
    elim (Line-cases (readline terminate count fd)) [
      | inl (rc, e) ↦ skip_closed fuel count terminate success mem fd rc h e
      | inr (s, rest, e) ↦ elim (Bool-cases (nocase_eq s success)) [
        | inl same ↦
            let (t, fd', ih) =
              skip_answers_total (suc fuel) count terminate success (overlay (s ++ 0 ∷ []) mem)
                (record fd { bytes = rest }) h
                (omega (arith, readline_progress terminate count fd s rest e)) in
            (t, fd', rw (skip_answers, e, same) ih)
        | inr other ↦ (s, record fd { bytes = rest }, rw (skip_answers, e, other))
      ]
    ]
