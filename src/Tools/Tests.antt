-- ===== src/Tools/Tests.antt =====
-- Tests of reading lines and trimming (src/ABasetools.c), and the theorems at concrete inputs.
use mathlib.Core.List.{cons-ne-nil}
use audiobase.Common.{◌<◌, [], ◌∷◌, ◌++◌, true, false, some, ◌≡◌, refl, arith, All, length}
use audiobase.Text.{Text, codes, nocase_eq, to_lower}
use audiobase.Tools.{Input, line, readline, terminator, freadtrimedline, is_blank, trim}
use audiobase.Tools.Lines.{readline_overrun, readline_progress}
use audiobase.Tools.Readline.{skip_answers}
use audiobase.Tools.Answers.{sent_lines, skip_answers_lem}
use audiobase.Tools.Blanks.{IsTrimmed, trim_lem}

abbrev input : Input
input = record { bytes = codes "ab\ncd"; failing = false }

-- A line is cut at the end of the buffer, and its rest is the next line.
cut_line :
    readline false 3 (record { bytes = codes "abcdef\n"; failing = false })
    ≡ line (codes "abc") (codes "def\n")
unfolding readline
cut_line = refl

-- A carriage return and a line feed give two lines, the second one empty.
two_ends : readline false 9 (record { bytes = codes "\ncd"; failing = true }) ≡ line [] (codes "cd")
unfolding readline
two_ends = refl

-- Of CR LF the LF stays, though both are to be removed.
trimmed_line :
    freadtrimedline false 9 (b' ' ∷ b'a' ∷ b' ' ∷ 13 ∷ 10 ∷ b'b' ∷ [])
    ≡ line (codes "a") (10 ∷ b'b' ∷ [])
unfolding freadtrimedline
trimmed_line = refl

readline_overrun_example :
    (readline false
        (length (codes "abcd"))
        (record { bytes = codes "abcd" ++ codes "ef\n"; failing = false })
      ≡ line (codes "abcd") (codes "ef\n"))
    × (terminator (
          readline false
            (length (codes "abcd"))
            (record { bytes = codes "abcd" ++ codes "ef\n"; failing = false }))
        ≡ some (length (codes "abcd")))
readline_overrun_example =
    readline_overrun (codes "abcd") (codes "ef\n") false (refl, (refl, (refl, (refl, tt))))
      (cons-ne-nil b'a' (codes "bcd"))

readline_progress_example : length (codes "cd") < length input.bytes
readline_progress_example =
    readline_progress false 9 input (codes "ab") (codes "cd") (unfold readline in refl)

trim_lem_example :
    (p : Text) × (q : Text) × All (λ c. is_blank c ≡ true) p
    × All (λ c. is_blank c ≡ true) q
    × (codes "  a b " ≡ p ++ (trim (codes "  a b ") ++ q))
    × IsTrimmed (trim (codes "  a b "))
trim_lem_example = trim_lem (codes "  a b ")

-- The key that the server reports is taken as the answer.
skip_answers_lem_example :
    skip_answers 2 false 255 (codes "success") [] (record {
      bytes = sent_lines (codes "success" ∷ []) (codes "key A" ++ 10 ∷ codes "success");
      failing = false;
    })
    ≡ some (codes "key A", record { bytes = codes "success"; failing = false })
unfolding nocase_eq to_lower
skip_answers_lem_example =
    skip_answers_lem 2 255 (codes "success") [] (codes "success" ∷ []) (codes "key A")
      (codes "success") false
      (((refl, (refl, (refl, (refl, (refl, (refl, (refl, tt))))))), omega arith, refl), tt)
      (refl, (refl, (refl, (refl, (refl, tt))))) (omega arith) refl (omega arith)
