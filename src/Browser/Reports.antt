-- ===== src/Browser/Reports.antt =====
-- What a script of the browser reports (`mod_browser_execute` of src/mod_browser.c).
use audiobase.Common.{
  ℕ, zero, suc, ◌+◌, ◌<◌, [], ◌∷◌, ◌++◌, List, true, false, some, ◌≡◌, refl, arith, All, take_self,
  length, length-append, ℤ, pos, negsuc, eqb_ℤ, pos_part, neg_part, ==-self,
}
use audiobase.Text.{Text, codes}
use audiobase.Bus.Msgtype
use audiobase.Tools.Lines.{IsOneLine, readline_line, readline_unfinished}
use audiobase.Tools.Answers.{sent_lines}
use audiobase.Browser.Message.{Action, send_message}
use audiobase.Browser.Script.{
  Child, mod_browser_sigchld, wait_child, mod_browser_script, read_commands, read_messages, report,
  mod_browser_execute,
}

eqb_ℤ-same : (a : ℤ) → eqb_ℤ a a ≡ true
eqb_ℤ-same a = ==-self (pos_part a + neg_part a)

-- A line that fits into the buffer.
abbrev pub IsShortLine : Text → Type 0
IsShortLine s = (IsOneLine s) × (length s < 512)

abbrev pub commands : List Text → List Action
commands [] = []
commands (s ∷ lines) = send_message Msgtype.input s ∷ commands lines

read_commands-lines :
    (fuel : ℕ) (lines : List Text) (last : Text)
    → All IsShortLine lines
    → IsShortLine last
    → length (sent_lines lines last) < fuel
    → read_commands fuel false (record { bytes = sent_lines lines last; failing = false })
      ≡ some (commands lines)
unfolding read_commands
read_commands-lines zero lines last short (one, fits) h = elim h [ ]
read_commands-lines (suc fuel) [] last short (one, fits) h =
    rw (read_commands, readline_unfinished 512 last one fits) refl
read_commands-lines (suc fuel) (s ∷ lines) last ((one, fits), short) end h =
    let less = length-append s (10 ∷ sent_lines lines last) in
    rw
      (
        read_commands,
        readline_line 512 s 10 (sent_lines lines last) false one refl fits,
        read_commands-lines fuel lines last short end (omega arith),
        take_self 1022 s (omega arith),
      )
      refl

-- The loop waits until the script ends, whatever other children end before.
wait_child-others :
    (pid before status : ℤ) (others more : List (ℤ × ℤ))
    → All (λ d. eqb_ℤ pid d.0 ≡ false) others
    → wait_child
        (others ++ (pid, status) ∷ more)
        (record { pid = pid; status = before; exited = false })
      ≡ some (record { pid = pid; status = status; exited = true })
unfolding wait_child mod_browser_sigchld
wait_child-others pid before status [] [] other = rw (eqb_ℤ-same pid, mod_browser_sigchld) refl
wait_child-others pid before status [] (d ∷ more) other =
    rw (eqb_ℤ-same pid, mod_browser_sigchld) refl
wait_child-others pid before status ((p, t) ∷ others) more (other, rest) =
    rw (other, mod_browser_sigchld) (wait_child-others pid before status others more rest)

script_ends :
    (pid : ℤ) (others more : List (ℤ × ℤ)) (child : Child)
    → eqb_ℤ pid (negsuc 0) ≡ false
    → All (λ d. eqb_ℤ pid d.0 ≡ false) others
    → mod_browser_script pid (others ++ (pid, pos 0) ∷ more) child
      ≡ some (pos 0, record { pid = pid; status = pos 0; exited = true })
unfolding mod_browser_script
script_ends pid others more child forked other =
    rw (mod_browser_script, forked, wait_child-others pid child.status (pos 0) others more other)
      refl

report-lines :
    (s : Text) (lines : List Text) (last : Text)
    → All IsShortLine (s ∷ lines)
    → IsShortLine last
    → report false (pos 0) (some (record { bytes = sent_lines (s ∷ lines) last; failing = false }))
      ≡ some (send_message Msgtype.info (codes "browser info " ++ s) ∷ commands lines)
unfolding report read_messages
report-lines s lines last ((one, fits), short) end =
    let bytes = sent_lines lines last in
    rw
      (
        read_messages,
        readline_line 512 s 10 bytes false one refl fits,
        read_commands-lines (suc (length bytes)) lines last short end (omega arith),
        take_self 1022 (codes "browser info " ++ s)
            (omega (arith, length-append (codes "browser info ") s)),
      )
      refl

-- If `fork` gives a child, and that child ends with the status 0, whatever other children end
-- before, and its message file has lines that fit into the buffer, then the first line is sent as
-- what is to be shown and each line behind it as an input, in their order. What stands behind the
-- last end of a line is dropped.
pub mod_browser_execute-messages :
    (pid : ℤ) (others more : List (ℤ × ℤ)) (s : Text) (lines : List Text) (last : Text)
    (child : Child)
    → eqb_ℤ pid (negsuc 0) ≡ false
    → All (λ d. eqb_ℤ pid d.0 ≡ false) others
    → All IsShortLine (s ∷ lines)
    → IsShortLine last
    → mod_browser_execute false pid
        (others ++ (pid, pos 0) ∷ more)
        (some (record { bytes = sent_lines (s ∷ lines) last; failing = false }))
        child
      ≡ some (
        send_message Msgtype.info (codes "browser info " ++ s) ∷ commands lines,
        record { pid = pid; status = pos 0; exited = true },
      )
unfolding mod_browser_execute
mod_browser_execute-messages pid others more s lines last child forked other short end =
    rw
      (
        mod_browser_execute,
        script_ends pid others more child forked other,
        report-lines s lines last short end,
      )
      refl
