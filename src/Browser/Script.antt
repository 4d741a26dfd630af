-- ===== src/Browser/Script.antt =====
-- `mod_browser_script`, `mod_browser_sigchld` and `mod_browser_execute` of src/mod_browser.c. The
-- shell and what it does are arguments: the deaths of children that the core reports, and the
-- message file that a script leaves.
use audiobase.Common.{
  ℕ, zero, suc, [], ◌∷◌, ◌++◌, List, Bool, true, false, Option, none, some, if◌then◌else◌, length,
  ℤ, pos, negsuc, eqb_ℤ,
}
use audiobase.Text.{Text, codes, snprintf}
use audiobase.Tools.{Input, line, closed, readline}
use audiobase.Bus.Msgtype
use audiobase.Browser.Message.{Action, send_message}

-- `mod_browser_chld_pid`, `mod_browser_chld_status` and `mod_browser_chld_exited`
pub record Child : Type 0 where
  pub pid : ℤ
  pub status : ℤ
  pub exited : Bool

unfoldable pub mod_browser_sigchld : ℤ → ℤ → Child → Child
mod_browser_sigchld childpid status child =
    if eqb_ℤ child.pid childpid then record child { status = status; exited = true } else child

-- `do usleep(50000); while (!mod_browser_chld_exited)`: the children that die meanwhile, with what
-- they return. `none` means that the loop still waits.
unfoldable pub wait_child : List (ℤ × ℤ) → Child → Option Child
unfolding mod_browser_sigchld
wait_child [] child = if child.exited then some child else none
wait_child ((pid, status) ∷ deaths) child =
    let waited = wait_child deaths (mod_browser_sigchld pid status child) in
    if child.exited then some child else waited

-- `fork` gives the child's number, or -1.
unfoldable pub mod_browser_script : ℤ → List (ℤ × ℤ) → Child → Option (ℤ × Child)
unfolding wait_child
mod_browser_script pid deaths child =
    if eqb_ℤ pid (negsuc 0)
    then some (negsuc 0, child)
    else elim (wait_child deaths (record child { pid = pid; exited = false })) [
      | none ↦ none
      | some child' ↦ some (child'.status, child')
    ]

abbrev pub info_text : Text → Action
info_text s = send_message Msgtype.info (snprintf 1023 (codes "browser info " ++ s))

-- `while (readline(fd, buf, sizeof(buf)) >= 0)`
unfoldable pub read_commands : ℕ → Bool → Input → Option (List Action)
read_commands zero terminate fd = none
read_commands (suc fuel) terminate fd = elim (readline terminate 512 fd) [
  | closed rc ↦ some []
  | line s rest ↦ elim (read_commands fuel terminate (record fd { bytes = rest })) [
    | none ↦ none
    | some actions ↦ some (send_message Msgtype.input (snprintf 1023 s) ∷ actions)
  ]
]

-- The first line is shown, and the others are commands; each takes a byte at least, so that the
-- number of bytes is enough rounds.
unfoldable pub read_messages : Bool → Input → Option (List Action)
unfolding read_commands
read_messages terminate fd = elim (readline terminate 512 fd) [
  | closed rc ↦ read_commands 1 terminate (record fd { bytes = [] })
  | line s rest ↦ elim (read_commands (suc (length rest)) terminate (record fd { bytes = rest })) [
    | none ↦ none
    | some actions ↦ some (info_text s ∷ actions)
  ]
]

-- What is sent when the script has ended with a status, and its message file can be opened or not.
unfoldable pub report : Bool → ℤ → Option Input → Option (List Action)
unfolding read_messages
report terminate status file =
    if eqb_ℤ status (pos 0)
    then elim file [
      | none ↦ some (info_text (codes "Done") ∷ [])
      | some fd ↦ read_messages terminate fd
    ]
    else some (info_text (codes "Error") ∷ [])

-- The message file is cleared before the script is started, with the number that `fork` gives.
unfoldable pub mod_browser_execute :
    Bool → ℤ → List (ℤ × ℤ) → Option Input → Child → Option (List Action × Child)
unfolding mod_browser_script report
mod_browser_execute terminate pid deaths file child = elim (mod_browser_script pid deaths child) [
  | none ↦ none
  | some (status, child') ↦ elim (report terminate status file) [
    | none ↦ none
    | some actions ↦ some (actions, child')
  ]
]
