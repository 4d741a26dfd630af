-- ===== src/Daemon/Options.antt =====
-- The options of the command line in `main` of src/ABased.c, and the words of the program that it
-- executes at the end. What `getopt` finds is a list of options with their arguments.
use audiobase.Common.{
  ℕ, zero, suc, [], ◌∷◌, ◌++◌, List, Bool, true, false, Option, none, some, ltb, ◌==◌,
  if◌then◌else◌, length, ℤ, pos, ◌+ℤ◌, ◌-ℤ◌,
}
use audiobase.Text.{Text, codes, strtok}

-- The locals of `main` that the options set. `daemonize` is a global.
pub record Options : Type 0 where
  pub loglevel : ℤ
  pub logfile : Text
  pub configfile : Text
  pub daemonize : Bool
  pub command_line_message : List Text
  pub welcome_message : Option Text

-- LOG_NORMAL of src/ABaselog.h; CONFFILE comes from the build.
abbrev pub log_normal : ℤ
log_normal = pos 2

abbrev pub default_options : Text → Options
default_options conffile = record {
  loglevel = log_normal;
  logfile = codes "ABase.log";
  configfile = conffile;
  daemonize = true;
  command_line_message = [];
  welcome_message = none;
}

-- COMMANDLINE_MESSAGE_MAX
abbrev pub commandline_message_max : ℕ
commandline_message_max = 64

-- One option with its argument; `none` prints the usage and fails. An option that is not known is
-- b'?'.
unfoldable pub take_option : ℕ → Text → Options → Option Options
take_option c optarg o =
    if c == b'q'
    then some (record o { loglevel = o.loglevel -ℤ pos 1 })
    else if c == b'v'
    then some (record o { loglevel = o.loglevel +ℤ pos 1 })
    else if c == b'l'
    then some (record o { logfile = optarg })
    else if c == b'f'
    then some (record o { daemonize = false })
    else if c == b'c'
    then some (record o { configfile = optarg })
    else if c == b'm'
    then some (
        if ltb (length o.command_line_message) commandline_message_max
        then record o { command_line_message = o.command_line_message ++ optarg ∷ [] }
        else o)
    else if c == b'w'
    then some (record o { welcome_message = some optarg })
    else none

-- The while loop.
unfoldable pub take_options : List (ℕ × Text) → Options → Option Options
take_options [] o = some o
take_options ((c, optarg) ∷ opts) o = elim (take_option c optarg o) [
  | none ↦ none
  | some o' ↦ take_options opts o'
]

-- `optind < argc`: words that are no options are refused.
unfoldable pub parse_options : List (ℕ × Text) → Bool → Options → Option Options
parse_options opts more_words o = elim (take_options opts o) [
  | none ↦ none
  | some o' ↦ if more_words then none else some o'
]

-- The tokens of a string; each takes a byte at least, so that its length is enough rounds.
unfoldable pub tokens : ℕ → Text → Text → List Text
tokens zero delims s = []
tokens (suc fuel) delims s = elim (strtok delims s) [
  | none ↦ []
  | some (t, rest) ↦ t ∷ tokens fuel delims rest
]

unfoldable pub all_tokens : Text → Text → List Text
all_tokens delims s = tokens (suc (length s)) delims s

-- The words of `exec_on_close` and a null pointer behind them go to `execargs`, an array of 48;
-- `none` means that it is too short.
unfoldable pub exec_args : Text → Option (List Text)
exec_args execcmd =
    let words = all_tokens (codes " ") execcmd in if ltb (length words) 48 then some words else none
