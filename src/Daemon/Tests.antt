-- ===== src/Daemon/Tests.antt =====
-- Tests of the main program (src/ABased.c), and the theorems at concrete inputs.
use audiobase.Common.{ℕ, ◌+◌, [], ◌∷◌, List, true, false, none, some, ◌≡◌, refl, ◌+ℤ◌, pos}
use audiobase.Text.{Text, codes, strtok}
use audiobase.Bus.{◌>>=◌, Core, Mod, done, change, mod_reload, mod_update, exec}
use audiobase.Config.{Config}
use audiobase.Daemon.Options.{
  Options, default_options, take_option, take_options, exec_args, all_tokens, tokens,
}
use audiobase.Daemon.Loop.{
  Turn, Daemon, returned, ready, sigterm, sigint, sighup, main_loop, loop, work, take_signals,
  sighandler, poll_all, handle_input, reload_step,
}
use audiobase.Daemon.Ends.{IsEnd, main_loop_ends, main_loop_terminates, main_loop_reloads}

-- A module that watches descriptor 3 and counts what it reads, and the reloads ten times.
abbrev reader : Mod ℕ
reader = record {
  mod_name = codes "reader";
  deinit = none;
  reload = some (change (λ n. n + 10) done);
  watchfd_set = 3 ∷ [];
  poll = some (λ fd. change (λ n. n + 1) done);
  update = none;
  message = none;
  chld = none;
}

abbrev idle : Core ℕ
idle = record {
  mod_list = reader ∷ [];
  mod_msgs = [];
  answer_head = none;
  reloading = false;
  world = 0;
}

abbrev daemon : Daemon ℕ
daemon = record { terminate = false; core = idle }

abbrev turn : List ℕ → Turn
turn signals = record { signals = signals; select = ready (3 ∷ []) }

abbrev same : ℕ → ℕ
same n = n

-- Input, a hangup, input and the end: the input of the turns in which a signal comes is lost.
abbrev turns : List Turn
turns = turn [] ∷ turn (sighup ∷ []) ∷ turn [] ∷ turn (sigterm ∷ []) ∷ turn [] ∷ []

abbrev ended : Daemon ℕ
ended = record { terminate = true; core = record idle { world = 12 } }

runs : main_loop 3 1 1 same turns daemon ≡ some (returned (pos 0) (turn [] ∷ []) ended)
unfolding main_loop loop work take_signals sighandler poll_all handle_input reload_step mod_reload
    mod_update exec
runs = refl

main_loop_ends_example : IsEnd turns (turn [] ∷ []) (pos 0) ended
main_loop_ends_example =
    main_loop_ends 3 1 1 same turns (turn [] ∷ []) daemon ended (pos 0) refl runs

main_loop_terminates_example :
    main_loop 1 1 1 same (turn (sigint ∷ []) ∷ turn [] ∷ []) daemon
    ≡ some (returned (pos 0) (turn [] ∷ []) (record daemon { terminate = true }))
main_loop_terminates_example =
    main_loop_terminates 0 1 1 same (turn (sigint ∷ [])) (turn [] ∷ []) daemon refl refl refl

main_loop_reloads_example : main_loop 2 1 1 same (turn (sighup ∷ []) ∷ turn [] ∷ []) daemon ≡ (
    mod_reload 1 (record idle { reloading = true }) >>= λ c.
    main_loop 1 1 1 same (turn [] ∷ []) (record daemon { core = record c { reloading = false } }))
main_loop_reloads_example =
    main_loop_reloads 1 1 1 same (turn (sighup ∷ [])) (turn [] ∷ []) daemon refl refl refl

abbrev opts : List (ℕ × Text)
opts = (b'm', codes "play") ∷ (b'v', []) ∷ (b'm', codes "repeat on") ∷ []

abbrev options : Options
options = record (default_options (codes "conf")) {
  loglevel = pos 3;
  command_line_message = codes "play" ∷ codes "repeat on" ∷ [];
}

takes_options : take_options opts (default_options (codes "conf")) ≡ some options
unfolding take_options take_option ◌+ℤ◌
takes_options = refl

abbrev config : Config
config = record { key = codes "ABase_init_command"; value = codes "volume 50;random on" } ∷ []

words : exec_args (codes "halt  -p") ≡ some (codes "halt" ∷ codes "-p" ∷ [])
unfolding exec_args all_tokens tokens strtok
words = refl
