-- ===== src/Daemon/Loop.antt =====
-- The signal handler, `loop` and the main loop of src/ABased.c. What the system does is a list of
-- turns: the result of each `select`, and the signals that have come until it returns. The functions
-- of a module and the descriptors that it watches stay the same.
use audiobase.Common.{
  ℕ, zero, suc, [], ◌∷◌, List, Bool, true, false, ◌||◌, Option, none, some, ◌==◌, if◌then◌else◌, ℤ,
  pos, negsuc, ltb_ℤ,
}
use audiobase.Bus.{◌>>=◌, Handler, Mod, Core, mod_query, mod_update, mod_reload, exec_all}

-- SIGHUP, SIGINT and SIGTERM of Linux
abbrev pub sighup : ℕ
sighup = 1

abbrev pub sigint : ℕ
sigint = 2

abbrev pub sigterm : ℕ
sigterm = 15

pub data Select : Type 0 where
  interrupted failed timed_out : Select
  ready : List ℕ → Select

pub record Turn : Type 0 where
  pub signals : List ℕ
  pub select : Select

-- The core with the flag `terminate`; the flag `reload` is `reloading`.
pub record Daemon (W : Type 0) : Type 0 where
  pub terminate : Bool
  pub core : Core W

-- How `loop` ends: with its result and the turns that are left, or not within the turns.
pub data LoopEnd (W : Type 0) : Type 0 where
  returned : ℤ → List Turn → Daemon W → LoopEnd W
  waiting : Daemon W → LoopEnd W

abbrev pub is_set : ℕ → List ℕ → Bool
is_set fd [] = false
is_set fd (n ∷ ns) = n == fd || is_set fd ns

module _ {W : Type 0} where
  unfoldable pub sighandler : ℕ → Daemon W → Daemon W
  sighandler signal d =
      if signal == sigterm || signal == sigint
      then record d { terminate = true }
      else if signal == sighup
      then record d { core = record d.core { reloading = true } }
      else d

  unfoldable pub take_signals : List ℕ → Daemon W → Daemon W
  take_signals [] d = d
  take_signals (s ∷ ss) d = take_signals ss (sighandler s d)

  -- The poll functions of the modules that watch a descriptor.
  abbrev pub polls : ℕ → List (Mod W) → List (Option (Handler W))
  polls fd [] = []
  polls fd (m ∷ ms) =
      elim m.poll [ none ↦ none | some f ↦ if is_set fd m.watchfd_set then some (f fd) else none ]
      ∷ polls fd ms

  -- The descriptors with input, from the lowest on.
  unfoldable pub poll_all : ℕ → List ℕ → Core W → Option (Core W)
  poll_all depth [] c = some c
  poll_all depth (fd ∷ fds) c =
      exec_all (mod_query depth) (polls fd c.mod_list) c >>= poll_all depth fds

  unfoldable pub handle_input : ℕ → Select → Core W → Option (Core W)
  handle_input depth interrupted c = some c
  handle_input depth failed c = some c
  handle_input depth timed_out c = some c
  handle_input depth (ready fds) c = poll_all depth fds c

  -- Input is handled, the messages are dispersed and the modules are updated; `rounds` and `depth`
  -- are those of `mod_update`.
  unfoldable pub work : ℕ → ℕ → Select → Daemon W → Option (Daemon W)
  work rounds depth select d = handle_input depth select d.core >>= mod_update rounds depth >>= λ c.
      some (record d { core = c })

  -- `none` means that a round of `work` exceeds its fuel. `continue` goes to the test `rc >= 0`,
  -- which holds.
  unfoldable pub loop : ℕ → ℕ → List Turn → Daemon W → Option (LoopEnd W)
  loop rounds depth [] d = some (waiting d)
  loop rounds depth (t ∷ ts) d =
      let e = take_signals t.signals d in
      let on = work rounds depth t.select e >>= loop rounds depth ts in
      let again = loop rounds depth ts e in
      if e.terminate || e.core.reloading then some (returned (pos 0) ts e) else elim t.select [
        | interrupted ↦ again
        | failed ↦ some (returned (negsuc 0) ts e)
        | timed_out ↦ on
        | ready fds ↦ on
      ]

  -- `config_reload` changes what the modules keep.
  unfoldable pub reload_step : ℕ → (W → W) → Daemon W → Option (Daemon W)
  reload_step depth config_reload d =
      if d.core.reloading
      then (mod_reload depth (record d.core { world = config_reload d.core.world }) >>= λ c.
          some (record d { core = record c { reloading = false } }))
      else some d

  -- `do … while (!terminate && rc >= 0)`, at most `laps` times; `none` also if these are used up.
  unfoldable pub main_loop : ℕ → ℕ → ℕ → (W → W) → List Turn → Daemon W → Option (LoopEnd W)
  main_loop zero rounds depth config_reload ts d = none
  main_loop (suc laps) rounds depth config_reload ts d = loop rounds depth ts d >>= λ end.
      elim end [
        | waiting e ↦ some (waiting e)
        | returned rc ts' e ↦ reload_step depth config_reload e >>= λ f.
            let more = main_loop laps rounds depth config_reload ts' f in
            if f.terminate || ltb_ℤ rc (pos 0) then some (returned rc ts' f) else more
      ]
