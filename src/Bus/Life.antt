-- ===== src/Bus/Life.antt =====
-- `mod_register`, `mod_reload`, `mod_deinit` and `mod_sigchld` of src/ABasemod.c.
use audiobase.Common.{ℕ, [], ◌∷◌, ◌++◌, List, Option, none, some, ℤ}
use audiobase.Bus.Handlers.{Handler, Mod, Core}
use audiobase.Bus.Queue.{◌>>=◌, mod_query, exec_all}

module _ {W : Type 0} where
  -- A new module goes to the end of the list.
  unfoldable pub mod_register : Core W → Mod W → Core W
  mod_register c newmod = record c { mod_list = c.mod_list ++ newmod ∷ [] }

  abbrev pub reloads : List (Mod W) → List (Option (Handler W))
  reloads [] = []
  reloads (m ∷ ms) = m.reload ∷ reloads ms

  abbrev pub deinits : List (Mod W) → List (Option (Handler W))
  deinits [] = []
  deinits (m ∷ ms) = m.deinit ∷ deinits ms

  unfoldable pub mod_reload : ℕ → Core W → Option (Core W)
  mod_reload depth c = exec_all (mod_query depth) (reloads c.mod_list) c

  unfoldable pub mod_deinit : ℕ → Core W → Option (Core W)
  mod_deinit depth c =
      exec_all (mod_query depth) (deinits c.mod_list) c >>= λ c'. some (record c' { mod_list = [] })

  abbrev pub children : ℤ → ℤ → List (Mod W) → List (Option (Handler W))
  children pid status [] = []
  children pid status (m ∷ ms) =
      elim m.chld [ none ↦ none | some f ↦ some (f pid status) ] ∷ children pid status ms

  -- `wait` has given the process and its status.
  unfoldable pub mod_sigchld : ℕ → ℤ → ℤ → Core W → Option (Core W)
  mod_sigchld depth pid status c = exec_all (mod_query depth) (children pid status c.mod_list) c
