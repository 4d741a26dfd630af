-- ===== src/Remote/Poll.antt =====
-- The functions of src/mod_lirc.c. What lirc_client gives is an argument.
use audiobase.Common.{[], ◌∷◌, List, Option, none, some, if◌then◌else◌, ℕ, ℤ, pos, eqb_ℤ}
use audiobase.Text.{Text, codes}
use audiobase.Bus.{Handler, done, send, Mod, Core, mod_register}
use audiobase.Bus.Msgtype
use audiobase.Config.{Config, config_getstr}

-- `mod_lirc_fdset`, `mod_lirc_prog` and `mod_lirc_irconfig`, which is `none` while it points to
-- nothing, or to what has been freed.
pub record Lirc (C : Type 0) : Type 0 where
  pub fdset : List ℕ
  pub prog : Text
  pub irconfig : Option C

-- What `lirc_nextcode` gives: a failure, or a code with what `lirc_code2char` answers to it, one
-- time after the other.
pub data NextCode : Type 0 where
  died : NextCode
  code : List (ℤ × Option Text) → NextCode

-- What lirc_client offers: to connect, and to read its configuration.
pub record LircClient (C : Type 0) : Type 0 where
  pub lirc_init : Text → Option ℕ
  pub lirc_readconfig : Option Text → Option C

abbrev pub prog_name : Option Text → Text
prog_name none = codes "abase"
prog_name (some s) = s

module _ {W : Type 0} where
  abbrev pub send_first : Text → Option (Handler W) → Option (Handler W)
  send_first command none = none
  send_first command (some h) = some (send Msgtype.input command h)

  -- The while loop; `none` means that the answers do not end it.
  unfoldable pub send_commands : List (ℤ × Option Text) → Option (Handler W)
  send_commands [] = none
  send_commands ((rc, none) ∷ answers) = some done
  send_commands ((rc, some command) ∷ answers) =
      let more = send_first command (send_commands answers) in
      if eqb_ℤ rc (pos 0) then more else some done

module _ {C W : Type 0} where
  -- `none` also means that a configuration is used that is not there.
  unfoldable pub mod_lirc_poll : NextCode → Lirc C → Option (Handler W × Lirc C)
  unfolding send_commands
  mod_lirc_poll died l = some (done, record l { fdset = [] })
  mod_lirc_poll (code answers) l = elim l.irconfig [
    | none ↦ none
    | some c ↦ elim (send_commands answers) [ none ↦ none | some h ↦ some (h, l) ]
  ]

  -- The result is an error or nothing; `newmod` is the entry that is registered.
  unfoldable pub mod_lirc_init :
      Config → LircClient C → Mod W → Lirc C → Core W → Option Text × Lirc C × Core W
  mod_lirc_init config client newmod l c =
      let prog = prog_name (config_getstr config (codes "lirc_prog_name") none) in
      elim (client.lirc_init prog) [
        | none ↦ (some (codes "Unable to connect to LIRC"), record l { fdset = []; prog = prog }, c)
        | some fd ↦
            elim (client.lirc_readconfig (config_getstr config (codes "lirc_config") none)) [
              | none ↦ (
                some (codes "Unable to read LIRC config"),
                record l { fdset = []; prog = prog },
                c,
              )
              | some irconfig ↦ (
                none,
                record { fdset = fd ∷ []; prog = prog; irconfig = some irconfig },
                mod_register c (record newmod { watchfd_set = fd ∷ [] }),
              )
            ]
      ]

module _ {C : Type 0} where
  unfoldable pub mod_lirc_deinit : Lirc C → Lirc C
  mod_lirc_deinit l = record l { fdset = []; irconfig = none }

  unfoldable pub mod_lirc_reload : Config → LircClient C → Lirc C → Lirc C
  mod_lirc_reload config client l = record l {
    irconfig = client.lirc_readconfig (config_getstr config (codes "lirc_config") none);
  }
