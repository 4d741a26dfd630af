-- ===== src/Daemon/Startup.antt =====
-- The messages that `main` of src/ABased.c sends before the main loop.
use audiobase.Common.{[], ◌∷◌, ◌++◌, List, Option, none, some}
use audiobase.Text.{Text, codes, snprintf}
use audiobase.Bus.{◌>>=◌, Query, Core, mod_sendmsg}
use audiobase.Bus.Msgtype
use audiobase.Config.{Config, config_getstr}
use audiobase.Daemon.Options.{Options, all_tokens}

-- The commands in the configuration are separated by `;`. That the text of the entry is cut and freed
-- there is left out.
unfoldable pub config_commands : Config → List Text
config_commands config = elim (config_getstr config (codes "ABase_init_command") none) [
  | none ↦ []
  | some s ↦ all_tokens (codes ";") s
]

module _ {W : Type 0} (query : Query W) where
  -- Inputs, in their order.
  unfoldable pub send_inputs : List Text → Core W → Option (Core W)
  send_inputs [] c = some c
  send_inputs (m ∷ ms) c = mod_sendmsg query Msgtype.input m c >>= send_inputs ms

  -- `mod_sendmsgf(MSGTYPE_INFO, "welcome %s", …)`
  unfoldable pub send_welcome : Option Text → Core W → Option (Core W)
  send_welcome none c = some c
  send_welcome (some text) c =
      mod_sendmsg query Msgtype.info (snprintf 1023 (codes "welcome " ++ text)) c

  -- The welcome message, the commands of the configuration, and those of the command line.
  unfoldable pub startup : Options → Config → Core W → Option (Core W)
  startup o config c =
      send_welcome o.welcome_message c
      >>= send_inputs (config_commands config)
      >>= send_inputs o.command_line_message
