-- ===== src/Browser/Returns.antt =====
-- `mod_browser_message` of src/mod_browser.c returns, if the cursor is on an entry.
use audiobase.Common.{[], List, none, some, ◌≡◌}
use audiobase.Text.{Text}
use audiobase.State.{Browser}
use audiobase.Bus.Msgtype
use audiobase.Commands.{Start, ignored, command}
use audiobase.Browser.Message.{Action, Result}

-- A result that reads only what is allocated.
abbrev Returns : Result → Type 0
Returns r = (b' : Browser) × (actions : List Action) × (r ≡ some (b', actions))

-- After a condition without a command nothing is left to read.
abbrev IsNamed : Start → Type 0
IsNamed ignored = Unit {0}
IsNamed (command none rest) = rest ≡ []
IsNamed (command (some c) rest) = Unit {0}
