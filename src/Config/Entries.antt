-- ===== src/Config/Entries.antt =====
-- The global list `config_list` of src/ABaseconfig.c and the operations on it.
use audiobase.Common.{[], ◌∷◌, List, Bool, true, false, Option, none, some, if◌then◌else◌, ℤ}
use audiobase.Text.{Text, nocase_eq, strtol_any}

pub record Entry : Type 0 where
  pub key : Text
  pub value : Text

abbrev pub Config : Type 0
Config = List Entry

-- `none` is NULL, as a default value and as a result.
unfoldable pub config_getstr : Config → Text → Option Text → Option Text
config_getstr [] key default = default
config_getstr (ent ∷ config) key default =
    if nocase_eq ent.key key then some ent.value else config_getstr config key default

unfoldable pub config_getnum : Config → Text → ℤ → ℤ
unfolding config_getstr
config_getnum config key default = elim (config_getstr config key none) [
  | some s ↦ strtol_any s
  | none ↦ default
]

unfoldable pub config_add : Config → Text → Text → Config
config_add config key value = record { key = key; value = value } ∷ config

unfoldable pub config_free : Config → Config
config_free config = []

-- The first entry of that key is unlinked; the result says whether there was one.
unfoldable pub config_remove : Config → Text → Config × Bool
config_remove [] key = ([], false)
config_remove (ent ∷ config) key =
    let rest = config_remove config key in
    if nocase_eq ent.key key then (config, true) else (ent ∷ rest.0, rest.1)

-- `smart_remove` of src/ABaseconf.c takes two entries of the key away.
unfoldable pub smart_remove : Config → Text → Config
unfolding config_remove
smart_remove config key = (config_remove (config_remove config key).0 key).0
