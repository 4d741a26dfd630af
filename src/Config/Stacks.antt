-- ===== src/Config/Stacks.antt =====
-- What the list of configuration entries is for: a stack of values for each key, without regard to
-- case. The operations of src/ABaseconfig.c implement those of the stacks.
use audiobase.Common.{
  [], ◌∷◌, List, Bool, true, false, Option, some, ◌≡◌, refl, ap, ◌∙◌, arith, if◌then◌else◌,
}
use audiobase.Text.{Text, nocase_eq, nocase_eq-congr, nocase_eq-sym}
use audiobase.Config.Entries.{
  Config, config_getstr, config_add, config_remove, config_free, smart_remove,
}

-- The values of a key, the last one first.
abbrev pub Stacks : Type 0
Stacks = Text → List Text

unfoldable pub stacks : Config → Stacks
stacks [] key = []
stacks (ent ∷ config) key =
    if nocase_eq ent.key key then ent.value ∷ stacks config key else stacks config key

abbrev pub tail : List Text → List Text
tail [] = []
tail (v ∷ vs) = vs

abbrev pub top : List Text → Option Text → Option Text
top [] default = default
top (v ∷ vs) default = some v

abbrev pub is_stacked : List Text → Bool
is_stacked [] = false
is_stacked (v ∷ vs) = true

-- The operations of the specification.
abbrev pub push : Text → Text → Stacks → Stacks
push key value s k = if nocase_eq key k then value ∷ s k else s k

abbrev pub pop : Text → Stacks → Stacks
pop key s k = if nocase_eq key k then tail (s k) else s k

abbrev pub empty : Stacks
empty k = []

getstr-stacks :
    (config : Config) (key : Text) (default : Option Text)
    → config_getstr config key default ≡ top (stacks config key) default
unfolding config_getstr stacks
getstr-stacks [] key default = refl
getstr-stacks (ent ∷ config) key default = ground (arith, getstr-stacks config key default)

remove-stacks :
    (config : Config) (key k : Text)
    → stacks (config_remove config key).0 k ≡ pop key (stacks config) k
unfolding config_remove stacks
remove-stacks [] key k = ground arith
remove-stacks (ent ∷ config) key k = ground (
  arith,
  remove-stacks config key k,
  nocase_eq-congr ent.key key k,
  nocase_eq-congr key k ent.key,
  nocase_eq-sym ent.key key,
  nocase_eq-sym key ent.key,
  nocase_eq-sym ent.key k,
  nocase_eq-sym k ent.key,
)

removed-stacks :
    (config : Config) (key : Text) → (config_remove config key).1 ≡ is_stacked (stacks config key)
unfolding config_remove stacks
removed-stacks [] key = refl
removed-stacks (ent ∷ config) key = ground (arith, removed-stacks config key)

smart-stacks :
    (config : Config) (key k : Text)
    → stacks (smart_remove config key) k ≡ pop key (pop key (stacks config)) k
unfolding smart_remove
smart-stacks config key k =
    let once = remove-stacks config key k in
    remove-stacks (config_remove config key).0 key k
    ∙ ap (λ l. if nocase_eq key k then tail l else l) once

-- The list of entries implements a stack of values for each key, where keys that differ in case
-- only are the same: a lookup gives the top of the stack of its key or the default value, adding
-- pushes a value there, removing pops one and says whether there was one, the generator's removal
-- pops two, and freeing leaves all stacks empty. The other stacks are left alone.
pub config_refines :
    (config : Config) (key value k : Text) (default : Option Text)
    → (config_getstr config k default ≡ top (stacks config k) default)
      × (stacks (config_add config key value) k ≡ push key value (stacks config) k)
      × (stacks (config_remove config key).0 k ≡ pop key (stacks config) k)
      × ((config_remove config key).1 ≡ is_stacked (stacks config key))
      × (stacks (smart_remove config key) k ≡ pop key (pop key (stacks config)) k)
      × (stacks (config_free config) k ≡ empty k)
unfolding config_add config_free smart_remove stacks
config_refines config key value k default = (
  getstr-stacks config k default,
  refl,
  remove-stacks config key k,
  removed-stacks config key,
  smart-stacks config key k,
  refl,
)
