-- ===== src/Config/Lookup.antt =====
-- How looking up, adding and removing keys go together (src/ABaseconfig.c).
use audiobase.Common.{
  ℕ, suc, ◌-◌, [], ◌∷◌, Bool, true, false, Option, some, if◌then◌else◌, ◌≡◌, refl, arith,
}
use audiobase.Text.{Text, nocase_eq, nocase_eq-congr, nocase_eq-sym, nocase_eq_trans}
use audiobase.Config.Entries.{Config, config_getstr, config_add, config_remove, smart_remove}

-- The newest entry of a key wins, whatever the case of its letters; the other keys keep theirs.
getstr-add :
    (config : Config) (key value k : Text) (default : Option Text)
    → config_getstr (config_add config key value) k default
      ≡ (if nocase_eq key k then some value else config_getstr config k default)
unfolding config_getstr config_add
getstr-add config key value k default = refl

-- Two keys that differ in the case of letters only are looked up to the same value.
getstr-nocase :
    (config : Config) (j k : Text) (default : Option Text)
    → nocase_eq j k ≡ true
    → config_getstr config j default ≡ config_getstr config k default
unfolding config_getstr
getstr-nocase [] j k default h = refl
getstr-nocase (ent ∷ config) j k default h = ground (
  arith,
  getstr-nocase config j k default h,
  nocase_eq_trans ent.key j k,
  nocase_eq_trans ent.key k j,
  nocase_eq-sym j k h,
)

-- Whether a key is there.
abbrev has_key : Config → Text → Bool
has_key [] k = false
has_key (ent ∷ config) k = if nocase_eq ent.key k then true else has_key config k

abbrev occurrences : Config → Text → ℕ
occurrences [] k = 0
occurrences (ent ∷ config) k =
    if nocase_eq ent.key k then suc (occurrences config k) else occurrences config k

remove_found : (config : Config) (k : Text) → (config_remove config k).1 ≡ has_key config k
unfolding config_remove
remove_found [] k = refl
remove_found (ent ∷ config) k = ground (arith, remove_found config k)

remove_count :
    (config : Config) (k : Text)
    → occurrences (config_remove config k).0 k ≡ occurrences config k - 1
unfolding config_remove
remove_count [] k = omega arith
remove_count (ent ∷ config) k = ground (arith, remove_count config k)

-- Removing a key leaves what any key that differs from it, without regard to case, is looked up to.
pub getstr-remove :
    (config : Config) (k j : Text) (default : Option Text)
    → nocase_eq k j ≡ false
    → config_getstr (config_remove config k).0 j default ≡ config_getstr config j default
unfolding config_remove config_getstr
getstr-remove [] k j default h = refl
getstr-remove (ent ∷ config) k j default h =
    ground (arith, getstr-remove config k j default h, nocase_eq-congr ent.key k j)

-- Removing says whether the key is there, and takes one entry of it away if there is one.
config_remove_lem :
    (config : Config) (k : Text)
    → ((config_remove config k).1 ≡ has_key config k)
      × (occurrences (config_remove config k).0 k ≡ occurrences config k - 1)
config_remove_lem config k = (remove_found config k, remove_count config k)

-- `smart_remove` takes two entries of the key away, or as many as there are if these are less.
smart_remove_count :
    (config : Config) (k : Text) → occurrences (smart_remove config k) k ≡ occurrences config k - 2
unfolding smart_remove
smart_remove_count config k =
    omega (arith, remove_count config k, remove_count (config_remove config k).0 k)
