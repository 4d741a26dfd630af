-- ===== src/Browser/Paths.antt =====
-- The directories in the settings of the browser (`mod_browser_reload` of src/mod_browser.c).
use audiobase.Common.{
  [], ◌∷◌, ◌++◌, Bool, Bool-cases, true, false, not, ◌≡◌, refl, ◌⊎◌, inl, inr, arith, if◌then◌else◌,
  ◌==◌,
}
use audiobase.Text.{Text, codes, nocase_eq}
use audiobase.State.{Browser}
use audiobase.Config.{Config}
use audiobase.Browser.Reload.{
  Settings, ends_in_slash, drop_last, below, is_directory_text, without_slash, absolute_root, get,
  mod_browser_reload,
}

abbrev pub IsAbsolute : Text → Type 0
IsAbsolute s = (t : Text) × (s ≡ b'/' ∷ t)

absolute_root-IsAbsolute : (s : Text) → IsAbsolute (absolute_root s)
unfolding absolute_root
absolute_root-IsAbsolute [] = ([], refl)
absolute_root-IsAbsolute (b ∷ s) = elim (Bool-cases (b == b'/')) [
  | inl slash ↦ (s, rw slash (ground arith))
  | inr other ↦ ([], rw other refl)
]

below-IsAbsolute : (s sub : Text) → IsAbsolute s → IsAbsolute (below s sub)
unfolding below
below-IsAbsolute s sub (t, e) = rw e (elim (Bool-cases (ends_in_slash (b'/' ∷ t))) [
  | inl ending ↦ (t ++ sub, rw ending refl)
  | inr other ↦ ((t ++ codes "/") ++ sub, rw other refl)
])

without_slash-IsAbsolute : (s : Text) → IsAbsolute s → IsAbsolute (without_slash s)
unfolding without_slash drop_last ends_in_slash
without_slash-IsAbsolute [] (t, e) = cc
without_slash-IsAbsolute (b ∷ []) (t, e) = elim (Bool-cases (b == b'/')) [
  | inl slash ↦ (t, rw slash e)
  | inr other ↦ (t, rw other e)
]
without_slash-IsAbsolute (b ∷ c ∷ s) (t, e) = elim (Bool-cases (is_directory_text (b ∷ c ∷ s))) [
  | inl ending ↦ (drop_last (c ∷ s), rw ending cc)
  | inr other ↦ (t, rw other e)
]

exec-IsAbsolute :
    (off : Bool) (s : Text)
    → IsAbsolute s
    → ((if off then [] else s) ≡ []) ⊎ IsAbsolute (if off then [] else s)
exec-IsAbsolute true s h = inl refl
exec-IsAbsolute false s h = inr h

-- Whatever the configuration says and whatever was set before, the root and the home directory of
-- the browser are absolute paths, and the directory of its scripts is one or is switched off; the
-- browser is active exactly when it needs no activation first.
pub mod_browser_reload-IsAbsolute :
    (config : Config) (old : Settings) (b : Browser)
    → IsAbsolute ((mod_browser_reload config (old, b)).0).root
      × IsAbsolute ((mod_browser_reload config (old, b)).0).path
      × (((mod_browser_reload config (old, b)).0).exec ≡ []
          ⊎ IsAbsolute ((mod_browser_reload config (old, b)).0).exec)
      × (((mod_browser_reload config (old, b)).1).active
          ≡ not ((mod_browser_reload config (old, b)).0).activate_first)
unfolding mod_browser_reload
mod_browser_reload-IsAbsolute config old b =
    let root = absolute_root-IsAbsolute (get config (codes "browser_root") (codes "/")) in
    (
      root,
      without_slash-IsAbsolute _
          (below-IsAbsolute _ (get config (codes "browser_home") (codes "/")) root),
      exec-IsAbsolute (nocase_eq (get config (codes "browser_exec") (codes "-")) (codes "-")) _ (
          without_slash-IsAbsolute _
            (below-IsAbsolute _ (get config (codes "browser_exec") []) root)),
      refl,
    )
