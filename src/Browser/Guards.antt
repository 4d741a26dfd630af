-- ===== src/Browser/Guards.antt =====
-- What `mod_browser_message` (src/mod_browser.c) leaves alone: the commands that the status of the
-- browser guards, and the cursor.
use mathlib.Core.Path.{subst}
use audiobase.Common.{List, false, none, some, ◌≡◌, inl, inr, refl, arith, Option-cases}
use audiobase.Text.{Text, codes, nocase_eq}
use audiobase.State.{Browser}
use audiobase.Commands.{whole_rest}
use audiobase.Browser.Directory.{under_cursor}
use audiobase.Browser.Message.{
  Action, Result, Setting, mod_browser_add, browser_command, show_command, script_command, played,
}

-- Two browsers that show the same entries at the same place.
abbrev pub SamePlace : Browser → Browser → Type 0
SamePlace b b' =
    (b'.elements ≡ b.elements)
    × (b'.cursor_pos ≡ b.cursor_pos)
    × (b'.display_pos ≡ b.display_pos)
    × (b'.current_dir ≡ b.current_dir)

-- What holds of the browser after a handler, if it returns.
abbrev pub Every : (Browser → Type 0) → Result → Type 0
Every P r = (b' : Browser) (actions : List Action) → r ≡ some (b', actions) → P b'

add-SamePlace : (b : Browser) → Every (SamePlace b) (mod_browser_add b)
unfolding mod_browser_add
add-SamePlace b b' actions h = elim (Option-cases (under_cursor b)) [
  | inl stuck ↦ absurd (ground arith)
  | inr (e, here) ↦ ground arith
]

played-Every : (P : Browser → Type 0) (r : Result) → Every P r → Every P (played r)
played-Every P none h b' actions e = absurd (ground arith)
played-Every P (some (b, actions)) h b' actions' e =
    let same : b ≡ b' = ground arith in subst P same (h b actions refl)

module _ (set : Setting) where
  script-SamePlace :
      (c2 rest : Text) (b : Browser) → Every (SamePlace b) (script_command set c2 rest b)
  unfolding script_command
  script-SamePlace c2 rest b b' actions h = elim (Option-cases (whole_rest rest)) [
    | inl nothing ↦
        ground (arith, played-Every (SamePlace b) (mod_browser_add b) (add-SamePlace b) b' actions)
    | inr (c3, more) ↦
        ground (arith, played-Every (SamePlace b) (mod_browser_add b) (add-SamePlace b) b' actions)
  ]

  pub show-SamePlace :
      (c2 rest : Text) (b : Browser) → Every (SamePlace b) (show_command set c2 rest b)
  unfolding show_command
  show-SamePlace c2 rest b b' actions h = elim (Option-cases (whole_rest rest)) [
    | inl nothing ↦
        ground (arith, add-SamePlace b b' actions, script-SamePlace c2 rest b b' actions)
    | inr (c3, more) ↦
        ground (arith, add-SamePlace b b' actions, script-SamePlace c2 rest b b' actions)
  ]

  -- While the browser is not active, a command other than activate, if it returns, leaves the
  -- directory, the entries and the places of the cursor and the display as they are.
  pub command-SamePlace :
      (c2 rest : Text) (b : Browser)
      → b.active ≡ false
      → nocase_eq c2 (codes "activate") ≡ false
      → Every (SamePlace b) (browser_command set c2 rest b)
  unfolding browser_command
  command-SamePlace c2 rest b inactive other b' actions h =
      ground (arith, show-SamePlace c2 rest b b' actions)
