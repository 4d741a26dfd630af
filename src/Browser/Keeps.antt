-- ===== src/Browser/Keeps.antt =====
-- The cursor of an active browser through every message that it gets (`mod_browser_message` of
-- src/mod_browser.c).
use mathlib.Core.Path.{subst}
use audiobase.Common.{
  if◌then◌else◌, ◌&&◌, ◌⊎◌, ℕ, [], ◌∷◌, List, Bool, true, false, Option, none, some, ◌==◌, ◌≡◌, inl,
  inr, refl, ◌∙◌, ap, arith, Option-cases,
}
use audiobase.Text.{Text, codes, nocase_eq, strtok, blanks}
use audiobase.State.{Browser}
use audiobase.Bus.Msgtype
use audiobase.Commands.{Start, ignored, command, read_command, whole_rest}
use audiobase.Browser.Cursor.{mod_browser_cursor}
use audiobase.Browser.Directory.{mod_browser_back, mod_browser_into, mod_browser_intodirscan}
use audiobase.Browser.Message.{
  browser_remove, Action, Setting, activate, cursor_command, browser_command, show_command,
  browser_query, moved, browser_of, shown_again, removed, after_command, mod_browser_message,
}
use audiobase.Browser.Reach.{IsValid, cursor-IsValid, back-IsValid, into-IsValid}
use audiobase.Browser.Guards.{SamePlace, Every, show-SamePlace}

SamePlace-IsValid : (b b' : Browser) → SamePlace b b' → IsValid b → IsValid b'
SamePlace-IsValid b b' same (inl empty) = inl (same.0 ∙ empty)
SamePlace-IsValid b b' same (inr (n, c, k)) = inr (n, same.1 ∙ c, rw (same.0) k)

Every-moved :
    (o : Option Browser) (actions : List Action)
    → ((b : Browser) → o ≡ some b → IsValid b)
    → Every IsValid (moved o actions)
Every-moved none actions h b' actions' e = absurd (ground arith)
Every-moved (some b) actions h b' actions' e =
    let same : shown_again b ≡ b' = ground arith in subst IsValid same (h b refl)

browser_of-some :
    (o : Option (Browser × Bool)) (b : Browser)
    → browser_of o ≡ some b
    → (done : Bool) × (o ≡ some (b, done))
browser_of-some none b h = absurd (ground arith)
browser_of-some (some (d, done)) b h =
    let same : d ≡ b = ground arith in (done, ap (λ x. some (x, done)) same)

-- Which branch of a test gave a result.
if-cases {ℓ} :
    {A : Type ℓ} (t : Bool) (x y : A) {r : A} → (if t then x else y) ≡ r → (x ≡ r) ⊎ (y ≡ r)
if-cases true x y h = inl h
if-cases false x y h = inr h

module _ (set : Setting) where
  activate-IsValid : (b : Browser) → b.active ≡ true → IsValid b → Every IsValid (activate set b)
  unfolding activate
  activate-IsValid b on v b' actions h =
      let same : removed b ≡ b' = ground arith in subst IsValid same v

  cursor_command-IsValid :
      (rest : Text) (b : Browser) → IsValid b → Every IsValid (cursor_command set rest b)
  unfolding cursor_command
  cursor_command-IsValid rest b v b' actions h = elim (Option-cases (whole_rest rest)) [
    | inl nothing ↦ let same : b ≡ b' = ground arith in subst IsValid same v
    | inr (c3, more) ↦
        Every-moved (mod_browser_cursor set.display_hgt c3 b) _
          (λ d e. cursor-IsValid set.display_hgt c3 b d v e) b' actions
          (rw (more, cursor_command) at h)
  ]

  -- The commands that move the cursor, and those behind them.
  moves-IsValid :
      (c2 rest : Text) (b : Browser)
      → IsValid b
      → Every IsValid (
          if nocase_eq c2 (codes "cursor") && b.active
          then cursor_command set rest b
          else if nocase_eq c2 (codes "back") && b.active
          then moved (browser_of (mod_browser_back set.from_utf8 set.lsinfo set.display_hgt b)) []
          else if nocase_eq c2 (codes "into") && b.active
          then moved
              (mod_browser_into set.from_utf8 set.lsinfo set.exec_dir
                (mod_browser_intodirscan set.read_dir set.cdup)
                b)
              []
          else show_command set c2 rest b)
  moves-IsValid c2 rest b v b' actions h =
      elim (if-cases (nocase_eq c2 (codes "cursor") && b.active) (cursor_command set rest b) _ h) [
        | inl e ↦ cursor_command-IsValid rest b v b' actions e
        | inr h1 ↦
            let back : Option (Browser × Bool) =
              mod_browser_back set.from_utf8 set.lsinfo set.display_hgt b in
            elim (if-cases (nocase_eq c2 (codes "back") && b.active) (moved (browser_of back) []) _
              h1) [
                | inl e ↦
                    Every-moved (browser_of back) []
                      (λ d r.
                        let (done, r') = browser_of-some back d r in
                        back-IsValid set.from_utf8 set.lsinfo set.display_hgt b d done v r')
                      b' actions e
                | inr h2 ↦
                    let scan = mod_browser_intodirscan set.read_dir set.cdup in
                    let into : Option Browser =
                      mod_browser_into set.from_utf8 set.lsinfo set.exec_dir scan b in
                    elim (if-cases (nocase_eq c2 (codes "into") && b.active) (moved into []) _ h2) [
                      | inl e ↦
                          Every-moved into []
                            (λ d r. into-IsValid set.from_utf8 set.lsinfo set.exec_dir scan b d v r)
                            b' actions e
                      | inr h3 ↦
                          SamePlace-IsValid b b' (show-SamePlace set c2 rest b b' actions h3) v
                    ]
              ]
      ]

  command-IsValid :
      (c2 rest : Text) (b : Browser)
      → b.active ≡ true
      → IsValid b
      → Every IsValid (browser_command set c2 rest b)
  unfolding browser_command
  command-IsValid c2 rest b on v b' actions h =
      elim (if-cases (nocase_eq c2 (codes "activate")) (activate set b) _ h) [
        | inl e ↦ activate-IsValid b on v b' actions e
        | inr h1 ↦
            elim (if-cases (nocase_eq c2 (codes "deactivate"))
              (some (removed b, browser_remove ∷ [])) _ h1) [
                | inl e ↦ let same : removed b ≡ b' = ground arith in subst IsValid same v
                | inr h2 ↦
                    elim (if-cases (nocase_eq c2 (codes "playlistopen")) (some (b, [])) _ h2) [
                      | inl e ↦ let same : b ≡ b' = ground arith in subst IsValid same v
                      | inr h3 ↦ moves-IsValid c2 rest b v b' actions h3
                    ]
              ]
      ]

  query-IsValid : (msg : Text) (b : Browser) → IsValid b → Every IsValid (browser_query set msg b)
  unfolding browser_query
  query-IsValid msg b v b' actions h = elim (Option-cases (strtok blanks msg)) [
    | inl nothing ↦ let same : b ≡ b' = ground arith in subst IsValid same v
    | inr ((c1, rest), first) ↦ elim (Option-cases (strtok blanks rest)) [
      | inl nothing ↦ let same : b ≡ b' = ground arith in subst IsValid same v
      | inr ((c2, rest'), second) ↦ let same : b ≡ b' = ground arith in subst IsValid same v
    ]
  ]

  after_command-IsValid :
      (start : Start) (b : Browser)
      → b.active ≡ true
      → IsValid b
      → Every IsValid (after_command set start b)
  after_command-IsValid ignored b on v b' actions h =
      let same : b ≡ b' = ground arith in subst IsValid same v
  after_command-IsValid (command c1 rest) b on v b' actions h =
      elim (Option-cases (strtok blanks rest)) [
        | inl nothing ↦ let same : b ≡ b' = ground arith in subst IsValid same v
        | inr ((c2, rest'), second) ↦ elim (Option-cases c1) [
          | inl missing ↦ absurd (ground arith)
          | inr (c, first) ↦
              let chosen : (if nocase_eq c (codes "browser")
                    then browser_command set c2 rest' b
                    else some (b, []))
                  ≡ some (b', actions) =
                rw (second, first, after_command) at h in
              elim (if-cases (nocase_eq c (codes "browser")) (browser_command set c2 rest' b) _
                chosen) [
                  | inl e ↦ command-IsValid c2 rest' b on v b' actions e
                  | inr e ↦ let same : b ≡ b' = ground arith in subst IsValid same v
                ]
        ]
      ]

  -- Every message that is answered.
  pub message-IsValid :
      (msgtype : ℕ) (msg : Text) (b b' : Browser) (actions : List Action)
      → b.active ≡ true
      → IsValid b
      → mod_browser_message set msgtype msg b ≡ some (b', actions)
      → IsValid b'
  unfolding mod_browser_message
  message-IsValid msgtype msg b b' actions on v h =
      elim (if-cases (msgtype == Msgtype.input) (after_command set (read_command b.active msg) b) _
        h) [
          | inl e ↦ after_command-IsValid (read_command b.active msg) b on v b' actions e
          | inr h1 ↦ elim (if-cases (msgtype == Msgtype.query) (browser_query set msg b) _ h1) [
            | inl e ↦ query-IsValid msg b v b' actions e
            | inr h2 ↦ let same : b ≡ b' = ground arith in subst IsValid same v
          ]
        ]
