-- ===== src/Browser/Reach.antt =====
-- The cursor of the browser (src/mod_browser.c) through any sequence of its commands.
use mathlib.Core.Path.{subst}
use audiobase.Common.{
  ℕ, suc, ◌+◌, ◌<◌, [], ◌∷◌, ◌++◌, List, Bool, true, false, Option, none, some, ◌==◌, ◌≡◌, ◌⊎◌, inl,
  inr, refl, ◌≤◌, arith, Bool-cases, Option-cases, List-cases, length, ℤ, pos, negsuc,
}
use audiobase.Text.{Text, codes, text_eq, nocase_eq, is_empty}
use audiobase.State.{Element, Browser, element_submenu, info_undefined}
use audiobase.Browser.Cursor.{new_position, mod_browser_cursor}
use audiobase.Browser.Directory.{
  Entity, DirEntry, store_listing, mod_browser_get_mpddir, find_from, mod_browser_find_element,
  found_or_first, last_part, parent_dir, mod_browser_back, under_cursor, entered,
  mod_browser_intodirscan, mod_browser_into, mod_browser_open, mod_browser_init,
}
use audiobase.Browser.Range.{new_position-IsIndex}
use audiobase.Browser.Listing.{length-qsort}

-- The cursor is on an entry, if there is one.
abbrev pub IsValid : Browser → Type 0
IsValid b = (b.elements ≡ []) ⊎ ((n : ℕ) × (b.cursor_pos ≡ pos n) × (n < length b.elements))

zero-IsValid : (b : Browser) → b.cursor_pos ≡ pos 0 → IsValid b
zero-IsValid b h = elim (List-cases b.elements) [
  | inl empty ↦ inl empty
  | inr (e, es, some_elements) ↦ inr (0, h, rw some_elements (omega arith))
]

entered-IsValid : (name : Text) (b : Browser) → IsValid (entered name b)
entered-IsValid name b = zero-IsValid (entered name b) refl

pub cursor-IsValid :
    (hgt : ℕ) (p : Text) (b b' : Browser)
    → IsValid b
    → mod_browser_cursor hgt p b ≡ some b'
    → IsValid b'
unfolding mod_browser_cursor
cursor-IsValid hgt p b b' (inl empty) h = elim (Option-cases (new_position p b)) [
  | inl stuck ↦ absurd (ground arith)
  | inr (z, moved) ↦ inl (ground arith)
]
cursor-IsValid hgt p b b' (inr (i, c, k)) h =
    let (n, moved, inside) = new_position-IsIndex p b i c k in inr (n, ground arith, ground arith)

find_from-range :
    (key : Element → Text) (name : Text) (i : ℕ) (es : List Element) (n : ℕ)
    → find_from key name i es ≡ pos n
    → n < i + length es
find_from-range key name i [] n h = absurd (ground arith)
find_from-range key name i (e ∷ es) n h = ground (arith, find_from-range key name (suc i) es n)

found_or_first-range :
    (z : ℤ) (count : ℕ)
    → ((n : ℕ) → z ≡ pos n → n < count)
    → 0 < count
    → (n : ℕ) × (found_or_first z ≡ pos n) × (n < count)
found_or_first-range (pos n) count h k = (n, refl, h n refl)
found_or_first-range (negsuc n) count h k = (0, refl, k)

find_element-range :
    (name : Text) (es : List Element) (n : ℕ)
    → mod_browser_find_element false name es ≡ pos n
    → n < length es
unfolding mod_browser_find_element
find_element-range name es n h = elim (Bool-cases (is_empty name)) [
  | inl empty ↦ absurd (ground arith)
  | inr named ↦ ground (arith, find_from-range (λ e. e.info_path) name 0 es n)
]

-- What a listing makes of the browser.
abbrev pub Listed : Browser → Option (Browser × Bool) → Type 0
Listed b r =
    (r ≡ none)
    ⊎ (((b' : Browser) × (r ≡ some (b', true))
          × (0 < length b'.elements)
          × (b'.cursor_pos ≡ b.cursor_pos))
        ⊎ ((b' : Browser) × (r ≡ some (b', false)) × (b'.elements ≡ [])))

store_listing-cases : (ls : Text) (l : List Element) (b : Browser) → Listed b (store_listing ls l b)
unfolding store_listing
store_listing-cases ls [] b = elim (List-cases (b.elements ++ b.spare)) [
  | inl empty ↦ inl (rw (empty, store_listing))
  | inr (e, es, slots) ↦
      let d : Browser = record b {
        current_dir = ls;
        elements = [];
        spare = (record e { name = codes "<NONE>"; info_type = info_undefined }) ∷ es;
      } in
      inr (inr (d, rw (slots, store_listing), refl))
]
store_listing-cases ls (e ∷ es) b = inr (inl (_, refl, length-qsort e es, refl))

-- A directory that is read again has as many entries as before at least, and an empty one has none.
abbrev pub HasNotShrunk : Browser → Browser → Type 0
HasNotShrunk b b' =
    ((b.elements ≡ []) × (b'.elements ≡ []))
    ⊎ ((0 < length b.elements) × (length b.elements ≤ length b'.elements))

module _ (from_utf8 : Text → Text) (lsinfo : Text → List Entity) where
  pub get_mpddir-cases :
      (path : Text) (b : Browser) → Listed b (mod_browser_get_mpddir from_utf8 lsinfo path b)
  unfolding mod_browser_get_mpddir
  get_mpddir-cases path b = store_listing-cases _ _ b

  pub back-IsValid :
      (hgt : ℕ) (b b' : Browser) (done : Bool)
      → IsValid b
      → mod_browser_back from_utf8 lsinfo hgt b ≡ some (b', done)
      → IsValid b'
  unfolding mod_browser_back
  back-IsValid hgt b b' done v h = elim (Bool-cases (text_eq b.current_dir (codes "/"))) [
    | inl root ↦ let same : b ≡ b' = ground arith in subst IsValid same v
    | inr inner ↦ elim (get_mpddir-cases (parent_dir b.current_dir) b) [
      | inl stuck ↦ absurd (ground arith)
      | inr (inl (d, listed, some_elements, kept)) ↦
          let (n, found, inside) =
            found_or_first-range _ _ (find_element-range (last_part b.current_dir) d.elements)
              some_elements in
          inr (n, ground arith, ground arith)
      | inr (inr (d, listed, empty)) ↦ inl (ground arith)
    ]
  ]

  pub into-IsValid :
      (exec_dir : Text) (scan : Text → Browser → Option Browser) (b b' : Browser)
      → IsValid b
      → mod_browser_into from_utf8 lsinfo exec_dir scan b ≡ some b'
      → IsValid b'
  unfolding mod_browser_into
  into-IsValid exec_dir scan b b' v h = elim (Option-cases (under_cursor b)) [
    | inl stuck ↦ absurd (ground arith)
    | inr (e, here) ↦ elim (Bool-cases (e.status == element_submenu)) [
      | inr plain ↦ let same : b ≡ b' = ground arith in subst IsValid same v
      | inl submenu ↦ elim (Bool-cases (nocase_eq e.info_path exec_dir)) [
        | inl script ↦ elim (Option-cases (scan e.info_path b)) [
          | inl stuck ↦ absurd (ground arith)
          | inr (d, scanned) ↦
              let same : entered e.name d ≡ b' = ground arith in
              subst IsValid same (entered-IsValid e.name d)
        ]
        | inr music ↦ elim (get_mpddir-cases e.info_path b) [
          | inl stuck ↦ absurd (ground arith)
          | inr (inl (d, listed, some_elements, kept)) ↦
              let same : entered e.name d ≡ b' = ground arith in
              subst IsValid same (entered-IsValid e.name d)
          | inr (inr (d, listed, empty)) ↦ inl (ground arith)
        ]
      ]
    ]
  ]

-- What a browser command makes of the browser, and what it may be after some of them. The server may
-- list something else each time.
module _ (from_utf8 : Text → Text) (exec_dir : Text) (hgt : ℕ) where
  pub data Step : Browser → Browser → Type 0 where
    cursor : {b b' : Browser} (p : Text) → mod_browser_cursor hgt p b ≡ some b' → Step b b'
    back :
        {b b' : Browser} (lsinfo : Text → List Entity) (done : Bool)
        → mod_browser_back from_utf8 lsinfo hgt b ≡ some (b', done)
        → Step b b'
    into :
        {b b' : Browser} (lsinfo : Text → List Entity) (read_dir : Text → Option (List DirEntry))
        (cdup : Bool)
        → mod_browser_into from_utf8 lsinfo exec_dir (mod_browser_intodirscan read_dir cdup) b
          ≡ some b'
        → Step b b'
    reopen :
        {b b' : Browser} (lsinfo : Text → List Entity)
        → mod_browser_open from_utf8 lsinfo b ≡ some b'
        → HasNotShrunk b b'
        → Step b b'
    remove : {b : Browser} → Step b (record b { active = false })

  pub data Reachable : Browser → Type 0 where
    opened :
        {b : Browser} (root : Text) (lsinfo : Text → List Entity)
        → mod_browser_open from_utf8 lsinfo (mod_browser_init root) ≡ some b
        → Reachable b
    stepped : {b b' : Browser} → Reachable b → Step b b' → Reachable b'
