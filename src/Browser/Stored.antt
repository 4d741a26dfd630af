-- ===== src/Browser/Stored.antt =====
-- With the cursor on an entry, what the commands of src/mod_browser.c read of `pElements` is allocated.
use audiobase.Common.{
  ℕ, ◌<◌, [], ◌∷◌, ◌++◌, List, Bool, true, false, Option, some, ◌==◌, ◌≡◌, ◌⊎◌, inl, inr, refl, ap,
  arith, Bool-cases, List-cases, length, length-append, pos,
}
use audiobase.Text.{Text, codes, text_eq, nocase_eq}
use audiobase.State.{Element, Browser, element_submenu}
use audiobase.Browser.Directory.{
  Entity, store_listing, mod_browser_get_mpddir, parent_dir, mod_browser_back, under_cursor,
  mod_browser_into,
}
use audiobase.Browser.Message.{browser_of}
use audiobase.Browser.Range.{get_elem?_in}

-- The cursor is on an entry.
abbrev pub IsOnEntry : Browser → Type 0
IsOnEntry b = (n : ℕ) × (b.cursor_pos ≡ pos n) × (n < length b.elements)

pub allocated : (b : Browser) → IsOnEntry b → 0 < length (b.elements ++ b.spare)
allocated b (n, c, k) = omega (arith, length-append b.elements b.spare)

pub under_cursor-some : (b : Browser) → IsOnEntry b → (e : Element) × (under_cursor b ≡ some e)
under_cursor-some b (n, c, k) =
    let (e, found) =
      get_elem?_in (b.elements ++ b.spare) n (omega (arith, length-append b.elements b.spare)) in
    (e, rw c found)

-- A listing is stored, whether there is an entry or none.
abbrev IsStored : Option (Browser × Bool) → Type 0
IsStored r = ((d : Browser) × (r ≡ some (d, true))) ⊎ ((d : Browser) × (r ≡ some (d, false)))

store_listing-IsStored :
    (ls : Text) (l : List Element) (b : Browser)
    → 0 < length (b.elements ++ b.spare)
    → IsStored (store_listing ls l b)
unfolding store_listing
store_listing-IsStored ls [] b h = elim (List-cases (b.elements ++ b.spare)) [
  | inl empty ↦ absurd (omega (arith, ap length empty))
  | inr (e, es, slots) ↦ rw (slots, store_listing) (inr (_, refl))
]
store_listing-IsStored ls (e ∷ es) b h = inl (_, refl)

module _ (from_utf8 : Text → Text) (lsinfo : Text → List Entity) where
  get_mpddir-IsStored :
      (path : Text) (b : Browser)
      → IsOnEntry b
      → IsStored (mod_browser_get_mpddir from_utf8 lsinfo path b)
  unfolding mod_browser_get_mpddir
  get_mpddir-IsStored path b on = store_listing-IsStored _ _ b (allocated b on)

  pub back-some :
      (hgt : ℕ) (b : Browser)
      → IsOnEntry b
      → (d : Browser) × (browser_of (mod_browser_back from_utf8 lsinfo hgt b) ≡ some d)
  unfolding mod_browser_back
  back-some hgt b on = elim (Bool-cases (text_eq b.current_dir (codes "/"))) [
    | inl root ↦ rw (root, mod_browser_back) (b, refl)
    | inr inner ↦ elim (get_mpddir-IsStored (parent_dir b.current_dir) b on) [
      | inl (d, listed) ↦ rw (inner, listed, mod_browser_back) (_, refl)
      | inr (d, listed) ↦ rw (inner, listed, mod_browser_back) (_, refl)
    ]
  ]

  pub into-some :
      (exec_dir : Text) (scan : Text → Browser → Option Browser) (b : Browser)
      → IsOnEntry b
      → ((dest : Text) → (d : Browser) × (scan dest b ≡ some d))
      → (d : Browser) × (mod_browser_into from_utf8 lsinfo exec_dir scan b ≡ some d)
  unfolding mod_browser_into
  into-some exec_dir scan b on scans =
      let (e, here) = under_cursor-some b on in
      elim (Bool-cases (e.status == element_submenu)) [
        | inr plain ↦ rw (here, plain, mod_browser_into) (b, refl)
        | inl submenu ↦ elim (Bool-cases (nocase_eq e.info_path exec_dir)) [
          | inl script ↦
              let (d, scanned) = scans e.info_path in
              rw (here, submenu, script, scanned, mod_browser_into) (_, refl)
          | inr music ↦ elim (get_mpddir-IsStored e.info_path b on) [
            | inl (d, listed) ↦ rw (here, submenu, music, listed, mod_browser_into) (_, refl)
            | inr (d, listed) ↦ rw (here, submenu, music, listed, mod_browser_into) (_, refl)
          ]
        ]
      ]
