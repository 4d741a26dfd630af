-- ===== src/Browser/Back.antt =====
-- The way back from a directory below the top level (`mod_browser_back` of src/mod_browser.c): the
-- cursor is to stand on the directory that is left, which is not found.
use audiobase.Common.{
  List-cases, ap, ℕ, suc, ◌<◌, [], ◌∷◌, ◌++◌, List, Bool, true, false, none, some, ◌==◌,
  if◌then◌else◌, ◌≡◌, ◌≢◌, inl, inr, refl, arith, Bool-cases, Option-cases, length, pos, negsuc,
  All,
}
use audiobase.Text.{Text, codes, text_eq, text_eq_iff, nocase_eq, to_lower, strrchr}
use audiobase.State.{Element, Browser}
use audiobase.Browser.Sort.{qsort}
use audiobase.Browser.Directory.{
  Entity, clean_path, read_entities, store_listing, mod_browser_get_mpddir, find_from,
  mod_browser_find_element, last_part, parent_dir, mod_browser_back,
}
use audiobase.Browser.Listing.{All-insert}
use audiobase.Browser.Reach.{get_mpddir-cases}

abbrev pub slashes : Text → Bool
slashes [] = false
slashes (c ∷ s) = if c == b'/' then true else slashes s

to_lower-slash : (c : ℕ) → (to_lower c == b'/') ≡ (c == b'/')
unfolding to_lower
to_lower-slash c = ground arith

nocase_eq-slashes : (s t : Text) → nocase_eq s t ≡ true → slashes s ≡ slashes t
unfolding nocase_eq
nocase_eq-slashes [] [] h = refl
nocase_eq-slashes [] (d ∷ t) h = cc
nocase_eq-slashes (c ∷ s) [] h = cc
nocase_eq-slashes (c ∷ s) (d ∷ t) h =
    ground (arith, nocase_eq-slashes s t, to_lower-slash c, to_lower-slash d)

strrchr-none : (s : Text) → strrchr b'/' s ≡ none → slashes s ≡ false
unfolding strrchr
strrchr-none [] h = refl
strrchr-none (c ∷ s) h = elim (Option-cases (strrchr b'/' s)) [
  | inl below ↦ ground (arith, strrchr-none s below)
  | inr (t, below) ↦ absurd (ground arith)
]

strrchr-cons : (s : Text) → strrchr b'/' s ≢ some []
unfolding strrchr
strrchr-cons [] h = cc
strrchr-cons (c ∷ s) h = elim (Option-cases (strrchr b'/' s)) [
  | inl below ↦ ground arith
  | inr (t, below) ↦ strrchr-cons s (ground arith)
]

strrchr-behind : (s : Text) (c : ℕ) (t : Text) → strrchr b'/' s ≡ some (c ∷ t) → slashes t ≡ false
unfolding strrchr
strrchr-behind [] c t h = cc
strrchr-behind (d ∷ s) c t h = elim (Option-cases (strrchr b'/' s)) [
  | inl below ↦ ground (arith, strrchr-none s below)
  | inr (u, below) ↦ strrchr-behind s c t (ground arith)
]

find_from-none :
    (key : Element → Text) (name : Text) (i : ℕ) (es : List Element)
    → All (λ e. slashes (key e) ≡ true) es
    → slashes name ≡ false
    → find_from key name i es ≡ negsuc 0
find_from-none key name i [] h k = refl
find_from-none key name i (e ∷ es) h k =
    ground (arith, find_from-none key name (suc i) es h.1 k, nocase_eq-slashes (key e) name, h.0)

All-qsort : (P : Element → Type 0) (l : List Element) → All P l → All P (qsort l)
unfolding qsort
All-qsort P [] h = tt
All-qsort P (e ∷ es) h = All-insert P e (qsort es) h.0 (All-qsort P es h.1)

store_listing-All :
    (P : Element → Type 0) (ls : Text) (l : List Element) (b b' : Browser)
    → All P l
    → store_listing ls l b ≡ some (b', true)
    → All P b'.elements
unfolding store_listing
store_listing-All P ls [] b b' h k = elim (List-cases (b.elements ++ b.spare)) [
  | inl empty ↦ absurd (ground arith)
  | inr (e, es, slots) ↦ absurd (ground arith)
]
store_listing-All P ls (e ∷ es) b b' h k =
    let elements : qsort (e ∷ es) ≡ b'.elements = ground arith in
    rw (← elements) (All-qsort P (e ∷ es) h)

last_part-slashes :
    (dir : Text) → slashes dir ≡ true → 1 < length dir → slashes (last_part dir) ≡ false
unfolding last_part
last_part-slashes dir h k = elim (Option-cases (strrchr b'/' dir)) [
  | inl missing ↦ absurd (ground (arith, strrchr-none dir missing))
  | inr ([], found) ↦ absurd (strrchr-cons dir found)
  | inr (c ∷ s, found) ↦ ground (arith, strrchr-behind dir c s found)
]

find_element-none :
    (name : Text) (es : List Element)
    → All (λ e. slashes e.info_path ≡ true) es
    → slashes name ≡ false
    → mod_browser_find_element false name es ≡ negsuc 0
unfolding mod_browser_find_element
find_element-none name es h k = ground (arith, find_from-none (λ e. e.info_path) name 0 es h k)

-- On the way back from a directory whose path has a slash and is longer than that, if the server
-- lists the parent by paths that have a slash as well, and it has an entry, the directory that is
-- left is not found among the entries, since it is looked for by its last part, and the cursor and
-- the display go to the first entry.
pub mod_browser_back_nested :
    (from_utf8 : Text → Text) (lsinfo : Text → List Entity) (hgt : ℕ) (b b' : Browser)
    → slashes b.current_dir ≡ true
    → 1 < length b.current_dir
    → All
        (λ e. slashes e.info_path ≡ true)
        (read_entities from_utf8 0 (lsinfo (clean_path (parent_dir b.current_dir))))
    → mod_browser_back from_utf8 lsinfo hgt b ≡ some (b', true)
    → (mod_browser_find_element false (last_part b.current_dir) b'.elements ≡ negsuc 0)
      × (b'.cursor_pos ≡ pos 0)
      × (b'.display_pos ≡ pos 0)
unfolding mod_browser_back
mod_browser_back_nested from_utf8 lsinfo hgt b b' nested long paths h =
    elim (Bool-cases (text_eq b.current_dir (codes "/"))) [
      | inl root ↦
          let top = (text_eq_iff b.current_dir (codes "/")).0 root in
          absurd (omega (arith, ap length top))
      | inr inner ↦ elim (get_mpddir-cases from_utf8 lsinfo (parent_dir b.current_dir) b) [
        | inl stuck ↦ absurd (ground arith)
        | inr (inl (d, listed, some_elements, kept)) ↦
            let paths' : All (λ e. slashes e.info_path ≡ true) d.elements =
              store_listing-All _ (clean_path (parent_dir b.current_dir)) _ b d paths
                (unfold mod_browser_get_mpddir in listed) in
            let missing =
              find_element-none (last_part b.current_dir) d.elements paths'
                (last_part-slashes b.current_dir nested long) in
            let same : d.elements ≡ b'.elements = ground arith in
            (rw (← same) missing, ground arith, ground arith)
        | inr (inr (d, listed, empty)) ↦ absurd (ground arith)
      ]
    ]
