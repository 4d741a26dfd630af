-- ===== src/Browser/Sort.antt =====
-- The order of the entries in src/mod_browser.c, and the sort. `qsort` of the C library is a stable
-- sort by insertion here, which any sort by comparisons agrees with where the comparison orders the
-- entries.
use audiobase.Common.{[], ◌∷◌, List, Bool, ◌||◌, ◌==◌, if◌then◌else◌, ℤ, pos, ◌-ℤ◌, eqb_ℤ, leb_ℤ}
use audiobase.Text.{strcasecmp, atoi}
use audiobase.State.{Element}

-- Numbers come first by their value, other names by their letters; directories come before songs.
unfoldable pub mod_browser_cmp_bwrelemnts : Element → Element → ℤ
mod_browser_cmp_bwrelemnts el1 el2 =
    if el1.info_type == el2.info_type
    then (let i = atoi el1.name in
        let j = atoi el2.name in
        if eqb_ℤ i (pos 0) || eqb_ℤ j (pos 0) then strcasecmp el1.name el2.name else i -ℤ j)
    else pos el1.info_type -ℤ pos el2.info_type

abbrev pub not_after : Element → Element → Bool
not_after el1 el2 = leb_ℤ (mod_browser_cmp_bwrelemnts el1 el2) (pos 0)

unfoldable pub insert : Element → List Element → List Element
insert e [] = e ∷ []
insert e (x ∷ xs) = let rest = insert e xs in if not_after e x then e ∷ x ∷ xs else x ∷ rest

unfoldable pub qsort : List Element → List Element
unfolding insert
qsort [] = []
qsort (x ∷ xs) = insert x (qsort xs)
