-- ===== src/Browser/Listing.antt =====
-- The entries that `mod_browser_get_mpddir` (src/mod_browser.c) puts on the display: which, how many
-- and in what order.
use mathlib.Core.List.{Perm}
use mathlib.Core.List.Perm
use audiobase.Common.{
  ◌<◌, ℕ, suc, ◌+◌, ◌≤◌, [], ◌∷◌, List, true, false, leb, if◌then◌else◌, ◌≡◌, inl, inr, arith,
  Bool-cases, length, All,
}
use audiobase.Text.{Text}
use audiobase.State.{Element, Browser}
use audiobase.Browser.Sort.{not_after, insert, qsort}
use audiobase.Browser.Directory.{
  Entity, directory, song_info, playlist_file, directory_element, song_element, read_entities,
}

-- Directories, whose type is 1, before songs, whose type is 2.
abbrev pub IsGrouped : List Element → Type 0
IsGrouped [] = Unit {0}
IsGrouped (e ∷ es) = All (λ x. e.info_type ≤ x.info_type) es × IsGrouped es

insert_before :
    (e x : Element) (l : List Element) → not_after e x ≡ true → insert e (x ∷ l) ≡ e ∷ x ∷ l
unfolding insert
insert_before e x l h = rw (h, insert)

insert_behind :
    (e x : Element) (l : List Element) → not_after e x ≡ false → insert e (x ∷ l) ≡ x ∷ insert e l
unfolding insert
insert_behind e x l h = rw (h, insert)

insert-positive : (e : Element) (l : List Element) → 0 < length (insert e l)
insert-positive e [] = unfold insert in omega arith
insert-positive e (x ∷ l) = elim (Bool-cases (not_after e x)) [
  | inl before ↦ rw (insert_before e x l before) (omega arith)
  | inr behind ↦ rw (insert_behind e x l behind) (omega arith)
]

pub length-qsort : (e : Element) (l : List Element) → 0 < length (qsort (e ∷ l))
unfolding qsort
length-qsort e l = insert-positive e (qsort l)

pub All-insert :
    (P : Element → Type 0) (e : Element) (l : List Element) → P e → All P l → All P (insert e l)
All-insert P e [] pe h = unfold insert in (pe, tt)
All-insert P e (x ∷ l) pe h = elim (Bool-cases (not_after e x)) [
  | inl before ↦ rw (insert_before e x l before) (pe, h)
  | inr behind ↦ rw (insert_behind e x l behind) (h.0, All-insert P e l pe h.1)
]

-- The entities that are shown: all but playlists.
abbrev pub shown_count : List Entity → ℕ
shown_count [] = 0
shown_count (directory path ∷ es) = suc (shown_count es)
shown_count (song_info info ∷ es) = suc (shown_count es)
shown_count (playlist_file ∷ es) = shown_count es

length-read_from :
    (from_utf8 : Text → Text) (count : ℕ) (es : List Entity)
    → count ≤ 1024
    → count + length (read_entities from_utf8 count es)
      ≡ (if leb (count + shown_count es) 1025 then count + shown_count es else 1025)
unfolding read_entities
length-read_from from_utf8 count [] h = ground arith
length-read_from from_utf8 count (directory path ∷ es) h =
    ground (arith, length-read_from from_utf8 (suc count) es)
length-read_from from_utf8 count (song_info info ∷ es) h =
    ground (arith, length-read_from from_utf8 (suc count) es)
length-read_from from_utf8 count (playlist_file ∷ es) h =
    ground (arith, length-read_from from_utf8 count es h)

-- The loop stores as many entries as there are directories and songs, if these are at most 1025,
-- and else 1025: one more than `pElements` has room for.
pub length-read_entities :
    (from_utf8 : Text → Text) (es : List Entity)
    → length (read_entities from_utf8 0 es)
      ≡ (if leb (shown_count es) 1025 then shown_count es else 1025)
length-read_entities from_utf8 es = ground (arith, length-read_from from_utf8 0 es)

-- The entries that a listing stands for: a directory and a song are one each, a playlist is none.
abbrev pub listed : (Text → Text) → List Entity → List Element
listed from_utf8 [] = []
listed from_utf8 (directory path ∷ es) = directory_element from_utf8 path ∷ listed from_utf8 es
listed from_utf8 (song_info info ∷ es) = song_element from_utf8 info ∷ listed from_utf8 es
listed from_utf8 (playlist_file ∷ es) = listed from_utf8 es
