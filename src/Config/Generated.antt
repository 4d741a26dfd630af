-- ===== src/Config/Generated.antt =====
-- What reading the file that src/ABaseconf.c writes for some options gives.
use audiobase.Common.{
  ℕ, zero, suc, ◌+◌, ◌-◌, ◌*◌, ◌≤◌, ◌<◌, pos, take, [], ◌∷◌, ◌++◌, append_assoc, append-nil,
  reverse, reverse-cons, reverse-append, List, All, false, Bool-cases, Option, none, some, ◌≡◌,
  refl, sym, ap, ◌∙◌, arith, inl, inr, length, length-append,
}
use audiobase.Text.{Text, nocase_eq}
use audiobase.Tools.{readline, trim, trimleft, trimright, is_blank}
use audiobase.Tools.Lines.{IsOneLine}
use audiobase.Config.Entries.{Entry, Config, config_getstr, config_add, smart_remove, config_remove}
use audiobase.Config.Reader.{read_entry, read_lines, write_pair, ConfigState, config_read}
use audiobase.Config.File.{IsWritable, read_lines-line, read_lines-pair, config_read-lines}
use audiobase.Config.Lookup.{getstr-remove}
use audiobase.Config.Generator.{Generator, confwrite, simple_comment, value_or, config_value}

-- A comment, a key and the value that it gets if it has none.
pub record Choice : Type 0 where
  pub comment : Text
  pub name : Text
  pub default : Text

-- The calls for some options.
abbrev pub write_options : List Choice → Generator → Generator
write_options [] g = g
write_options (o ∷ os) g =
    write_options os (config_value o.name o.default (simple_comment o.comment g))

-- The entry that is wanted for an option.
abbrev pub chosen : Config → Choice → Entry
chosen config o = record {
  key = o.name;
  value = value_or o.default (config_getstr config o.name none);
}

abbrev pub choices : Config → List Choice → List (Text × Entry)
choices config [] = []
choices config (o ∷ os) = (o.comment, chosen config o) ∷ choices config os

abbrev pub entries : List (Text × Entry) → Config
entries [] = []
entries ((comment, ent) ∷ cs) = ent ∷ entries cs

-- A comment and an entry that the file can carry.
abbrev pub IsCarried : Text × Entry → Type 0
IsCarried (comment, ent) = (IsOneLine comment) × (length comment + 2 < 255) × IsWritable ent

-- No two options have the same key, whatever the case of the letters.
abbrev pub IsDistinct : List Choice → Type 0
IsDistinct [] = Unit {0}
IsDistinct (o ∷ os) = (All (λ p. nocase_eq o.name p.name ≡ false) os) × IsDistinct os

getstr-smart_remove :
    (config : Config) (k j : Text)
    → nocase_eq k j ≡ false
    → config_getstr (smart_remove config k) j none ≡ config_getstr config j none
unfolding smart_remove
getstr-smart_remove config k j h =
    getstr-remove (config_remove config k).0 k j none h ∙ getstr-remove config k j none h

-- Writing an option takes its key from the source, which the other options do not notice.
choices-smart_remove :
    (config : Config) (k : Text) (os : List Choice)
    → All (λ p. nocase_eq k p.name ≡ false) os
    → choices (smart_remove config k) os ≡ choices config os
choices-smart_remove config k [] h = refl
choices-smart_remove config k (o ∷ os) (other, h) =
    rw (getstr-smart_remove config k o.name other, choices-smart_remove config k os h)

-- The text for the options.
abbrev commented : Text → Text → Text
commented comment rest = 10 ∷ b'#' ∷ 10 ∷ b'#' ∷ 32 ∷ (comment ++ 10 ∷ b'#' ∷ 10 ∷ rest)

abbrev text_of : List (Text × Entry) → Text
text_of [] = []
text_of ((comment, ent) ∷ cs) = commented comment (write_pair ent.key ent.value ++ text_of cs)

simple_comment-commented :
    (s rest : Text) (g : Generator)
    → (simple_comment s g).conffile ++ rest ≡ g.conffile ++ commented s rest
unfolding simple_comment confwrite
simple_comment-commented s rest g = simp append_assoc

write_options-text :
    (os : List Choice) (g : Generator)
    → IsDistinct os
    → (write_options os g).conffile ≡ g.conffile ++ text_of (choices g.config os)
unfolding config_value simple_comment
write_options-text [] g h = sym (append-nil g.conffile)
write_options-text (o ∷ os) g (other, h) =
    let asked = simple_comment o.comment g in
    let pair = write_pair o.name (chosen asked.config o).value in
    write_options-text os (config_value o.name o.default asked) h
    ∙ ap (λ cs. (asked.conffile ++ pair) ++ text_of cs)
        (choices-smart_remove asked.config o.name os other)
    ∙ append_assoc asked.conffile pair (text_of (choices asked.config os))
    ∙ simple_comment-commented o.comment (pair ++ text_of (choices asked.config os)) g

-- Comments are passed over.
trimleft-last :
    (s : Text) (c : ℕ) → is_blank c ≡ false → (t : Text) × (trimleft (s ++ c ∷ []) ≡ t ++ c ∷ [])
unfolding trimleft
trimleft-last [] c h = ([], rw h)
trimleft-last (d ∷ s) c h = elim (Bool-cases (is_blank d)) [
  | inl blank ↦ let (t, e) = trimleft-last s c h in (t, rw blank e)
  | inr solid ↦ (d ∷ s, rw solid)
]

trim-first : (c : ℕ) (s : Text) → is_blank c ≡ false → (t : Text) × (trim (c ∷ s) ≡ c ∷ t)
unfolding trim trimright
trim-first c s h =
    let (t, e) = trimleft-last (reverse s) c h in
    (reverse t, rw (trim, reverse-cons c s, e, reverse-append t (c ∷ [])) (unfold trimleft in rw h))

read_entry-comment : (config : Config) (s : Text) → read_entry config (trim (b'#' ∷ s)) ≡ config
unfolding read_entry
read_entry-comment config s = let (t, e) = trim-first b'#' s refl in rw e

read_entry-empty : (config : Config) → read_entry config (trim []) ≡ config
unfolding read_entry trim
read_entry-empty config = refl

read_lines-commented :
    (fuel : ℕ) (config : Config) (s rest : Text)
    → IsOneLine s
    → length s + 2 < 255
    → read_lines (suc (suc (suc (suc fuel)))) false config (commented s rest)
      ≡ read_lines fuel false config rest
read_lines-commented fuel config s rest one short = rw (
  read_lines-line (suc (suc (suc fuel))) config []
      (b'#' ∷ 10 ∷ b'#' ∷ 32 ∷ (s ++ 10 ∷ b'#' ∷ 10 ∷ rest)) tt (omega arith),
  read_entry-empty config,
  read_lines-line (suc (suc fuel)) config (b'#' ∷ []) (b'#' ∷ 32 ∷ (s ++ 10 ∷ b'#' ∷ 10 ∷ rest))
      (refl, tt) (omega arith),
  read_entry-comment config [],
  read_lines-line (suc fuel) config (b'#' ∷ 32 ∷ s) (b'#' ∷ 10 ∷ rest) (refl, (refl, one))
      (omega arith),
  read_entry-comment config (32 ∷ s),
  read_lines-line fuel config (b'#' ∷ []) rest (refl, tt) (omega arith),
  read_entry-comment config [],
)

added : (config : Config) (ent : Entry) → config_add config ent.key ent.value ≡ ent ∷ config
unfolding config_add
added config ent = refl

five_more : (n : ℕ) → 5 ≤ n → (m : ℕ) × (n ≡ suc (suc (suc (suc (suc m)))))
five_more n h = (n - 5, omega arith)

length-text_of : (cs : List (Text × Entry)) → length cs * 5 ≤ length (text_of cs)
length-text_of [] = omega arith
length-text_of ((comment, ent) ∷ cs) =
    let pair = write_pair ent.key ent.value in
    omega (
      arith,
      length-append comment (10 ∷ b'#' ∷ 10 ∷ (pair ++ text_of cs)),
      length-append pair (text_of cs),
      length-text_of cs,
    )

read_lines-end : (n : ℕ) (config : Config) → read_lines (suc n) false config [] ≡ some config
unfolding read_lines readline
read_lines-end n config = refl

-- The rounds: four for a comment, one for an entry, and one for the end.
read_lines-text :
    (cs : List (Text × Entry)) (fuel : ℕ) (config : Config)
    → All IsCarried cs
    → length cs * 5 < fuel
    → read_lines fuel false config (text_of cs) ≡ some (reverse (entries cs) ++ config)
read_lines-text [] zero config h n = elim n [ ]
read_lines-text [] (suc fuel) config h n = read_lines-end fuel config
read_lines-text ((comment, ent) ∷ cs) fuel config ((one, short, w), h) n =
    let (m, e) = five_more fuel (omega arith) in
    rw
      (
        e,
        read_lines-commented (suc m) config comment (write_pair ent.key ent.value ++ text_of cs) one
            short,
        read_lines-pair m config ent (text_of cs) w,
        read_lines-text cs m (config_add config ent.key ent.value) h (omega arith),
      )
      (ap (λ c. some (reverse (entries cs) ++ c)) (added config ent)
        ∙ ap some (sym (append_assoc (reverse (entries cs)) (ent ∷ []) config))
        ∙ ap (λ l. some (l ++ config)) (sym (reverse-cons ent (entries cs))))

-- If the generator writes some options with different keys, each with a comment, and the file can
-- carry them, then reading that file succeeds: each option has the value that the source
-- configuration gives it, or its default value if it gives none, and the comments are passed over.
-- The last option comes first, and the entries that were there come behind them.
pub write_options-read :
    (open_file : Text → Option Text) (st : ConfigState) (configfile : Text) (source : Config)
    (os : List Choice)
    → IsDistinct os
    → All IsCarried (choices source os)
    → open_file (take 511 configfile)
      ≡ some (write_options os (record { conffile = []; config = source })).conffile
    → config_read open_file false st configfile ≡ (
      record {
        config_file = take 511 configfile;
        config_list = reverse (entries (choices source os)) ++ st.config_list;
      },
      pos 0,
    )
write_options-read open_file st configfile source os distinct carried opened =
    let cs = choices source os in
    let start : Generator = record { conffile = []; config = source } in
    config_read-lines open_file st configfile (write_options os start).conffile
      (reverse (entries cs) ++ st.config_list) opened
      (rw (write_options-text os start distinct) (
        read_lines-text cs (suc (length (text_of cs))) st.config_list carried
          (omega (arith, length-text_of cs))))
