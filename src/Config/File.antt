-- ===== src/Config/File.antt =====
-- Round trip of the configuration file: what `write_pair` of src/ABaseconf.c writes is what
-- `config_read` of src/ABaseconfig.c reads.
use mathlib.Core.List.{cons-ne-nil}
use audiobase.Common.{
  sym, inl, inr, take, ◌∙◌, reverse-reverse, ℕ, zero, suc, ◌+◌, ◌≤◌, ◌<◌, [], ◌∷◌, ◌++◌, reverse,
  append_assoc, reverse-append, reverse-cons, Bool, false, ◌==◌, Option, some, ◌≡◌, ◌≢◌, refl,
  arith, pos, ap, All, All-append, length, length-append,
}
use audiobase.Text.{Text, split_first}
use audiobase.Tools.{trim, trimleft, trimright, readline}
use audiobase.Tools.Blanks.{IsTrimmed, StartsSolid, trim_trimmed, trimleft_solid, trimright_solid}
use audiobase.Tools.Lines.{IsOneLine, readline_line, readline_progress, Line-cases}
use audiobase.Config.Entries.{Entry, Config, config_add}
use audiobase.Config.Reader.{
  read_entry, read_lines, config_read, ConfigState, write_pair, write_pairs,
}

-- The keys and values that the file format can carry: one line of less than 255 bytes, trimmed,
-- and a key that is not empty, has no colon and does not start a comment.
abbrev pub StartsKey : Text → Type 0
StartsKey [] = ⊥
StartsKey (c ∷ s) = (c == b'#') ≡ false

pub record IsWritable (ent : Entry) : Type 0 where
  pub key_start : StartsKey ent.key
  pub key_trimmed : IsTrimmed ent.key
  pub key_plain : All (λ c. (c == b':') ≡ false) ent.key
  pub key_line : IsOneLine ent.key
  pub value_trimmed : IsTrimmed ent.value
  pub value_line : IsOneLine ent.value
  pub short : length ent.key + length ent.value + 2 < 255

split_first_plain :
    (k r : Text) → All (λ c. (c == b':') ≡ false) k → split_first b':' (k ++ b':' ∷ r) ≡ some (k, r)
unfolding split_first
split_first_plain [] r h = ground arith
split_first_plain (c ∷ k) r h = rw (split_first_plain k r h.1, h.0)

read_entry_split :
    (config : Config) (k r : Text)
    → StartsKey k
    → All (λ c. (c == b':') ≡ false) k
    → read_entry config (k ++ b':' ∷ r) ≡ config_add config (trim k) (trim r)
unfolding read_entry
read_entry_split config [] r hk hp = absurd hk
read_entry_split config (c ∷ k) r hk hp = rw (hk, split_first_plain (c ∷ k) r hp)

trimright_space : (s : Text) → trimright (s ++ 32 ∷ []) ≡ trimright s
unfolding trimright trimleft
trimright_space s = rw (reverse-append s (32 ∷ []))

StartsSolid-append : (s t : Text) → s ≢ [] → StartsSolid s → StartsSolid (s ++ t)
StartsSolid-append [] t n h = absurd (n refl)
StartsSolid-append (c ∷ s) t n h = h

reverse-ne-nil : (s : Text) → s ≢ [] → reverse s ≢ []
reverse-ne-nil s n h = n (sym (reverse-reverse s) ∙ ap reverse h)

StartsKey-ne-nil : (k : Text) → StartsKey k → k ≢ []
StartsKey-ne-nil [] h = absurd h
StartsKey-ne-nil (c ∷ k) h = cons-ne-nil c k

-- The line of an entry, without its end.
abbrev pair_line : Text → Text → Text
pair_line k v = k ++ b':' ∷ 32 ∷ v

reverse-pair : (k v : Text) → reverse (pair_line k v) ≡ reverse v ++ (32 ∷ b':' ∷ reverse k)
reverse-pair k v = rw (
  reverse-append k (b':' ∷ 32 ∷ v),
  reverse-cons b':' (32 ∷ v),
  reverse-cons 32 v,
  append_assoc (reverse v) (32 ∷ []) (b':' ∷ []),
  append_assoc (reverse v) (32 ∷ b':' ∷ []) (reverse k),
)

trim-pair :
    (k v : Text)
    → StartsKey k
    → IsTrimmed k
    → v ≢ []
    → IsTrimmed v
    → trim (pair_line k v) ≡ pair_line k v
trim-pair k v hk tk n tv = trim_trimmed (pair_line k v) (
  StartsSolid-append k _ (StartsKey-ne-nil k hk) tk.0,
  rw (reverse-pair k v) (StartsSolid-append (reverse v) _ (reverse-ne-nil v n) tv.1),
)

trim-pair_empty : (k : Text) → StartsKey k → IsTrimmed k → trim (pair_line k []) ≡ k ++ b':' ∷ []
unfolding trim
trim-pair_empty k hk tk =
    rw (← append_assoc k (b':' ∷ []) (32 ∷ []), trim, trimright_space (k ++ b':' ∷ []))
      (trim_trimmed (k ++ b':' ∷ []) (
        StartsSolid-append k _ (StartsKey-ne-nil k hk) tk.0,
        rw (reverse-append k (b':' ∷ [])) refl,
      ))

trim-value : (v : Text) → v ≢ [] → IsTrimmed v → trim (32 ∷ v) ≡ v
unfolding trim
trim-value v n tv =
    rw
      (
        trim,
        trimright_solid (32 ∷ v)
            (rw (reverse-cons 32 v) (StartsSolid-append (reverse v) _ (reverse-ne-nil v n) tv.1)),
      )
      (unfold trimleft in trimleft_solid v tv.0)

read_entry-pair :
    (config : Config) (k v : Text)
    → StartsKey k
    → IsTrimmed k
    → All (λ c. (c == b':') ≡ false) k
    → IsTrimmed v
    → read_entry config (trim (pair_line k v)) ≡ config_add config k v
read_entry-pair config k [] hk tk hp tv = rw (
  trim-pair_empty k hk tk,
  read_entry_split config k [] hk hp,
  trim_trimmed k tk,
  trim_trimmed [] tv,
)
read_entry-pair config k (c ∷ v) hk tk hp tv = rw (
  trim-pair k (c ∷ v) hk tk (cons-ne-nil c v) tv,
  read_entry_split config k (32 ∷ c ∷ v) hk hp,
  trim_trimmed k tk,
  trim-value (c ∷ v) (cons-ne-nil c v) tv,
)

write_pair-line : (k v rest : Text) → write_pair k v ++ rest ≡ pair_line k v ++ (10 ∷ rest)
unfolding write_pair
write_pair-line k v rest = simp append_assoc

length-pair : (k v : Text) → length (pair_line k v) ≡ length k + length v + 2
length-pair k v = omega (arith, length-append k (b':' ∷ 32 ∷ v))

pair_line-IsOneLine : (k v : Text) → IsOneLine k → IsOneLine v → IsOneLine (pair_line k v)
pair_line-IsOneLine k v hk hv = All-append _ k (b':' ∷ 32 ∷ v) hk (refl, (refl, hv))

-- One round of the loop over the lines.
pub read_lines-line :
    (fuel : ℕ) (config : Config) (s rest : Text)
    → IsOneLine s
    → length s < 255
    → read_lines (suc fuel) false config (s ++ 10 ∷ rest)
      ≡ read_lines fuel false (read_entry config (trim s)) rest
unfolding read_lines
read_lines-line fuel config s rest hs h =
    rw (readline_line 255 s 10 rest false hs refl h, read_lines)

pub read_lines-pair :
    (fuel : ℕ) (config : Config) (ent : Entry) (rest : Text)
    → IsWritable ent
    → read_lines (suc fuel) false config (write_pair ent.key ent.value ++ rest)
      ≡ read_lines fuel false (config_add config ent.key ent.value) rest
read_lines-pair fuel config ent rest w =
    let k : Text = ent.key in
    let v : Text = ent.value in
    rw (
      write_pair-line k v rest,
      read_lines-line fuel config (pair_line k v) rest
          (pair_line-IsOneLine k v w.key_line w.value_line)
          (omega (arith, length-pair k v, w.short)),
      read_entry-pair config k v w.key_start w.key_trimmed w.key_plain w.value_trimmed,
    )

write_pairs_first :
    (ent : Entry) (es : Config)
    → write_pairs (ent ∷ es) ≡ write_pair ent.key ent.value ++ write_pairs es
unfolding write_pairs
write_pairs_first ent es = refl

read_lines-write_pairs :
    (fuel : ℕ) (config es : Config)
    → All IsWritable es
    → length es < fuel
    → read_lines fuel false config (write_pairs es) ≡ some (reverse es ++ config)
read_lines-write_pairs zero config es h n = absurd (omega arith)
read_lines-write_pairs (suc fuel) config [] h n = unfold read_lines write_pairs readline in refl
read_lines-write_pairs (suc fuel) config (ent ∷ es) h n =
    rw
      (
        write_pairs_first ent es,
        read_lines-pair fuel config ent (write_pairs es) h.0,
        read_lines-write_pairs fuel (config_add config ent.key ent.value) es h.1 (omega arith),
      )
      (unfold config_add in rw (reverse-cons ent es, append_assoc (reverse es) (ent ∷ []) config))

length-write_pairs : (es : Config) → length es ≤ length (write_pairs es)
unfolding write_pairs write_pair
length-write_pairs [] = omega arith
length-write_pairs (ent ∷ es) = omega (
  arith,
  length-write_pairs es,
  length-append (write_pair ent.key ent.value) (write_pairs es),
  length-append ent.key (b':' ∷ 32 ∷ (ent.value ++ 10 ∷ [])),
)

pub config_read-lines :
    (open_file : Text → Option Text) (st : ConfigState) (configfile bytes : Text) (config : Config)
    → open_file (take 511 configfile) ≡ some bytes
    → read_lines (suc (length bytes)) false st.config_list bytes ≡ some config
    → config_read open_file false st configfile
      ≡ (record { config_file = take 511 configfile; config_list = config }, pos 0)
unfolding config_read
config_read-lines open_file st configfile bytes config opened lines =
    rw (opened, config_read, lines)

-- If the file can be opened and holds the lines which `write_pair` writes for some entries that the
-- format can carry, reading it succeeds, and puts these entries, the last one first, in front of
-- the entries that were there.
pub read-write :
    (open_file : Text → Option Text) (st : ConfigState) (configfile : Text) (es : Config)
    → All IsWritable es
    → open_file (take 511 configfile) ≡ some (write_pairs es)
    → config_read open_file false st configfile ≡ (
      record { config_file = take 511 configfile; config_list = reverse es ++ st.config_list },
      pos 0,
    )
read-write open_file st configfile es h e =
    config_read-lines open_file st configfile (write_pairs es) (reverse es ++ st.config_list) e (
      read_lines-write_pairs (suc (length (write_pairs es))) st.config_list es h
        (omega (arith, length-write_pairs es)))

-- The loop over the lines of a file comes to an end with some entries, if the fuel is more than the
-- bytes of the file.
read_lines_total :
    (fuel : ℕ) (terminate : Bool) (config : Config) (bytes : Text)
    → length bytes < fuel
    → (c : Config) × (read_lines fuel terminate config bytes ≡ some c)
unfolding read_lines
read_lines_total zero terminate config bytes h = absurd (omega arith)
read_lines_total (suc fuel) terminate config bytes h =
    elim (Line-cases (readline terminate 255 (record { bytes = bytes; failing = false }))) [
      | inl (rc, e) ↦ (config, rw (e, read_lines))
      | inr (s, rest, e) ↦
          rw (e, read_lines)
            (read_lines_total fuel terminate (read_entry config (trim s)) rest
              (omega (arith, readline_progress terminate 255 _ s rest e)))
    ]
