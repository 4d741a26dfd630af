-- ===== src/Config/Reader.antt =====
-- `config_read` and `config_reload` of src/ABaseconfig.c, `write_pair` of src/ABaseconf.c.
use audiobase.Common.{
  ℕ, zero, suc, [], ◌∷◌, ◌++◌, Bool, false, ◌==◌, Option, none, some, if◌then◌else◌, ℤ, pos, negsuc,
  take, length,
}
use audiobase.Text.{Text, split_first}
use audiobase.Tools.{line, closed, readline, trim}
use audiobase.Config.Entries.{Config, config_add, config_free}

-- One line of the file: an empty line, a comment and a line without a colon are passed over.
unfoldable pub read_entry : Config → Text → Config
read_entry config [] = config
read_entry config (c ∷ s) = if c == b'#' then config else elim (split_first b':' (c ∷ s)) [
  | none ↦ config
  | some (key, value) ↦ config_add config (trim key) (trim value)
]

-- The while loop over the lines, with `buf` of 255 bytes; `none` means that the fuel ran out.
unfoldable pub read_lines : ℕ → Bool → Config → Text → Option Config
read_lines zero terminate config bytes = none
read_lines (suc fuel) terminate config bytes =
    elim (readline terminate 255 (record { bytes = bytes; failing = false })) [
      | closed rc ↦ some config
      | line s rest ↦ read_lines fuel terminate (read_entry config (trim s)) rest
    ]

-- The state: the name kept in `config_file` and the entries.
pub record ConfigState : Type 0 where
  pub config_file : Text
  pub config_list : Config

-- The file system gives the bytes of a file that can be opened.
unfoldable pub config_read : (Text → Option Text) → Bool → ConfigState → Text → ConfigState × ℤ
unfolding read_lines
config_read open_file terminate st configfile =
    let name = take 511 configfile in
    elim (open_file name) [
      | none ↦ (record st { config_file = name }, negsuc 0)
      | some bytes ↦ elim (read_lines (suc (length bytes)) terminate st.config_list bytes) [
        | none ↦ (record st { config_file = name }, negsuc 0)
        | some config ↦ (record { config_file = name; config_list = config }, pos 0)
      ]
    ]

unfoldable pub config_reload : (Text → Option Text) → Bool → ConfigState → ConfigState
unfolding config_read config_free
config_reload open_file terminate st =
    (config_read open_file terminate (record st { config_list = config_free st.config_list })
      st.config_file).0

-- `fprintf(conffile, "%s: %s\n", name, value)`
unfoldable pub write_pair : Text → Text → Text
write_pair name value = name ++ (b':' ∷ 32 ∷ (value ++ 10 ∷ []))

unfoldable pub write_pairs : Config → Text
unfolding write_pair
write_pairs [] = []
write_pairs (ent ∷ config) = write_pair ent.key ent.value ++ write_pairs config
