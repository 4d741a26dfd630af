-- ===== src/Tools/Readline.antt =====
-- `readline`, `sendtextWait` and `freadtrimedline` of src/ABasetools.c. What a descriptor yields
-- is a list of bytes, after which `read` returns 0 (the end) or -1 (an error, or no data yet).
use audiobase.Common.{
  ℕ, zero, suc, ◌+◌, [], ◌∷◌, ◌++◌, reverse, Bool, true, false, not, ◌&&◌, ◌||◌, Option, none, some,
  ltb, ◌==◌, if◌then◌else◌, length, drop, ℤ, negsuc,
}
use audiobase.Text.{Text, nocase_eq}

pub record Input : Type 0 where
  pub bytes : Text
  pub failing : Bool

-- What `readline` leaves in `buf` with its result: a line and its length, or a failure.
pub data Line : Type 0 where
  line : Text → Text → Line
  closed : ℤ → Line

abbrev pub is_line_end : ℕ → Bool
is_line_end b = b == 0 || b == 13 || b == 10

-- The do-while loop. `buf` holds the bytes so far, and its length is `c`.
unfoldable pub read_loop : Bool → ℕ → Text → Text → Option (Text × Text)
read_loop terminate count buf [] = none
read_loop terminate count buf (b ∷ rest) =
    let more = read_loop terminate count (buf ++ b ∷ []) rest in
    if is_line_end b
    then some (buf, rest)
    else if not terminate && ltb (length buf + 1) count
    then more
    else some (buf ++ b ∷ [], rest)

unfoldable pub readline : Bool → ℕ → Input → Line
unfolding read_loop
readline terminate count fd = elim (read_loop terminate count [] fd.bytes) [
  | some (buf, rest) ↦ line buf rest
  | none ↦ closed (if fd.failing then negsuc 1 else negsuc 0)
]

-- The index at which `readline` stores the terminating zero.
abbrev pub terminator : Line → Option ℕ
terminator (line buf rest) = some (length buf)
terminator (closed rc) = none

-- The string in a buffer: what stands before its first zero.
unfoldable pub c_string : Text → Text
c_string [] = []
c_string (b ∷ mem) = if b == 0 then [] else b ∷ c_string mem

-- Bytes that are stored at the start of a buffer.
abbrev pub overlay : Text → Text → Text
overlay bytes mem = bytes ++ drop (length bytes) mem

-- What `readline` leaves in its buffer when it fails: the bytes that it has read, with no
-- terminating zero, or the zero that it stores first.
abbrev pub unfinished : Text → Text → Text
unfinished [] mem = overlay (0 ∷ []) mem
unfinished (b ∷ bytes) mem = overlay (b ∷ bytes) mem

-- `do readline(…); while (!strcasecmp(buf, successMessage))` on a buffer of `count` bytes that
-- holds `mem`. The result is the last thing that the buffer holds, and what is left to read.
unfoldable pub skip_answers : ℕ → Bool → ℕ → Text → Text → Input → Option (Text × Input)
unfolding c_string
skip_answers zero terminate count success mem fd = none
skip_answers (suc fuel) terminate count success mem fd = elim (readline terminate count fd) [
  | line s rest ↦ elim (nocase_eq s success) [
    | true ↦
        skip_answers fuel terminate count success (overlay (s ++ 0 ∷ []) mem)
          (record fd { bytes = rest })
    | false ↦ some (s, record fd { bytes = rest })
  ]
  | closed rc ↦ elim (nocase_eq (c_string (unfinished fd.bytes mem)) success) [
    | true ↦
        skip_answers fuel terminate count success (unfinished fd.bytes mem)
          (record fd { bytes = [] })
    | false ↦ some (c_string (unfinished fd.bytes mem), record fd { bytes = [] })
  ]
]

-- `freadtrimedline`: `buf` is kept in reverse, so its last byte stands first.
unfoldable pub strip_end : Text → Text
strip_end [] = []
strip_end (b ∷ []) = b ∷ []
strip_end (b ∷ c ∷ buf) =
    let rest = strip_end (c ∷ buf) in if b == 32 || b == 9 then rest else b ∷ c ∷ buf

-- A line end takes its partner with it: after CR or LF one further byte is read, and is put back
-- if `rc2 == rc || (rc2 != '\r' || rc2 == '\n')` holds.
unfoldable pub drop_partner : ℕ → Text → Text
drop_partner b [] = []
drop_partner b (c ∷ rest) =
    if b == 0 then c ∷ rest else if c == b || (not (c == 13) || c == 10) then c ∷ rest else rest

unfoldable pub fread_loop : Bool → ℕ → Text → Text → Option (Text × Text)
unfolding drop_partner
fread_loop terminate count buf [] = none
fread_loop terminate count buf (b ∷ rest) =
    let buf' = if ltb 0 (length buf) || not (b == 32 || b == 9) then b ∷ buf else buf in
    let more = fread_loop terminate count buf' rest in
    if is_line_end b
    then some (buf, drop_partner b rest)
    else if not terminate && ltb (length buf') count
    then more
    else some (buf', rest)

unfoldable pub freadtrimedline : Bool → ℕ → Text → Line
unfolding fread_loop strip_end
freadtrimedline terminate count bytes = elim (fread_loop terminate count [] bytes) [
  | some (buf, rest) ↦ line (reverse (strip_end buf)) rest
  | none ↦ closed (negsuc 0)
]
