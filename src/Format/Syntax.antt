-- ===== src/Format/Syntax.antt =====
-- `appendToString` and `skipFormatting` of src/util.c, and the extent of a format specifier.
use audiobase.Common.{
  ℕ, suc, ◌+◌, ◌-◌, [], ◌∷◌, ◌++◌, Bool, ◌&&◌, ◌||◌, Option, none, some, leb, ◌==◌, if◌then◌else◌,
}
use audiobase.Text.{Text}

-- `none` is the NULL of a string that has not been started. Allocation succeeds.
unfoldable pub append_to_string : Option Text → Text → Option Text
append_to_string none src = some src
append_to_string (some dest) src = some (dest ++ src)

abbrev pub is_break : ℕ → Bool
is_break c = c == b'&' || (c == b'|' || c == b']')

-- `stack` counts the open brackets.
unfoldable pub skip_formatting : ℕ → Text → Text
skip_formatting stack [] = []
skip_formatting stack (c ∷ []) =
    let open' = (if c == b'[' then stack + 1 else stack) in
    if open' == 0 && is_break c then c ∷ [] else []
skip_formatting stack (c ∷ d ∷ p) =
    let open' = (if c == b'[' then stack + 1 else stack) in
    let escaped = skip_formatting open' p in
    let onwards = skip_formatting (if c == b']' then open' - 1 else open') (d ∷ p) in
    if c == b'#' then escaped else if open' == 0 && is_break c then c ∷ d ∷ p else onwards

-- `while (*end >= 'a' && *end <= 'z') end++`
unfoldable pub count_lower : Text → ℕ
count_lower [] = 0
count_lower (c ∷ s) = if leb b'a' c && leb c b'z' then suc (count_lower s) else 0
