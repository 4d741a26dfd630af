-- ===== src/CharConv/Convert.antt =====
-- The functions of src/charConv.c. A descriptor of iconv is given by its two charsets, which have no
-- states between characters.
use audiobase.Common.{
  ℕ, zero, suc, [], ◌++◌, Bool, false, ◌&&◌, Option, none, some, if◌then◌else◌, length, ℤ, pos,
  negsuc,
}
use audiobase.Text.{Text, codes, is_empty, text_eq}

-- `iconv_open`, which succeeds or not, and `iconv`, which gets an input and the room for its output
-- and gives the output with the input that is left. Its result and `errno` are not looked at: the
-- code tests an unsigned number for being negative.
pub record Iconv : Type 0 where
  pub iconv_open : Text → Text → Bool
  pub iconv : Text → Text → Text → ℕ → Text × Text

-- `char_conv_to` and `char_conv_from`, which are null pointers at the same times, and
-- `localeCharset`.
pub record CharConv : Type 0 where
  pub charsets : Option (Text × Text)
  pub locale_charset : Option Text

-- BUFFER_SIZE
abbrev pub buffer_size : ℕ
buffer_size = 1024

unfoldable pub close_char_set_conversion : CharConv → CharConv
close_char_set_conversion c = record c { charsets = none }

abbrev pub is_open : Text → Text → Option (Text × Text) → Bool
is_open to from none = false
is_open to from (some (old_to, old_from)) = text_eq to old_to && text_eq from old_from

unfoldable pub set_char_set_conversion : Iconv → Text → Text → CharConv → ℤ × CharConv
unfolding close_char_set_conversion
set_char_set_conversion system to from c =
    if is_open to from c.charsets
    then (pos 0, c)
    else if system.iconv_open to from
    then (pos 0, record c { charsets = some (to, from) })
    else (negsuc 0, close_char_set_conversion c)

-- `while (inleft)`. The inner `none` is the null pointer; the outer one means that the rounds are
-- used up.
unfoldable pub convert_loop : ℕ → (Text → ℕ → Text × Text) → Text → Text → Option (Option Text)
convert_loop zero convert ret string = none
convert_loop (suc fuel) convert ret string =
    let (out, rest) = convert string buffer_size in
    let more = convert_loop fuel convert (ret ++ out) rest in
    if is_empty string then some (some ret) else if is_empty out then some none else more

-- A round for each byte, and one for the end.
unfoldable pub conv_str_dup : Iconv → Text → CharConv → Option (Option Text)
conv_str_dup system string c = elim c.charsets [
  | none ↦ some none
  | some (to, from) ↦ convert_loop (suc (length string)) (system.iconv to from) [] string
]

-- `if (!to) to = strdup(from)`
abbrev pub or_same : Text → Option Text → Text
or_same s none = s
or_same s (some t) = t

abbrev pub dup_result : Text → CharConv → Option (Option Text) → Option (Text × CharConv)
dup_result s c none = none
dup_result s c (some r) = some (or_same s r, c)

-- `none` also means that `localeCharset` is a null pointer.
unfoldable pub to_utf8 : Iconv → Text → CharConv → Option (Text × CharConv)
to_utf8 system s c = elim c.locale_charset [
  | none ↦ none
  | some charset ↦
      let opened = (set_char_set_conversion system (codes "UTF-8") charset c).1 in
      dup_result s opened (conv_str_dup system s opened)
]

unfoldable pub from_utf8 : Iconv → Text → CharConv → Option (Text × CharConv)
from_utf8 system s c = elim c.locale_charset [
  | none ↦ none
  | some charset ↦
      let opened = (set_char_set_conversion system charset (codes "UTF-8") c).1 in
      dup_result s opened (conv_str_dup system s opened)
]

-- `setlocale` and `nl_langinfo` give the name of a charset, or nothing.
unfoldable pub set_locale_charset : Option Text → CharConv → CharConv
set_locale_charset none c = record c { locale_charset = some (codes "ISO-8859-1") }
set_locale_charset (some charset) c = record c { locale_charset = some charset }
