-- ===== src/CharConv/Tests.antt =====
-- Tests of the conversion of charsets (src/charConv.c), and the theorem at a concrete input.
use audiobase.Common.{
  ◌+◌, ◌-◌, ◌*◌, ◌≤◌, ◌<◌, [], ◌∷◌, true, ◌||◌, ◌==◌, ltb, Option, none, some, ◌≡◌, refl, arith,
  if◌then◌else◌, length,
}
use audiobase.Text.{Text, codes}
use audiobase.CharConv.{
  Iconv, CharConv, buffer_size, or_same, from_utf8, set_char_set_conversion, convert_loop,
  conv_str_dup,
}
use audiobase.CharConv.Chunks.{greedy, whole, IsCharset, from_utf8_lem}

-- From UTF-8 to ISO-8859-1.
abbrev latin : Text → Option (Text × Text)
latin [] = none
latin (b ∷ []) = if ltb b 128 then some (b ∷ [], []) else none
latin (b ∷ d ∷ s) =
    if ltb b 128
    then some (b ∷ [], d ∷ s)
    else if b == 194 || b == 195
    then some (((b - 194) * 64 + d) ∷ [], s)
    else none

latin-taken :
    (s out rest : Text)
    → latin s ≡ some (out, rest)
    → (length rest < length s) × (0 < length out) × (length out ≤ buffer_size)
latin-taken [] out rest e = cc
latin-taken (b ∷ []) out rest e = ground arith
latin-taken (b ∷ d ∷ s) out rest e = ground arith

latin-IsCharset : IsCharset latin
latin-IsCharset = record {
  at_end = refl;
  taken = λ s out rest e. (latin-taken s out rest e).0;
  given = λ s out rest e. (latin-taken s out rest e).1;
  fits = λ s out rest e. (latin-taken s out rest e).2;
}

abbrev system : Iconv
system = record {
  iconv_open = λ to from. true;
  iconv = λ to from s room. greedy latin (length s) room s;
}

abbrev start : CharConv
start = record { charsets = none; locale_charset = some (codes "ISO-8859-1") }

-- An o with two dots, between two letters.
abbrev name : Text
name = 106 ∷ 195 ∷ 182 ∷ 114 ∷ []

converts :
    from_utf8 system name start
    ≡ some
        (106 ∷ 246 ∷ 114 ∷ [], record start { charsets = some (codes "ISO-8859-1", codes "UTF-8") })
unfolding from_utf8 conv_str_dup set_char_set_conversion convert_loop greedy
converts = refl

-- A text that is no UTF-8 stays as it is.
keeps :
    from_utf8 system (106 ∷ 246 ∷ []) start
    ≡ some (106 ∷ 246 ∷ [], record start { charsets = some (codes "ISO-8859-1", codes "UTF-8") })
unfolding from_utf8 conv_str_dup set_char_set_conversion convert_loop greedy
keeps = refl

from_utf8_lem_example :
    from_utf8 system name start
    ≡ some (
      or_same name (whole latin (length name) name),
      record start { charsets = some (codes "ISO-8859-1", codes "UTF-8") },
    )
from_utf8_lem_example =
    from_utf8_lem latin latin-IsCharset system (codes "ISO-8859-1") name start refl (λ t. refl)
