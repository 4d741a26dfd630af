-- ===== src/Text/Numbers.antt =====
-- `strtol`, `atoi` and the conversion of a number to decimal (`%d`, `%02d`).
use audiobase.Common.{
  ℕ, zero, suc, ◌+◌, ◌-◌, ◌*◌, ◌/◌, ◌%◌, ◌^◌, [], ◌∷◌, ◌&&◌, ◌||◌, ltb, leb, ◌==◌, if◌then◌else◌, ℤ,
  pos, negsuc, pos_part, neg_part, sub_ℕ,
}
use audiobase.Text.Chars.{Text, is_digit, is_space}

unfoldable pub skip_space : Text → Text
skip_space [] = []
skip_space (c ∷ s) = if is_space c then skip_space s else c ∷ s

-- The value of a hexadecimal digit; 16 for any other byte.
abbrev pub digit_value : ℕ → ℕ
digit_value c =
    if is_digit c
    then c - b'0'
    else if leb b'a' c && leb c b'f'
    then c - b'a' + 10
    else if leb b'A' c && leb c b'F'
    then c - b'A' + 10
    else 16

-- The digits up to the first byte that is none.
unfoldable pub read_digits : ℕ → ℕ → Text → ℕ
read_digits base n [] = n
read_digits base n (c ∷ s) =
    let rest = read_digits base (n * base + digit_value c) s in
    if ltb (digit_value c) base then rest else n

-- Base 0: a leading 0x means hexadecimal, a leading 0 octal.
unfoldable pub read_any_base : Text → ℕ
unfolding read_digits
read_any_base [] = 0
read_any_base (c ∷ []) = read_digits 10 0 (c ∷ [])
read_any_base (c ∷ d ∷ []) =
    if c == b'0' then read_digits 8 0 (d ∷ []) else read_digits 10 0 (c ∷ d ∷ [])
read_any_base (c ∷ d ∷ e ∷ s) =
    if c == b'0'
    then (if (d == b'x' || d == b'X') && ltb (digit_value e) 16
        then read_digits 16 0 (e ∷ s)
        else read_digits 8 0 (d ∷ e ∷ s))
    else read_digits 10 0 (c ∷ d ∷ e ∷ s)

-- The optional sign; the result is held to the range of a 64-bit `long`.
unfoldable pub signed : (Text → ℕ) → Text → ℤ
signed digits [] = pos 0
signed digits (c ∷ s) =
    if c == b'-'
    then sub_ℕ 0 (if leb (digits s) (2 ^ 63) then digits s else 2 ^ 63)
    else (let v = (if c == b'+' then digits s else digits (c ∷ s)) in
        pos (if ltb v (2 ^ 63) then v else 2 ^ 63 - 1))

-- The conversion of a `long` to an `int` keeps the low 32 bits.
unfoldable pub to_int : ℤ → ℤ
to_int z =
    let r = (pos_part z % 2 ^ 32 + 2 ^ 32 - neg_part z % 2 ^ 32) % 2 ^ 32 in
    if ltb r (2 ^ 31) then pos r else negsuc (2 ^ 32 - r - 1)

-- `(int)strtol(s, NULL, 0)`
unfoldable pub strtol_any : Text → ℤ
unfolding skip_space read_any_base signed to_int
strtol_any s = to_int (signed read_any_base (skip_space s))

-- `atoi(s)`, which is `(int)strtol(s, NULL, 10)`
unfoldable pub atoi : Text → ℤ
unfolding skip_space read_digits signed to_int
atoi s = to_int (signed (read_digits 10 0) (skip_space s))

-- The decimal digits of n, put in front of `out`.
unfoldable pub emit : ℕ → ℕ → Text → Text
emit zero n out = out
emit (suc fuel) n out =
    let rest = emit fuel (n / 10) ((b'0' + n % 10) ∷ out) in
    if n / 10 == 0 then (b'0' + n % 10) ∷ out else rest

-- `%d` of a number that is not negative
unfoldable pub show_nat : ℕ → Text
unfolding emit
show_nat n = emit (suc n) n []

-- `%d`
unfoldable pub show_int : ℤ → Text
unfolding show_nat
show_int (pos n) = show_nat n
show_int (negsuc n) = b'-' ∷ show_nat (suc n)

-- `%02d`
unfoldable pub show_02 : ℤ → Text
unfolding show_int
show_02 (pos n) = if ltb n 10 then b'0' ∷ show_nat n else show_nat n
show_02 (negsuc n) = show_int (negsuc n)
