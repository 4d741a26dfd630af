-- ===== src/Text/Tokens.antt =====
-- `strtok`. The state that it keeps between calls, the unread rest, is passed on.
use audiobase.Common.{
  ℕ, suc, ◌≤◌, [], ◌∷◌, Bool, false, ◌||◌, Option, none, some, ◌≡◌, arith, ◌==◌, if◌then◌else◌,
  length,
}
use audiobase.Text.Chars.{Text}

abbrev pub contains : Text → ℕ → Bool
contains [] c = false
contains (d ∷ delims) c = d == c || contains delims c

unfoldable pub skip_delims : Text → Text → Text
skip_delims delims [] = []
skip_delims delims (c ∷ s) = if contains delims c then skip_delims delims s else c ∷ s

-- The token, and the rest behind the delimiter that ends it.
unfoldable pub cut_token : Text → Text → Text × Text
cut_token delims [] = ([], [])
cut_token delims (c ∷ s) =
    let rest = cut_token delims s in if contains delims c then ([], s) else (c ∷ rest.0, rest.1)

first_token : Text → Text → Option (Text × Text)
unfolding cut_token
first_token delims [] = none
first_token delims (c ∷ s) = some (cut_token delims (c ∷ s))

unfoldable pub strtok : Text → Text → Option (Text × Text)
unfolding skip_delims first_token
strtok delims s = first_token delims (skip_delims delims s)

-- " \t"
abbrev pub blanks : Text
blanks = 32 ∷ 9 ∷ []

skip_delims-length : (delims s : Text) → length (skip_delims delims s) ≤ length s
unfolding skip_delims
skip_delims-length delims [] = omega arith
skip_delims-length delims (c ∷ s) = ground (arith, skip_delims-length delims s)

cut_token-length : (delims s : Text) → length (cut_token delims s).1 ≤ length s
unfolding cut_token
cut_token-length delims [] = omega arith
cut_token-length delims (c ∷ s) = ground (arith, cut_token-length delims s)

first_token-length :
    (delims u t r : Text) → first_token delims u ≡ some (t, r) → suc (length r) ≤ length u
unfolding first_token
first_token-length delims [] t r h = cc
first_token-length delims (c ∷ u) t r h = ground (arith, cut_token-length delims u)

-- A token is never empty, so the rest gets shorter.
pub strtok-length :
    (delims s t r : Text) → strtok delims s ≡ some (t, r) → suc (length r) ≤ length s
strtok-length delims s t r h =
    unfold strtok in
    omega
      (arith, first_token-length delims (skip_delims delims s) t r h, skip_delims-length delims s)
