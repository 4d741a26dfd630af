-- ===== src/Text/Search.antt =====
-- `strchr`, `strrchr`, `strncmp` and `snprintf`'s cut.
use audiobase.Common.{
  ℕ, zero, suc, ◌-◌, [], ◌∷◌, Bool, true, false, ◌&&◌, Option, none, some, ◌==◌, if◌then◌else◌,
  take,
}
use audiobase.Text.Chars.{Text}

-- `strchr`: the rest of the string from the first `c` on.
unfoldable pub strchr : ℕ → Text → Option Text
strchr c [] = none
strchr c (x ∷ s) = if x == c then some (x ∷ s) else strchr c s

-- `strrchr`: the rest of the string from the last `c` on.
unfoldable pub strrchr : ℕ → Text → Option Text
strrchr c [] = none
strrchr c (x ∷ s) = elim (strrchr c s) [
  | some t ↦ some t
  | none ↦ if x == c then some (x ∷ s) else none
]

-- What stands before the last `c`: `*strrchr(s, c) = 0`.
unfoldable pub before_last : ℕ → Text → Text
before_last c [] = []
before_last c (x ∷ s) = elim (strrchr c s) [
  | some t ↦ x ∷ before_last c s
  | none ↦ if x == c then [] else x ∷ s
]

-- What stands before and behind the first `c`.
unfoldable pub split_first : ℕ → Text → Option (Text × Text)
split_first c [] = none
split_first c (x ∷ s) = elim (split_first c s) [
  | some (a, b) ↦ if x == c then some ([], s) else some (x ∷ a, b)
  | none ↦ if x == c then some ([], s) else none
]

-- `strncmp(s, t, n) == 0`
unfoldable pub strncmp_eq : Text → Text → ℕ → Bool
strncmp_eq s t zero = true
strncmp_eq [] [] (suc n) = true
strncmp_eq [] (y ∷ t) (suc n) = false
strncmp_eq (x ∷ s) [] (suc n) = false
strncmp_eq (x ∷ s) (y ∷ t) (suc n) = x == y && strncmp_eq s t n

-- `snprintf(buf, n, …)` keeps n - 1 bytes.
abbrev pub snprintf : ℕ → Text → Text
snprintf n s = take (n - 1) s
