-- ===== src/Tools/Trim.antt =====
-- `trimleft`, `trimright` and `trim` of src/ABasetools.c.
use audiobase.Common.{ℕ, [], ◌∷◌, reverse, Bool, ◌||◌, ◌==◌, if◌then◌else◌}
use audiobase.Text.{Text}

abbrev pub is_blank : ℕ → Bool
is_blank c = c == 32 || c == 9

unfoldable pub trimleft : Text → Text
trimleft [] = []
trimleft (c ∷ s) = if is_blank c then trimleft s else c ∷ s

-- The loop walks back from the last byte.
unfoldable pub trimright : Text → Text
unfolding trimleft
trimright s = reverse (trimleft (reverse s))

unfoldable pub trim : Text → Text
unfolding trimright trimleft
trim s = trimleft (trimright s)
