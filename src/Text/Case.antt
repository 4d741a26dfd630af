-- ===== src/Text/Case.antt =====
-- Comparison of strings with and without regard to case.
use audiobase.Common.{
  [], ◌∷◌, map, Bool, true, false, ◌&&◌, ◌≡◌, ◌↔◌, refl, sym, ◌∙◌, arith, ◌==◌, if◌then◌else◌, ℤ,
  pos, neg, ◌-ℤ◌,
}
use audiobase.Text.Chars.{Text, to_lower}

-- `strcmp(s, t) == 0`
unfoldable pub text_eq : Text → Text → Bool
text_eq [] [] = true
text_eq [] (d ∷ t) = false
text_eq (c ∷ s) [] = false
text_eq (c ∷ s) (d ∷ t) = c == d && text_eq s t

-- `strcasecmp(s, t) == 0`
unfoldable pub nocase_eq : Text → Text → Bool
nocase_eq [] [] = true
nocase_eq [] (d ∷ t) = false
nocase_eq (c ∷ s) [] = false
nocase_eq (c ∷ s) (d ∷ t) = to_lower c == to_lower d && nocase_eq s t

-- `strcasecmp`: the difference of the first two letters that differ.
unfoldable pub strcasecmp : Text → Text → ℤ
unfolding ◌-ℤ◌
strcasecmp [] [] = pos 0
strcasecmp [] (d ∷ t) = neg (pos (to_lower d))
strcasecmp (c ∷ s) [] = pos (to_lower c)
strcasecmp (c ∷ s) (d ∷ t) =
    let rest = strcasecmp s t in
    if to_lower c == to_lower d then rest else pos (to_lower c) -ℤ pos (to_lower d)

pub text_eq_iff : (s t : Text) → (text_eq s t ≡ true) ↔ (s ≡ t)
unfolding text_eq
text_eq_iff [] [] = (λ _. refl, λ _. refl)
text_eq_iff [] (d ∷ t) = (λ h. cc, λ h. cc)
text_eq_iff (c ∷ s) [] = (λ h. cc, λ h. cc)
text_eq_iff (c ∷ s) (d ∷ t) =
    (λ h. ground (arith, text_eq_iff s t), λ h. ground (arith, text_eq_iff s t))

pub nocase_eq_iff : (s t : Text) → (nocase_eq s t ≡ true) ↔ (map to_lower s ≡ map to_lower t)
unfolding nocase_eq
nocase_eq_iff [] [] = (λ _. refl, λ _. refl)
nocase_eq_iff [] (d ∷ t) = (λ h. cc, λ h. cc)
nocase_eq_iff (c ∷ s) [] = (λ h. cc, λ h. cc)
nocase_eq_iff (c ∷ s) (d ∷ t) =
    (λ h. ground (arith, nocase_eq_iff s t), λ h. ground (arith, nocase_eq_iff s t))

pub nocase_eq_refl : (s : Text) → nocase_eq s s ≡ true
nocase_eq_refl s = (nocase_eq_iff s s).1 refl

pub nocase_eq-sym : (s t : Text) → nocase_eq s t ≡ true → nocase_eq t s ≡ true
nocase_eq-sym s t h = (nocase_eq_iff t s).1 (sym ((nocase_eq_iff s t).0 h))

pub nocase_eq_trans :
    (s t u : Text) → nocase_eq s t ≡ true → nocase_eq t u ≡ true → nocase_eq s u ≡ true
nocase_eq_trans s t u h k =
    (nocase_eq_iff s u).1 ((nocase_eq_iff s t).0 h ∙ (nocase_eq_iff t u).0 k)

-- Strings that are equal up to case compare alike with any third.
pub nocase_eq-congr : (s t u : Text) → nocase_eq s t ≡ true → nocase_eq s u ≡ nocase_eq t u
nocase_eq-congr s t u h =
    ground (arith, nocase_eq_trans t s u (nocase_eq-sym s t h), nocase_eq_trans s t u h)
