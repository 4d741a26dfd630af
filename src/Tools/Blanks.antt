-- ===== src/Tools/Blanks.antt =====
-- What trimming does: the laws of src/ABasetools.c's `trim`.
use audiobase.Common.{
  inl, inr, All-append, [], ◌∷◌, ◌++◌, reverse, reverse-append, reverse-reverse, reverse-cons,
  append_assoc, true, false, ◌≡◌, refl, sym, ap, ◌∙◌, arith, All, Bool-cases,
}
use audiobase.Text.{Text}
use audiobase.Tools.Trim.{is_blank, trimleft, trimright, trim}

-- A string that does not start with a blank.
abbrev pub StartsSolid : Text → Type 0
StartsSolid [] = Unit {0}
StartsSolid (c ∷ s) = is_blank c ≡ false

-- A string with a blank at neither end.
abbrev pub IsTrimmed : Text → Type 0
IsTrimmed s = StartsSolid s × StartsSolid (reverse s)

trimleft-StartsSolid : (s : Text) → StartsSolid (trimleft s)
unfolding trimleft
trimleft-StartsSolid [] = tt
trimleft-StartsSolid (c ∷ s) = ground (arith, trimleft-StartsSolid s)

pub trimleft_solid : (s : Text) → StartsSolid s → trimleft s ≡ s
unfolding trimleft
trimleft_solid [] h = refl
trimleft_solid (c ∷ s) h = rw h

pub trimright_solid : (s : Text) → StartsSolid (reverse s) → trimright s ≡ s
unfolding trimright
trimright_solid s h = rw (trimleft_solid (reverse s) h) (reverse-reverse s)

-- A trimmed string is left as it is.
pub trim_trimmed : (s : Text) → IsTrimmed s → trim s ≡ s
unfolding trim
trim_trimmed s h = rw (trimright_solid s h.1) (trimleft_solid s h.0)

pub trimleft_blanks : (p s : Text) → All (λ c. is_blank c ≡ true) p → trimleft (p ++ s) ≡ trimleft s
unfolding trimleft
trimleft_blanks [] s h = refl
trimleft_blanks (c ∷ p) s h = rw h.0 (trimleft_blanks p s h.1)

-- What `trimleft` removes is blanks.
pub trimleft_split :
    (s : Text) → (p : Text) × All (λ c. is_blank c ≡ true) p × (s ≡ p ++ trimleft s)
unfolding trimleft
trimleft_split [] = ([], tt, refl)
trimleft_split (c ∷ s) = elim (Bool-cases (is_blank c)) [
  | inl e ↦ let (p, blank, split) = trimleft_split s in (c ∷ p, (e, blank), rw e (ap (◌∷◌ c) split))
  | inr e ↦ ([], tt, rw e)
]

All-reverse : (p : Text) → All (λ c. is_blank c ≡ true) p → All (λ c. is_blank c ≡ true) (reverse p)
All-reverse [] h = tt
All-reverse (c ∷ p) h =
    rw (reverse-cons c p) (All-append _ (reverse p) (c ∷ []) (All-reverse p h.1) (h.0, tt))

trimright_split : (s : Text) → (q : Text) × All (λ c. is_blank c ≡ true) q × (s ≡ trimright s ++ q)
unfolding trimright
trimright_split s =
    let (p, blank, split) = trimleft_split (reverse s) in
    (
      reverse p,
      All-reverse p blank,
      sym (reverse-reverse s) ∙ ap reverse split ∙ reverse-append p (trimleft (reverse s)),
    )

StartsSolid-prefix : (s t : Text) → StartsSolid (s ++ t) → StartsSolid s
StartsSolid-prefix [] t h = tt
StartsSolid-prefix (c ∷ s) t h = h

trim-IsTrimmed : (s : Text) → IsTrimmed (trim s)
unfolding trim trimright
trim-IsTrimmed s =
    let t : Text = trimleft (reverse s) in
    let (p, blank, split) = trimleft_split (reverse t) in
    (
      trimleft-StartsSolid (reverse t),
      StartsSolid-prefix (reverse (trimleft (reverse t))) (reverse p) (
          rw (← reverse-append p (trimleft (reverse t)), ← split, reverse-reverse t)
            (trimleft-StartsSolid (reverse s))),
    )

-- A string is blanks, its trimmed part and blanks again, and the trimmed part has a blank at
-- neither end.
pub trim_lem :
    (s : Text)
    → (p : Text) × (q : Text) × All (λ c. is_blank c ≡ true) p
      × All (λ c. is_blank c ≡ true) q
      × (s ≡ p ++ (trim s ++ q))
      × IsTrimmed (trim s)
unfolding trim
trim_lem s =
    let (q, blank_q, split_q) = trimright_split s in
    let (p, blank_p, split_p) = trimleft_split (trimright s) in
    (
      p,
      q,
      blank_p,
      blank_q,
      split_q ∙ ap (λ t. t ++ q) split_p ∙ append_assoc p (trimleft (trimright s)) q,
      trim-IsTrimmed s,
    )
