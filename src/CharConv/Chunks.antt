-- ===== src/CharConv/Chunks.antt =====
-- The loop of `convStrDup` (src/charConv.c) over the chunks of its buffer gives the same as a
-- conversion of the whole text.
use audiobase.Common.{
  ℕ, zero, suc, ◌-◌, ◌≤◌, ◌<◌, [], ◌∷◌, ◌++◌, append_assoc, append-nil, length, Bool-cases,
  Option-cases, true, false, ◌||◌, Option, none, some, ◌≡◌, refl, sym, ap, ◌∙◌, ◌⊎◌, inl, inr,
  arith, leb, if◌then◌else◌,
}
use audiobase.Text.{Text, codes, is_empty, text_eq, text_eq_iff}
use audiobase.CharConv.Convert.{
  Iconv, CharConv, buffer_size, is_open, close_char_set_conversion, set_char_set_conversion,
  convert_loop, conv_str_dup, or_same, dup_result, from_utf8,
}

-- A text before the result of a conversion.
abbrev pub before : Text → Option Text → Option Text
before out none = none
before out (some t) = some (out ++ t)

before-before : (s t : Text) (r : Option Text) → before s (before t r) ≡ before (s ++ t) r
before-before s t none = refl
before-before s t (some u) = ap some (sym (append_assoc s t u))

is_open-same :
    (to from : Text) (o : Option (Text × Text)) → is_open to from o ≡ true → o ≡ some (to, from)
is_open-same to from none h = cc
is_open-same to from (some (old_to, old_from)) h =
    let e : text_eq to old_to ≡ true = ground arith in
    let e' : text_eq from old_from ≡ true = ground arith in
    rw ((text_eq_iff to old_to).0 e, (text_eq_iff from old_from).0 e') refl

from_utf8-known :
    (system : Iconv) (charset s : Text) (c : CharConv)
    → c.locale_charset ≡ some charset
    → let opened = (set_char_set_conversion system charset (codes "UTF-8") c).1 in
      from_utf8 system s c ≡ dup_result s opened (conv_str_dup system s opened)
unfolding from_utf8
from_utf8-known system charset s c known = simp (from_utf8, known)

-- One character of the input in the other charset, with the input behind it; `none` is an input
-- that begins with no character that can be converted.
module _ (char : Text → Option (Text × Text)) where
  -- The whole conversion: all characters, or nothing.
  unfoldable pub whole : ℕ → Text → Option Text
  whole n [] = some []
  whole zero (c ∷ s) = none
  whole (suc n) (c ∷ s) = elim (char (c ∷ s)) [
    | none ↦ none
    | some (out, rest) ↦ before out (whole n rest)
  ]

  -- What `iconv` is to do: characters, one by one, as long as there is room.
  unfoldable pub greedy : ℕ → ℕ → Text → Text × Text
  greedy zero room s = ([], s)
  greedy (suc n) room s = elim (char s) [
    | none ↦ ([], s)
    | some (out, rest) ↦
        let more = greedy n (room - length out) rest in
        if leb (length out) room then (out ++ more.0, more.1) else ([], s)
  ]

  -- A character takes some bytes, and gives some that fit into the buffer.
  pub record IsCharset : Type 0 where
    pub at_end : char [] ≡ none
    pub taken : (s out rest : Text) → char s ≡ some (out, rest) → length rest < length s
    pub given : (s out rest : Text) → char s ≡ some (out, rest) → 0 < length out
    pub fits : (s out rest : Text) → char s ≡ some (out, rest) → length out ≤ buffer_size

  before_nothing : (r : Option Text) → before [] r ≡ r
  before_nothing none = refl
  before_nothing (some t) = refl

  module _ (law : IsCharset) where
    whole_enough : (n m : ℕ) (s : Text) → length s ≤ n → length s ≤ m → whole n s ≡ whole m s
    unfolding whole
    whole_enough n m [] h k = refl
    whole_enough zero m (c ∷ s) h k = absurd (omega arith)
    whole_enough (suc n) zero (c ∷ s) h k = absurd (omega arith)
    whole_enough (suc n) (suc m) (c ∷ s) h k = elim (Option-cases (char (c ∷ s))) [
      | inl bad ↦ rw (whole, bad) refl
      | inr ((out, rest), e) ↦
          let less = law.taken (c ∷ s) out rest e in
          rw (whole, e) (ap (before out) (whole_enough n m rest (omega arith) (omega arith)))
    ]

    whole_step :
        (n : ℕ) (s out rest : Text)
        → char s ≡ some (out, rest)
        → whole (suc n) s ≡ before out (whole n rest)
    unfolding whole
    whole_step n [] out rest e = cc (law.at_end, e)
    whole_step n (c ∷ s) out rest e = rw (whole, e) refl

    -- What `iconv` gives and what it leaves.
    greedy-whole :
        (n room : ℕ) (s : Text)
        → length s ≤ n
        → (length (greedy n room s).1 ≤ length s)
          × (whole n s ≡ before (greedy n room s).0 (whole n (greedy n room s).1))
    unfolding greedy
    greedy-whole zero room s h = (omega arith, sym (before_nothing (whole zero s)))
    greedy-whole (suc n) room s h = elim (Option-cases (char s)) [
      | inl bad ↦ rw (bad, greedy) (omega arith, sym (before_nothing (whole (suc n) s)))
      | inr ((out, rest), e) ↦ elim (Bool-cases (leb (length out) room)) [
        | inl room_left ↦
            let less = law.taken s out rest e in
            let (shorter, ih) = greedy-whole n (room - length out) rest (omega arith) in
            let more = greedy n (room - length out) rest in
            rw (e, room_left, greedy)
              (
                omega arith,
                whole_step n s out rest e
                    ∙ ap (before out) ih
                    ∙ before-before out more.0 (whole n more.1)
                    ∙ ap (before (out ++ more.0))
                        (whole_enough n (suc n) more.1 (omega arith) (omega arith)),
              )
        | inr full ↦ rw (e, full, greedy) (omega arith, sym (before_nothing (whole (suc n) s)))
      ]
    ]

    whole_bad : (n c : ℕ) (s : Text) → char (c ∷ s) ≡ none → whole n (c ∷ s) ≡ none
    unfolding whole
    whole_bad zero c s e = refl
    whole_bad (suc n) c s e = rw (whole, e) refl

    -- With the room of a buffer, `iconv` takes a part of the input or stops at a character that
    -- cannot be converted.
    greedy-cases :
        (n c : ℕ) (s : Text)
        → length (c ∷ s) ≤ n
        → ((is_empty (greedy n buffer_size (c ∷ s)).0 ≡ true) × (whole n (c ∷ s) ≡ none))
          ⊎ ((is_empty (greedy n buffer_size (c ∷ s)).0 ≡ false)
              × (length (greedy n buffer_size (c ∷ s)).1 < length (c ∷ s)))
    unfolding greedy
    greedy-cases zero c s h = absurd (omega arith)
    greedy-cases (suc n) c s h = elim (Option-cases (char (c ∷ s))) [
      | inl bad ↦ rw (bad, greedy) (inl (refl, whole_bad (suc n) c s bad))
      | inr (([], rest), e) ↦ absurd (omega (arith, law.given (c ∷ s) [] rest e))
      | inr ((o ∷ out, rest), e) ↦
          let fit : leb (length (o ∷ out)) buffer_size ≡ true =
            ground (arith, law.fits (c ∷ s) (o ∷ out) rest e) in
          let less = law.taken (c ∷ s) (o ∷ out) rest e in
          let shorter = (greedy-whole n (buffer_size - length (o ∷ out)) rest (omega arith)).0 in
          rw (e, fit, greedy) (inr (refl, omega arith))
    ]

    convert_loop-whole :
        (fuel : ℕ) (convert : Text → ℕ → Text × Text) (ret s : Text)
        → ((t : Text) → convert t buffer_size ≡ greedy (length t) buffer_size t)
        → length s < fuel
        → convert_loop fuel convert ret s ≡ some (before ret (whole (length s) s))
    unfolding convert_loop whole
    convert_loop-whole zero convert ret s follows h = elim h [ ]
    convert_loop-whole (suc fuel) convert ret [] follows h = rw append-nil refl
    convert_loop-whole (suc fuel) convert ret (c ∷ s) follows h =
        let r = greedy (length (c ∷ s)) buffer_size (c ∷ s) in
        let (shorter, parts) = greedy-whole (length (c ∷ s)) buffer_size (c ∷ s) (omega arith) in
        elim (greedy-cases (length (c ∷ s)) c s (omega arith)) [
          | inl (nothing, bad) ↦ rw (convert_loop, follows (c ∷ s), nothing, bad) refl
          | inr (something, less) ↦
              rw (convert_loop, follows (c ∷ s), something)
                (convert_loop-whole fuel convert (ret ++ r.0) r.1 follows (omega arith)
                  ∙ ap some (
                      sym (before-before ret r.0 (whole (length r.1) r.1))
                      ∙ ap (λ w. before ret (before r.0 w))
                          (whole_enough (length r.1) (length (c ∷ s)) r.1 (omega arith)
                            (omega arith))
                      ∙ ap (before ret) (sym parts)))
        ]

    -- Opening the conversion and converting.
    opened_dup :
        (system : Iconv) (to from s : Text) (c : CharConv)
        → ((t : Text) → system.iconv to from t buffer_size ≡ greedy (length t) buffer_size t)
        → let opened = (set_char_set_conversion system to from c).1 in
          dup_result s opened (conv_str_dup system s opened)
          ≡ some (
              if is_open to from c.charsets || system.iconv_open to from
              then (or_same s (whole (length s) s), record c { charsets = some (to, from) })
              else (s, record c { charsets = none }))
    unfolding set_char_set_conversion conv_str_dup close_char_set_conversion
    opened_dup system to from s c follows =
        let converts : convert_loop (suc (length s)) (system.iconv to from) [] s
            ≡ some (whole (length s) s) =
          convert_loop-whole (suc (length s)) (system.iconv to from) [] s follows (omega arith)
          ∙ ap some (before_nothing (whole (length s) s)) in
        elim (Bool-cases (is_open to from c.charsets)) [
          | inl same ↦ rw (same, is_open-same to from c.charsets same, converts) refl
          | inr other ↦ elim (Bool-cases (system.iconv_open to from)) [
            | inl accepted ↦ rw (other, accepted, converts) refl
            | inr refused ↦ rw (other, refused) refl
          ]
        ]

    -- If `iconv` gives characters as long as there is room for them, `fromUtf8` gives what a
    -- conversion of the whole text without chunks gives, or the text itself if a character of it
    -- cannot be converted. It leaves its conversion open for the next time. If the conversion is
    -- not open and cannot be opened, it gives the text itself, and leaves none open.
    pub from_utf8_lem :
        (system : Iconv) (charset s : Text) (c : CharConv)
        → c.locale_charset ≡ some charset
        → ((t : Text)
            → system.iconv charset (codes "UTF-8") t buffer_size ≡ greedy (length t) buffer_size t)
        → from_utf8 system s c
          ≡ some (
              if is_open charset (codes "UTF-8") c.charsets
                || system.iconv_open charset (codes "UTF-8")
              then (
                or_same s (whole (length s) s),
                record c { charsets = some (charset, codes "UTF-8") },
              )
              else (s, record c { charsets = none }))
    from_utf8_lem system charset s c known follows =
        from_utf8-known system charset s c known
        ∙ opened_dup system charset (codes "UTF-8") s c follows
