-- ===== src/Display/Average.antt =====
-- The average of the bit rate in the status line (`mod_lcdproc_refresh` of src/mod_lcdproc.c).
use audiobase.Common.{
  ℕ, zero, suc, ◌+◌, ◌*◌, ◌/◌, ◌≤◌, ◌<◌, Bool-cases, inl, inr, ◌≡◌, ap, ◌∙◌, arith, ℤ, pos, ◌+ℤ◌,
  div_ℤ, leb, ltb, if◌then◌else◌, ◌==◌,
}
use audiobase.Display.Status.{average}

-- The line is shown n more times while the bit rate is the same.
abbrev pub shown_times : ℕ → ℤ → ℤ × ℕ → ℤ × ℕ
shown_times zero bit_rate (sum, counter) = (sum, counter)
shown_times (suc n) bit_rate (sum, counter) =
    let (sum', counter') = shown_times n bit_rate (sum, counter) in average bit_rate sum' counter'

average_more :
    (b s k : ℕ) → 0 < b → 0 < s → k < 14 → average (pos b) (pos s) k ≡ (pos (s + b), suc k)
unfolding average ◌+ℤ◌
average_more b s k h t lt = ground arith

average_new : (b s k : ℕ) → 0 < b → 0 < s → 14 ≤ k → average (pos b) (pos s) k ≡ (pos b, 1)
unfolding average ◌+ℤ◌
average_new b s k h t le = ground arith

-- The first time the rate is counted twice.
average_first : (b : ℕ) → 0 < b → average (pos b) (pos 0) 0 ≡ (pos (b + b), 1)
unfolding average ◌+ℤ◌
average_first b h = ground arith

-- The number that is shown.
abbrev pub shown : ℤ × ℕ → ℤ
shown (sum, counter) = div_ℤ sum counter

div_pos : (s k : ℕ) → 0 < k → div_ℤ (pos s) k ≡ pos (s / k)
div_pos s zero h = elim h [ ]
div_pos s (suc k) h = grind arith

first_slice :
    (n b : ℕ) → 0 < b → n < 14 → shown_times (suc n) (pos b) (pos 0, 0) ≡ (pos ((n + 2) * b), suc n)
first_slice zero b h lt = average_first b h ∙ ap (λ x. (pos x, 1)) (grind arith)
first_slice (suc n) b h lt = rw (first_slice n b h (omega arith)) (
    average_more b ((n + 2) * b) (suc n) h (grind arith) (omega arith)
    ∙ ap (λ x. (pos x, suc (suc n))) (grind arith))

too_large :
    (n b : ℕ)
    → 0 < b
    → n < 14
    → shown (shown_times (suc n) (pos b) (pos 0, 0)) ≡ pos ((n + 2) * b / suc n)
too_large n b h le =
    rw (first_slice n b h (omega arith)) (div_pos ((n + 2) * b) (suc n) (omega arith))

-- The sum of some equal rates, at most fourteen, with their number.
abbrev IsSum : ℕ → ℤ × ℕ → Type 0
IsSum b r = (k : ℕ) × (k < 14) × (r ≡ (pos (suc k * b), suc k))

average-IsSum : (b k : ℕ) → 0 < b → k < 14 → IsSum b (average (pos b) (pos (suc k * b)) (suc k))
average-IsSum b k h lt = elim (Bool-cases (leb 14 (suc k))) [
  | inl full ↦ (
    0,
    omega arith,
    average_new b (suc k * b) (suc k) h (grind arith) (ground arith)
        ∙ ap (λ x. (pos x, 1)) (omega arith),
  )
  | inr room ↦ (
    suc k,
    ground arith,
    average_more b (suc k * b) (suc k) h (grind arith) (ground arith)
        ∙ ap (λ x. (pos x, suc (suc k))) (grind arith),
  )
]

later_slice : (m b : ℕ) → 0 < b → 14 ≤ m → IsSum b (shown_times (suc m) (pos b) (pos 0, 0))
later_slice zero b h le = absurd (omega arith)
later_slice (suc m) b h le = elim (Bool-cases (m == 13)) [
  | inl last ↦
      let e : m ≡ 13 = ground arith in
      rw (e, first_slice 13 b h (omega arith))
        (
          0,
          omega arith,
          average_new b ((13 + 2) * b) 14 h (omega arith) (omega arith)
              ∙ ap (λ x. (pos x, 1)) (omega arith),
        )
  | inr more ↦ let (k, lt, ih) = later_slice m b h (ground arith) in rw ih (average-IsSum b k h lt)
]

constant : (m b : ℕ) → 0 < b → 14 ≤ m → shown (shown_times (suc m) (pos b) (pos 0, 0)) ≡ pos b
constant m b h le =
    let (k, lt, sum) = later_slice m b h (omega arith) in
    rw sum (div_pos (suc k * b) (suc k) (omega arith) ∙ ap pos (grind arith))

-- If the bit rate does not change after there was none, the average that is shown is too large at
-- first: at the n-th time, for n up to 14, it is the rate times n+1, divided by n. From the
-- fifteenth time on it is that rate.
pub average_lem :
    (n b : ℕ)
    → 0 < b
    → 0 < n
    → shown (shown_times n (pos b) (pos 0, 0)) ≡ pos (if ltb n 15 then (n + 1) * b / n else b)
average_lem zero b h k = elim k [ ]
average_lem (suc n) b h k = elim (Bool-cases (ltb (suc n) 15)) [
  | inl first ↦
      rw first (too_large n b h (ground arith) ∙ ap (λ (x : ℕ). pos (x * b / suc n)) (omega arith))
  | inr later ↦ rw later (constant n b h (ground arith))
]
