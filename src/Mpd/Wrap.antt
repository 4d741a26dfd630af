-- ===== src/Mpd/Wrap.antt =====
-- Which songs the command jump of src/mod_mpd.c have the server play.
use native.Mathlib.Nat.{zero-mod, mod-lt, div-add-mod', add-mul}
use audiobase.Common.{
  ◌↔◌, ℕ, zero, suc, ◌+◌, ◌-◌, ◌*◌, ◌/◌, ◌%◌, ◌≤◌, ◌<◌, true, false, some, if◌then◌else◌, ◌≡◌, inl,
  inr, refl, ◌∙◌, ap, arith, Bool-cases, ℤ, pos, negsuc, pos_part, neg_part, ◌-ℤ◌, ◌≤ℤ◌, ltb_ℤ,
  leb_ℤ, int_laws, ℤ_eq_of_parts,
}
use audiobase.Mpd.Jump.{rem, abs, jump_target}

-- `target` is `newpos` up to a multiple of `count`.
abbrev pub IsCongruent : ℕ → ℤ → ℕ → Type 0
IsCongruent count newpos target =
    (a : ℕ) × (b : ℕ) × (pos_part newpos + a * count ≡ neg_part newpos + target + b * count)

rem-pos : (a n : ℕ) → 0 < n → rem (pos a) (pos n) ≡ some (pos (a % n))
rem-pos a zero h = absurd (omega arith)
rem-pos a (suc n) h = rw (zero-mod (suc n)) (ap some (ℤ_eq_of_parts _ _ (ground arith)))

abbrev Wraps : ℕ → ℤ → Type 0
Wraps count newpos =
    (target : ℕ) × (jump_target (pos count) true newpos ≡ some (pos target))
    × (target < count)
    × IsCongruent count newpos target

Wraps-up : (count i : ℕ) → 0 < count → Wraps count (pos i)
unfolding jump_target
Wraps-up count i h = elim (Bool-cases (leb_ℤ (pos count) (pos i))) [
  | inl past ↦ (
    i % count,
    rw (past, rem-pos i count h, jump_target),
    mod-lt i h,
    (0, i / count, omega (arith, div-add-mod' i count)),
  )
  | inr inside ↦ (i, rw (inside, jump_target) (ground arith), omega int_laws, (0, 0, omega arith))
]

jump_negative :
    (count i : ℕ)
    → 0 < count
    → jump_target (pos count) true (negsuc i)
      ≡ some (let q = pos count -ℤ pos (suc i % count) in if leb_ℤ (pos count) q then pos 0 else q)
unfolding jump_target
jump_negative count i h =
    let low : leb_ℤ (pos count) (negsuc i) ≡ false = ground arith in
    let below : ltb_ℤ (negsuc i) (pos 0) ≡ true = ground arith in
    let size : abs (negsuc i) ≡ pos (suc i) = ap pos (omega arith) in
    let left : rem (abs (negsuc i)) (pos count) ≡ some (pos (suc i % count)) =
      ap (λ a. rem a (pos count)) size ∙ rem-pos (suc i) count h in
    rw (jump_target, low, below, left)

Wraps-down : (count i : ℕ) → 0 < count → Wraps count (negsuc i)
unfolding jump_target
Wraps-down count i h =
    let small = mod-lt (suc i) h in
    let whole = div-add-mod' (suc i) count in
    let q : ℤ = pos count -ℤ pos (suc i % count) in
    elim (Bool-cases (leb_ℤ (pos count) q)) [
      | inl e ↦ (0, rw (jump_negative count i h, e), h, (suc i / count, 0, omega (int_laws, whole)))
      | inr e ↦
          let exact : q ≡ pos (count - suc i % count) =
            ℤ_eq_of_parts q (pos (count - suc i % count)) (omega int_laws) in
          (
            count - suc i % count,
            rw (jump_negative count i h, e, exact),
            omega int_laws,
            (suc i / count + 1, 0, omega (arith, add-mul (suc i / count) 1 count)),
          )
    ]

-- With repeat, a jump in a playlist that is not empty never divides by zero: it goes to the
-- position in the playlist that is the new position up to a multiple of the length of the playlist.
pub jump_target_repeat :
    (count : ℕ) (newpos : ℤ)
    → 0 < count
    → (target : ℕ) × (jump_target (pos count) true newpos ≡ some (pos target))
      × (target < count)
      × IsCongruent count newpos target
jump_target_repeat count (pos i) h = Wraps-up count i h
jump_target_repeat count (negsuc i) h = Wraps-down count i h

once_before :
    (count : ℕ) (newpos : ℤ)
    → 0 < count
    → leb_ℤ (pos count) newpos ≡ false
    → (target : ℕ) × (jump_target (pos count) false newpos ≡ some (pos target))
      × (target ≤ count)
      × ((target ≡ count) ↔ (pos count ≤ℤ newpos))
unfolding jump_target
once_before count (pos i) positive h =
    let inside : i < count = omega int_laws in
    (
      i,
      rw (jump_target, h) (ground arith),
      omega arith,
      (λ e. absurd (omega arith), λ e. absurd (omega arith)),
    )
once_before count (negsuc i) positive h =
    let below : ltb_ℤ (negsuc i) (pos 0) ≡ true = ground arith in
    (
      0,
      rw (jump_target, h, below),
      omega arith,
      (λ e. absurd (omega arith), λ e. absurd (omega arith)),
    )

-- Without repeat, a jump in a playlist that is not empty goes to a position that is at most the
-- length of the playlist, and is that length, behind the last song, just if the new position is not
-- before the end.
pub jump_target_once :
    (count : ℕ) (newpos : ℤ)
    → 0 < count
    → (target : ℕ) × (jump_target (pos count) false newpos ≡ some (pos target))
      × (target ≤ count)
      × ((target ≡ count) ↔ (pos count ≤ℤ newpos))
unfolding jump_target
jump_target_once count newpos positive = elim (Bool-cases (leb_ℤ (pos count) newpos)) [
  | inl past ↦ (count, rw (jump_target, past), omega arith, (λ _. omega int_laws, λ _. refl))
  | inr before ↦ once_before count newpos positive before
]
