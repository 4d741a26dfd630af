-- ===== src/Display/ClockPlace.antt =====
-- The places where the clock of src/mod_lcdproc.c is shown.
use native.Mathlib.Nat.{mod-eq-sub-div-mul, div-mul-le_self, div-div-eq-div-mul}
use audiobase.Common.{ℕ, ◌+◌, ◌-◌, ◌*◌, ◌/◌, ◌%◌, ◌≤◌, ◌<◌, ◌≡◌, ap, arith, pos, ◌-ℤ◌}
use audiobase.Display.Globals.{Lcd}
use audiobase.Display.Clock.{columns, rows, clock_x, clock_y}

columns-eq : (d : Lcd) (w : ℕ) → d.wid ≡ w + 11 → w < 127 → columns d ≡ w + 1
unfolding ◌-ℤ◌
columns-eq d w e h = rw e (ground arith)

rows-eq : (d : Lcd) (h : ℕ) → d.hgt ≡ pos (h + 2) → h < 127 → rows d ≡ h + 1
unfolding ◌-ℤ◌
rows-eq d h e lt = rw e (ground arith)

-- The number of a place, line by line.
place_number : (q a b : ℕ) → (q / a % b) * a + q % a ≡ q % (a * b)
place_number q a b =
    let steps : q / a ≡ q / a % b + q / a / b * b =
      omega (arith, mod-eq-sub-div-mul (q / a) b, div-mul-le_self (q / a) b) in
    omega (
      arith,
      mod-eq-sub-div-mul q a,
      div-mul-le_self q a,
      ap (λ (x : ℕ). x * a) steps,
      mod-eq-sub-div-mul q (a * b),
      div-mul-le_self q (a * b),
      ap (λ (x : ℕ). x * (a * b)) (div-div-eq-div-mul q a b),
    )

add_sub_one : (n : ℕ) → n + 1 - 1 ≡ n
add_sub_one n = omega arith

-- On a display of w+11 columns and h+2 lines, if these are at most 137 and 128, the date begins in
-- one of the columns up to w+1 and in one of the lines but the last, where the time has a line
-- below it. As the minutes pass each of these places comes once, and then they come again.
pub clock_place :
    (w h t : ℕ) (d : Lcd)
    → d.wid ≡ w + 11
    → d.hgt ≡ pos (h + 2)
    → w < 127
    → h < 127
    → (1 ≤ clock_x d t)
      × (clock_x d t ≤ w + 1)
      × (1 ≤ clock_y d t)
      × (clock_y d t ≤ h + 1)
      × ((clock_y d t - 1) * (w + 1) + (clock_x d t - 1) ≡ t / 60 % ((w + 1) * (h + 1)))
unfolding clock_x clock_y
clock_place w h t d ew eh lw lh =
    let column = t / 60 % (w + 1) in
    let row = t / 60 / (w + 1) % (h + 1) in
    rw (columns-eq d w ew lw, rows-eq d h eh lh)
      (
        omega arith,
        grind arith,
        omega arith,
        grind arith,
        rw (add_sub_one column, add_sub_one row) (place_number (t / 60) (w + 1) (h + 1)),
      )
