-- ===== src/Float/Scaled.antt =====
-- Fixed-point numbers with six decimal places: a `Float` on which the models run, and which shows
-- that the laws of `Float` can be met.
use quant_pilot.Base.{ℕ, zero, suc, ◌+◌, ◌*◌, ◌/◌, ◌^◌, Option, some, leb, if◌then◌else◌}
use quant_pilot.Base.Int.{ℤ, pos, negsuc, magnitude}

abbrev pub scale : ℕ
scale = 10 ^ 6

abbrev pub minus : ℕ → ℤ
minus zero = pos 0
minus (suc n) = negsuc n

abbrev pub flip : ℤ → ℤ
flip (pos n) = minus n
flip (negsuc n) = pos (suc n)

-- The product or quotient of the magnitudes, under the sign of the two.
abbrev pub signed : ℤ → ℤ → ℕ → ℤ
signed (pos _) (pos _) n = pos n
signed (pos _) (negsuc _) n = minus n
signed (negsuc _) (pos _) n = minus n
signed (negsuc _) (negsuc _) n = pos n

-- The integer square root, by fuel.
sqrt_from : ℕ → ℕ → ℕ
sqrt_from zero n = 0
sqrt_from (suc f) n =
    let r = 2 * sqrt_from f (n / 4) in if leb ((r + 1) * (r + 1)) n then r + 1 else r

unfoldable pub fixed_sqrt : ℤ → ℤ
unfolding sqrt_from
fixed_sqrt x = pos (sqrt_from 60 (magnitude x * scale))

unfoldable pub fixed_mul : ℤ → ℤ → ℤ
fixed_mul x y = signed x y (magnitude x * magnitude y / scale)

unfoldable pub fixed_div : ℤ → ℤ → ℤ
fixed_div x y = signed x y (magnitude x * scale / magnitude y)

abbrev pub fixed_copysign : ℤ → ℤ → ℤ
fixed_copysign x (pos _) = pos (magnitude x)
fixed_copysign x (negsuc _) = minus (magnitude x)

unfoldable pub fixed_literal : ℕ → ℕ → ℤ
fixed_literal n k = pos (n * scale / 10 ^ k)

unfoldable pub fixed_of_int : ℤ → ℤ
fixed_of_int n = signed n (pos 1) (magnitude n * scale)

unfoldable pub fixed_to_int : ℤ → Option ℤ
fixed_to_int x = some (signed x (pos 1) (magnitude x / scale))
