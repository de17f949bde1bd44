-- ===== src/Simulation/Samples.antt =====
-- A generator that counts.
use quant_pilot.Base.{ℕ, suc, ◌%◌, ◌==◌, arith, if◌then◌else◌}
use quant_pilot.Base.Int.{ℤ, pos}
use quant_pilot.Simulation.{Generator, IsGenerator, replicate}
use quant_pilot.Simulation.Paths.{length-replicate}

abbrev pub counting : Generator ℤ ℕ
counting = record {
  default_rng = λ seed. 5;
  integers = λ n g. (suc g, g % n);
  random = λ g. (suc g, if g % 3 == 0 then pos 0 else pos 900_000);
  standard_normal = λ n g. (suc g, replicate n (pos g));
}

pub counting-IsGenerator : IsGenerator counting
counting-IsGenerator = record {
  integers-lt = λ n g some_left. ground (arith, some_left);
  length-standard_normal = λ n g. length-replicate n (pos g);
}
