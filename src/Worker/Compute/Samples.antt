-- ===== src/Worker/Compute/Samples.antt =====
-- Small libraries on which a backtest runs.
use quant_pilot.Base.{ℕ, refl, none, some, List, [], ◌∷◌, length}
use quant_pilot.Base.Int.{ℤ, pos}
use quant_pilot.Float.{min}
use quant_pilot.Float.Fixed.{fixed}
use quant_pilot.Float.Scaled.{fixed_literal}
use quant_pilot.Simulation.Samples.{counting}
use quant_pilot.Momentum.Samples.{pd, config}
use quant_pilot.Engine.Samples.{np, sum_of}
use quant_pilot.Analysis.Significance.{Moments}
use quant_pilot.Analysis.Attribution.{Linear}
use quant_pilot.Analysis.Computable.{HasRoots}
use quant_pilot.Worker.Compute.{Libraries}

abbrev pub unit : ℤ
unit = pos 1_000_000

abbrev pub first_of : List ℤ → ℤ
first_of [] = pos 0
first_of (x ∷ xs) = x

abbrev pub stats : quant_pilot.Analysis.Numpy ℤ
stats = record {
  mean = first_of;
  std = first_of;
  prod = first_of;
  cumprod = λ xs. xs;
  cummax = λ xs. xs;
  smallest = first_of;
  minimum = min;
  power = λ x y. some x;
  divide = fixed.div;
}

abbrev pub moments : Moments ℤ
moments = record {
  mean = first_of;
  std = first_of;
  skew = first_of;
  kurtosis = first_of;
  norm_cdf = λ x. x;
  norm_ppf = λ x. x;
  quantile = λ xs q. first_of xs;
  sqrt = λ x. some unit;
  e = pos 2_718_282;
}

pub moments-HasRoots : HasRoots moments
unfolding fixed_literal
moments-HasRoots = record {
  floor_root = λ x. (unit, refl, refl);
  int_root = λ n. (unit, refl);
  ten_nonzero = refl;
}

-- Matrices that are all singular: no attribution.
abbrev pub linear : Linear ℤ ℕ
linear = record {
  mean = first_of;
  sum = sum_of;
  power = λ x y. x;
  sqrt = λ x. x;
  of_rows = length;
  of_column = length;
  entries = λ m. [];
  transpose = λ m. m;
  matmul = λ a b. a;
  plus = λ a b. a;
  minus = λ a b. a;
  scaled = λ w m. m;
  divided = λ m n. m;
  times_rows = λ a b. a;
  rows_from = λ j m. m;
  rows_without = λ j m. m;
  inv = λ m. none;
  diag = λ m. [];
}

abbrev pub lib : Libraries ℤ ℕ ℕ ℤ
lib = record {
  nan = pos 0;
  root_252 = pos 15_874_508;
  pct_change = λ xs. xs;
  momentum = pd;
  engine = np;
  performance = stats;
  linear = linear;
  moments = moments;
  rng = counting;
  model_validate = λ params. some config;
  number = λ x. x;
}
