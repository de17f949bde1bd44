-- ===== src/Simulation/Bootstrap.antt =====
-- The shape and the entries of a stationary bootstrap.
use quant_pilot.Base.{
  ℕ, zero, suc, ◌<◌, ◌≡◌, refl, false, Option, some, List, [], ◌∷◌, length, All, arith, if-cases,
}
use mathlib.Core.List.{Memᴰ}
use mathlib.Core.List.Memᴰ.{head, tail}
use quant_pilot.Float.{Float, eq, nought, one, lt}
use quant_pilot.Simulation.{
  Generator, IsGenerator, element, next_index, resample_row, resample_rows, out_length,
  stationary_bootstrap,
}

element-Memᴰ :
    {A : Type 0} (i : ℕ) (xs : List A)
    → i < length xs
    → (x : A) × (element i xs ≡ some x) × Memᴰ x xs
element-Memᴰ i [] below = absurd (ground (arith, below))
element-Memᴰ zero (x ∷ xs) below = (x, refl, head refl)
element-Memᴰ (suc i) (x ∷ xs) below =
    let (y, found, there) = element-Memᴰ i xs (ground (arith, below)) in (y, found, tail there)

-- A row of the given length whose entries are all in the series.
abbrev pub IsResample : {F : Type 0} → List F → ℕ → List F → Type 0
IsResample r n row = (length row ≡ n) × All (λ x. Memᴰ x r) row

module _ {F G : Type 0} ⦃d : Float F⦄ (rng : Generator F G) (laws : IsGenerator rng) where
  next_index-lt : (p : F) (n idx : ℕ) (g : G) → 0 < n → (next_index rng p n idx g).1 < n
  unfolding next_index
  next_index-lt p n idx g some_left =
      let (g', u) = rng.random g in
      if-cases (λ (r : G × ℕ). r.1 < n) (lt u p) (λ _. laws.integers-lt n g' some_left)
        (λ _. ground (arith, some_left))

  resample_row-IsResample :
      (r : List F) (p : F) (k idx : ℕ) (g : G)
      → idx < length r
      → (g' : G) × (row : List F) × (resample_row rng r p k idx g ≡ some (g', row))
        × IsResample r k row
  unfolding resample_row
  resample_row-IsResample r p zero idx g below = (g, [], refl, (refl, tt))
  resample_row-IsResample r p (suc k) idx g below =
      let (x, found, there) = element-Memᴰ idx r below in
      let next = next_index rng p (length r) idx g in
      let (g', row, made, (len, entries)) =
        resample_row-IsResample r p k next.1 next.0
          (next_index-lt p (length r) idx g (ground (arith, below))) in
      (g', x ∷ row, rw found (rw made refl), (ground (arith, len), (there, entries)))

  resample_rows-IsResample :
      (r : List F) (p : F) (n k : ℕ) (g : G)
      → 0 < length r
      → (rows : List (List F)) × (resample_rows rng r p n k g ≡ some rows)
        × (length rows ≡ k)
        × All (IsResample r n) rows
  unfolding resample_rows
  resample_rows-IsResample r p n zero g some_left = ([], refl, refl, tt)
  resample_rows-IsResample r p n (suc k) g some_left =
      let first = rng.integers (length r) g in
      let (g', row, made, good) =
        resample_row-IsResample r p n first.1 first.0 (laws.integers-lt (length r) g some_left) in
      let (rows, all_made, len, goods) = resample_rows-IsResample r p n k g' some_left in
      (row ∷ rows, rw made (rw all_made refl), ground (arith, len), (good, goods))

  -- A bootstrap of a series that is not empty, with an expected block that is not zero, never leaves
  -- the series: it gives the asked number of resamples, each of the asked length, or of the length of
  -- the series, and each with nothing but entries of the series. A draw of an index from 0 to n is
  -- below n.
  pub stationary_bootstrap-IsResample :
      (r : List F) (expected_block : F) (n_resamples : ℕ) (len seed : Option ℕ)
      → 0 < length r
      → eq expected_block nought ≡ false
      → (rows : List (List F)) × (stationary_bootstrap rng r expected_block n_resamples len seed
          ≡ some rows)
        × (length rows ≡ n_resamples)
        × All (IsResample r (out_length len (length r))) rows
  unfolding stationary_bootstrap
  stationary_bootstrap-IsResample [] expected_block n_resamples len seed some_left divides =
      absurd (ground (arith, some_left))
  stationary_bootstrap-IsResample (x ∷ r) expected_block n_resamples len seed some_left divides =
      rw divides (
        resample_rows-IsResample (x ∷ r) (d.div one expected_block)
          (out_length len (length (x ∷ r))) n_resamples (rng.default_rng seed) some_left)
