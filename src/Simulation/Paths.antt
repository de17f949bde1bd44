-- ===== src/Simulation/Paths.antt =====
-- The shape of the simulated mean-reverting paths, and where they start.
use quant_pilot.Base.{
  ℕ, zero, suc, ◌≡◌, refl, ap, ◌∙◌, false, Option, some, List, [], ◌∷◌, map, length, All, arith,
}
use quant_pilot.Base.Int.{pos}
use quant_pilot.Float.{Float, ◌*◌, ◌/◌, eq, nought, of_int}
use quant_pilot.Pairs.OuProcess.{zip_lists}
use quant_pilot.Simulation.{
  Generator, IsGenerator, Numerics, replicate, ou_step, ou_columns, simulate_ou,
}

pub length-replicate : {A : Type 0} (n : ℕ) (x : A) → length (replicate n x) ≡ n
length-replicate zero x = refl
length-replicate (suc n) x = ground (arith, length-replicate n x)

length-zip_lists :
    {A : Type 0} (n : ℕ) (xs ys : List A)
    → length xs ≡ n
    → length ys ≡ n
    → length (zip_lists xs ys) ≡ n
length-zip_lists n [] ys hx hy = hx
length-zip_lists n (x ∷ xs) [] hx hy = hy
length-zip_lists zero (x ∷ xs) (y ∷ ys) hx hy = absurd (ground (arith, hx))
length-zip_lists (suc n) (x ∷ xs) (y ∷ ys) hx hy =
    ground (arith, length-zip_lists n xs ys (ground (arith, hx)) (ground (arith, hy)))

length-map : {A B : Type 0} (f : A → B) (xs : List A) → length (map f xs) ≡ length xs
length-map f [] = refl
length-map f (x ∷ xs) = ground (arith, length-map f xs)

module _ {F G : Type 0} ⦃d : Float F⦄ (rng : Generator F G) (laws : IsGenerator rng)
    (np : Numerics F) where
  length-ou_step :
      (theta mu dt sd : F) (n : ℕ) (z column : List F)
      → length column ≡ n
      → length z ≡ n
      → length (ou_step rng np theta mu dt sd z column) ≡ n
  unfolding ou_step
  length-ou_step theta mu dt sd n z column hc hz =
      length-map _ (zip_lists column z) ∙ length-zip_lists n column z hc hz

  ou_columns_lem :
      (theta mu dt sd : F) (n k : ℕ) (column : List F) (g : G)
      → length column ≡ n
      → (rest : List (List F)) × (ou_columns rng np theta mu dt sd n k column g ≡ column ∷ rest)
        × (length rest ≡ k)
        × All (λ c. length c ≡ n) rest
  unfolding ou_columns
  ou_columns_lem theta mu dt sd n zero column g hc = ([], refl, refl, tt)
  ou_columns_lem theta mu dt sd n (suc k) column g hc =
      let drawn = rng.standard_normal n g in
      let next = ou_step rng np theta mu dt sd drawn.1 column in
      let wide =
        length-ou_step theta mu dt sd n drawn.1 column hc (laws.length-standard_normal n g) in
      let (rest, made, len, widths) = ou_columns_lem theta mu dt sd n k next drawn.0 wide in
      (next ∷ rest, rw made refl, ground (arith, len), (wide, widths))

  -- Over at least one step, with a time whose share per step has a root, the simulation succeeds: the
  -- first column is the start on every path, one more column follows for each step, and every column
  -- has an entry for each path. The generator gives as many numbers as it is asked for.
  pub simulate_ou_lem :
      (x0 theta mu sigma T root : F) (n_paths n_steps : ℕ) (seed : Option ℕ)
      → eq (of_int (pos n_steps)) (nought {F = F}) ≡ false
      → np.sqrt (T / of_int (pos n_steps)) ≡ some root
      → (rest : List (List F)) × (simulate_ou rng np x0 theta mu sigma T n_paths n_steps seed
          ≡ some (replicate n_paths x0 ∷ rest))
        × (length rest ≡ n_steps)
        × All (λ c. length c ≡ n_paths) rest
  unfolding simulate_ou
  simulate_ou_lem x0 theta mu sigma T root n_paths n_steps seed divides rooted =
      let (rest, made, len, widths) =
        ou_columns_lem theta mu (T / of_int (pos n_steps)) (sigma * root) n_paths n_steps
          (replicate n_paths x0) (rng.default_rng seed) (length-replicate n_paths x0) in
      (rest, rw divides (rw rooted (ap some made)), len, widths)
