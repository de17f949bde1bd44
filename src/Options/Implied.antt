-- ===== src/Options/Implied.antt =====
-- `implied_volatility` of src/quant_pilot/engine/models/black_scholes.py: Newton's method, then a
-- bisection of 200 rounds.
use quant_pilot.Base.{
  ℕ, zero, suc, ◌≡◌, refl, ap, sym, ◌∙◌, ◌⊎◌, inl, inr, Bool, true, false, ◌&&◌, Option, none, some,
  if◌then◌else◌, maybe, ◌>>=◌, Bool-cases, Option-cases,
}
use mathlib.Core.Path.{subst}
use quant_pilot.Float.{
  Float, ◌+◌, ◌-◌, ◌*◌, ◌/◌, abs, negate, nought, literal, lt, le, max, min, quotient,
}
use quant_pilot.Options.{OptionType, Math, bs_price, bs_vega, price_bounds}

-- The sum of two counts.
abbrev total : ℕ → ℕ → ℕ
total zero k = k
total (suc n) k = total n (suc k)

total-suc : (n k : ℕ) → total n (suc k) ≡ suc (total n k)
total-suc zero k = refl
total-suc (suc n) k = total-suc n (suc k)

total_zero : (n : ℕ) → total n 0 ≡ n
total_zero zero = refl
total_zero (suc n) = total-suc n 0 ∙ ap suc (total_zero n)

module _ {F : Type 0} ⦃d : Float F⦄ (math : Math F) (market_price S K T r : F)
    (option_type : OptionType) (q tol : F) where
  abbrev pub price_at : F → Option F
  price_at sigma = bs_price math S K T r sigma option_type q

  abbrev pub vega_at : F → Option F
  vega_at sigma = bs_vega math S K T r sigma q

  -- The rounds of Newton's method: `some none` is a loop that ends without a result. A vega that is
  -- not below its limit is not zero.
  unfoldable pub newton : ℕ → F → Option (Option F)
  newton zero sigma = some none
  newton (suc n) sigma = do
    price ← price_at sigma
    let diff = price - market_price
    elim (lt (abs diff) tol) [
      | true ↦ some (some sigma)
      | false ↦ do
        vega ← vega_at sigma
        elim (lt vega (literal 1 10)) [
          | true ↦ some none
          | false ↦ newton n (min (max (sigma - diff / vega) (literal 1 6)) (literal 5 0))
        ]
    ]

  abbrev pub midpoint : F → F → F
  midpoint lo hi = literal 5 1 * (lo + hi)

  unfoldable pub bisect : ℕ → F → F → Option F
  bisect zero lo hi = some (midpoint lo hi)
  bisect (suc n) lo hi = do
    price ← price_at (midpoint lo hi)
    elim (lt (abs (price - market_price)) tol) [
      | true ↦ some (midpoint lo hi)
      | false ↦ elim (lt nought (price - market_price)) [
        | true ↦ bisect n lo (midpoint lo hi)
        | false ↦ bisect n (midpoint lo hi) hi
      ]
    ]

  -- `sigma` before the loop; the time is not zero.
  unfoldable pub newton_seed : Option F
  newton_seed = do
    root ← math.sqrt (literal 2 0 * math.pi / T)
    guess ← quotient (root * market_price) S
    some (max (literal 1 3) guess)

  abbrev pub is_arbitrage_free : F × F → Bool
  is_arbitrage_free (lower, upper) = le (lower - tol) market_price && le market_price (upper + tol)

  -- `disc_q` and `disc_r`, then `lower` and `upper`
  unfoldable pub bounds_at : Option (F × F)
  bounds_at = do
    disc_q ← math.exp (negate q * T)
    disc_r ← math.exp (negate r * T)
    some (price_bounds math S K disc_q disc_r option_type)

  -- The two methods, for a price within the bounds.
  unfoldable pub solve : ℕ → Option F
  solve max_iter = do
    seed ← newton_seed
    found ← newton max_iter seed
    maybe found (bisect 200 (literal 1 6) (literal 5 0)) some

  unfoldable pub implied_volatility : ℕ → Option F
  implied_volatility max_iter =
      if le T nought
      then none
      else (do bounds ← bounds_at; if is_arbitrage_free bounds then solve max_iter else none)

  -- The price at a volatility is within the tolerance of the market's.
  abbrev pub Reprices : F → Type 0
  Reprices sigma =
      (price : F) × (price_at sigma ≡ some price) × (lt (abs (price - market_price)) tol ≡ true)

  -- The price at a volatility is not within the tolerance; it is above the market's, or it is not.
  abbrev pub Misses : Bool → F → Type 0
  Misses is_above sigma =
      (price : F) × (price_at sigma ≡ some price)
      × (lt (abs (price - market_price)) tol ≡ false)
      × (lt nought (price - market_price) ≡ is_above)

  -- The bracket after a number of halvings: each keeps the half on whose upper end the price is above
  -- the market's.
  abbrev pub IsBracket : ℕ → F → F → Type 0
  IsBracket zero lo hi = (lo ≡ literal 1 6) × (hi ≡ literal 5 0)
  IsBracket (suc n) lo hi =
      (lo' : F) × (hi' : F) × IsBracket n lo' hi'
      × ((Misses true (midpoint lo' hi') × (lo ≡ lo') × (hi ≡ midpoint lo' hi'))
          ⊎ (Misses false (midpoint lo' hi') × (lo ≡ midpoint lo' hi') × (hi ≡ hi')))

  -- The middle of the bracket after a number of halvings.
  abbrev pub IsHalved : ℕ → F → Type 0
  IsHalved n sigma = (lo : F) × (hi : F) × IsBracket n lo hi × (sigma ≡ midpoint lo hi)

  -- The volatility after a number of steps of Newton's method.
  abbrev pub IsIterate : ℕ → F → Type 0
  IsIterate zero sigma = newton_seed ≡ some sigma
  IsIterate (suc n) sigma =
      (last : F) × (price : F) × (vega : F) × IsIterate n last
      × (price_at last ≡ some price)
      × (vega_at last ≡ some vega)
      × (lt (abs (price - market_price)) tol ≡ false)
      × (lt vega (literal 1 10) ≡ false)
      × (sigma ≡ min (max (last - (price - market_price) / vega) (literal 1 6)) (literal 5 0))

  -- A volatility that the solver tries.
  abbrev pub IsTried : F → Type 0
  IsTried sigma = ((n : ℕ) × IsIterate n sigma) ⊎ ((n : ℕ) × IsHalved n sigma)

  -- At a volatility that is tried the price or the vega raises.
  abbrev pub Fails : Type 0
  Fails = (sigma : F) × IsTried sigma × ((price_at sigma ≡ none) ⊎ (vega_at sigma ≡ none))

  abbrev Bisects : ℕ → Option F → Type 0
  Bisects n none = Fails
  Bisects n (some sigma) = (((k : ℕ) × IsHalved k sigma) × Reprices sigma) ⊎ IsHalved n sigma

  bisect_lem : (n k : ℕ) (lo hi : F) → IsBracket k lo hi → Bisects (total n k) (bisect n lo hi)
  unfolding bisect
  bisect_lem zero k lo hi within = inr (lo, hi, within, refl)
  bisect_lem (suc n) k lo hi within =
      let mid = midpoint lo hi in
      let halved : (j : ℕ) × IsHalved j mid = (k, (lo, hi, within, refl)) in
      let tried : IsTried mid = inr halved in
      elim (Option-cases (price_at mid)) [
        | inl raised ↦
            let e : bisect (suc n) lo hi ≡ none = rw raised refl in
            subst (Bisects (total n (suc k))) (sym e) (mid, tried, inl raised)
        | inr (price, there) ↦ elim (Bool-cases (lt (abs (price - market_price)) tol)) [
          | inl near ↦
              let e : bisect (suc n) lo hi ≡ some mid = rw there (rw (near, maybe) refl) in
              subst (Bisects (total n (suc k))) (sym e) (inl (halved, (price, there, near)))
          | inr far ↦ elim (Bool-cases (lt nought (price - market_price))) [
            | inl above ↦
                let e : bisect (suc n) lo hi ≡ bisect n lo mid =
                  rw there (rw (far, maybe) (rw (above, maybe) refl)) in
                let half : IsBracket (suc k) lo mid =
                  (lo, hi, within, inl ((price, there, far, above), refl, refl)) in
                subst (Bisects (total n (suc k))) (sym e) (bisect_lem n (suc k) lo mid half)
            | inr below ↦
                let e : bisect (suc n) lo hi ≡ bisect n mid hi =
                  rw there (rw (far, maybe) (rw (below, maybe) refl)) in
                let half : IsBracket (suc k) mid hi =
                  (lo, hi, within, inr ((price, there, far, below), refl, refl)) in
                subst (Bisects (total n (suc k))) (sym e) (bisect_lem n (suc k) mid hi half)
          ]
        ]
      ]

  -- Newton's method has no result after a number of steps, or stops at a vega that is too small.
  abbrev pub GivesUp : ℕ → Type 0
  GivesUp n =
      (sigma : F) × (IsIterate n sigma
        ⊎ (((k : ℕ) × IsIterate k sigma)
            × (vega : F) × (vega_at sigma ≡ some vega)
            × (lt vega (literal 1 10) ≡ true)))

  abbrev Iterates : ℕ → Option (Option F) → Type 0
  Iterates n none = Fails
  Iterates n (some none) = GivesUp n
  Iterates n (some (some sigma)) = ((k : ℕ) × IsIterate k sigma) × Reprices sigma

  newton_lem : (n k : ℕ) (sigma : F) → IsIterate k sigma → Iterates (total n k) (newton n sigma)
  unfolding newton
  newton_lem zero k sigma iterate = (sigma, inl iterate)
  newton_lem (suc n) k sigma iterate =
      let tried : IsTried sigma = inl (k, iterate) in
      elim (Option-cases (price_at sigma)) [
        | inl raised ↦
            let e : newton (suc n) sigma ≡ none = rw raised refl in
            subst (Iterates (total n (suc k))) (sym e) (sigma, tried, inl raised)
        | inr (price, there) ↦ elim (Bool-cases (lt (abs (price - market_price)) tol)) [
          | inl near ↦
              let e : newton (suc n) sigma ≡ some (some sigma) = rw there (rw (near, maybe) refl) in
              subst (Iterates (total n (suc k))) (sym e) ((k, iterate), (price, there, near))
          | inr far ↦ elim (Option-cases (vega_at sigma)) [
            | inl raised ↦
                let e : newton (suc n) sigma ≡ none =
                  rw there (rw (far, maybe) (rw (raised, maybe) refl)) in
                subst (Iterates (total n (suc k))) (sym e) (sigma, tried, inr raised)
            | inr (vega, steep) ↦ elim (Bool-cases (lt vega (literal 1 10))) [
              | inl shallow ↦
                  let e : newton (suc n) sigma ≡ some none =
                    rw there (rw (far, maybe) (rw (steep, maybe) (rw (shallow, maybe) refl))) in
                  subst (Iterates (total n (suc k))) (sym e)
                    (sigma, inr ((k, iterate), vega, steep, shallow))
              | inr deep ↦
                  let next =
                    min (max (sigma - (price - market_price) / vega) (literal 1 6)) (literal 5 0) in
                  let e : newton (suc n) sigma ≡ newton n next =
                    rw there (rw (far, maybe) (rw (steep, maybe) (rw (deep, maybe) refl))) in
                  subst (Iterates (total n (suc k))) (sym e) (
                    newton_lem n (suc k) next
                      (sigma, price, vega, iterate, there, steep, far, deep, refl))
            ]
          ]
        ]
      ]

  -- An iterate of Newton's method that reprices the option; or, where the method gave up, the middle
  -- of a halved bracket that does, or that of the bracket after 200 halvings.
  abbrev pub IsSolution : ℕ → F → Type 0
  IsSolution max_iter sigma =
      (((k : ℕ) × IsIterate k sigma) × Reprices sigma)
      ⊎ (GivesUp max_iter × ((((k : ℕ) × IsHalved k sigma) × Reprices sigma) ⊎ IsHalved 200 sigma))

  abbrev Solves : ℕ → Option F → Type 0
  Solves max_iter none = (newton_seed ≡ none) ⊎ Fails
  Solves max_iter (some sigma) = IsSolution max_iter sigma

  Solves-of_bisect :
      (max_iter : ℕ) (o : Option F) → GivesUp max_iter → Bisects 200 o → Solves max_iter o
  Solves-of_bisect max_iter none stuck failed = inr failed
  Solves-of_bisect max_iter (some sigma) stuck good = inr (stuck, good)

  solve_lem : (max_iter : ℕ) → Solves max_iter (solve max_iter)
  unfolding solve
  solve_lem max_iter = elim (Option-cases newton_seed) [
    | inl raised ↦
        let e : solve max_iter ≡ none = rw raised refl in
        subst (Solves max_iter) (sym e) (inl raised)
    | inr (seed, seeded) ↦
        let iterated =
          subst (λ n. Iterates n (newton max_iter seed)) (total_zero max_iter)
            (newton_lem max_iter 0 seed seeded) in
        elim (Option-cases (newton max_iter seed)) [
          | inl raised ↦
              let e : solve max_iter ≡ none = rw seeded (rw raised refl) in
              subst (Solves max_iter) (sym e) (inr (subst (Iterates max_iter) raised iterated))
          | inr (found, made) ↦ elim (Option-cases found) [
            | inl missing ↦
                let e : solve max_iter ≡ bisect 200 (literal 1 6) (literal 5 0) =
                  rw seeded (rw made (rw missing refl)) in
                subst (Solves max_iter) (sym e) (
                  Solves-of_bisect max_iter _
                    (subst (Iterates max_iter) (made ∙ ap some missing) iterated)
                    (bisect_lem 200 0 (literal 1 6) (literal 5 0) (refl, refl)))
            | inr (root, is_root) ↦
                let e : solve max_iter ≡ some root = rw seeded (rw made (rw is_root refl)) in
                subst (Solves max_iter) (sym e)
                  (inl (subst (Iterates max_iter) (made ∙ ap some is_root) iterated))
          ]
        ]
  ]

  -- The price is refused: no time is left, the bounds raise, or it is outside of them.
  abbrev pub IsRefused : Type 0
  IsRefused =
      (le T nought ≡ true)
      ⊎ ((bounds_at ≡ none)
          ⊎ ((bounds : F × F) × (bounds_at ≡ some bounds) × (is_arbitrage_free bounds ≡ false)))

  -- What a run ends with.
  abbrev pub Ends : ℕ → Option F → Type 0
  Ends max_iter none = IsRefused ⊎ ((newton_seed ≡ none) ⊎ Fails)
  Ends max_iter (some sigma) =
      ((bounds : F × F) × (bounds_at ≡ some bounds) × (is_arbitrage_free bounds ≡ true))
      × (le T nought ≡ false)
      × IsSolution max_iter sigma

  Ends-of_solved :
      (max_iter : ℕ) (o : Option F) (bounds : F × F)
      → bounds_at ≡ some bounds
      → is_arbitrage_free bounds ≡ true
      → le T nought ≡ false
      → Solves max_iter o
      → Ends max_iter o
  Ends-of_solved max_iter none bounds bounded free later failed = inr failed
  Ends-of_solved max_iter (some sigma) bounds bounded free later good =
      ((bounds, bounded, free), later, good)

  -- The solver raises only where no time is left, the bounds or the seed raise, the price is outside
  -- the bounds, or the price or the vega raises at a volatility that it tries: an iterate of Newton's
  -- method or the middle of a halved bracket. Otherwise the price is within the bounds, and it returns
  -- an iterate that reprices the option to within the tolerance; or, where the method has no result
  -- after the given number of steps or meets a vega that is too small, the middle of a halved bracket
  -- that does, or that of the bracket after 200 halvings. Nothing tells these apart.
  pub implied_volatility_lem : (max_iter : ℕ) → Ends max_iter (implied_volatility max_iter)
  unfolding implied_volatility
  implied_volatility_lem max_iter = elim (Bool-cases (le T nought)) [
    | inl over ↦
        let e : implied_volatility max_iter ≡ none = rw over refl in
        subst (Ends max_iter) (sym e) (inl (inl over))
    | inr later ↦ elim (Option-cases bounds_at) [
      | inl raised ↦
          let e : implied_volatility max_iter ≡ none = rw later (rw raised refl) in
          subst (Ends max_iter) (sym e) (inl (inr (inl raised)))
      | inr (bounds, bounded) ↦ elim (Bool-cases (is_arbitrage_free bounds)) [
        | inl free ↦
            let e : implied_volatility max_iter ≡ solve max_iter =
              rw later (rw bounded (rw (free, maybe) refl)) in
            subst (Ends max_iter) (sym e)
              (Ends-of_solved max_iter _ bounds bounded free later (solve_lem max_iter))
        | inr outside ↦
            let e : implied_volatility max_iter ≡ none =
              rw later (rw bounded (rw (outside, maybe) refl)) in
            subst (Ends max_iter) (sym e) (inl (inr (inr (bounds, bounded, outside))))
      ]
    ]
  ]
