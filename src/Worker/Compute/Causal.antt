-- ===== src/Worker/Compute/Causal.antt =====
-- From price histories to trades: a backtest does not look ahead.
use quant_pilot.Base.{
  ℕ, suc, ◌≤◌, String, ◌≡◌, refl, sym, ap, ◌∙◌, none, some, List, [], ◌∷◌, ◌++◌, map, take, length,
  maybe, arith, IsSome, IsSome-value,
}
use mathlib.Core.Path.{subst}
use quant_pilot.Float.{Float}
use quant_pilot.Momentum.{MomentumConfig, Row, n_select, generate_weights}
use quant_pilot.Momentum.Prefix.{IsPast, IsFuture, generate_weights-append}
use quant_pilot.Engine.{Day, DayResult, Summary, simulate, summary, run, start_book}
use quant_pilot.Engine.Causal.{trades, simulate_causal}
use quant_pilot.Worker.Compute.{
  PriceData, Libraries, at_date, day_from, day_at, default_engine, backtest_of,
}

at_date-append :
    {A : Type 0} (now t : ℕ) (past later : List (ℕ × A))
    → t ≤ now
    → IsFuture now later
    → at_date t (past ++ later) ≡ at_date t past
at_date-append now t [] [] early hl = refl
at_date-append now t [] (r ∷ later) early (h, hl) =
    ground (arith, h, at_date-append now t [] later early hl)
at_date-append now t (r ∷ past) later early hl =
    ground (arith, at_date-append now t past later early hl)

map-append : {A B : Type 0} (f : A → B) (xs ys : List A) → map f (xs ++ ys) ≡ map f xs ++ map f ys
map-append f [] ys = refl
map-append f (x ∷ xs) ys = ap (λ zs. f x ∷ zs) (map-append f xs ys)

length-map : {A B : Type 0} (f : A → B) (xs : List A) → length (map f xs) ≡ length xs
length-map f [] = refl
length-map f (x ∷ xs) = ground (arith, length-map f xs)

module _ {F M G V : Type 0} ⦃d : Float F⦄ (lib : Libraries F M G V) where
  -- Days up to a date do not depend on the closes and the weights of later dates.
  day_at-append :
      (now : ℕ) (close later w rest opens : List (ℕ × Row F))
      → IsFuture now later
      → IsFuture now rest
      → IsPast now opens
      → map (day_at lib (close ++ later) (w ++ rest)) opens ≡ map (day_at lib close w) opens
  day_at-append now close later w rest [] hl hr ho = refl
  day_at-append now close later w rest (r ∷ opens) hl hr (h, ho) =
      let closes = at_date-append now r.0 close later h hl in
      let targets = at_date-append now r.0 w rest h hr in
      λ i.
        day_from lib r.1 (closes i) (targets i)
        ∷ day_at-append now close later w rest opens hl hr ho i

  run-IsSome :
      (symbols : List String) (before : List (Day F)) (x : Day F) (after : List (Day F))
      → IsSome (
          summary lib.engine default_engine symbols (
            simulate lib.engine default_engine symbols
              (start_book lib.engine default_engine symbols)
              (before ++ x ∷ after)))
  unfolding simulate summary
  run-IsSome symbols [] x after = tt
  run-IsSome symbols (y ∷ before) x after = tt

  abbrev pub prices_of : List String → List (ℕ × Row F) → List (ℕ × Row F) → PriceData F
  prices_of symbols opens closes = record {
    symbols = symbols;
    open_rows = opens;
    close_rows = closes;
  }

  abbrev simulated : List String → List (Day F) → List (DayResult F)
  simulated symbols days =
      simulate lib.engine default_engine symbols (start_book lib.engine default_engine symbols) days

  backtest_of-simulated :
      (config : MomentumConfig F) (symbols : List String) (before after closes w : List (ℕ × Row F))
      (r : ℕ × Row F)
      → generate_weights lib.momentum config symbols closes none none ≡ some w
      → let day = day_at lib closes w in
        (s : Summary F) × (backtest_of lib (prices_of symbols (before ++ r ∷ after) closes) config
          ≡ some (simulated symbols (map day before ++ day r ∷ map day after), s))
  unfolding backtest_of run
  backtest_of-simulated config symbols before after closes w r known =
      let day = day_at lib closes w in
      let days = map day before ++ day r ∷ map day after in
      let (s, summed) =
        IsSome-value (summary lib.engine default_engine symbols (simulated symbols days))
          (run-IsSome symbols (map day before) (day r) (map day after)) in
      (s, rw known (rw (map-append day before (r ∷ after)) (rw summed refl)))

  -- Runs over equal days, and then a day with the same open prices and halts.
  trades_agree :
      (symbols : List String) (n : ℕ) (before before' xs ys : List (Day F)) (x y : Day F)
      → before ≡ before'
      → length before' ≡ n
      → x.open_price ≡ y.open_price
      → x.halted ≡ y.halted
      → map
          (trades lib.engine default_engine symbols)
          (take (suc n) (simulated symbols (before ++ x ∷ xs)))
        ≡ map
            (trades lib.engine default_engine symbols)
            (take (suc n) (simulated symbols (before' ++ y ∷ ys)))
  trades_agree symbols n before before' xs ys x y same len opens halts =
      let of_first : ℕ → List (DayResult F) → List ((String → F) × F × F) =
        λ m rs. map (trades lib.engine default_engine symbols) (take (suc m) rs) in
      ap (λ b. of_first n (simulated symbols (b ++ x ∷ xs))) same
      ∙ subst
          (λ m.
            of_first m (simulated symbols (before' ++ x ∷ xs))
            ≡ of_first m (simulated symbols (before' ++ y ∷ ys)))
          len
          (simulate_causal lib.engine default_engine symbols
            (start_book lib.engine default_engine symbols) before' x y xs ys opens halts)

  -- Two price histories that share the opens and the closes up to a date, and the next open prices,
  -- give backtests with the same positions, costs and turnover on all shared dates and on the next
  -- one, whatever the next closes and all later prices are. Both backtests succeed; the date some
  -- months back is not later, and the number of names to select exists.
  pub backtest_of_causal :
      (config : MomentumConfig F) (symbols : List String) (now : ℕ)
      (opens closes xs ys later later' : List (ℕ × Row F)) (next : ℕ × Row F)
      → ((t n : ℕ) → lib.momentum.months_before t n ≤ t)
      → ((n : ℕ) → (k : ℕ) × (n_select lib.momentum config symbols n ≡ some k))
      → IsPast now opens
      → IsPast now closes
      → IsFuture now later
      → IsFuture now later'
      → let p = prices_of symbols (opens ++ next ∷ xs) (closes ++ later) in
        let q = prices_of symbols (opens ++ next ∷ ys) (closes ++ later') in
        (rs : List (DayResult F)) × (s : Summary F) × (rs' : List (DayResult F)) × (s' : Summary F)
        × (backtest_of lib p config ≡ some (rs, s))
        × (backtest_of lib q config ≡ some (rs', s'))
        × (map (trades lib.engine default_engine symbols) (take (suc (length opens)) rs)
            ≡ map (trades lib.engine default_engine symbols) (take (suc (length opens)) rs'))
  backtest_of_causal config symbols now opens closes xs ys later later' next months selects ho hc hl
        hl' =
      let (w, rest, known, both, good) =
        generate_weights-append lib.momentum config symbols months selects now closes later none hc
          hl in
      let (w', rest', known', both', good') =
        generate_weights-append lib.momentum config symbols months selects now closes later' none hc
          hl' in
      let (s, ran) =
        backtest_of-simulated config symbols opens xs (closes ++ later) (w ++ rest) next both in
      let (s', ran') =
        backtest_of-simulated config symbols opens ys (closes ++ later') (w' ++ rest') next both' in
      let agree : w ≡ w' = ap (λ o. maybe o [] (λ v. v)) (sym known ∙ known') in
      (
        _,
        s,
        _,
        s',
        ran,
        ran',
        trades_agree symbols (length opens) (map (day_at lib (closes ++ later) (w ++ rest)) opens)
            (map (day_at lib (closes ++ later') (w' ++ rest')) opens) _ _ _ _
            (day_at-append now closes later w rest opens hl good ho
              ∙ ap (λ v. map (day_at lib closes v) opens) agree
              ∙ sym (day_at-append now closes later' w' rest' opens hl' good' ho))
            (length-map (day_at lib (closes ++ later') (w' ++ rest')) opens) refl refl,
      )
