-- ===== src/Pairs/Selection.antt =====
-- `select_pairs` and `PairsStrategy.generate_weights` of
-- src/quant_pilot/engine/strategies/pairs_trading.py. A frame of closes is a dictionary of columns of
-- the same length; `none` is an exception.
use quant_pilot.Base.{
  ℕ, suc, ◌-◌ as minus_ℕ, String, Bool, true, false, not, ◌&&◌, Option, none, some, List, [], ◌∷◌,
  map, keep, any, length, take, drop, ltb, str_eq, if◌then◌else◌, maybe,
}
use quant_pilot.Base.Int.{ℤ, pos, negsuc}
use quant_pilot.Base.Dict.{Dict, lookup, insert}
use quant_pilot.Float.{Float, ◌+◌, ◌*◌, nought, of_int, negate, literal, le}
use quant_pilot.Pairs.{
  OuParams, ValidatedPair, PairConfig, is_nan, compute_spread, pair_leg_weights,
}
use quant_pilot.Pairs.OuProcess.{Statistics, zip_lists, fit_ou, engle_granger, benjamini_hochberg}

-- `close.iloc[:n]` and `close.iloc[n:]`
abbrev pub iloc_to : {A : Type 0} → ℤ → List A → List A
iloc_to (pos n) xs = take n xs
iloc_to (negsuc n) xs = take (minus_ℕ (length xs) (suc n)) xs

abbrev pub iloc_from : {A : Type 0} → ℤ → List A → List A
iloc_from (pos n) xs = drop n xs
iloc_from (negsuc n) xs = drop (minus_ℕ (length xs) (suc n)) xs

-- `ssf_eligible is None or (a in ssf_eligible and b in ssf_eligible)`
unfoldable pub is_eligible : Option (List String) → String × String → Bool
is_eligible none pair = true
is_eligible (some symbols) (a, b) = any (λ s. str_eq s a) symbols && any (λ s. str_eq s b) symbols

module _ {F : Type 0} ⦃d : Float F⦄ (np : Statistics F) (config : PairConfig F) where
  -- The default `mr_tstat` is -2.0.
  abbrev fit : List F → Option (OuParams F)
  fit x = fit_ou np (negate (literal 2 0)) x

  -- `compute_spread(...).dropna()`
  abbrev pub spread_of : F → F → List F → List F → List F
  spread_of hedge intercept y x =
      keep (λ v. not (is_nan v)) (compute_spread hedge intercept (zip_lists y x))

  unfoldable pub training_fit : F → F → List F → List F → Option (OuParams F)
  training_fit hedge intercept y x = fit (spread_of hedge intercept y x)

  -- One round of the first loop; what it appends to `infos` has the fields of a `ValidatedPair`.
  unfoldable pub info_of : Dict (List F) → ℤ → String × String → Option (ValidatedPair F)
  info_of close split (a, b) = maybe (lookup a close) none λ ca. maybe (lookup b close) none λ cb.
      maybe (engle_granger np (iloc_to split ca) (iloc_to split cb)) none
        λ (hedge, intercept, pvalue).
          maybe (training_fit hedge intercept (iloc_to split ca) (iloc_to split cb)) none λ ou.
            some (record {
              y = a;
              x = b;
              hedge_ratio = hedge;
              intercept = intercept;
              pvalue = pvalue;
              ou = ou;
            })

  unfoldable pub infos_of :
      Dict (List F) → ℤ → List (String × String) → Option (List (ValidatedPair F))
  infos_of close split [] = some []
  infos_of close split (pair ∷ pairs) =
      maybe (info_of close split pair) none
        λ info. maybe (infos_of close split pairs) none λ infos. some (info ∷ infos)

  -- `ou.is_mean_reverting` and `half_life_min_days <= ou.half_life <= half_life_max_days`
  unfoldable pub is_tradable : OuParams F → Bool
  is_tradable ou =
      ou.is_mean_reverting
      && (le config.half_life_min_days ou.half_life && le ou.half_life config.half_life_max_days)

  -- The out-of-sample fit of a pair that passed so far; `none` inside is a short holdout.
  unfoldable pub holdout_fit : Dict (List F) → ℤ → ValidatedPair F → Option (Option (OuParams F))
  holdout_fit close split info = maybe (lookup info.y close) none λ ca.
      maybe (lookup info.x close) none λ cb.
        let oos =
          spread_of info.hedge_ratio info.intercept (iloc_from split ca) (iloc_from split cb) in
        if ltb (length oos) 20 then some none else maybe (fit oos) none λ ou. some (some ou)

  -- One round of the second loop: whether the pair is selected.
  unfoldable pub is_selected : Dict (List F) → ℤ → ValidatedPair F → Bool → Option Bool
  is_selected close split info ok =
      if not (ok && is_tradable info.ou)
      then some false
      else maybe (holdout_fit close split info) none λ oos. some (maybe oos false is_tradable)

  unfoldable pub select_from :
      Dict (List F) → ℤ → List (ValidatedPair F) → List Bool → Option (List (ValidatedPair F))
  select_from close split (info ∷ infos) (ok ∷ passed) =
      maybe (is_selected close split info ok) none λ chosen.
        maybe (select_from close split infos passed) none
          λ selected. some (if chosen then info ∷ selected else selected)
  select_from close split _ _ = some []

  -- `n` is the number of rows of the frame.
  unfoldable pub select_pairs :
      List (String × String)
      → ℕ
      → Dict (List F)
      → Option (List String)
      → Option (List (ValidatedPair F))
  select_pairs candidates n close ssf_eligible =
      maybe (d.to_int (of_int (pos n) * config.train_frac)) none λ split.
        maybe (infos_of close split (keep (is_eligible ssf_eligible) candidates)) none λ infos.
          select_from close split infos (
            benjamini_hochberg np (map (λ (info : ValidatedPair F). info.pvalue) infos)
              config.cointegration_pvalue)

module _ {F : Type 0} ⦃d : Float F⦄ (zscore : ℕ → List F → List F) (config : PairConfig F) where
  -- `weights[symbol] + w`, and the assignment of the column
  unfoldable pub add_column : String → List F → Dict (List F) → Option (Dict (List F))
  add_column symbol w weights =
      maybe (lookup symbol weights) none
        λ column. some (insert symbol (map (λ (v, x). v + x) (zip_lists column w)) weights)

  unfoldable pub add_pair : Dict (List F) → ValidatedPair F → Dict (List F) → Option (Dict (List F))
  add_pair close pair weights = maybe (lookup pair.y close) none λ cy.
      maybe (lookup pair.x close) none λ cx.
        maybe (pair_leg_weights zscore (zip_lists cy cx) pair config) none λ rows.
          maybe (add_column pair.y (map (λ (wy, wx). wy) rows) weights) none
            λ weights'. add_column pair.x (map (λ (wy, wx). wx) rows) weights'

  unfoldable pub add_pairs :
      Dict (List F) → List (ValidatedPair F) → Dict (List F) → Option (Dict (List F))
  add_pairs close [] weights = some weights
  add_pairs close (pair ∷ pairs) weights =
      maybe (add_pair close pair weights) none λ weights'. add_pairs close pairs weights'

  unfoldable pub generate_weights : List (ValidatedPair F) → Dict (List F) → Option (Dict (List F))
  generate_weights pairs close =
      add_pairs close pairs (map (λ (symbol, column). (symbol, map (λ _. nought) column)) close)
