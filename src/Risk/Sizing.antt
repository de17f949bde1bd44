-- ===== src/Risk/Sizing.antt =====
-- src/quant_pilot/engine/risk/position_sizing.py and var.py. A row of weights is a list of symbols with
-- their weights; pandas' sum, and the simulation behind VaR, are parameters.
pub mod Caps
mod Tests
use quant_pilot.Base.{
  ℕ, String, Bool, true, false, not, ◌&&◌, Option, none, some, List, [], ◌∷◌, ◌++◌, map, keep, any,
  is_empty, str_eq, maybe, if◌then◌else◌,
}
use quant_pilot.Base.Dict.{Dict, lookup, insert, values}
use quant_pilot.Float.{Float, ◌*◌, ◌/◌, abs, negate, nought, literal, lt, le, truthy, min}

-- The texts of `risk_measure` and `var_distribution`.
pub data RiskMeasure : Type 0 where
  by_var by_cvar : RiskMeasure

pub data VarDistribution : Type 0 where
  historical student_t : VarDistribution

-- src/quant_pilot/engine/risk/config.py
pub record RiskConfig (F : Type 0) : Type 0 where
  pub max_position_pct : F
  pub max_sector_pct : F
  pub daily_var_confidence : F
  pub risk_measure : RiskMeasure
  pub var_distribution : VarDistribution
  pub kelly_fraction : F
  pub max_portfolio_drawdown : F

-- `VaRResult` of src/quant_pilot/engine/models/monte_carlo.py
pub record VarResult (F : Type 0) : Type 0 where
  pub var : F
  pub cvar : F
  pub alpha : F
  pub method : VarDistribution
  pub observations : ℕ

abbrev pub Weights : Type 0 → Type 0
Weights F = List (String × F)

module _ {F : Type 0} ⦃d : Float F⦄ where
  -- `clip`: the lower bound, then the upper one; NaN stays.
  abbrev pub clip : F → F → F → F
  clip low high x =
      let raised = if lt x low then low else x in if lt high raised then high else raised

  unfoldable pub fractional_kelly : F → F → F → F → F
  fractional_kelly mean_return variance fraction cap =
      if le variance nought
      then nought
      else clip (negate cap) cap (fraction * mean_return / variance)

  unfoldable pub target_vol_scale : F → F → F → F
  target_vol_scale realized_vol target_vol max_leverage =
      if le realized_vol nought then nought else min (target_vol / realized_vol) max_leverage

  -- The risk that the config sizes on.
  abbrev pub tail_risk : RiskMeasure → VarResult F → F
  tail_risk by_cvar res = res.cvar
  tail_risk by_var res = res.var

  -- `var_cvar` of the simulation is a parameter.
  module _ (var_cvar : List F → F → VarDistribution → VarResult F) where
    unfoldable pub portfolio_var_cvar : List F → RiskConfig F → VarResult F
    portfolio_var_cvar returns config =
        var_cvar returns config.daily_var_confidence config.var_distribution

    unfoldable pub cvar_position_size : F → List F → RiskConfig F → F
    cvar_position_size risk_budget returns config =
        let risk = tail_risk config.risk_measure (portfolio_var_cvar returns config) in
        if lt nought risk then risk_budget / risk else nought

-- `sectors.setdefault(sec, []).append(sym)`
unfoldable pub add_to_sector : String → String → Dict (List String) → Dict (List String)
add_to_sector sector symbol sectors =
    insert sector (maybe (lookup sector sectors) [] (λ syms. syms) ++ symbol ∷ []) sectors

-- The loop that groups the symbols.
unfoldable pub sectors_from : Dict String → Dict (List String) → List String → Dict (List String)
sectors_from sector_map sectors [] = sectors
sectors_from sector_map sectors (symbol ∷ symbols) =
    sectors_from sector_map
      (maybe (lookup symbol sector_map) sectors λ sector. add_to_sector sector symbol sectors)
      symbols

module _ {F : Type 0} ⦃d : Float F⦄ (sum : List F → F) where
  abbrev pub contains : List String → String → Bool
  contains syms symbol = any (λ s. str_eq s symbol) syms

  -- One round of the loop over the sectors.
  unfoldable pub cap_sector : F → List String → Weights F → Weights F
  cap_sector max_sector_pct syms w =
      let gross = sum (map (λ (_, x). abs x) (keep (λ (symbol, _). contains syms symbol) w)) in
      if lt max_sector_pct gross && lt nought max_sector_pct
      then map
          (λ (symbol, x).
            (symbol, if contains syms symbol then x * (max_sector_pct / gross) else x))
          w
      else w

  unfoldable pub cap_sectors : F → List (List String) → Weights F → Weights F
  cap_sectors max_sector_pct [] w = w
  cap_sectors max_sector_pct (syms ∷ sectors) w =
      cap_sectors max_sector_pct sectors (cap_sector max_sector_pct syms w)

  -- A missing or empty sector map, and a missing or zero sector limit, cap no sector.
  unfoldable pub apply_position_caps : Weights F → F → Option (Dict String) → Option F → Weights F
  apply_position_caps weights max_position_pct sector_map max_sector_pct =
      let w =
        map (λ (symbol, x). (symbol, clip (negate max_position_pct) max_position_pct x)) weights in
      maybe sector_map w λ sectors. maybe max_sector_pct w λ limit.
        if not (is_empty sectors) && truthy limit
        then cap_sectors limit (values (sectors_from sectors [] (map (λ (symbol, _). symbol) w))) w
        else w

  -- A row of the frame of weights for each rebalance.
  unfoldable pub cap_weights :
      RiskConfig F → Option (Dict String) → List (ℕ × Weights F) → List (ℕ × Weights F)
  cap_weights config sector_map weights =
      map
        (λ (t, row). (
          t,
          apply_position_caps row config.max_position_pct sector_map (some config.max_sector_pct),
        ))
        weights
