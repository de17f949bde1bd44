-- ===== src/Engine/Causal.antt =====
-- Nothing on a date uses information past the close of the day before.
use quant_pilot.Base.{suc, String, ◌≡◌, refl, ap, ◌∙◌, sym, List, [], ◌∷◌, ◌++◌, map, take, length}
use quant_pilot.Float.{Float}
use quant_pilot.Engine.{Day, Numpy, Engine, Book, DayResult, trade_day, run_day, simulate}

module _ {F : Type 0} ⦃d : Float F⦄ (np : Numpy F) (engine : Engine F) (symbols : List String) where
  -- The positions, the costs and the turnover of a date.
  abbrev pub trades : DayResult F → (String → F) × F × F
  trades r = (r.positions, r.cost, r.turnover)

  trades_of : Book F × (F × F) → (String → F) × F × F
  trades_of (b, (cost, turnover)) = (b.shares, cost, turnover)

  trades-run_day :
      (b : Book F) (day : Day F)
      → trades (run_day np engine symbols b day).1
        ≡ trades_of (trade_day np engine symbols b day.open_price day.halted)
  unfolding run_day trades_of
  trades-run_day b day = refl

  -- Two runs that share the days before a date, and the open prices and halts of that date, have the
  -- same positions, costs and turnover on all those days and on that date, whatever the closes,
  -- volumes and targets of the date and whatever follows.
  pub simulate_causal :
      (b : Book F) (before : List (Day F)) (x y : Day F) (xs ys : List (Day F))
      → x.open_price ≡ y.open_price
      → x.halted ≡ y.halted
      → map trades (take (suc (length before)) (simulate np engine symbols b (before ++ x ∷ xs)))
        ≡ map trades (take (suc (length before)) (simulate np engine symbols b (before ++ y ∷ ys)))
  unfolding simulate
  simulate_causal b [] x y xs ys opens halts =
      ap (λ t. t ∷ [])
        (trades-run_day b x
          ∙ ap (λ o. trades_of (trade_day np engine symbols b o x.halted)) opens
          ∙ ap (λ h. trades_of (trade_day np engine symbols b y.open_price h)) halts
          ∙ sym (trades-run_day b y))
  simulate_causal b (z ∷ before) x y xs ys opens halts =
      ap (λ rs. trades (run_day np engine symbols b z).1 ∷ rs)
        (simulate_causal (run_day np engine symbols b z).0 before x y xs ys opens halts)
