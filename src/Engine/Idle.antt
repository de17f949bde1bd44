-- ===== src/Engine/Idle.antt =====
-- Positions are traded only when the target changes.
use quant_pilot.Base.{
  String, ◌≡◌, refl, ◌∙◌, Bool, true, false, not, ◌||◌, none, List, [], ◌∷◌, ◌++◌, is_empty, All,
  arith, if-cases,
}
use quant_pilot.Float.{Float, nought, eq}
use quant_pilot.Engine.{
  Day, Numpy, Engine, Book, DayResult, exec_target, array_equal, trade_day, close_day, run_day,
  simulate,
}

module _ {F : Type 0} ⦃d : Float F⦄ (np : Numpy F) (engine : Engine F) (symbols : List String) where
  -- A date on which no new target is decided.
  abbrev pub IsQuiet : Day F → Type 0
  IsQuiet day = (s : String) → day.target s ≡ none

  -- Nothing is traded, at no cost, and the positions stay.
  abbrev pub IsIdle : (String → F) → DayResult F → Type 0
  IsIdle shares r = (r.positions ≡ shares) × (r.cost ≡ nought) × (r.turnover ≡ nought)

  -- The days go on from the target that was traded last.
  abbrev pub IsOnTarget : Book F → Type 0
  IsOnTarget b =
      (is_empty b.past ≡ false)
      × (array_equal symbols (exec_target np engine symbols b) b.prev_target ≡ true)

  trade_day-idle :
      (b : Book F) (opens : String → F) (halted : String → Bool)
      → IsOnTarget b
      → trade_day np engine symbols b opens halted ≡ (b, (nought, nought))
  unfolding trade_day
  trade_day-idle b opens halted (begun, same) = rw begun (rw same refl)

  array_equal-ap :
      (ss : List String) (a a' p : String → F)
      → ((s : String) → a' s ≡ a s)
      → array_equal ss a' p ≡ array_equal ss a p
  unfolding array_equal
  array_equal-ap [] a a' p h = refl
  array_equal-ap (s ∷ ss) a a' p h = rw (h s) (rw (array_equal-ap ss a a' p h) refl)

  array_equal_self :
      (ss : List String) (a : String → F)
      → ((s : String) → eq (a s) (a s) ≡ true)
      → array_equal ss a a ≡ true
  unfolding array_equal
  array_equal_self [] a h = refl
  array_equal_self (s ∷ ss) a h = rw (h s) (array_equal_self ss a h)

  exec_target-close_day :
      (b : Book F) (day : Day F) (s : String)
      → IsQuiet day
      → exec_target np engine symbols (close_day np engine symbols b day) s
        ≡ exec_target np engine symbols b s
  unfolding close_day
  exec_target-close_day b day s quiet = rw (quiet s) refl

  append_some : (days : List (Day F)) (day : Day F) → is_empty (days ++ day ∷ []) ≡ false
  append_some [] day = refl
  append_some (x ∷ xs) day = refl

  close_day-IsOnTarget :
      (b : Book F) (day : Day F)
      → IsQuiet day
      → array_equal symbols (exec_target np engine symbols b) b.prev_target ≡ true
      → IsOnTarget (close_day np engine symbols b day)
  close_day-IsOnTarget b day quiet same = (
    unfold close_day in append_some b.past day,
    array_equal-ap symbols _ _ _ (λ s. exec_target-close_day b day s quiet)
        ∙ unfold close_day in same,
  )

  simulate-IsIdle_from :
      (b : Book F) (days : List (Day F))
      → IsOnTarget b
      → All IsQuiet days
      → All (IsIdle b.shares) (simulate np engine symbols b days)
  unfolding simulate run_day close_day
  simulate-IsIdle_from b [] on quiet = tt
  simulate-IsIdle_from b (day ∷ days) on (q, quiet) =
      rw (trade_day-idle b day.open_price day.halted on) (
        (refl, refl, refl),
        simulate-IsIdle_from (close_day np engine symbols b day) days
            (close_day-IsOnTarget b day q on.1) quiet,
      )

  -- After the trades of a date the target that counts is the one that was traded.
  TargetIsTraded : Book F × (F × F) → Type 0
  TargetIsTraded p = array_equal symbols (exec_target np engine symbols p.0) p.0.prev_target ≡ true

  trade_day-TargetIsTraded :
      (b : Book F) (opens : String → F) (halted : String → Bool)
      → ((s : String)
          → eq (exec_target np engine symbols b s) (exec_target np engine symbols b s) ≡ true)
      → TargetIsTraded (trade_day np engine symbols b opens halted)
  unfolding trade_day TargetIsTraded
  trade_day-TargetIsTraded b opens halted numbers =
      if-cases TargetIsTraded
        (is_empty b.past
          || not (array_equal symbols (exec_target np engine symbols b) b.prev_target))
        (λ _. array_equal_self symbols (exec_target np engine symbols b) numbers)
        (λ same. ground arith)

  IsIdle-after :
      (b : Book F) (day : Day F) (days : List (Day F))
      → IsOnTarget (close_day np engine symbols b day)
      → All IsQuiet days
      → All (IsIdle b.shares) (simulate np engine symbols (close_day np engine symbols b day) days)
  IsIdle-after b day days on quiet =
      unfold close_day in simulate-IsIdle_from (close_day np engine symbols b day) days on quiet

  -- After any date, on dates without a new target nothing is traded: the positions stay as that date
  -- left them, and no cost is charged. The targets in force on that date are numbers, and it
  -- decides no new one itself.
  pub simulate-IsIdle :
      (b : Book F) (day : Day F) (days : List (Day F))
      → ((s : String)
          → eq (exec_target np engine symbols b s) (exec_target np engine symbols b s) ≡ true)
      → IsQuiet day
      → All IsQuiet days
      → let (b', r) = run_day np engine symbols b day in
        All (IsIdle r.positions) (simulate np engine symbols b' days)
  unfolding run_day
  simulate-IsIdle b day days numbers quiet quiet_days =
      let traded = (trade_day np engine symbols b day.open_price day.halted).0 in
      let same = trade_day-TargetIsTraded b day.open_price day.halted numbers in
      let on = close_day-IsOnTarget traded day quiet (unfold TargetIsTraded in same) in
      IsIdle-after traded day days on quiet_days
