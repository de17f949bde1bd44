-- ===== src/Universe/Parsing.antt =====
-- `parse_membership_events` of src/quant_pilot/engine/data/universe.py. Python's `str.strip` and
-- `str.lower`, and `strptime` with the format %Y-%m-%d, are parameters; `none` is an exception.
use quant_pilot.Base.{ℕ, String, Option, none, some, List, [], ◌∷◌, str_eq, maybe, if◌then◌else◌}
use quant_pilot.Base.Dict.{Dict, lookup}
use quant_pilot.Universe.{Action, MembershipEvent}

pub data EventRow : Type 0 where
  named : Dict String → EventRow
  listed : List String → EventRow

-- The validation of `Action`.
unfoldable pub parse_action : String → Option Action
parse_action s =
    if str_eq s "add" then some Action.add else if str_eq s "drop" then some Action.drop else none

-- `index, symbol, action, when` of a row
unfoldable pub fields_of : EventRow → Option (String × String × String × String)
fields_of (named row) = maybe (lookup "index" row) none λ index.
    maybe (lookup "symbol" row) none λ symbol.
      maybe (lookup "action" row) none
        λ action. maybe (lookup "date" row) none λ date. some (index, symbol, action, date)
fields_of (listed (index ∷ symbol ∷ action ∷ date ∷ [])) = some (index, symbol, action, date)
fields_of (listed _) = none

module _ (strip lower : String → String) (strptime : String → Option ℕ) where
  unfoldable pub parse_date : String → Option ℕ
  parse_date value = strptime (strip value)

  unfoldable pub parse_event : EventRow → Option MembershipEvent
  parse_event row = maybe (fields_of row) none λ (index, symbol, action, when).
      maybe (parse_action (lower (strip action))) none λ a.
        maybe (parse_date when) none λ day.
          some (record { index = strip index; symbol = strip symbol; action = a; date = day })

  unfoldable pub parse_membership_events : List EventRow → Option (List MembershipEvent)
  parse_membership_events [] = some []
  parse_membership_events (row ∷ rows) =
      maybe (parse_event row) none
        λ e. maybe (parse_membership_events rows) none λ es. some (e ∷ es)
