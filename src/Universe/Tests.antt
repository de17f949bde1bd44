-- ===== src/Universe/Tests.antt =====
-- A symbol that joins on day 10, leaves on day 20 and joins again on day 30, reported out of order.
use quant_pilot.Base.{ℕ, String, ◌≡◌, refl, inl, true, false, Option, none, some, List, [], ◌∷◌}
use quant_pilot.Domain.{UniverseMembership}
use quant_pilot.Universe.{
  MembershipEvent, Action, build_membership_intervals, group_events, append_to, key_loop,
  event_loop, sort_by_date, insert_by_date, covers, active,
}
use mathlib.Core.Quot
use quant_pilot.Universe.Loop.{replay}
use quant_pilot.Universe.Reordering.{swap, is_member, is_member-eq_of_reordered}
use quant_pilot.Universe.Members.{
  members, names, membership_matrix, members-eq-replay, membership_matrix-eq-members,
}

abbrev event : String → Action → ℕ → MembershipEvent
event symbol action date = record {
  index = "NIFTY50";
  symbol = symbol;
  action = action;
  date = date;
}

abbrev events : List MembershipEvent
events =
    event "INFY" Action.add 30
    ∷ event "TCS" Action.add 5
    ∷ event "INFY" Action.drop 20
    ∷ event "INFY" Action.add 10
    ∷ []

abbrev ids : ℕ → String
ids n = "id"

abbrev of_infy : ℕ → Option ℕ → UniverseMembership
of_infy from to = record {
  id = "id";
  index = "NIFTY50";
  symbol = "INFY";
  effective_from = from;
  effective_to = to;
}

intervals_of_events :
    build_membership_intervals ids events
    ≡ of_infy 10 (some 20) ∷ of_infy 30 none ∷ record (of_infy 5 none) { symbol = "TCS" } ∷ []
unfolding build_membership_intervals group_events append_to key_loop event_loop sort_by_date
    insert_by_date
intervals_of_events = refl

members-eq-replay_example :
    names "INFY" (members "NIFTY50" 20 (build_membership_intervals ids events)) ≡ false
unfolding replay sort_by_date insert_by_date
members-eq-replay_example = members-eq-replay ids events "NIFTY50" "INFY" 20

membership_matrix-eq-members_example :
    membership_matrix (of_infy 10 (some 20) ∷ of_infy 30 none ∷ []) ("TCS" ∷ "INFY" ∷ []) 12 "INFY"
    ≡ true
unfolding members active covers
membership_matrix-eq-members_example =
    membership_matrix-eq-members "NIFTY50" "INFY" 12 ("TCS" ∷ "INFY" ∷ [])
      (of_infy 10 (some 20) ∷ of_infy 30 none ∷ []) refl (refl, (refl, tt))

-- The same events with the first two rows exchanged.
abbrev reordered : List MembershipEvent
reordered =
    event "TCS" Action.add 5
    ∷ event "INFY" Action.add 30
    ∷ event "INFY" Action.drop 20
    ∷ event "INFY" Action.add 10
    ∷ []

is_member-eq_of_reordered_example :
    is_member ids "NIFTY50" "INFY" 20 events ≡ is_member ids "NIFTY50" "INFY" 20 reordered
is_member-eq_of_reordered_example =
    is_member-eq_of_reordered ids "NIFTY50" "INFY" 20 events reordered (
      Quot.sound (
        swap [] (event "INFY" Action.add 30) (event "TCS" Action.add 5)
          (event "INFY" Action.drop 20 ∷ event "INFY" Action.add 10 ∷ []) (inl refl)))
