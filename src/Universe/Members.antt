-- ===== src/Universe/Members.antt =====
-- Point-in-time membership: the intervals, queried as the repository queries them, give the members
-- that a replay of the events gives.
use quant_pilot.Base.{
  ℕ, String, ◌≡◌, refl, Bool, true, false, ◌&&◌, ◌||◌, List, [], ◌∷◌, arith, any, keep, ◌∙◌,
  if◌then◌else◌, str_eq, All, eq_iff,
}
use quant_pilot.Domain.{UniverseMembership}
use quant_pilot.Universe.{MembershipEvent, sort_by_date, build_membership_intervals, covers, active}
use quant_pilot.Universe.Loop.{holds, replay}
use quant_pilot.Universe.Grouping.{of_key, any-group_events}

-- The rows that `get_universe_membership` returns, of the stored ones.
unfoldable pub members : String → ℕ → List UniverseMembership → List UniverseMembership
members index as_of rows = keep (active index as_of) rows

-- A row of the result names the symbol.
abbrev pub names : String → List UniverseMembership → Bool
names symbol rows = any (λ (m : UniverseMembership). str_eq m.symbol symbol) rows

names-members :
    (index symbol : String) (day : ℕ) (rows : List UniverseMembership)
    → names symbol (members index day rows) ≡ any (holds (index, symbol) day) rows
unfolding members active
names-members index symbol day [] = refl
names-members index symbol day (m ∷ rows) = ground (arith, names-members index symbol day rows)

-- The members of an index on a day, queried from the intervals that are built from any list of
-- events, are just the symbols whose events in that index, taken in order of date up to and
-- including that day (those of one date in the order of the input), end with an add.
pub members-eq-replay :
    (ids : ℕ → String) (events : List MembershipEvent) (index symbol : String) (day : ℕ)
    → names symbol (members index day (build_membership_intervals ids events))
      ≡ replay day false (sort_by_date (of_key (index, symbol) events))
unfolding build_membership_intervals
members-eq-replay ids events index symbol day =
    names-members index symbol day _ ∙ any-group_events ids day (index, symbol) events

-- `symbol in mask.columns`
abbrev pub contains : String → List String → Bool
contains s columns = any (λ c. str_eq c s) columns

-- A Boolean frame: its cells at its dates and columns, which stay as they are.
abbrev pub Mask : Type 0
Mask = ℕ → String → Bool

-- `mask.loc[sel, m.symbol] = True`, where the symbol is a column.
unfoldable pub mark_interval : List String → UniverseMembership → Mask → Mask
mark_interval columns m mask day symbol =
    if contains m.symbol columns && (str_eq m.symbol symbol && covers day m)
    then true
    else mask day symbol

unfoldable pub mark_all : List String → List UniverseMembership → Mask → Mask
mark_all columns [] mask = mask
mark_all columns (m ∷ ms) mask = mark_all columns ms (mark_interval columns m mask)

-- The cell of `membership_matrix` at a date and a symbol; the dates' index is the caller's.
unfoldable pub membership_matrix : List UniverseMembership → List String → Mask
membership_matrix intervals symbols = mark_all symbols intervals (λ day symbol. false)

abbrev pub OfIndex : String → List UniverseMembership → Type 0
OfIndex index ms = All (λ (m : UniverseMembership). str_eq m.index index ≡ true) ms

mark_all-members :
    (index symbol : String) (day : ℕ) (columns : List String) (ms : List UniverseMembership)
    (mask : Mask)
    → contains symbol columns ≡ true
    → OfIndex index ms
    → mark_all columns ms mask day symbol ≡ (mask day symbol || names symbol (members index day ms))
unfolding mark_all mark_interval members active
mark_all-members index symbol day columns [] mask here h = ground arith
mark_all-members index symbol day columns (m ∷ ms) mask here h = ground (
  arith,
  mark_all-members index symbol day columns ms (mark_interval columns m mask) here h.1,
  h.0,
  eq_iff m.symbol symbol,
)

-- For the intervals of one index, the matrix that a backtest filters by is true at a column and a
-- date just where the query for that date returns the symbol.
pub membership_matrix-eq-members :
    (index symbol : String) (day : ℕ) (columns : List String) (intervals : List UniverseMembership)
    → contains symbol columns ≡ true
    → OfIndex index intervals
    → membership_matrix intervals columns day symbol ≡ names symbol (members index day intervals)
unfolding membership_matrix
membership_matrix-eq-members index symbol day columns intervals here h =
    mark_all-members index symbol day columns intervals (λ day symbol. false) here h
