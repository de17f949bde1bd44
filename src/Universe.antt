-- ===== src/Universe.antt =====
-- src/quant_pilot/engine/data/universe.py: index membership rebuilt from add and drop events. A date
-- is its day number. The default id of an interval, `uuid4().hex`, is the next of a supply `ids`.
-- `active` is the filter of `get_universe_membership` (adapters/persistence/repository.py).
pub mod Sorting
pub mod Loop
pub mod Grouping
pub mod Members
pub mod Reordering
pub mod Parsing
mod Tests
use quant_pilot.Base.{
  ℕ, String, Bool, true, false, ◌&&◌, ◌||◌, Option, none, some, List, [], ◌∷◌, ◌++◌, leb, ltb,
  length, any, str_eq, maybe, if◌then◌else◌, map,
}
use quant_pilot.Domain.{UniverseMembership}

pub data Action : Type 0 where
  add drop : Action

pub record MembershipEvent : Type 0 where
  pub index : String
  pub symbol : String
  pub action : Action
  pub date : ℕ

abbrev pub Key : Type 0
Key = String × String

abbrev pub key_eq : Key → Key → Bool
key_eq (i, s) (j, t) = str_eq i j && str_eq s t

abbrev pub key_of : MembershipEvent → Key
key_of e = (e.index, e.symbol)

-- `by_key`, in the order of first occurrence
abbrev pub Groups : Type 0
Groups = List (Key × List MembershipEvent)

-- `by_key[key].append(event)` on the `defaultdict`
unfoldable pub append_to : Key → MembershipEvent → Groups → Groups
append_to k e [] = (k, e ∷ []) ∷ []
append_to k e ((j, es) ∷ gs) =
    if key_eq j k then (j, es ++ e ∷ []) ∷ gs else (j, es) ∷ append_to k e gs

unfoldable pub group_events : Groups → List MembershipEvent → Groups
group_events gs [] = gs
group_events gs (e ∷ es) = group_events (append_to (key_of e) e gs) es

-- `evs.sort(key=lambda e: e.date)`: Python's sort is stable, so an event goes behind those of its
-- date that stand before it.
unfoldable pub insert_by_date : MembershipEvent → List MembershipEvent → List MembershipEvent
insert_by_date e [] = e ∷ []
insert_by_date e (f ∷ fs) = if leb e.date f.date then e ∷ f ∷ fs else f ∷ insert_by_date e fs

unfoldable pub sort_by_date : List MembershipEvent → List MembershipEvent
sort_by_date [] = []
sort_by_date (e ∷ es) = insert_by_date e (sort_by_date es)

module _ (ids : ℕ → String) where
  abbrev pub interval : Key → ℕ → Option ℕ → List UniverseMembership → UniverseMembership
  interval (i, s) from to intervals = record {
    id = ids (length intervals);
    index = i;
    symbol = s;
    effective_from = from;
    effective_to = to;
  }

  -- The inner loop, over the sorted events of one key.
  unfoldable pub event_loop :
      Key → List MembershipEvent → Option ℕ → List UniverseMembership → List UniverseMembership
  event_loop k [] none intervals = intervals
  event_loop k [] (some from) intervals = intervals ++ interval k from none intervals ∷ []
  event_loop k (e ∷ es) open_from intervals =
      let opened = event_loop k es (some e.date) intervals in
      let unchanged = event_loop k es open_from intervals in
      elim e.action [
        | Action.add ↦ maybe open_from opened (λ _. unchanged)
        | Action.drop ↦ maybe open_from unchanged (λ from.
            event_loop k es none (intervals ++ interval k from (some e.date) intervals ∷ []))
      ]

  unfoldable pub key_loop : Groups → List UniverseMembership → List UniverseMembership
  key_loop [] intervals = intervals
  key_loop ((k, evs) ∷ gs) intervals = key_loop gs (event_loop k (sort_by_date evs) none intervals)

  unfoldable pub build_membership_intervals : List MembershipEvent → List UniverseMembership
  build_membership_intervals events = key_loop (group_events [] events) []

-- `effective_from <= as_of and (effective_to is None or effective_to > as_of)`
unfoldable pub covers : ℕ → UniverseMembership → Bool
covers as_of m = leb m.effective_from as_of && maybe m.effective_to true (λ to. ltb as_of to)

-- The condition of the query of `get_universe_membership`.
unfoldable pub active : String → ℕ → UniverseMembership → Bool
active index as_of m = str_eq m.index index && covers as_of m
