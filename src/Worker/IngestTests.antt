-- ===== src/Worker/IngestTests.antt =====
-- A membership file with one event, ingested into a table that is kept in memory.
use quant_pilot.Base.{
  ℕ, String, ◌≡◌, refl, Bool, false, ◌||◌, Option, some, List, [], ◌∷◌, ◌++◌, keep, any, arith,
}
use quant_pilot.Domain.{UniverseMembership}
use quant_pilot.Universe.{
  Action, MembershipEvent, build_membership_intervals, group_events, append_to, key_loop,
  event_loop, sort_by_date, insert_by_date,
}
use quant_pilot.Universe.Parsing.{
  EventRow, listed, parse_membership_events, parse_event, parse_date, parse_action, fields_of,
}
use quant_pilot.Universe.Loop.{replay}
use quant_pilot.Universe.Grouping.{of_key}
use quant_pilot.Universe.Members.{names}
use quant_pilot.Repository.Memberships.{MembershipTable, IsMembershipTable, get_universe_membership}
use quant_pilot.Worker.Ingest.{ingest_universe, read_membership_csv, ingest_universe_lem}

abbrev rows_in_memory : MembershipTable (List UniverseMembership)
rows_in_memory = record { add_all = λ rows s. s ++ rows; select_where = keep }

any-keep_append :
    (p q : UniverseMembership → Bool) (rows s : List UniverseMembership)
    → any q (keep p (s ++ rows)) ≡ (any q (keep p s) || any q (keep p rows))
any-keep_append p q rows [] = refl
any-keep_append p q rows (m ∷ s) = ground (arith, any-keep_append p q rows s)

rows_in_memory-IsMembershipTable : IsMembershipTable rows_in_memory
rows_in_memory-IsMembershipTable = record { select-add_all = any-keep_append }

abbrev read_csv : String → Option (List EventRow)
read_csv path = some (listed ("NIFTY50" ∷ "INFY" ∷ "add" ∷ "2020-01-10" ∷ []) ∷ [])

abbrev strptime : String → Option ℕ
strptime text = some 10

abbrev joined : List MembershipEvent
joined = record { index = "NIFTY50"; symbol = "INFY"; action = Action.add; date = 10 } ∷ []

abbrev ids : ℕ → String
ids n = "id"

ingest_universe_lem_example :
    let (s', report) =
      ingest_universe rows_in_memory ids read_csv (λ t. t) (λ t. t) strptime "nifty.csv" [] in
    (report ≡ some (record { events = 1; intervals = 1 }))
    × ((index symbol : String) (day : ℕ)
        → names symbol (get_universe_membership rows_in_memory index day s') ≡ (
            names symbol (get_universe_membership rows_in_memory index day [])
            || replay day false (sort_by_date (of_key (index, symbol) joined))))
unfolding read_membership_csv parse_membership_events parse_event parse_date parse_action fields_of
    build_membership_intervals group_events append_to key_loop event_loop sort_by_date
    insert_by_date
ingest_universe_lem_example =
    ingest_universe_lem rows_in_memory ids read_csv (λ t. t) (λ t. t) strptime
      rows_in_memory-IsMembershipTable "nifty.csv" joined [] refl
