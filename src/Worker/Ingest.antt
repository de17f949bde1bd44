-- ===== src/Worker/Ingest.antt =====
-- `ingest_universe` and `ingest_ohlcv` of src/quant_pilot/workers/tasks.py. Reading a CSV file and
-- parsing an ISO date are parameters. A unit of work that raises is rolled back, which leaves the
-- state as it was; `none` is the exception. The price cache is on disk and is not rolled back.
use quant_pilot.Base.{
  ℕ, suc, String, ◌≡◌, refl, ap, ◌∙◌, false, ◌||◌, Option, none, some, List, [], ◌∷◌, ◌++◌, maybe,
  length, str_eq,
}
use quant_pilot.Domain.{UniverseMembership}
use quant_pilot.Universe.{MembershipEvent, build_membership_intervals, active, sort_by_date}
use quant_pilot.Universe.Parsing.{EventRow, parse_membership_events}
use quant_pilot.Universe.Loop.{replay}
use quant_pilot.Universe.Grouping.{of_key}
use quant_pilot.Universe.Members.{members, names, members-eq-replay}
use quant_pilot.Repository.Memberships.{
  MembershipTable, IsMembershipTable, add_universe_membership, get_universe_membership,
}
use quant_pilot.MarketData.{Frame, Files, Cells, get_ohlcv}

pub record IngestReport : Type 0 where
  pub events : ℕ
  pub intervals : ℕ

module _ {S : Type 0} (memberships : MembershipTable S) (ids : ℕ → String)
    (read_csv : String → Option (List EventRow)) (strip lower : String → String)
    (strptime : String → Option ℕ) where
  -- `read_membership_csv`
  unfoldable pub read_membership_csv : String → Option (List MembershipEvent)
  read_membership_csv path =
      maybe (read_csv path) none λ rows. parse_membership_events strip lower strptime rows

  unfoldable pub ingest_universe : String → S → S × Option IngestReport
  ingest_universe csv_path s =
      maybe (read_membership_csv csv_path) (s, none)
        λ events.
          let intervals = build_membership_intervals ids events in
          let (s', n) = add_universe_membership memberships intervals s in
          (s', some (record { events = length events; intervals = n }))

  -- Where the file is read and parsed, the ingestion succeeds, and a symbol is then a member of an
  -- index on a day just if it was one before or the file's events, replayed up to that day, end with
  -- an add. So a membership that is stored stays, whatever the file says.
  pub ingest_universe_lem :
      IsMembershipTable memberships
      → (csv_path : String) (events : List MembershipEvent) (s : S)
      → read_membership_csv csv_path ≡ some events
      → let (s', report) = ingest_universe csv_path s in
        (report
          ≡ some (record {
            events = length events;
            intervals = length (build_membership_intervals ids events);
          }))
        × ((index symbol : String) (day : ℕ)
            → names symbol (get_universe_membership memberships index day s') ≡ (
                names symbol (get_universe_membership memberships index day s)
                || replay day false (sort_by_date (of_key (index, symbol) events))))
  unfolding ingest_universe add_universe_membership
  ingest_universe_lem laws csv_path events s parsed = rw parsed (
    refl,
    λ index symbol day.
        unfold get_universe_membership in
        laws.select-add_all (active index day) (λ (m : UniverseMembership). str_eq m.symbol symbol)
          (build_membership_intervals ids events) s
        ∙ ap (λ found. names symbol (memberships.select_where (active index day) s) || found)
            (unfold members in members-eq-replay ids events index symbol day),
  )

pub record OhlcvReport : Type 0 where
  pub ok : ℕ
  pub failed : List String

module _ {F S : Type 0} (files : Files (Cells F) S)
    (download : String → ℕ → ℕ → String → Option (Frame (Cells F)))
    (fromisoformat : String → Option ℕ) where
  -- The loop over the symbols, with `ok` and `failed` so far.
  unfoldable pub ingest_loop : ℕ → ℕ → OhlcvReport → List String → S → S × OhlcvReport
  ingest_loop from to report [] s = (s, report)
  ingest_loop from to report (symbol ∷ symbols) s =
      let failed =
        ingest_loop from to (record report { failed = report.failed ++ symbol ∷ [] }) symbols s in
      maybe (get_ohlcv files download symbol from to "1d" s) failed
        λ (s', rows). ingest_loop from to (record report { ok = suc report.ok }) symbols s'

  unfoldable pub ingest_ohlcv : List String → String → String → S → S × Option OhlcvReport
  ingest_ohlcv symbols start end s =
      maybe (fromisoformat start) (s, none)
        λ from.
          maybe (fromisoformat end) (s, none)
            λ to.
              let (s', report) = ingest_loop from to (record { ok = 0; failed = [] }) symbols s in
              (s', some report)
