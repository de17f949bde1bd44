-- ===== src/Repository/Configs.antt =====
-- Strategy configs and instruments of `SqlAlchemyRepository`, with `StrategyConfigORM` and
-- `InstrumentORM` of src/quant_pilot/adapters/persistence/models.py.
use quant_pilot.Base.{
  ℕ, String, ◌≡◌, refl, Bool, Option, none, some, str_eq, maybe, if◌then◌else◌, arith, Option-cases,
  inl, inr,
}
use quant_pilot.Base.Int.{ℤ}
use quant_pilot.Domain.{
  StrategyConfig, StrategyType, Instrument, Exchange, strategy_type_value, exchange_value,
}
use quant_pilot.Repository.{Table, IsTable}

pub record StrategyConfigOrm : Type 0 where
  pub id : String
  pub name : String
  pub strategy_type : String
  pub params : String
  pub created_at : ℕ

pub record InstrumentOrm : Type 0 where
  pub symbol : String
  pub exchange : String
  pub name : Option String
  pub sector : Option String
  pub has_liquid_ssf : Bool
  pub lot_size : Option ℤ

unfoldable pub parse_strategy_type : String → Option StrategyType
parse_strategy_type s =
    if str_eq s "momentum"
    then some StrategyType.momentum
    else if str_eq s "pairs"
    then some StrategyType.pairs
    else if str_eq s "combined"
    then some StrategyType.combined
    else none

unfoldable pub parse_exchange : String → Option Exchange
parse_exchange s =
    if str_eq s "NSE" then some Exchange.nse else if str_eq s "BSE" then some Exchange.bse else none

unfoldable pub config_row : StrategyConfig → StrategyConfigOrm
config_row cfg = record {
  id = cfg.id;
  name = cfg.name;
  strategy_type = strategy_type_value cfg.strategy_type;
  params = cfg.params;
  created_at = cfg.created_at;
}

-- `StrategyConfig.model_validate(orm)`
unfoldable pub config_of_row : StrategyConfigOrm → Option StrategyConfig
config_of_row orm = maybe (parse_strategy_type orm.strategy_type) none λ t. some (record {
  id = orm.id;
  name = orm.name;
  strategy_type = t;
  params = orm.params;
  created_at = orm.created_at;
})

unfoldable pub instrument_row : Instrument → InstrumentOrm
instrument_row i = record {
  symbol = i.symbol;
  exchange = exchange_value i.exchange;
  name = i.name;
  sector = i.sector;
  has_liquid_ssf = i.has_liquid_ssf;
  lot_size = i.lot_size;
}

unfoldable pub instrument_of_row : InstrumentOrm → Option Instrument
instrument_of_row orm = maybe (parse_exchange orm.exchange) none λ e. some (record {
  symbol = orm.symbol;
  exchange = e;
  name = orm.name;
  sector = orm.sector;
  has_liquid_ssf = orm.has_liquid_ssf;
  lot_size = orm.lot_size;
})

module _ {S : Type 0} (configs : Table StrategyConfigOrm S) where
  unfoldable pub save_strategy_config : StrategyConfig → S → S
  save_strategy_config cfg s =
      maybe (configs.find s cfg.id) (configs.add cfg.id (config_row cfg) s)
        λ _. configs.write cfg.id (config_row cfg) s

  unfoldable pub get_strategy_config : String → S → Option (Option StrategyConfig)
  get_strategy_config id s = maybe (configs.find s id) none λ orm. some (config_of_row orm)

module _ {S : Type 0} (instruments : Table InstrumentOrm S) where
  unfoldable pub upsert_instrument : Instrument → S → S
  upsert_instrument i s =
      maybe (instruments.find s i.symbol) (instruments.add i.symbol (instrument_row i) s)
        λ _. instruments.write i.symbol (instrument_row i) s

  unfoldable pub get_instrument : String → S → Option (Option Instrument)
  get_instrument symbol s =
      maybe (instruments.find s symbol) none λ orm. some (instrument_of_row orm)

parse-strategy_type_value :
    (t : StrategyType) → parse_strategy_type (strategy_type_value t) ≡ some t
unfolding parse_strategy_type
parse-strategy_type_value StrategyType.momentum = refl
parse-strategy_type_value StrategyType.pairs = refl
parse-strategy_type_value StrategyType.combined = refl

parse-exchange_value : (e : Exchange) → parse_exchange (exchange_value e) ≡ some e
unfolding parse_exchange
parse-exchange_value Exchange.nse = refl
parse-exchange_value Exchange.bse = refl

config_of_row-config_row : (cfg : StrategyConfig) → config_of_row (config_row cfg) ≡ some cfg
unfolding config_of_row config_row
config_of_row-config_row cfg = simp (parse-strategy_type_value)

instrument_of_row-instrument_row : (i : Instrument) → instrument_of_row (instrument_row i) ≡ some i
unfolding instrument_of_row instrument_row
instrument_of_row-instrument_row i = simp (parse-exchange_value)

module _ {S T : Type 0} (configs : Table StrategyConfigOrm S) (configs_laws : IsTable configs)
    (instruments : Table InstrumentOrm T) (instruments_laws : IsTable instruments) where
  get-save_strategy_config :
      (cfg : StrategyConfig) (s : S) (k : String)
      → get_strategy_config configs k (save_strategy_config configs cfg s)
        ≡ (if str_eq cfg.id k then some (some cfg) else get_strategy_config configs k s)
  unfolding get_strategy_config save_strategy_config
  get-save_strategy_config cfg s k = elim (Option-cases (configs.find s cfg.id)) [
    | inl new ↦
        ground (
          arith,
          configs_laws.find-add s cfg.id k (config_row cfg) new,
          config_of_row-config_row cfg,
        )
    | inr (old, found) ↦ ground (
      arith,
      configs_laws.find-write s cfg.id k old (config_row cfg) found,
      config_of_row-config_row cfg,
    )
  ]

  get-upsert_instrument :
      (i : Instrument) (s : T) (k : String)
      → get_instrument instruments k (upsert_instrument instruments i s)
        ≡ (if str_eq i.symbol k then some (some i) else get_instrument instruments k s)
  unfolding get_instrument upsert_instrument
  get-upsert_instrument i s k = elim (Option-cases (instruments.find s i.symbol)) [
    | inl new ↦ ground (
      arith,
      instruments_laws.find-add s i.symbol k (instrument_row i) new,
      instrument_of_row-instrument_row i,
    )
    | inr (old, found) ↦ ground (
      arith,
      instruments_laws.find-write s i.symbol k old (instrument_row i) found,
      instrument_of_row-instrument_row i,
    )
  ]

  -- A strategy config and an instrument that are saved, new or not, are read back whole under their
  -- keys, and every other key reads as before.
  pub configs_and_instruments_kept :
      (cfg : StrategyConfig) (i : Instrument) (s : S) (t : T) (k : String)
      → (get_strategy_config configs k (save_strategy_config configs cfg s)
          ≡ (if str_eq cfg.id k then some (some cfg) else get_strategy_config configs k s))
        × (get_instrument instruments k (upsert_instrument instruments i t)
            ≡ (if str_eq i.symbol k then some (some i) else get_instrument instruments k t))
  configs_and_instruments_kept cfg i s t k =
      (get-save_strategy_config cfg s k, get-upsert_instrument i t k)
