-- ===== src/Repository/InMemory.antt =====
-- A table that is kept in memory: it shows that the laws of `Table` can be met, and the tests run on
-- it.
use quant_pilot.Base.Dict.{Dict, lookup, insert, lookup-insert}
use quant_pilot.Repository.{Table, IsTable}

module _ {Row : Type 0} where
  abbrev pub in_memory : Table Row (Dict Row)
  in_memory = record { find = λ s k. lookup k s; add = insert; write = insert }

  pub in_memory-IsTable : IsTable in_memory
  in_memory-IsTable = record {
    find-add = λ s k j r new. lookup-insert k j r s;
    find-write = λ s k j old r found. lookup-insert k j r s;
  }
