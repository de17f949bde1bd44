-- ===== src/Repository/Tests.antt =====
-- Saving an order to a table in memory.
use quant_pilot.Base.{◌≡◌, some, []}
use quant_pilot.Base.Int.{ℤ}
use quant_pilot.Base.Dict.{Dict}
use quant_pilot.Domain.{Order, buy, market}
use quant_pilot.PaperBroker.Samples.{order}
use quant_pilot.Repository.{save_order, get_order}
use quant_pilot.Repository.Rows.{OrderOrm}
use quant_pilot.Repository.Storage.{get_order-save_order}
use quant_pilot.Repository.InMemory.{in_memory, in_memory-IsTable}

abbrev bought : Order ℤ
bought = order "o1" buy 10 market

abbrev no_orders : Dict (OrderOrm ℤ)
no_orders = []

read_back : get_order in_memory "o1" (save_order in_memory bought no_orders) ≡ some (some bought)
read_back = get_order-save_order in_memory in_memory-IsTable bought no_orders "o1"
