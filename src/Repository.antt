-- ===== src/Repository.antt =====
-- src/quant_pilot/adapters/persistence/repository.py: `SqlAlchemyRepository`, its part for orders,
-- audit events and universe membership. The SQLAlchemy session is a parameter: for each table the
-- primary-key lookup, the insertion of a new row and the write to a loaded row, each with its flush.
-- A flush that raises ends the request or the job, whose session is then rolled back; for the order
-- path this is `in_transaction` of Orders.
pub mod Rows
pub mod Storage
pub mod Runs
pub mod Configs
pub mod Memberships
pub mod Lists
pub mod InMemory
mod Tests
use quant_pilot.Base.{
  ℕ, String, ◌≡◌, Bool, true, false, Option, none, some, List, str_eq, maybe, if◌then◌else◌,
}
use quant_pilot.Domain.{Order, AuditEvent}
use Rows.{OrderOrm, order_row, order_of_row}

-- A session's view of one table.
pub record Table (Row State : Type 0) : Type 0 where
  -- `session.get(Orm, key)`
  pub find : State → String → Option Row
  -- `session.add(row)` and `session.flush()` for a key that is new
  pub add : String → Row → State → State
  -- writes to the attributes of the row that was loaded by this key, and `session.flush()`
  pub write : String → Row → State → State

-- The identity map: what was flushed under a key is found under it, and other keys are untouched.
pub record IsTable {Row State : Type 0} (t : Table Row State) : Type 0 where
  pub find-add :
      (s : State) (k j : String) (r : Row)
      → t.find s k ≡ none
      → t.find (t.add k r s) j ≡ (if str_eq k j then some r else t.find s j)
  pub find-write :
      (s : State) (k j : String) (old r : Row)
      → t.find s k ≡ some old
      → t.find (t.write k r s) j ≡ (if str_eq k j then some r else t.find s j)

module _ {F S : Type 0} (orders : Table (OrderOrm F) S) where
  -- The state after `save_order`; it returns the saved row as an order, `order_of_row (order_row o)`.
  unfoldable pub save_order : Order F → S → S
  save_order o s =
      maybe (orders.find s o.id) (orders.add o.id (order_row o) s)
        λ _. orders.write o.id (order_row o) s

  -- `none` inside is a row that `Order.model_validate` refuses, `none` outside a missing row.
  unfoldable pub get_order : String → S → Option (Option (Order F))
  get_order order_id s = maybe (orders.find s order_id) none λ row. some (order_of_row row)

module _ {P S : Type 0} (audit : Table (AuditEvent P) S) where
  -- The audit row has the columns of the event.
  unfoldable pub append_audit : AuditEvent P → S → S
  append_audit event s = audit.add event.id event s
