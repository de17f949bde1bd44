-- ===== src/Repository/Memberships.antt =====
-- The membership rows of `SqlAlchemyRepository`: `add_universe_membership`, and the query of
-- `get_universe_membership`. The table of rows is a parameter with its two operations.
use quant_pilot.Base.{ℕ, String, ◌≡◌, Bool, Option, List, length, maybe, ◌||◌, any, keep}
use quant_pilot.Domain.{UniverseMembership}
use quant_pilot.Universe.{active}

-- `session.add_all(rows)` with `flush()`, and `session.scalars(select(...).where(p))`. The row has
-- the columns of `UniverseMembership`.
pub record MembershipTable (S : Type 0) : Type 0 where
  pub add_all : List UniverseMembership → S → S
  pub select_where : (UniverseMembership → Bool) → S → List UniverseMembership

-- A query finds a row that passes a test if it is stored or was added; the order of a query's
-- result is not fixed.
pub record IsMembershipTable {S : Type 0} (t : MembershipTable S) : Type 0 where
  pub select-add_all :
      (p q : UniverseMembership → Bool) (rows : List UniverseMembership) (s : S)
      → any q (t.select_where p (t.add_all rows s))
        ≡ (any q (t.select_where p s) || any q (keep p rows))

module _ {S : Type 0} (memberships : MembershipTable S) where
  -- The state, and the count that is returned.
  unfoldable pub add_universe_membership : List UniverseMembership → S → S × ℕ
  add_universe_membership rows s = (memberships.add_all rows s, length rows)

  unfoldable pub get_universe_membership : String → ℕ → S → List UniverseMembership
  get_universe_membership index as_of s = memberships.select_where (active index as_of) s

-- The route `GET /universes/{index}/members` (src/quant_pilot/api/routers/universe.py): a missing
-- date is today.
module _ {S : Type 0} (memberships : MembershipTable S) where
  unfoldable pub universe_members : ℕ → String → Option ℕ → S → List UniverseMembership
  universe_members today index as_of s =
      get_universe_membership memberships index (maybe as_of today λ day. day) s
