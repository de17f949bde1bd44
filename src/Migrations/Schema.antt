-- ===== src/Migrations/Schema.antt =====
-- The operations of `alembic.op` that the revisions use, on a database and on a description of its
-- schema.
use quant_pilot.Base.{
  ℕ, String, ◌≡◌, refl, ap, Bool, true, false, not, ◌&&◌, Option, none, some, List, [], ◌∷◌, maybe,
  any, str_eq, if◌then◌else◌, ◌>>=◌, arith, Option-cases, inl, inr,
}
use quant_pilot.Base.Dict.{Dict, lookup, insert, remove}

-- The column types, those of PostgreSQL.
pub data ColumnType : Type 0 where
  string : ℕ → ColumnType
  text jsonb datetime_tz day boolean integer float : ColumnType

pub record Column : Type 0 where
  pub name : String
  pub column_type : ColumnType
  pub nullable : Bool
  pub primary_key : Bool
  -- The table of `ForeignKey`
  pub references : Option String

-- The table of an index with its columns.
pub record Index : Type 0 where
  pub table : String
  pub columns : List String

pub data Operation : Type 0 where
  create_table : String → List Column → Operation
  create_index : String → Index → Operation
  drop_index : String → Operation
  drop_table : String → Operation

-- What a schema holds.
pub record Schema : Type 0 where
  pub tables : Dict (List Column)
  pub indexes : Dict Index

-- A table that a column refers to is there.
abbrev pub refers_within : Dict (List Column) → List Column → Bool
refers_within tables [] = true
refers_within tables (c ∷ columns) =
    maybe c.references true (λ t. maybe (lookup t tables) false λ _. true)
    && refers_within tables columns

abbrev pub is_referenced : String → Dict (List Column) → Bool
is_referenced name [] = false
is_referenced name ((_, columns) ∷ tables) =
    if any (λ (c : Column). maybe c.references false λ t. str_eq t name) columns
    then true
    else is_referenced name tables

abbrev pub is_indexed : String → Dict Index → Bool
is_indexed name indexes = any (λ (i : String × Index). str_eq i.1.table name) indexes

-- An operation on a description, where what it needs is there and what it makes is not.
unfoldable pub describe : Operation → Schema → Option Schema
describe (create_table name columns) s =
    if maybe (lookup name s.tables) true (λ _. false) && refers_within s.tables columns
    then some (record s { tables = insert name columns s.tables })
    else none
describe (create_index name index) s =
    if maybe (lookup name s.indexes) true (λ _. false)
      && maybe (lookup index.table s.tables) false (λ _. true)
    then some (record s { indexes = insert name index s.indexes })
    else none
describe (drop_index name) s =
    if maybe (lookup name s.indexes) false (λ _. true)
    then some (record s { indexes = remove name s.indexes })
    else none
describe (drop_table name) s =
    let rest = remove name s.tables in
    if maybe (lookup name s.tables) false (λ _. true)
      && (not (is_referenced name rest) && not (is_indexed name s.indexes))
    then some (record s { tables = rest })
    else none

-- A sequence of steps that may fail.
unfoldable pub steps : {O S : Type 0} → (O → S → Option S) → List O → S → Option S
steps step [] s = some s
steps step (o ∷ operations) s = do s' ← step o s; steps step operations s'

-- A database: its operations, and the schema that it holds, in the order in which it was made.
pub record Database (S : Type 0) : Type 0 where
  pub apply : Operation → S → Option S
  pub view : S → Schema

-- An operation whose needs are met is carried out.
pub record IsDatabase {S : Type 0} (db : Database S) : Type 0 where
  pub view-apply :
      (o : Operation) (s : S) (schema : Schema)
      → describe o (db.view s) ≡ some schema
      → (s' : S) × (db.apply o s ≡ some s') × (db.view s' ≡ schema)

module _ {S : Type 0} (db : Database S) (laws : IsDatabase db) where
  -- A sequence of operations that a schema allows is carried out as the schema says.
  pub view-steps :
      (operations : List Operation) (s : S) (schema : Schema)
      → steps describe operations (db.view s) ≡ some schema
      → (s' : S) × (steps db.apply operations s ≡ some s') × (db.view s' ≡ schema)
  unfolding steps
  view-steps [] s schema done = (s, refl, ap (λ o. maybe o (db.view s) (λ x. x)) done)
  view-steps (o ∷ operations) s schema done = elim (Option-cases (describe o (db.view s))) [
    | inl refused ↦ absurd (ground (arith, refused, done))
    | inr (next, made) ↦
        let (s1, applied, viewed) = laws.view-apply o s next made in
        let (s2, rest, held) =
          view-steps operations s1 schema (rw viewed (ground (arith, made, done))) in
        (s2, rw applied rest, held)
  ]
