-- ===== src/Prisma.antt =====
-- The database client as the services use it. Prisma and PostgreSQL are not part of the
-- repository: they are a value of `Prisma`, a parameter of every service, and what the services
-- rely on is `IsDocumented`. A table is the list of its rows, in the order in which the database
-- lists them.
mod Query
pub mod Rows
pub mod Top
pub mod Sorted
pub mod Apart
pub use Query.{
  first, matching, count_rows, max_rows, update_rows, update_unique, update_clashes, insert_row,
  update_row, upsert_row, sort, page_of, commit,
}
use novelhub.Prelude.{ℕ, Bool, Option, none, some, List, ◌≡◌, ◌≢◌, ◌++◌, ◌∷◌, [], All, sym}
use mathlib.Core.Path.{subst}
use novelhub.Action.{Ident, Result, Exec}

pub record Prisma : Type 1 where
  -- `findFirst({ where })`, and `findUnique`, whose `where` names a unique column
  pub find_first : {Row : Type 0} → (Row → Bool) → List Row → Option Row
  -- `findMany({ where, orderBy, skip, take })`; the order is "may stand before"
  pub find_many : {Row : Type 0} → (Row → Bool) → (Row → Row → Bool) → ℕ → ℕ → List Row → List Row
  -- `findMany({ where })`
  pub find_all : {Row : Type 0} → (Row → Bool) → List Row → List Row
  -- `count({ where })`
  pub count : {Row : Type 0} → (Row → Bool) → List Row → ℕ
  -- `aggregate({ where, _max })`
  pub aggregate_max : {Row : Type 0} → (Row → ℕ) → (Row → Bool) → List Row → Option ℕ
  -- `updateMany({ where, data })` of columns that no unique constraint names: the table after it,
  -- and `result.count`
  pub update_many : {Row : Type 0} → (Row → Bool) → (Row → Row) → List Row → List Row × ℕ
  -- `updateMany({ where, data })` of a column under a unique constraint; `none` is P2002
  pub update_many_unique :
      {Row : Type 0}
      → (Row → Row → Bool)
      → (Row → Bool)
      → (Row → Row)
      → List Row
      → Option (List Row × ℕ)
  -- `create({ data })` under the table's unique constraints, given as "these two rows clash";
  -- `none` is the unique-constraint violation P2002
  pub create : {Row : Type 0} → (Row → Row → Bool) → Row → List Row → Option (List Row)
  -- `update({ where, data })` under the unique constraints; it fails with P2025 or P2002
  pub update :
      {Row : Type 0}
      → (Row → Row → Bool)
      → (Row → Bool)
      → (Row → Row)
      → List Row
      → Result (List Row)
  -- `upsert({ where, create, update })`
  pub upsert : {Row : Type 0} → (Row → Bool) → Row → (Row → Row) → List Row → List Row
  -- the value of `@default(uuid())` for a new row
  pub uuid : {Row : Type 0} → (Row → Ident) → List Row → Ident
  -- `$transaction(async (tx) => …)`
  pub transaction : {S A : Type 0} → Exec S A → Exec S A

-- What the documentation of Prisma and PostgreSQL says of a client.
pub record IsDocumented (p : Prisma) : Type 1 where
  pub find_first_lem :
      {Row : Type 0} (w : Row → Bool) (rows : List Row) → p.find_first w rows ≡ first w rows
  pub find_many_lem :
      {Row : Type 0} (w : Row → Bool) (before : Row → Row → Bool) (skip take : ℕ) (rows : List Row)
      → p.find_many w before skip take rows ≡ page_of skip take (sort before (matching w rows))
  pub find_all_lem :
      {Row : Type 0} (w : Row → Bool) (rows : List Row) → p.find_all w rows ≡ matching w rows
  pub count_lem :
      {Row : Type 0} (w : Row → Bool) (rows : List Row) → p.count w rows ≡ count_rows w rows
  pub aggregate_max_lem :
      {Row : Type 0} (f : Row → ℕ) (w : Row → Bool) (rows : List Row)
      → p.aggregate_max f w rows ≡ max_rows f w rows
  pub update_many_lem :
      {Row : Type 0} (w : Row → Bool) (f : Row → Row) (rows : List Row)
      → p.update_many w f rows ≡ (update_rows w f rows, count_rows w rows)
  pub update_many_unique_lem :
      {Row : Type 0} (clash : Row → Row → Bool) (w : Row → Bool) (f : Row → Row) (rows : List Row)
      → p.update_many_unique clash w f rows ≡ update_unique clash w f rows
  pub create_lem :
      {Row : Type 0} (clash : Row → Row → Bool) (row : Row) (rows : List Row)
      → p.create clash row rows ≡ insert_row clash row rows
  pub update_lem :
      {Row : Type 0} (clash : Row → Row → Bool) (w : Row → Bool) (f : Row → Row) (rows : List Row)
      → p.update clash w f rows ≡ update_row clash w f rows
  pub upsert_lem :
      {Row : Type 0} (w : Row → Bool) (row : Row) (f : Row → Row) (rows : List Row)
      → p.upsert w row f rows ≡ upsert_row w row f rows
  pub uuid_is_new :
      {Row : Type 0} (id : Row → Ident) (rows : List Row) → All (λ r. id r ≢ p.uuid id rows) rows
  pub transaction_lem : {S A : Type 0} (m : Exec S A) (s : S) → p.transaction m s ≡ commit (m s) s

-- A client that runs the queries on lists, with the ids it is given.
abbrev pub Uuid : Type 1
Uuid = (Row : Type 0) → (Row → Ident) → List Row → Ident

abbrev pub on_lists : Uuid → Prisma
on_lists uuid = record {
  find_first = first;
  find_many = λ w before skip n rows. page_of skip n (sort before (matching w rows));
  find_all = matching;
  count = count_rows;
  aggregate_max = max_rows;
  update_many = λ w f rows. (update_rows w f rows, count_rows w rows);
  update_many_unique = update_unique;
  create = insert_row;
  update = update_row;
  upsert = upsert_row;
  uuid = λ {Row} id rows. uuid Row id rows;
  transaction = λ m s. commit (m s) s;
}

abbrev pub uuid_of : Prisma → Uuid
uuid_of p = λ Row id rows. p.uuid id rows

-- A documented client is the one that runs on lists.
pub eq_on_lists : (p : Prisma) → IsDocumented p → p ≡ on_lists (uuid_of p)
eq_on_lists p doc = λ i. record {
  find_first = λ w rows. doc.find_first_lem w rows i;
  find_many = λ w before skip n rows. doc.find_many_lem w before skip n rows i;
  find_all = λ w rows. doc.find_all_lem w rows i;
  count = λ w rows. doc.count_lem w rows i;
  aggregate_max = λ f w rows. doc.aggregate_max_lem f w rows i;
  update_many = λ w f rows. doc.update_many_lem w f rows i;
  update_many_unique = λ clash w f rows. doc.update_many_unique_lem clash w f rows i;
  create = λ clash row rows. doc.create_lem clash row rows i;
  update = λ clash w f rows. doc.update_lem clash w f rows i;
  upsert = λ w row f rows. doc.upsert_lem w row f rows i;
  uuid = λ id rows. p.uuid id rows;
  transaction = λ m s. doc.transaction_lem m s i;
}

-- So a statement about every documented client is proved on lists.
pub transfer {ℓ} :
    (P : Prisma → Type ℓ) (p : Prisma) → IsDocumented p → P (on_lists (uuid_of p)) → P p
transfer P p doc h = subst P (sym (eq_on_lists p doc)) h
