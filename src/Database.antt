-- ===== src/Database.antt =====
-- The names of callers in the database (dbhandler.c): dbhandler_get_caller, dbhandler_add_caller and
-- dbhandler_remove_caller. What SQLite does with the table cicaller is a parameter.
pub mod Names
pub mod Times
pub mod Examples
use fritz2ci.Prelude.{
  ℕ, Bool, true, false, Option, none, some, List, [], ◌∷◌, ◌++◌, ◌==◌, if◌then◌else◌, ◌>>=◌,
}
use fritz2ci.Text.{Text, strlcpy}
use fritz2ci.Numbers.{is_valid_number}

-- The statements on the table, for a user and a number: the name in the first row, which can be NULL,
-- if there is a row; the update and the insert of a name, with the number of changed rows; and the
-- deletion of a name. An error is `none`.
pub record Sql : Type 1 where
  pub Db : Type 0
  pub first : Db → ℕ → Text → Option (Option Text)
  pub update : Db → ℕ → Text → Text → Option (Db × ℕ)
  pub insert : Db → ℕ → Text → Text → Option (Db × ℕ)
  pub delete : Db → ℕ → Text → Text → Option Db

-- is_valid_number of a string that may be NULL.
unfoldable pub is_valid : Option Text → Option Bool
unfolding is_valid_number
is_valid none = is_valid_number none
is_valid (some t) = is_valid_number (some (t ++ (0 ∷ [])))

-- The name that is copied from the row, and the result.
abbrev pub read_name : Option (Option Text) → Text → Text × ℕ
unfolding strlcpy
read_name none name = (name, 1)
read_name (some none) name = (name, 0)
read_name (some (some buf)) name = (strlcpy 256 buf, 0)

module _ (sql : Sql) where
  open sql use {Db, first, update, insert, delete}

  -- dbhandler_get_caller, with what the array for the name held.
  unfoldable pub get_caller : Db → ℕ → Option Text → Text → Option (Text × ℕ)
  unfolding is_valid read_name
  get_caller db user none name = some (name, 1)
  get_caller db user (some number) name = do
    valid ← is_valid (some number)
    some (if valid then read_name (first db user number) name else (name, 1))

  -- The insert of dbhandler_add_caller, and what follows the update.
  unfoldable pub after_insert : Db → Option (Db × ℕ) → Db × ℕ
  after_insert db none = (db, 1)
  after_insert db (some (db', changes)) = (db', if changes == 0 then 1 else 0)

  unfoldable pub after_update : Db → ℕ → Text → Text → Option (Db × ℕ) → Db × ℕ
  unfolding after_insert
  after_update db user number name none = (db, 1)
  after_update db user number name (some (db', changes)) =
      if changes == 0 then after_insert db' (insert db' user number name) else (db', 0)

  -- dbhandler_add_caller
  unfoldable pub add_caller : Db → ℕ → Option Text → Option Text → Option (Db × ℕ)
  unfolding is_valid after_update
  add_caller db user none name = some (db, 1)
  add_caller db user (some number) none = some (db, 1)
  add_caller db user (some number) (some name) = do
    valid ← is_valid (some number)
    some (if valid then after_update db user number name (update db user number name) else (db, 1))

  abbrev after_delete : Db → Option Db → Db × ℕ
  after_delete db none = (db, 1)
  after_delete db (some db') = (db', 0)

  -- dbhandler_remove_caller, where the name is not NULL.
  unfoldable pub remove_caller : Db → ℕ → Option Text → Text → Option (Db × ℕ)
  unfolding is_valid
  remove_caller db user none name = some (db, 1)
  remove_caller db user (some number) name = do
    valid ← is_valid (some number)
    some (if valid then after_delete db (delete db user number name) else (db, 1))
