-- ===== src/Lookup/Caller.antt =====
-- The lookup of a caller in the cache and then in the web (lookup.c): _cirlw_find_source,
-- cidb_find_caller, cidb_insert_caller, cirlw_get_caller and lookup_get_caller_data. The database and
-- the transfer are parameters.
pub mod Cached
pub mod Examples
use fritz2ci.Prelude.{
  ℕ, ◌+◌, Bool, true, false, not, ◌||◌, Option, none, some, List, [], ◌∷◌, ◌++◌, length, ◌==◌,
  if◌then◌else◌, ◌>>=◌,
}
use fritz2ci.Memory.{Bytes}
use fritz2ci.Text.{Text, text_of, strcpy}
use fritz2ci.Lookup.Url.{prepare_url}
use fritz2ci.Lookup.Match.{Caller, Found, Pattern, Source, Library, match_patterns}

-- CIDataSet, where an array is the text in it.
pub record DataSet : Type 0 where
  pub number : Text
  pub number_complete : Text
  pub name : Text
  pub date : Text
  pub time : Text
  pub msn : Text
  pub alias : Text
  pub service : Text
  pub fix : Text
  pub area : Text
  pub area_code : Text

-- The columns name, city, street and postalcode of a row, each of which can be NULL.
pub record Row : Type 0 where
  pub name : Option Text
  pub city : Option Text
  pub street : Option Text
  pub postal_code : Option Text

-- The table of the cache: the row for a number, if there is no error and there is one; and the insert
-- of a number with its row, with whether it succeeded.
pub record Cache : Type 1 where
  pub Db : Type 0
  pub select : Db → Text → Option Row
  pub insert : Db → Text → Row → Db × Bool

-- `memset`, here by g_malloc0.
abbrev pub no_caller : Caller
no_caller = record {
  number_complete = [];
  name = [];
  number = [];
  area_code = [];
  postal_code = [];
  street = [];
  city = [];
}

-- `if (buf) strcpy(...)`
abbrev pub copy_column : ℕ → Option Text → Text → Option Text
copy_column size none old = some old
copy_column size (some t) old = strcpy size t

-- The columns of a row.
unfoldable pub copy_row : Row → Caller → Option Caller
copy_row r c = do
  name ← copy_column 256 r.name c.name
  city ← copy_column 256 r.city c.city
  street ← copy_column 256 r.street c.street
  postal ← copy_column 8 r.postal_code c.postal_code
  some (record c { name = name; city = city; street = street; postal_code = postal })

-- cidb_find_caller, with the row that was selected.
unfoldable pub find_caller : Option Row → Caller → Option (Caller × ℕ)
unfolding copy_row
find_caller none c = some (c, 1)
find_caller (some r) c = do c' ← copy_row r c; some (c', 0)

-- The row of cidb_insert_caller.
abbrev pub row_of : Caller → Row
row_of c = record {
  name = some c.name;
  city = some c.city;
  street = some c.street;
  postal_code = some c.postal_code;
}

-- _cirlw_find_source
unfoldable pub find_source : List Source → ℕ → Option Source
find_source [] sid = none
find_source (s ∷ ss) sid = let rest = find_source ss sid in if s.id == sid then some s else rest

-- `*found == 0`
abbrev pub found_nothing : Found → Bool
found_nothing f = not (f.found_name || (f.found_postal_code || (f.found_city || f.found_street)))

-- The result once the transfer succeeded.
abbrev pub matched : Option (Caller × Found × ℕ) → Option (Caller × ℕ)
matched none = none
matched (some (c, fnd, err)) = some (c, if found_nothing fnd then 4 else err)

module _ (lib : Library) where
  -- cirlw_get_caller behind the preparation of the address: whether there is a handle, what the
  -- transfer comes to, which is a page, NULL if it is empty, and the source.
  unfoldable pub transfer : Bool → Option (Option Text) → Source → Caller → Option (Caller × ℕ)
  unfolding match_patterns
  transfer false got s c = some (c, 1)
  transfer true none s c = some (c, 1)
  transfer true (some page) s c = matched (match_patterns lib s.patterns s.split_lines page c)

  module _ (junk : ℕ → ℕ) (fuel : ℕ) (curl : Bool) (perform : Text → Option (Option Text)) where
    -- cirlw_get_caller from a source on, with its query, where strlen(NULL) is a fault.
    unfoldable pub ask_source : Option Text → Source → Caller → Option (Caller × ℕ)
    unfolding transfer prepare_url
    ask_source none s c = none
    ask_source (some query) s c = do
      url ← prepare_url junk fuel (query ++ (0 ∷ [])) c.number_complete
      transfer curl (perform (text_of url)) s c

    unfoldable pub ask : Option Source → Caller → Option (Caller × ℕ)
    unfolding ask_source
    ask none c = some (c, 1)
    ask (some s) c = ask_source s.query s c

    -- cirlw_get_caller
    unfoldable pub get_caller : List Source → ℕ → Caller → Option (Caller × ℕ)
    unfolding ask find_source
    get_caller sources sid c = ask (find_source sources sid) c

module _ (cache : Cache) where
  open cache use {Db, select, insert}

  -- lookup_get_caller_data behind the cache, with what cirlw_get_caller is: the database, the caller
  -- and whether it was found.
  unfoldable pub search_web :
      (Caller → Option (Caller × ℕ)) → Db → Caller × ℕ → Option (Db × Caller × Bool)
  search_web web db (c, rc) = if rc == 0 then some (db, c, true) else (do
    (c', rc') ← web c
    if rc' == 0
        then some ((insert db c'.number_complete (row_of c')).0, c', true)
        else some (db, c', false))

  abbrev pub report : DataSet → Caller → Bool → Option (DataSet × ℕ)
  report d c true = do t ← strcpy 256 c.name; some (record d { name = t }, 0)
  report d c false = some (d, 1)

  -- lookup_get_caller_data; a NULL pointer is `none`.
  unfoldable pub get_caller_data :
      (Caller → Option (Caller × ℕ)) → Db → Option DataSet → Option (Db × Option DataSet × ℕ)
  unfolding find_caller search_web
  get_caller_data web db none = some (db, none, 1)
  get_caller_data web db (some d) = do
    t ← strcpy 32 d.number_complete
    r ← find_caller (select db t) (record no_caller { number_complete = t })
    (db', c, found) ← search_web web db r
    (d', rc) ← report d c found
    some (db', some d', rc)
