-- ===== src/Server/Requests.antt =====
-- The requests of the clients to the database (ci-server.c), with the lists of calls and callers that
-- dbhandler.c makes for them. The tables are SQLite's, and the messages are cinet's.
pub mod Added
pub mod Examples
use fritz2ci.Prelude.{
  ℕ, Bool, true, false, Option, none, some, List, [], ◌∷◌, ◌==◌, if◌then◌else◌, ◌>>=◌,
}
use fritz2ci.Text.{Text, strlcpy}
use fritz2ci.Lookup.Caller.{DataSet}
use fritz2ci.Areacodes.{Area}
use fritz2ci.Database.{Sql, is_valid, get_caller, add_caller, remove_caller}
use fritz2ci.Main.Handle.{no_data}

-- A row of dbhandler_get_calls; a column of text can be NULL.
pub record CallRow : Type 0 where
  pub number : Option Text
  pub name : Option Text
  pub timestamp : ℕ
  pub msn : Option Text
  pub alias : Option Text
  pub service : Option Text
  pub fix : Option Text
  pub id : ℕ

-- CIDbCall, CIDbCaller
pub record DbCall : Type 0 where
  pub id : ℕ
  pub set : DataSet

pub record DbCaller : Type 0 where
  pub number : Option Text
  pub name : Option Text

-- The tables and what is read from them: the number of calls and the rows of a page, with whether the
-- statement ended well, and the callers of a user that match a filter, if the statement is well
-- formed; with the times of the C library, and ci_get_area_code.
pub record Tables : Type 1 where
  pub sql : Sql
  pub Calls : Type 0
  pub num_calls : Calls → Option ℕ
  pub call_rows : Calls → ℕ → ℕ → List CallRow × Bool
  pub caller_rows : sql.Db → ℕ → Option Text → Option (List DbCaller)
  pub format_date : ℕ → Text
  pub format_time : ℕ → Text
  pub area_code : Text → Area → Option (Area × ℕ)

-- The requests with their `guid`, and the replies.
pub data Request : Type 0 where
  db_num_calls : (guid : ℕ) → Request
  db_call_list : (guid user offset count : ℕ) → Request
  db_get_caller : (guid user : ℕ) (number : Option Text) → Request
  db_add_caller : (guid user : ℕ) (number name : Option Text) → Request
  db_del_caller : (guid user : ℕ) (number : Option Text) (name : Text) → Request
  db_get_caller_list : (guid user : ℕ) (filter : Option Text) → Request

pub data Reply : Type 0 where
  num_calls_reply : (guid count : ℕ) → Reply
  call_list_reply : (guid user offset count : ℕ) (calls : List DbCall) → Reply
  caller_reply : (guid user : ℕ) (number name : Option Text) → Reply
  same_message : (request : Request) → Reply
  caller_list_reply : (guid user : ℕ) (filter : Option Text) (callers : List DbCaller) → Reply

-- `g_list_prepend` of each element, in turn.
abbrev pub prepend_all : {A : Type 0} → List A → List A → List A
prepend_all [] acc = acc
prepend_all (x ∷ xs) acc = prepend_all xs (x ∷ acc)

-- `if (buf) g_strlcpy(...)` to an empty array.
abbrev pub copy_cut : ℕ → Option Text → Text
unfolding strlcpy
copy_cut size none = []
copy_cut size (some t) = strlcpy size t

abbrev pub count_or_zero : Option ℕ → ℕ
count_or_zero none = 0
count_or_zero (some n) = n

-- `rc == 0 ? name : NULL`
abbrev pub name_if_found : Text × ℕ → Option Text
name_if_found (name, rc) = if rc == 0 then some name else none

module _ (tables : Tables) where
  open tables use {
    sql, Calls, num_calls, call_rows, caller_rows, format_date, format_time, area_code,
  }

  unfoldable pub read_call_row : CallRow → DbCall
  unfolding copy_cut
  read_call_row r = record {
    id = r.id;
    set = record no_data {
      number_complete = copy_cut 32 r.number;
      name = copy_cut 256 r.name;
      date = format_date r.timestamp;
      time = format_time r.timestamp;
      msn = copy_cut 16 r.msn;
      alias = copy_cut 256 r.alias;
      service = copy_cut 256 r.service;
      fix = copy_cut 256 r.fix;
    };
  }

  abbrev pub prepend_calls : List CallRow → List DbCall → List DbCall
  unfolding read_call_row
  prepend_calls [] acc = acc
  prepend_calls (r ∷ rs) acc = prepend_calls rs (read_call_row r ∷ acc)

  -- The area code and the name of the caller, if the number is one.
  unfoldable pub complete_call : sql.Db → ℕ → DbCall → Option DbCall
  unfolding is_valid get_caller
  complete_call db user c = do
    valid ← is_valid (some c.set.number_complete)
    if valid
        then (do
          (a, rc) ←
              area_code c.set.number_complete
                (record { code = c.set.area_code; number = c.set.number; area = c.set.area })
          (name, rc') ← get_caller sql db user (some c.set.number_complete) c.set.name
          some (record c {
            set = record c.set {
              area_code = a.code;
              number = a.number;
              area = a.area;
              name = name;
            };
          }))
        else some c

  unfoldable pub complete_calls : sql.Db → ℕ → List DbCall → Option (List DbCall)
  unfolding complete_call
  complete_calls db user [] = some []
  complete_calls db user (c ∷ cs) = do
    c' ← complete_call db user c
    cs' ← complete_calls db user cs
    some (c' ∷ cs')

  -- dbhandler_get_calls, with what the statement gives.
  unfoldable pub get_calls : sql.Db → ℕ → List CallRow × Bool → Option (List DbCall)
  unfolding prepend_calls complete_calls
  get_calls db user (rows, false) = some []
  get_calls db user (rows, true) = complete_calls db user (prepend_calls rows [])

  -- dbhandler_get_callers, with what the statement gives.
  abbrev pub get_callers : Option (List DbCaller) → List DbCaller
  get_callers none = []
  get_callers (some rows) = prepend_all rows []

  -- The handlers: the table of callers behind the request, and the reply that is sent, where the array
  -- for a name holds something. g_list_reverse prepends each element too.
  unfoldable pub handle_request : Text → Request → Calls → sql.Db → Option (sql.Db × Reply)
  unfolding get_calls get_caller add_caller remove_caller
  handle_request array (db_num_calls guid) calls db =
      some (db, num_calls_reply guid (count_or_zero (num_calls calls)))
  handle_request array (db_call_list guid user offset count) calls db = do
    found ← get_calls db user (call_rows calls offset count)
    some (db, call_list_reply guid user offset count (prepend_all (prepend_all found []) []))
  handle_request array (db_get_caller guid user number) calls db = do
    r ← get_caller sql db user number array
    some (db, caller_reply guid user number (name_if_found r))
  handle_request array (db_add_caller guid user number name) calls db = do
    (db', rc) ← add_caller sql db user number name
    some (db', same_message (db_add_caller guid user number name))
  handle_request array (db_del_caller guid user number name) calls db = do
    (db', rc) ← remove_caller sql db user number name
    some (db', same_message (db_del_caller guid user number name))
  handle_request array (db_get_caller_list guid user filter) calls db = some (
    db,
    caller_list_reply guid user filter
        (prepend_all (prepend_all (get_callers (caller_rows db user filter)) []) []),
  )
