-- ===== src/Server/Requests/Examples.antt =====
-- Requests on small tables.
use fritz2ci.Prelude.{◌≡◌, refl, true, none, some, List, [], ◌∷◌}
use fritz2ci.Text.{strlcpy}
use fritz2ci.Database.{is_valid, add_caller}
use fritz2ci.Database.Examples.{map_sql, map_laws, empty, with_max, home, max}
use fritz2ci.Main.Handle.{no_data}
use fritz2ci.Server.Requests.{
  CallRow, DbCall, Tables, db_add_caller, db_get_caller, same_message, caller_reply, handle_request,
}
use fritz2ci.Server.Requests.Added.{handle_request-added}

-- Every page has all calls, and no area is known.
abbrev tables : Tables
tables = record {
  sql = map_sql;
  Calls = List CallRow;
  num_calls = λ rows. some 1;
  call_rows = λ rows offset count. (rows, true);
  caller_rows = λ db user filter. some [];
  format_date = λ n. [];
  format_time = λ n. [];
  area_code = λ n a. some (a, 1);
}

abbrev rows : List CallRow
rows =
    record {
      number = some home;
      name = none;
      timestamp = 0;
      msn = none;
      alias = none;
      service = none;
      fix = none;
      id = 5;
    }
    ∷ []

abbrev shown : DbCall
shown = record { id = 5; set = record no_data { number_complete = home; name = max } }

handle_request-added_example :
    (handle_request tables [] (db_add_caller 9 1 (some home) (some max)) rows empty
      ≡ some (with_max, same_message (db_add_caller 9 1 (some home) (some max))))
    × (handle_request tables [] (db_get_caller 9 1 (some home)) rows with_max
        ≡ some (with_max, caller_reply 9 1 (some home) (some (strlcpy 256 max))))
    × (shown.set.name ≡ strlcpy 256 max)
unfolding is_valid add_caller handle_request strlcpy
handle_request-added_example =
    handle_request-added tables map_laws empty with_max with_max 1 home max [] 9 0 10 rows
      (shown ∷ []) 0 shown refl refl refl refl refl
