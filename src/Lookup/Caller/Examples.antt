-- ===== src/Lookup/Caller/Examples.antt =====
-- A lookup on a small library, cache and source.
use fritz2ci.Prelude.{◌≡◌, refl, true, Option, none, some, List, [], ◌∷◌, if◌then◌else◌, arith}
use fritz2ci.Text.{Text, same}
use fritz2ci.Text.Facts.{same_self}
use fritz2ci.Lookup.Match.{Caller, Pattern, Source, Library, no_found, match_patterns}
use fritz2ci.Lookup.Match.Last.{match_patterns-last}
use fritz2ci.Lookup.Caller.{DataSet, Row, Cache, no_caller, get_caller, get_caller_data}
use fritz2ci.Lookup.Caller.Cached.{get_caller_data-twice}

-- Each pattern matches each line, and each group is the line.
abbrev whole_line : Library
whole_line = record {
  match = λ e line. some (λ i. some line);
  find_charset = λ line. none;
  strsplit = λ t. t ∷ [];
  convert = λ t charset. none;
}

-- A list of rows.
abbrev select_row : List (Text × Row) → Text → Option Row
select_row [] n = none
select_row ((m, r) ∷ rows) n = let rest = select_row rows n in if same m n then some r else rest

abbrev list_cache : Cache
list_cache = record {
  Db = List (Text × Row);
  select = select_row;
  insert = λ db n r. ((n, r) ∷ db, true);
}

law_holds :
    (db : List (Text × Row)) (n : Text) (r : Row)
    → select_row db n ≡ none
    → true ≡ true
    → select_row ((n, r) ∷ db) n ≡ some r
law_holds db n r e e' = rw (same_self n) refl

abbrev max_name : Text
max_name = b'M' ∷ b'a' ∷ b'x' ∷ []

abbrev names : List Pattern
names =
    record { fields = record { position = 1; field = 1 } ∷ []; expression = some (b'.' ∷ []) } ∷ []

abbrev source : Source
source = record {
  id = 7;
  description = none;
  query = some (b'%' ∷ b'N' ∷ b'U' ∷ b'M' ∷ b'B' ∷ b'E' ∷ b'R' ∷ b'%' ∷ []);
  split_lines = true;
  patterns = names;
}

abbrev incoming : DataSet
incoming = record {
  number = [];
  number_complete = b'0' ∷ b'4' ∷ [];
  name = [];
  date = [];
  time = [];
  msn = [];
  alias = [];
  service = [];
  fix = [];
  area = [];
  area_code = [];
}

abbrev caller : Caller
caller = record no_caller { number_complete = b'0' ∷ b'4' ∷ [] }

-- A page of two lines, each of which names a charset, and a conversion that shows.
abbrev two_lines : Library
two_lines = record {
  match = λ e line. some (λ i. some line);
  find_charset = λ line. some line;
  strsplit = λ t. t ∷ max_name ∷ [];
  convert = λ t charset. some (b'!' ∷ t);
}

match_patterns-last_example :
    match_patterns two_lines names true (some (b'A' ∷ [])) caller
    ≡ some (record caller { name = b'!' ∷ max_name }, record no_found { found_name = true }, 0)
unfolding match_patterns
match_patterns-last_example =
    match_patterns-last two_lines
      (record { fields = record { position = 1; field = 1 } ∷ []; expression = some (b'.' ∷ []) })
      [] (b'A' ∷ []) caller (omega arith, (omega arith, tt))
      ((omega arith, (omega arith, (omega arith, (omega arith, (omega arith, tt))))), tt, tt, tt)

get_caller_data-twice_example :
    (db' : List (Text × Row)) × (get_caller_data list_cache
        (get_caller whole_line (λ i. i) 20 true (λ url. some (some max_name)) (source ∷ []) 7)
        []
        (some incoming)
      ≡ some (db', some (record incoming { name = max_name }), 0))
    × (get_caller_data list_cache (λ c. none) db' (some incoming)
        ≡ some (db', some (record incoming { name = max_name }), 0))
unfolding get_caller
get_caller_data-twice_example =
    get_caller_data-twice list_cache whole_line (λ i. i) 20 true (λ url. some (some max_name))
      law_holds (source ∷ []) 7 (λ c. none) [] incoming (record caller { name = max_name })
      (omega arith) refl refl refl
