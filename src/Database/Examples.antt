-- ===== src/Database/Examples.antt =====
-- The names of callers in a map, and a time.
use fritz2ci.Prelude.{
  suc, ℕ, ◌≡◌, ◌≢◌, ◌⊎◌, refl, sym, ap, ◌&&◌, Option, none, some, some-injective, [], ◌∷◌, ◌++◌,
  length, ◌==◌, if◌then◌else◌, arith,
}
use fritz2ci.Text.{Text, same, strlcpy}
use fritz2ci.Database.{Sql, is_valid, get_caller, add_caller}
use fritz2ci.Database.Names.{View, put, Same, SqlLaws, add_caller-Added, get_caller-add_caller}
use fritz2ci.Database.Times.{ℤ, pos, negsuc, parse_datetime, parse_datetime-parts}

-- A database that is the map of the names itself, with a row or none for a user and a number.
abbrev update_row : Option (Option Text) → View → ℕ → Text → Text → View × ℕ
update_row none db user number name = (db, 0)
update_row (some old) db user number name = (put user number name db, 1)

abbrev pub map_sql : Sql
map_sql = record {
  Db = View;
  first = λ db. db;
  update = λ db user number name. some (update_row (db user number) db user number name);
  insert = λ db user number name. some (put user number name db, 1);
  delete =
      λ db user number name. some (λ u n. if (u == user) && same n number then none else db u n);
}

-- The two halves of a result.
parts_of : (p q : View × ℕ) → some p ≡ some q → (q.0 ≡ p.0) × (q.1 ≡ p.1)
parts_of p q e =
    let k = some-injective p q e in
    (ap (λ (z : View × ℕ). z.0) (sym k), ap (λ (z : View × ℕ). z.1) (sym k))

Same-eq : (v w : View) → v ≡ w → Same v w
Same-eq v w e u n = ap (λ (z : View). z u n) e

pub map_laws : SqlLaws map_sql
map_laws = record {
  update_none =
      λ db db' user number name e. none_case db db' user number name (db user number) refl e;
  update_some = λ db db' user number name changes h e.
      some_case db db' user number name changes h (db user number) e;
  insert_none = λ db db' user number name e. absurd (omega (arith, (parts_of _ _ e).1));
  insert_some = λ db db' user number name changes h k e. Same-eq db' _ (parts_of _ _ e).0;
}
  where
    none_case :
        (db db' : View) (user : ℕ) (number name : Text) (o : Option (Option Text))
        → db user number ≡ o
        → some (update_row o db user number name) ≡ some (db', 0)
        → (db user number ≡ none) × Same db' db
    none_case db db' user number name none k e = (k, Same-eq db' db (parts_of _ _ e).0)
    none_case db db' user number name (some old) k e = absurd (omega (arith, (parts_of _ _ e).1))

    some_case :
        (db db' : View) (user : ℕ) (number name : Text) (changes : ℕ)
        → changes ≢ 0
        → (o : Option (Option Text)) → some (update_row o db user number name) ≡ some (db', changes)
        → Same db' (put user number name db)
    some_case db db' user number name changes h none e = absurd (h (parts_of _ _ e).1)
    some_case db db' user number name changes h (some old) e = Same-eq db' _ (parts_of _ _ e).0

abbrev pub empty : View
empty u n = none

abbrev pub home : Text
home = b'0' ∷ b'3' ∷ b'5' ∷ b'1' ∷ []

abbrev pub max : Text
max = b'M' ∷ b'a' ∷ b'x' ∷ []

abbrev pub with_max : View
with_max = put 1 home max empty

abbrev added : View × ℕ
added = (with_max, 0)

add_caller-Added_example :
    ((added.1 ≡ 0) × Same added.0 (put 1 home max empty)) ⊎ ((added.1 ≡ 1) × Same added.0 empty)
unfolding is_valid add_caller
add_caller-Added_example = add_caller-Added map_sql map_laws empty 1 home max added refl refl

get_caller-add_caller_example :
    get_caller map_sql with_max 1 (some home) [] ≡ some (strlcpy 256 max, 0)
unfolding is_valid add_caller
get_caller-add_caller_example =
    get_caller-add_caller map_sql map_laws empty with_max 1 home max [] refl refl

abbrev two : Text
two = b'1' ∷ b'2' ∷ []

magnitude : ℤ → ℕ
magnitude (pos n) = n
magnitude (negsuc n) = suc n

parse_datetime-parts_example :
    parse_datetime
      (λ t. pos (length t))
      (λ t. magnitude t.tm_hour)
      (some (two ++ (b'-' ∷ (two ++ (b'-' ∷ (two ++ (0 ∷ [])))))))
      (some (two ++ (b':' ∷ (two ++ (b':' ∷ (two ++ (0 ∷ [])))))))
    ≡ some 2
unfolding magnitude
parse_datetime-parts_example =
    parse_datetime-parts (λ t. pos (length t)) (λ t. magnitude t.tm_hour) two two two two two two []
      [] (omega arith) (omega arith) (omega arith) (omega arith) (omega arith) (omega arith)
