-- ===== src/Database/Names.antt =====
-- The names of callers as a map from users and numbers (dbhandler.c).
use fritz2ci.Prelude.{
  ℕ, ◌≡◌, ◌≢◌, ◌⊎◌, refl, sym, ap, subst, ◌∙◌, true, ◌&&◌, Bool-cases, inl, inr, Option, none, some,
  some-injective, ◌==◌, ==_iff, if◌then◌else◌, >>=-eq-some, arith,
}
use fritz2ci.Text.{Text, same, strlcpy}
use fritz2ci.Text.Facts.{same_self}
use fritz2ci.Database.{Sql, is_valid, get_caller, after_insert, after_update, add_caller}

-- The map of the first rows, and a name put into it.
abbrev pub View : Type 0
View = ℕ → Text → Option (Option Text)

abbrev pub put : ℕ → Text → Text → View → View
put user number name v u n = if (u == user) && same n number then some (some name) else v u n

abbrev pub Same : View → View → Type 0
Same v w = (u : ℕ) (n : Text) → v u n ≡ w u n

-- What SQL says of the update and the insert of one row.
pub record SqlLaws (sql : Sql) : Type 0 where
  pub update_none :
      (db db' : sql.Db) (user : ℕ) (number name : Text)
      → sql.update db user number name ≡ some (db', 0)
      → (sql.first db user number ≡ none) × Same (sql.first db') (sql.first db)
  pub update_some :
      (db db' : sql.Db) (user : ℕ) (number name : Text) (changes : ℕ)
      → changes ≢ 0
      → sql.update db user number name ≡ some (db', changes)
      → Same (sql.first db') (put user number name (sql.first db))
  pub insert_none :
      (db db' : sql.Db) (user : ℕ) (number name : Text)
      → sql.insert db user number name ≡ some (db', 0)
      → Same (sql.first db') (sql.first db)
  pub insert_some :
      (db db' : sql.Db) (user : ℕ) (number name : Text) (changes : ℕ)
      → changes ≢ 0
      → sql.first db user number ≡ none
      → sql.insert db user number name ≡ some (db', changes)
      → Same (sql.first db') (put user number name (sql.first db))

module _ (sql : Sql) (laws : SqlLaws sql) where
  open sql use {Db, first, update, insert}

  -- The name is in the map and the result is 0, or the map is as it was and the result is 1.
  abbrev pub Added : Db → ℕ → Text → Text → Db × ℕ → Type 0
  Added db user number name r =
      ((r.1 ≡ 0) × Same (first r.0) (put user number name (first db)))
      ⊎ ((r.1 ≡ 1) × Same (first r.0) (first db))

  put-Same :
      (user : ℕ) (number name : Text) (v w : View)
      → Same v w
      → Same (put user number name v) (put user number name w)
  put-Same user number name v w s u n =
      ap (λ z. if (u == user) && same n number then some (some name) else z) (s u n)

  after_insert-Added :
      (db db' : Db) (user : ℕ) (number name : Text) (o : Option (Db × ℕ))
      → insert db' user number name ≡ o
      → first db user number ≡ none
      → Same (first db') (first db)
      → Added db user number name (after_insert sql db' o)
  unfolding after_insert
  after_insert-Added db db' user number name none e k s = inr (refl, s)
  after_insert-Added db db' user number name (some (db'', changes)) e k s =
      elim (Bool-cases (changes == 0)) [
        | inl z ↦
            (let zero_changes = (==_iff changes 0).0 z in
              rw z (
                inr (
                  refl,
                  λ u n.
                      laws.insert_none db' db'' user number name
                        (e ∙ ap (λ c. some (db'', c)) zero_changes) u n
                      ∙ s u n,
                )))
        | inr z ↦
            (let changed : changes ≢ 0 = ground (arith, z) in
              rw z (
                inl (
                  refl,
                  λ u n.
                      laws.insert_some db' db'' user number name changes changed (s user number ∙ k)
                        e u n
                      ∙ put-Same user number name (first db') (first db) s u n,
                )))
      ]

  after_update-Added :
      (db : Db) (user : ℕ) (number name : Text) (o : Option (Db × ℕ))
      → update db user number name ≡ o
      → Added db user number name (after_update sql db user number name o)
  unfolding after_update
  after_update-Added db user number name none e = inr (refl, λ u n. refl)
  after_update-Added db user number name (some (db', changes)) e =
      elim (Bool-cases (changes == 0)) [
        | inl z ↦
            (let zero_changes = (==_iff changes 0).0 z in
              let (k, s) =
                laws.update_none db db' user number name
                  (e ∙ ap (λ c. some (db', c)) zero_changes) in
              rw z
                (after_insert-Added db db' user number name (insert db' user number name) refl k s))
        | inr z ↦
            (let changed : changes ≢ 0 = ground (arith, z) in
              rw z (inl (refl, laws.update_some db db' user number name changes changed e)))
      ]

  -- dbhandler_add_caller is the insertion into a map from users and numbers to names, if SQL does what
  -- it says of one row: for a number of digits, either the result is 0 and the map is the old one with
  -- the name put at the user and the number, whether there was one before or not; or the result is 1 and
  -- the map is as it was, whichever statement failed.
  pub add_caller-Added :
      (db : Db) (user : ℕ) (number name : Text) (r : Db × ℕ)
      → is_valid (some number) ≡ some true
      → add_caller sql db user (some number) (some name) ≡ some r
      → ((r.1 ≡ 0) × Same (first r.0) (put user number name (first db)))
        ⊎ ((r.1 ≡ 1) × Same (first r.0) (first db))
  unfolding add_caller
  add_caller-Added db user number name r valid e =
      let (b, e₁, e₂) = >>=-eq-some (is_valid (some number)) _ e in
      let b_true : b ≡ true = sym (some-injective true b (sym valid ∙ e₁)) in
      subst (Added db user number name)
        (ap
            (λ c.
              if c
              then after_update sql db user number name (update db user number name)
              else (db, 1))
            (sym b_true)
          ∙ some-injective _ r e₂)
        (after_update-Added db user number name (update db user number name) refl)

  -- The row behind an addition.
  pub add_caller-first :
      (db db' : Db) (user : ℕ) (number name : Text)
      → is_valid (some number) ≡ some true
      → add_caller sql db user (some number) (some name) ≡ some (db', 0)
      → first db' user number ≡ some (some name)
  add_caller-first db db' user number name valid e =
      elim (add_caller-Added db user number name (db', 0) valid e) [
        | inl (z, s) ↦
            (let here : ((user == user) && same number number) ≡ true =
                (let k : (user == user) ≡ true = (==_iff user user).1 refl in
                  rw (k, same_self number) refl) in
              s user number ∙ (rw here refl))
        | inr (z, s) ↦ absurd (omega (arith, z))
      ]

  -- What is added is found: after an addition with the result 0 of a name at a number of digits,
  -- dbhandler_get_caller gives that name, cut to 255 characters, and 0.
  pub get_caller-add_caller :
      (db db' : Db) (user : ℕ) (number name old : Text)
      → is_valid (some number) ≡ some true
      → add_caller sql db user (some number) (some name) ≡ some (db', 0)
      → get_caller sql db' user (some number) old ≡ some (strlcpy 256 name, 0)
  unfolding get_caller
  get_caller-add_caller db db' user number name old valid e =
      rw (valid, add_caller-first db db' user number name valid e) refl
