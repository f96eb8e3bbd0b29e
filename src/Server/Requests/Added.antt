-- ===== src/Server/Requests/Added.antt =====
-- What a client sees of a name that it added (ci-server.c, dbhandler.c).
use fritz2ci.Prelude.{
  ℕ, zero, suc, get_elem?, ◌≡◌, refl, sym, ap, subst, ◌∙◌, Bool, true, false, some, some-injective,
  List, [], ◌∷◌, All, if◌then◌else◌, ◌>>=◌, >>=-eq-some,
}
use fritz2ci.Text.{Text, strlcpy}
use fritz2ci.Database.{is_valid, get_caller, add_caller}
use fritz2ci.Database.Names.{SqlLaws, add_caller-first, get_caller-add_caller}
use fritz2ci.Server.Requests.{
  Tables, db_add_caller, db_get_caller, db_call_list, Reply, same_message, caller_reply,
  call_list_reply, DbCall, CallRow, prepend_all, prepend_calls, complete_call, complete_calls,
  get_calls, handle_request,
}

All-prepend_all :
    {A : Type 0} (P : A → Type 0) (xs acc : List A)
    → All P xs
    → All P acc
    → All P (prepend_all xs acc)
All-prepend_all P [] acc h k = k
All-prepend_all P (x ∷ xs) acc h k = All-prepend_all P xs (x ∷ acc) h.1 (h.0, k)

All-get_elem? :
    {A : Type 0} (P : A → Type 0) (xs : List A) (i : ℕ) (x : A)
    → get_elem? xs i ≡ some x
    → All P xs
    → P x
All-get_elem? P [] i x e h = cc
All-get_elem? P (y ∷ xs) zero x e h = subst P (some-injective y x e) h.0
All-get_elem? P (y ∷ xs) (suc i) x e h = All-get_elem? P xs i x e h.1

abbrev calls_of : Reply → List DbCall
calls_of (call_list_reply guid user offset count calls) = calls
calls_of _ = []

module _ (tables : Tables) where
  open tables use {sql, Calls, call_rows, area_code}

  module _ (db : sql.Db) (user : ℕ) (number name : Text) where
    -- A call of the number has the name.
    abbrev pub Named : DbCall → Type 0
    Named c = c.set.number_complete ≡ number → c.set.name ≡ strlcpy 256 name

    found_lem :
        (number' old : Text)
        → is_valid (some number) ≡ some true
        → sql.first db user number ≡ some (some name)
        → number' ≡ number
        → get_caller sql db user (some number') old ≡ some (strlcpy 256 name, 0)
    unfolding get_caller
    found_lem number' old valid row k =
        ap (λ z. get_caller sql db user (some z) old) k ∙ rw (valid, row) refl

    -- A call that is completed, by whether its number is valid.
    completed_lem :
        (b : Bool) (c c' : DbCall)
        → is_valid (some number) ≡ some true
        → sql.first db user number ≡ some (some name)
        → is_valid (some c.set.number_complete) ≡ some b
        → (if b
            then (do
              (a, rc) ←
                  area_code c.set.number_complete
                    (record { code = c.set.area_code; number = c.set.number; area = c.set.area })
              (name, rc') ← get_caller sql db user (some c.set.number_complete) c.set.name
              some (record c {
                set = record c.set {
                  area_code = a.code;
                  number = a.number;
                  area = a.area;
                  name = name;
                };
              }))
            else some c)
          ≡ some c'
        → Named c'
    completed_lem true c c' valid row e₁ e k =
        let (a, f₁, f₂) = >>=-eq-some (area_code c.set.number_complete _) _ e in
        let (q, f₃, f₄) =
          >>=-eq-some (get_caller sql db user (some c.set.number_complete) c.set.name) _ f₂ in
        let same_end = some-injective _ c' f₄ in
        let same_number : c.set.number_complete ≡ number =
          ap (λ (z : DbCall). z.set.number_complete) same_end ∙ k in
        let told =
          some-injective _ _
            (sym f₃ ∙ found_lem c.set.number_complete c.set.name valid row same_number) in
        sym (ap (λ (z : DbCall). z.set.name) same_end) ∙ ap (λ (z : Text × ℕ). z.0) told
    completed_lem false c c' valid row e₁ e k =
        let same_end = some-injective c c' e in
        let same_number : c.set.number_complete ≡ number =
          ap (λ (z : DbCall). z.set.number_complete) same_end ∙ k in
        let clash : false ≡ true =
          some-injective false true (sym e₁ ∙ ap (λ z. is_valid (some z)) same_number ∙ valid) in
        cc

    complete_call-Named :
        (c c' : DbCall)
        → is_valid (some number) ≡ some true
        → sql.first db user number ≡ some (some name)
        → complete_call tables db user c ≡ some c'
        → Named c'
    unfolding complete_call
    complete_call-Named c c' valid row e =
        let (b, e₁, e₂) = >>=-eq-some (is_valid (some c.set.number_complete)) _ e in
        completed_lem b c c' valid row e₁ e₂

    complete_calls-Named :
        (cs cs' : List DbCall)
        → is_valid (some number) ≡ some true
        → sql.first db user number ≡ some (some name)
        → complete_calls tables db user cs ≡ some cs'
        → All Named cs'
    unfolding complete_calls
    complete_calls-Named [] cs' valid row e = subst (All Named) (some-injective [] cs' e) tt
    complete_calls-Named (c ∷ cs) cs' valid row e =
        let (x, e₁, e₂) = >>=-eq-some (complete_call tables db user c) _ e in
        let (xs, e₃, e₄) = >>=-eq-some (complete_calls tables db user cs) _ e₂ in
        subst (All Named) (some-injective (x ∷ xs) cs' e₄)
          (complete_call-Named c x valid row e₁, complete_calls-Named cs xs valid row e₃)

    get_calls-Named :
        (page : List CallRow × Bool) (cs : List DbCall)
        → is_valid (some number) ≡ some true
        → sql.first db user number ≡ some (some name)
        → get_calls tables db user page ≡ some cs
        → All Named cs
    unfolding get_calls
    get_calls-Named (rows, false) cs valid row e = subst (All Named) (some-injective [] cs e) tt
    get_calls-Named (rows, true) cs valid row e =
        complete_calls-Named (prepend_calls tables rows []) cs valid row e

    call_list-Named :
        (array : Text) (guid offset count : ℕ) (calls : Calls) (db' : sql.Db) (cs : List DbCall)
        → is_valid (some number) ≡ some true
        → sql.first db user number ≡ some (some name)
        → handle_request tables array (db_call_list guid user offset count) calls db
          ≡ some (db', call_list_reply guid user offset count cs)
        → All Named cs
    unfolding handle_request
    call_list-Named array guid offset count calls db' cs valid row e =
        let (found, e₁, e₂) =
          >>=-eq-some (get_calls tables db user (call_rows calls offset count)) _ e in
        let same_calls = ap (λ (z : sql.Db × Reply). calls_of z.1) (some-injective _ _ e₂) in
        subst (All Named) same_calls (
          All-prepend_all Named (prepend_all found []) []
            (All-prepend_all Named found []
              (get_calls-Named (call_rows calls offset count) found valid row e₁) tt)
            tt)

  -- A name for a number of digits that was added for a user with the result 0, if SQL does what it
  -- says of one row: the reply to the addition is the message itself; a request for the number is
  -- then answered with the name, cut to 255 characters; and so is each call of the number named in a
  -- list of calls that is sent to the user.
  pub handle_request-added :
      SqlLaws sql
      → (db db' db'' : sql.Db) (user : ℕ) (number name array : Text) (guid offset count : ℕ)
        (calls : Calls) (cs : List DbCall) (i : ℕ) (c : DbCall)
      → is_valid (some number) ≡ some true
      → add_caller sql db user (some number) (some name) ≡ some (db', 0)
      → handle_request tables array (db_call_list guid user offset count) calls db'
        ≡ some (db'', call_list_reply guid user offset count cs)
      → get_elem? cs i ≡ some c
      → c.set.number_complete ≡ number
      → (handle_request tables array (db_add_caller guid user (some number) (some name)) calls db
          ≡ some (db', same_message (db_add_caller guid user (some number) (some name))))
        × (handle_request tables array (db_get_caller guid user (some number)) calls db'
            ≡ some (db', caller_reply guid user (some number) (some (strlcpy 256 name))))
        × (c.set.name ≡ strlcpy 256 name)
  unfolding handle_request
  handle_request-added laws db db' db'' user number name array guid offset count calls cs i c valid
        added listed at_i k =
      let row = add_caller-first sql laws db db' user number name valid added in
      (
        rw added refl,
        rw (get_caller-add_caller sql laws db db' user number name array valid added) refl,
        All-get_elem? (Named db' user number name) cs i c at_i
            (call_list-Named db' user number name array guid offset count calls db'' cs valid row
              listed)
            k,
      )
