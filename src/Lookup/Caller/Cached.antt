-- ===== src/Lookup/Caller/Cached.antt =====
-- That a caller who was found in the web is in the cache from then on (lookup.c).
use fritz2ci.Prelude.{
  ℕ, ◌<◌, ◌≡◌, refl, subst, Bool, true, false, Option, none, some, some-injective, List, [], ◌∷◌,
  ◌++◌, length, >>=-eq-some, arith,
}
use fritz2ci.Text.{Text, text_of}
use fritz2ci.Text.Facts.{strcpy_fits}
use fritz2ci.Lookup.Url.{prepare_url}
use fritz2ci.Lookup.Match.{Caller, Found, Pattern, Source, Library, match_patterns}
use fritz2ci.Lookup.Match.Fits.{Fits, match_patterns-Fits}
use fritz2ci.Lookup.Caller.{
  DataSet, Row, Cache, no_caller, copy_row, find_caller, row_of, find_source, matched, transfer,
  ask_source, ask, get_caller, search_web, get_caller_data,
}

-- The caller of a result.
known : (n : Text) (p q : Caller × ℕ) → some p ≡ some q → Fits n p.0 → Fits n q.0
known n p q e h = subst (λ (z : Caller × ℕ). Fits n z.0) (some-injective p q e) h

module _ (lib : Library) where
  matched-Fits :
      (n : Text) (ps : List Pattern) (split : Bool) (page : Option Text) (c : Caller)
      (r : Caller × ℕ)
      → matched (match_patterns lib ps split page c) ≡ some r
      → Fits n c
      → Fits n r.0
  matched-Fits n ps split page c r e h = go (match_patterns lib ps split page c) refl e
    where
      go :
          (o : Option (Caller × Found × ℕ))
          → match_patterns lib ps split page c ≡ o
          → matched o ≡ some r
          → Fits n r.0
      go none e₁ e = cc
      go (some q) e₁ e = known n _ r e (match_patterns-Fits lib n ps split page c q e₁ h)

  transfer-Fits :
      (n : Text) (curl : Bool) (got : Option (Option Text)) (s : Source) (c : Caller)
      (r : Caller × ℕ)
      → transfer lib curl got s c ≡ some r
      → Fits n c
      → Fits n r.0
  unfolding transfer
  transfer-Fits n false got s c r e h = known n _ r e h
  transfer-Fits n true none s c r e h = known n _ r e h
  transfer-Fits n true (some page) s c r e h = matched-Fits n s.patterns s.split_lines page c r e h

  module _ (junk : ℕ → ℕ) (fuel : ℕ) (curl : Bool) (perform : Text → Option (Option Text)) where
    ask_source-Fits :
        (n : Text) (query : Option Text) (s : Source) (c : Caller) (r : Caller × ℕ)
        → ask_source lib junk fuel curl perform query s c ≡ some r
        → Fits n c
        → Fits n r.0
    unfolding ask_source
    ask_source-Fits n none s c r e h = cc
    ask_source-Fits n (some query) s c r e h =
        let (url, e₁, e₂) =
          >>=-eq-some (prepare_url junk fuel (query ++ (0 ∷ [])) c.number_complete) _ e in
        transfer-Fits n curl (perform (text_of url)) s c r e₂ h

    ask-Fits :
        (n : Text) (o : Option Source) (c : Caller) (r : Caller × ℕ)
        → ask lib junk fuel curl perform o c ≡ some r
        → Fits n c
        → Fits n r.0
    unfolding ask
    ask-Fits n none c r e h = known n _ r e h
    ask-Fits n (some s) c r e h = ask_source-Fits n s.query s c r e h

    pub get_caller-Fits :
        (n : Text) (sources : List Source) (sid : ℕ) (c : Caller) (r : Caller × ℕ)
        → get_caller lib junk fuel curl perform sources sid c ≡ some r
        → Fits n c
        → Fits n r.0
    unfolding get_caller
    get_caller-Fits n sources sid c r e h = ask-Fits n (find_source sources sid) c r e h

no_caller-Fits : (n : Text) → Fits n (record no_caller { number_complete = n })
no_caller-Fits n = record {
  number_complete = refl;
  name = omega arith;
  city = omega arith;
  postal_code = omega arith;
  street = omega arith;
}

-- A row of texts that fit is copied.
copy_row-Fits :
    (n : Text) (c₀ c : Caller)
    → Fits n c
    → copy_row (row_of c) c₀
      ≡ some (record c₀ {
        name = c.name;
        city = c.city;
        street = c.street;
        postal_code = c.postal_code;
      })
unfolding copy_row
copy_row-Fits n c₀ c h =
    rw
      (
        strcpy_fits 256 c.name h.name,
        strcpy_fits 256 c.city h.city,
        strcpy_fits 256 c.street h.street,
        strcpy_fits 8 c.postal_code h.postal_code,
      )
      refl

module _ (cache : Cache) where
  open cache use {Db, select, insert}

  -- The second search, in a database that has the row.
  get_caller_data_cached :
      (web : Caller → Option (Caller × ℕ)) (db : Db) (d : DataSet) (c : Caller)
      → length d.number_complete < 32
      → select db d.number_complete ≡ some (row_of c)
      → Fits d.number_complete c
      → get_caller_data cache web db (some d) ≡ some (db, some (record d { name = c.name }), 0)
  unfolding get_caller_data find_caller search_web
  get_caller_data_cached web db d c short e h =
      rw
        (
          strcpy_fits 32 d.number_complete short,
          e,
          copy_row-Fits d.number_complete (record no_caller { number_complete = d.number_complete })
              c h,
          strcpy_fits 256 c.name h.name,
        )
        refl

  -- The first search, in a database that has no row.
  get_caller_data_web :
      (web : Caller → Option (Caller × ℕ)) (db : Db) (d : DataSet) (c : Caller)
      → length d.number_complete < 32
      → select db d.number_complete ≡ none
      → web (record no_caller { number_complete = d.number_complete }) ≡ some (c, 0)
      → length c.name < 256
      → get_caller_data cache web db (some d)
        ≡ some ((insert db c.number_complete (row_of c)).0, some (record d { name = c.name }), 0)
  unfolding get_caller_data find_caller search_web
  get_caller_data_web web db d c short e e' h =
      rw (strcpy_fits 32 d.number_complete short, e, e', strcpy_fits 256 c.name h) refl

  module _ (lib : Library) (junk : ℕ → ℕ) (fuel : ℕ) (curl : Bool)
      (perform : Text → Option (Option Text)) where
    -- A number of at most 31 characters that is not in the cache and is found in the web: the name
    -- that was found is reported with the result 0, and if the insert into the cache succeeded, and a
    -- select gives the row of a number that was inserted once, then from the next lookup on the same
    -- name is reported, whatever the web is, and the cache stays as it is.
    pub get_caller_data-twice :
        ((db : Db) (n : Text) (r : Row)
          → select db n ≡ none
          → (insert db n r).1 ≡ true
          → select (insert db n r).0 n ≡ some r)
        → (sources : List Source) (sid : ℕ) (web : Caller → Option (Caller × ℕ)) (db : Db)
          (d : DataSet) (c : Caller)
        → length d.number_complete < 32
        → select db d.number_complete ≡ none
        → get_caller lib junk fuel curl perform sources sid
            (record no_caller { number_complete = d.number_complete })
          ≡ some (c, 0)
        → (insert db d.number_complete (row_of c)).1 ≡ true
        → (db' : Db) × (get_caller_data cache
              (get_caller lib junk fuel curl perform sources sid)
              db
              (some d)
            ≡ some (db', some (record d { name = c.name }), 0))
          × (get_caller_data cache web db' (some d)
              ≡ some (db', some (record d { name = c.name }), 0))
    get_caller_data-twice law sources sid web db d c short e found inserted =
        let n = d.number_complete in
        let fits =
          get_caller-Fits lib junk fuel curl perform n sources sid _ (c, 0) found
            (no_caller-Fits n) in
        let first =
          get_caller_data_web (get_caller lib junk fuel curl perform sources sid) db d c short e
            found fits.name in
        let first' =
          subst
            (λ z.
              get_caller_data cache (get_caller lib junk fuel curl perform sources sid) db (some d)
              ≡ some ((insert db z (row_of c)).0, some (record d { name = c.name }), 0))
            fits.number_complete first in
        (
          (insert db n (row_of c)).0,
          first',
          get_caller_data_cached web (insert db n (row_of c)).0 d c short
              (law db n (row_of c) e inserted) fits,
        )
