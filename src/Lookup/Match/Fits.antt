-- ===== src/Lookup/Match/Fits.antt =====
-- That what is found fits the arrays of a caller (lookup.c).
use fritz2ci.Prelude.{
  ℕ, ◌+◌, ◌≤◌, ◌<◌, ◌≡◌, ap, subst, Bool, true, false, Bool-cases, inl, inr, Option, none, some,
  some-injective, List, [], ◌∷◌, ◌++◌, length, length-append, ◌==◌, if◌then◌else◌, >>=-eq-some,
  arith,
}
use fritz2ci.Text.{Text, text_of}
use fritz2ci.Text.Facts.{strcpy_bound}
use fritz2ci.Lookup.Escapes.{remove_escapes}
use fritz2ci.Lookup.Escapes.Bounds.{remove_escapes-length}
use fritz2ci.Lookup.Match.{
  Caller, PatternField, Pattern, Found, Library, field_name, field_city, field_postal_code,
  field_street, no_found, copy_word, set_field, set_fields, on_match, unescape, convert_word,
  apply_patterns, apply_lines, decode_field, decode_fields, match_page, match_patterns,
}

-- The texts that are found and their NULs fit the arrays of CICaller; the number is this one.
pub record Fits (n : Text) (c : Caller) : Type 0 where
  pub number_complete : c.number_complete ≡ n
  pub name : length c.name < 256
  pub city : length c.city < 256
  pub postal_code : length c.postal_code < 8
  pub street : length c.street < 256

copy_word_bound :
    (size : ℕ) (w : Option Text) (t : Text) → copy_word size w ≡ some t → length t < size
copy_word_bound size none t h = cc
copy_word_bound size (some w) t h = strcpy_bound size w t h

-- A caller that is known to be the result.
carried : (n : Text) (p q : Caller × Found) → some p ≡ some q → Fits n p.0 → Fits n q.0
carried n p q e h = subst (λ (z : Caller × Found). Fits n z.0) (some-injective p q e) h

set_field-Fits :
    (n : Text) (f : ℕ) (w : Option Text) (c : Caller) (fnd : Found) (r : Caller × Found)
    → set_field f w c fnd ≡ some r
    → Fits n c
    → Fits n r.0
unfolding set_field
set_field-Fits n f w c fnd r e h = elim (Bool-cases (f == field_name)) [
  | inl k ↦
      (let (t, e₁, e₂) = >>=-eq-some (copy_word 256 w) _ (rw k at e) in
        carried n _ r e₂ (record {
          number_complete = h.number_complete;
          name = copy_word_bound 256 w t e₁;
          city = h.city;
          postal_code = h.postal_code;
          street = h.street;
        }))
  | inr k ↦ elim (Bool-cases (f == field_city)) [
    | inl k' ↦
        (let (t, e₁, e₂) = >>=-eq-some (copy_word 256 w) _ (rw (k, k') at e) in
          carried n _ r e₂ (record {
            number_complete = h.number_complete;
            name = h.name;
            city = copy_word_bound 256 w t e₁;
            postal_code = h.postal_code;
            street = h.street;
          }))
    | inr k' ↦ elim (Bool-cases (f == field_postal_code)) [
      | inl k'' ↦
          (let (t, e₁, e₂) = >>=-eq-some (copy_word 8 w) _ (rw (k, k', k'') at e) in
            carried n _ r e₂ (record {
              number_complete = h.number_complete;
              name = h.name;
              city = h.city;
              postal_code = copy_word_bound 8 w t e₁;
              street = h.street;
            }))
      | inr k'' ↦ elim (Bool-cases (f == field_street)) [
        | inl k3 ↦
            (let (t, e₁, e₂) = >>=-eq-some (copy_word 256 w) _ (rw (k, k', k'', k3) at e) in
              carried n _ r e₂ (record {
                number_complete = h.number_complete;
                name = h.name;
                city = h.city;
                postal_code = h.postal_code;
                street = copy_word_bound 256 w t e₁;
              }))
        | inr k3 ↦ carried n _ r (rw (k, k', k'', k3) at e) h
      ]
    ]
  ]
]

set_fields-Fits :
    (n : Text) (fetch : ℕ → Option Text) (ps : List PatternField) (c : Caller) (fnd : Found)
    (r : Caller × Found)
    → set_fields fetch ps c fnd ≡ some r
    → Fits n c
    → Fits n r.0
unfolding set_fields
set_fields-Fits n fetch [] c fnd r e h = carried n _ r e h
set_fields-Fits n fetch (p ∷ ps) c fnd r e h =
    let (q, e₁, e₂) = >>=-eq-some (set_field p.field (fetch p.position) c fnd) _ e in
    set_fields-Fits n fetch ps q.0 q.1 r e₂
      (set_field-Fits n p.field (fetch p.position) c fnd q e₁ h)

on_match-Fits :
    (n : Text) (m : Option (ℕ → Option Text)) (ps : List PatternField) (c : Caller) (fnd : Found)
    (r : Caller × Found)
    → on_match m ps c fnd ≡ some r
    → Fits n c
    → Fits n r.0
unfolding on_match
on_match-Fits n none ps c fnd r e h = carried n _ r e h
on_match-Fits n (some fetch) ps c fnd r e h = set_fields-Fits n fetch ps c fnd r e h

unescape-length : (t u : Text) → unescape t ≡ some u → length u ≤ length t
unfolding unescape
unescape-length t u e =
    let (str, e₁, e₂) = >>=-eq-some (remove_escapes (length t + 1) (t ++ (0 ∷ []))) _ e in
    let k = remove_escapes-length (length t + 1) (t ++ (0 ∷ [])) str e₁ in
    omega (arith, k, length-append t (0 ∷ []), ap length (some-injective (text_of str) u e₂))

convert_word-length :
    (size : ℕ) (w : Option Text) (t u : Text)
    → convert_word size w t ≡ some u
    → length t < size
    → length u < size
convert_word-length size none t u e h = omega (arith, ap length (some-injective t u e))
convert_word-length size (some w) t u e h = strcpy_bound size w u e

module _ (lib : Library) where
  open lib use {match, find_charset, strsplit, convert}

  decode_field-length :
      (found : Bool) (size : ℕ) (charset t u : Text)
      → (if found then decode_field lib size charset t else some t) ≡ some u
      → length t < size
      → length u < size
  unfolding decode_field
  decode_field-length false size charset t u e h = omega (arith, ap length (some-injective t u e))
  decode_field-length true size charset t u e h =
      let (w, e₁, e₂) = >>=-eq-some (convert_word size (convert t charset) t) _ e in
      let k = convert_word-length size (convert t charset) t w e₁ h in
      omega (arith, k, unescape-length w u e₂)

  postal-length :
      (found : Bool) (t u : Text)
      → (if found then unescape t else some t) ≡ some u
      → length t < 8
      → length u < 8
  postal-length false t u e h = omega (arith, ap length (some-injective t u e))
  postal-length true t u e h = omega (arith, unescape-length t u e)

  decode_fields-Fits :
      (n : Text) (charset : Option Text) (fnd : Found) (c c' : Caller)
      → decode_fields lib charset fnd c ≡ some c'
      → Fits n c
      → Fits n c'
  unfolding decode_fields
  decode_fields-Fits n none fnd c c' e h = subst (Fits n) (some-injective c c' e) h
  decode_fields-Fits n (some cs) fnd c c' e h =
      let (name, m, e₁) =
        >>=-eq-some (if fnd.found_name then decode_field lib 256 cs c.name else some c.name) _ e in
      let (city, t, e₂) =
        >>=-eq-some (if fnd.found_city then decode_field lib 256 cs c.city else some c.city) _ e₁ in
      let (postal, p, e₃) =
        >>=-eq-some (if fnd.found_postal_code then unescape c.postal_code else some c.postal_code) _
          e₂ in
      let (street, s, e₄) =
        >>=-eq-some (if fnd.found_street then decode_field lib 256 cs c.street else some c.street) _
          e₃ in
      subst (Fits n) (some-injective _ c' e₄) (record {
        number_complete = h.number_complete;
        name = decode_field-length fnd.found_name 256 cs c.name name m h.name;
        city = decode_field-length fnd.found_city 256 cs c.city city t h.city;
        postal_code = postal-length fnd.found_postal_code c.postal_code postal p h.postal_code;
        street = decode_field-length fnd.found_street 256 cs c.street street s h.street;
      })

  apply_patterns-Fits :
      (n : Text) (line : Text) (ps : List Pattern) (c : Caller) (fnd : Found) (r : Caller × Found)
      → apply_patterns lib line ps c fnd ≡ some r
      → Fits n c
      → Fits n r.0
  unfolding apply_patterns
  apply_patterns-Fits n line [] c fnd r e h = carried n _ r e h
  apply_patterns-Fits n line (p ∷ ps) c fnd r e h =
      let (q, e₁, e₂) = >>=-eq-some (on_match (match p.expression line) p.fields c fnd) _ e in
      apply_patterns-Fits n line ps q.0 q.1 r e₂
        (on_match-Fits n (match p.expression line) p.fields c fnd q e₁ h)

  apply_lines-Fits :
      (n : Text) (lines : List Text) (ps : List Pattern) (c : Caller) (fnd : Found)
      (charset : Option Text) (r : Caller × Found × Option Text)
      → apply_lines lib lines ps c fnd charset ≡ some r
      → Fits n c
      → Fits n r.0
  unfolding apply_lines
  apply_lines-Fits n [] ps c fnd charset r e h =
      subst (λ (z : Caller × Found × Option Text). Fits n z.0) (some-injective _ r e) h
  apply_lines-Fits n (line ∷ lines) ps c fnd charset r e h =
      let (q, e₁, e₂) = >>=-eq-some (apply_patterns lib line ps c fnd) _ e in
      apply_lines-Fits n lines ps q.0 q.1 _ r e₂ (apply_patterns-Fits n line ps c fnd q e₁ h)

  match_page-Fits :
      (n : Text) (split : Bool) (page : Option Text) (ps : List Pattern) (c : Caller)
      (r : Caller × Found × ℕ)
      → match_page lib split page ps c ≡ some r
      → Fits n c
      → Fits n r.0
  unfolding match_page
  match_page-Fits n false page ps c r e h =
      subst (λ (z : Caller × Found × ℕ). Fits n z.0) (some-injective _ r e) h
  match_page-Fits n true none ps c r e h =
      subst (λ (z : Caller × Found × ℕ). Fits n z.0) (some-injective _ r e) h
  match_page-Fits n true (some text) ps c r e h =
      let (q, e₁, e₂) = >>=-eq-some (apply_lines lib (strsplit text) ps c no_found none) _ e in
      let (c', e₃, e₄) = >>=-eq-some (decode_fields lib q.2 q.1 q.0) _ e₂ in
      subst (λ (z : Caller × Found × ℕ). Fits n z.0) (some-injective _ r e₄)
        (decode_fields-Fits n q.2 q.1 q.0 c' e₃
          (apply_lines-Fits n (strsplit text) ps c no_found none q e₁ h))

  -- Whatever a page holds and however it is converted: if no copy overruns its array, the texts that
  -- the patterns found, without their escapes, still fit the arrays of the caller with their NULs, and
  -- the number stays.
  pub match_patterns-Fits :
      (n : Text) (ps : List Pattern) (split : Bool) (page : Option Text) (c : Caller)
      (r : Caller × Found × ℕ)
      → match_patterns lib ps split page c ≡ some r
      → Fits n c
      → Fits n r.0
  unfolding match_patterns
  match_patterns-Fits n [] split page c r e h =
      subst (λ (z : Caller × Found × ℕ). Fits n z.0) (some-injective _ r e) h
  match_patterns-Fits n (p ∷ ps) split page c r e h = match_page-Fits n split page (p ∷ ps) c r e h
