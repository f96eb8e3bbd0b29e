-- ===== src/Lookup/Match.antt =====
-- What a source's patterns find in a page (lookup.c): _cirlw_match_patterns. Regular expressions, the
-- splitting into lines and the conversion of charsets are parameters.
pub mod Fits
pub mod Words
pub mod Last
use fritz2ci.Prelude.{
  ℕ, ◌+◌, Bool, true, false, Option, none, some, List, [], ◌∷◌, ◌++◌, length, ◌==◌, if◌then◌else◌,
  ◌>>=◌,
}
use fritz2ci.Text.{Text, text_of, strcpy}
use fritz2ci.Lookup.Escapes.{remove_escapes}

-- CICaller, where an array is the text in it.
pub record Caller : Type 0 where
  pub number_complete : Text
  pub name : Text
  pub number : Text
  pub area_code : Text
  pub postal_code : Text
  pub street : Text
  pub city : Text

-- CIRLPatternField, CIRLPattern, CIRLSource.
pub record PatternField : Type 0 where
  pub position : ℕ
  pub field : ℕ

pub record Pattern : Type 0 where
  pub fields : List PatternField
  pub expression : Option Text

pub record Source : Type 0 where
  pub id : ℕ
  pub description : Option Text
  pub query : Option Text
  pub split_lines : Bool
  pub patterns : List Pattern

-- The bits of `_fnd`.
pub record Found : Type 0 where
  pub found_name : Bool
  pub found_postal_code : Bool
  pub found_city : Bool
  pub found_street : Bool

abbrev pub no_found : Found
no_found = record {
  found_name = false;
  found_postal_code = false;
  found_city = false;
  found_street = false;
}

-- The CI_FIELD_ constants.
abbrev pub field_name : ℕ
field_name = 1

abbrev pub field_postal_code : ℕ
field_postal_code = 2

abbrev pub field_city : ℕ
field_city = 4

abbrev pub field_street : ℕ
field_street = 8

-- What the library does: the groups of a match, the first group of the expression for charsets, the
-- lines of a page, and a text in UTF-8, NULL if it cannot be converted.
pub record Library : Type 0 where
  pub match : Option Text → Text → Option (ℕ → Option Text)
  pub find_charset : Text → Option Text
  pub strsplit : Text → List Text
  pub convert : Text → Text → Option Text

-- `strcpy` of a word that may be NULL.
abbrev pub copy_word : ℕ → Option Text → Option Text
copy_word size none = none
copy_word size (some w) = strcpy size w

-- The `switch` on a field.
unfoldable pub set_field : ℕ → Option Text → Caller → Found → Option (Caller × Found)
set_field f w c fnd =
    if f == field_name
    then (do t ← copy_word 256 w; some (record c { name = t }, record fnd { found_name = true }))
    else if f == field_city
    then (do t ← copy_word 256 w; some (record c { city = t }, record fnd { found_city = true }))
    else if f == field_postal_code
    then (do
      t ← copy_word 8 w
      some (record c { postal_code = t }, record fnd { found_postal_code = true }))
    else if f == field_street
    then (do
      t ← copy_word 256 w
      some (record c { street = t }, record fnd { found_street = true }))
    else some (c, fnd)

-- The fields of a pattern that matches.
unfoldable pub set_fields :
    (ℕ → Option Text) → List PatternField → Caller → Found → Option (Caller × Found)
unfolding set_field
set_fields fetch [] c fnd = some (c, fnd)
set_fields fetch (p ∷ ps) c fnd = do
  (c', fnd') ← set_field p.field (fetch p.position) c fnd
  set_fields fetch ps c' fnd'

unfoldable pub on_match :
    Option (ℕ → Option Text) → List PatternField → Caller → Found → Option (Caller × Found)
unfolding set_fields
on_match none fields c fnd = some (c, fnd)
on_match (some fetch) fields c fnd = set_fields fetch fields c fnd

-- _cirlw_remove_escapes of an array that holds the text.
unfoldable pub unescape : Text → Option Text
unfolding remove_escapes
unescape t = do str ← remove_escapes (length t + 1) (t ++ (0 ∷ [])); some (text_of str)

abbrev pub newer : Option Text → Option Text → Option Text
newer none old = old
newer (some charset) old = some charset

abbrev pub convert_word : ℕ → Option Text → Text → Option Text
convert_word size none t = some t
convert_word size (some w) t = strcpy size w

module _ (lib : Library) where
  open lib use {match, find_charset, strsplit, convert}

  -- The patterns on a line.
  unfoldable pub apply_patterns : Text → List Pattern → Caller → Found → Option (Caller × Found)
  unfolding on_match
  apply_patterns line [] c fnd = some (c, fnd)
  apply_patterns line (p ∷ ps) c fnd = do
    (c', fnd') ← on_match (match p.expression line) p.fields c fnd
    apply_patterns line ps c' fnd'

  -- The lines, and the charset that was found last.
  unfoldable pub apply_lines :
      List Text
      → List Pattern
      → Caller
      → Found
      → Option Text
      → Option (Caller × Found × Option Text)
  unfolding apply_patterns
  apply_lines [] ps c fnd charset = some (c, fnd, charset)
  apply_lines (line ∷ lines) ps c fnd charset = do
    (c', fnd') ← apply_patterns line ps c fnd
    apply_lines lines ps c' fnd' (newer (find_charset line) charset)

  -- A field that was found, converted and without its escapes.
  unfoldable pub decode_field : ℕ → Text → Text → Option Text
  unfolding unescape strcpy
  decode_field size charset t = do w ← convert_word size (convert t charset) t; unescape w

  unfoldable pub decode_fields : Option Text → Found → Caller → Option Caller
  unfolding decode_field unescape
  decode_fields none fnd c = some c
  decode_fields (some charset) fnd c = do
    name ← if fnd.found_name then decode_field 256 charset c.name else some c.name
    city ← if fnd.found_city then decode_field 256 charset c.city else some c.city
    postal ← if fnd.found_postal_code then unescape c.postal_code else some c.postal_code
    street ← if fnd.found_street then decode_field 256 charset c.street else some c.street
    some (record c { name = name; city = city; postal_code = postal; street = street })

  -- Where there are patterns: the page that was read, NULL if nothing was, and whether it is split.
  unfoldable pub match_page :
      Bool → Option Text → List Pattern → Caller → Option (Caller × Found × ℕ)
  unfolding apply_lines decode_fields
  match_page false page ps c = some (c, no_found, 0)
  match_page true none ps c = some (c, no_found, 1)
  match_page true (some text) ps c = do
    (c', fnd, charset) ← apply_lines (strsplit text) ps c no_found none
    c'' ← decode_fields charset fnd c'
    some (c'', fnd, 0)

  -- _cirlw_match_patterns: the caller, `*found`, which is 0 before, and the result.
  unfoldable pub match_patterns :
      List Pattern → Bool → Option Text → Caller → Option (Caller × Found × ℕ)
  unfolding match_page
  match_patterns [] split page c = some (c, no_found, 1)
  match_patterns (p ∷ ps) split page c = match_page split page (p ∷ ps) c
