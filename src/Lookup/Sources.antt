-- ===== src/Lookup/Sources.antt =====
-- The sources of the lookup in the web (lookup.c): cirlw_load_sources_from_file, on the tree that
-- libxml makes of the file. atoi and strtoul are parameters.
pub mod RoundTrip
pub mod Examples
use fritz2ci.Prelude.{ℕ, Bool, true, false, not, Option, none, some, List, [], ◌∷◌, if◌then◌else◌}
use fritz2ci.Text.{Text, same}
use fritz2ci.Lookup.Match.{
  PatternField, Pattern, Source, field_name, field_postal_code, field_city, field_street,
}

-- A node of the tree: an element with its name, its properties, its content and its children, or
-- another node.
mutual
  pub data Node : Type 0 where
    element : Text → List (Text × Text) → Option Text → Nodes → Node
    other : Node

  pub data Nodes : Type 0 where
    no_nodes : Nodes
    cons : Node → Nodes → Nodes

abbrev pub root_word : Text
root_word =
    b'c' ∷ b'i' ∷ b'r' ∷ b'e' ∷ b'v' ∷ b'l' ∷ b'o' ∷ b'o' ∷ b'k' ∷ b'u' ∷ b'p' ∷ b's' ∷ b'o' ∷ b'u'
    ∷ b'r' ∷ b'c' ∷ b'e' ∷ b's' ∷ []

abbrev pub source_word : Text
source_word = b's' ∷ b'o' ∷ b'u' ∷ b'r' ∷ b'c' ∷ b'e' ∷ []

abbrev pub description_word : Text
description_word = b'd' ∷ b'e' ∷ b's' ∷ b'c' ∷ b'r' ∷ b'i' ∷ b'p' ∷ b't' ∷ b'i' ∷ b'o' ∷ b'n' ∷ []

abbrev pub query_word : Text
query_word = b'q' ∷ b'u' ∷ b'e' ∷ b'r' ∷ b'y' ∷ []

abbrev pub pattern_word : Text
pattern_word = b'p' ∷ b'a' ∷ b't' ∷ b't' ∷ b'e' ∷ b'r' ∷ b'n' ∷ []

abbrev pub field_word : Text
field_word = b'f' ∷ b'i' ∷ b'e' ∷ b'l' ∷ b'd' ∷ []

abbrev pub id_word : Text
id_word = b'i' ∷ b'd' ∷ []

abbrev pub linehandling_word : Text
linehandling_word =
    b'l' ∷ b'i' ∷ b'n' ∷ b'e' ∷ b'h' ∷ b'a' ∷ b'n' ∷ b'd' ∷ b'l' ∷ b'i' ∷ b'n' ∷ b'g' ∷ []

abbrev pub nosplit_word : Text
nosplit_word = b'n' ∷ b'o' ∷ b's' ∷ b'p' ∷ b'l' ∷ b'i' ∷ b't' ∷ []

abbrev pub expression_word : Text
expression_word = b'e' ∷ b'x' ∷ b'p' ∷ b'r' ∷ b'e' ∷ b's' ∷ b's' ∷ b'i' ∷ b'o' ∷ b'n' ∷ []

abbrev pub pos_word : Text
pos_word = b'p' ∷ b'o' ∷ b's' ∷ []

abbrev pub name_word : Text
name_word = b'F' ∷ b'I' ∷ b'E' ∷ b'L' ∷ b'D' ∷ 95 ∷ b'N' ∷ b'A' ∷ b'M' ∷ b'E' ∷ []

abbrev pub postal_code_word : Text
postal_code_word =
    b'F' ∷ b'I' ∷ b'E' ∷ b'L' ∷ b'D' ∷ 95 ∷ b'P' ∷ b'O' ∷ b'S' ∷ b'T' ∷ b'A' ∷ b'L' ∷ b'C' ∷ b'O'
    ∷ b'D' ∷ b'E' ∷ []

abbrev pub city_word : Text
city_word = b'F' ∷ b'I' ∷ b'E' ∷ b'L' ∷ b'D' ∷ 95 ∷ b'C' ∷ b'I' ∷ b'T' ∷ b'Y' ∷ []

abbrev pub street_word : Text
street_word = b'F' ∷ b'I' ∷ b'E' ∷ b'L' ∷ b'D' ∷ 95 ∷ b'S' ∷ b'T' ∷ b'R' ∷ b'E' ∷ b'E' ∷ b'T' ∷ []

-- xmlGetProp
abbrev pub get_prop : Text → List (Text × Text) → Option Text
get_prop name [] = none
get_prop name ((key, value) ∷ props) =
    let rest = get_prop name props in if same key name then some value else rest

-- g_slist_reverse
abbrev pub reverse_onto : {A : Type 0} → List A → List A → List A
reverse_onto [] acc = acc
reverse_onto (x ∷ xs) acc = reverse_onto xs (x ∷ acc)

-- The comparisons of the content of a field.
abbrev pub field_code : Text → ℕ
field_code t =
    if same t name_word
    then field_name
    else if same t postal_code_word
    then field_postal_code
    else if same t city_word
    then field_city
    else if same t street_word
    then field_street
    else 0

abbrev pub code_or_zero : Option Text → ℕ
code_or_zero none = 0
code_or_zero (some t) = field_code t

abbrev pub number_or_zero : (Text → ℕ) → Option Text → ℕ
number_or_zero parse none = 0
number_or_zero parse (some t) = parse t

-- `linehandling`, which is to split unless it says otherwise.
abbrev pub splits : Option Text → Bool
splits none = true
splits (some t) = not (same t nosplit_word)

abbrev pub or_old : Option Text → Option Text → Option Text
or_old none old = old
or_old (some t) old = some t

-- `g_malloc0(sizeof(CIRLSource))`
abbrev pub no_source : Source
no_source = record { id = 0; description = none; query = none; split_lines = false; patterns = [] }

module _ (strtoul atoi : Text → ℕ) where
  -- The fields of a pattern, each prepended.
  unfoldable pub read_field_nodes : Nodes → List PatternField → List PatternField
  read_field_nodes no_nodes acc = acc
  read_field_nodes (cons other ns) acc = read_field_nodes ns acc
  read_field_nodes (cons (element name props content children) ns) acc = read_field_nodes ns (
      if same name field_word
      then record {
        position = number_or_zero atoi (get_prop pos_word props);
        field = code_or_zero content;
      }
        ∷ acc
      else acc)

  unfoldable pub read_pattern_node : List (Text × Text) → Nodes → Pattern
  unfolding read_field_nodes
  read_pattern_node props children = record {
    fields = reverse_onto (read_field_nodes children []) [];
    expression = get_prop expression_word props;
  }

  -- A child of a source.
  unfoldable pub read_sub_source : Node → Source → Source
  unfolding read_pattern_node
  read_sub_source other s = s
  read_sub_source (element name props content children) s =
      if same name description_word
      then record s { description = or_old content s.description }
      else if same name query_word
      then record s {
        split_lines = splits (get_prop linehandling_word props);
        query = or_old content s.query;
      }
      else if same name pattern_word
      then record s { patterns = read_pattern_node props children ∷ s.patterns }
      else s

  unfoldable pub read_sub_sources : Nodes → Source → Source
  unfolding read_sub_source
  read_sub_sources no_nodes s = s
  read_sub_sources (cons n ns) s = read_sub_sources ns (read_sub_source n s)

  unfoldable pub read_source : List (Text × Text) → Nodes → Source
  unfolding read_sub_sources
  read_source props children =
      let s =
        read_sub_sources children
          (record no_source { id = number_or_zero strtoul (get_prop id_word props) }) in
      record s { patterns = reverse_onto s.patterns [] }

  unfoldable pub read_source_nodes : Nodes → List Source → List Source
  unfolding read_source
  read_source_nodes no_nodes acc = acc
  read_source_nodes (cons other ns) acc = read_source_nodes ns acc
  read_source_nodes (cons (element name props content children) ns) acc =
      read_source_nodes ns (if same name source_word then read_source props children ∷ acc else acc)

  unfoldable pub load_root : Node → List Source × ℕ
  unfolding read_source_nodes
  load_root other = ([], 3)
  load_root (element name props content children) =
      if same name root_word then (reverse_onto (read_source_nodes children []) [], 0) else ([], 3)

  -- cirlw_load_sources_from_file: the sources that are there, the document, which is NULL if it cannot
  -- be parsed, and its root, which can be NULL; the sources behind the call and the result.
  unfoldable pub load_sources : List Source → Option (Option Node) → List Source × ℕ
  unfolding load_root
  load_sources (s ∷ ss) doc = (s ∷ ss, 1)
  load_sources [] none = ([], 2)
  load_sources [] (some none) = ([], 3)
  load_sources [] (some (some root)) = load_root root
