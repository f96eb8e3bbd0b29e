-- ===== src/Lookup/Sources/RoundTrip.antt =====
-- That a file of sources in its format is loaded as what it says (lookup.c).
use fritz2ci.Prelude.{
  All, ℕ, ◌<◌, ◌≡◌, refl, sym, ap, ◌∙◌, Bool, true, false, none, some, List, [], ◌∷◌, ◌++◌, map,
  append-nil,
}
use fritz2ci.Text.{Text}
use fritz2ci.Lookup.Match.{
  PatternField, Pattern, Source, field_name, field_postal_code, field_city, field_street,
}
use fritz2ci.Lookup.Sources.{
  Node, Nodes, element, no_nodes, cons, root_word, source_word, description_word, query_word,
  pattern_word, field_word, id_word, linehandling_word, nosplit_word, expression_word, pos_word,
  name_word, postal_code_word, city_word, street_word, reverse_onto, read_field_nodes,
  read_pattern_node, read_sub_sources, read_source, read_source_nodes, load_root, load_sources,
}

-- What a file says: the kinds of fields, with their positions; patterns; sources.
pub data Kind : Type 0 where
  of_name of_postal_code of_city of_street : Kind

pub record PatternEntry : Type 0 where
  pub expression : Text
  pub fields : List (ℕ × Kind)

pub record SourceEntry : Type 0 where
  pub id : ℕ
  pub description : Text
  pub query : Text
  pub split : Bool
  pub patterns : List PatternEntry

abbrev kind_code : Kind → ℕ
kind_code of_name = field_name
kind_code of_postal_code = field_postal_code
kind_code of_city = field_city
kind_code of_street = field_street

abbrev kind_word : Kind → Text
kind_word of_name = name_word
kind_word of_postal_code = postal_code_word
kind_word of_city = city_word
kind_word of_street = street_word

abbrev field_of : ℕ × Kind → PatternField
field_of (position, kind) = record { position = position; field = kind_code kind }

abbrev pattern_of : PatternEntry → Pattern
pattern_of p = record { fields = map field_of p.fields; expression = some p.expression }

abbrev pub source_of : SourceEntry → Source
source_of s = record {
  id = s.id;
  description = some s.description;
  query = some s.query;
  split_lines = s.split;
  patterns = map pattern_of s.patterns;
}

-- Numbers that the C library reads: positions as `int`, and the numbers of sources as `unsigned long`,
-- which has 32 bits at least.
abbrev pub Positions : List (ℕ × Kind) → Type 0
Positions fs = All (λ (f : ℕ × Kind). f.0 < 2147483648) fs

abbrev pub InRange : SourceEntry → Type 0
InRange s = (s.id < 4294967296) × All (λ (p : PatternEntry). Positions p.fields) s.patterns

reverse_onto_twice :
    {A : Type 0} (xs ys zs : List A)
    → reverse_onto (reverse_onto xs ys) zs ≡ reverse_onto ys (xs ++ zs)
reverse_onto_twice [] ys zs = refl
reverse_onto_twice (x ∷ xs) ys zs = reverse_onto_twice xs (x ∷ ys) zs

reverse_back : {A : Type 0} (xs : List A) → reverse_onto (reverse_onto xs []) [] ≡ xs
reverse_back xs = reverse_onto_twice xs [] [] ∙ append-nil xs

module _ (print : ℕ → Text) where
  -- The elements of the file.
  abbrev field_nodes : List (ℕ × Kind) → Nodes
  field_nodes [] = no_nodes
  field_nodes ((position, kind) ∷ fs) =
      cons (element field_word ((pos_word, print position) ∷ []) (some (kind_word kind)) no_nodes)
        (field_nodes fs)

  abbrev pattern_nodes : List PatternEntry → Nodes
  pattern_nodes [] = no_nodes
  pattern_nodes (p ∷ ps) =
      cons (element pattern_word ((expression_word, p.expression) ∷ []) none (field_nodes p.fields))
        (pattern_nodes ps)

  abbrev split_props : Bool → List (Text × Text)
  split_props true = []
  split_props false = (linehandling_word, nosplit_word) ∷ []

  abbrev source_nodes : List SourceEntry → Nodes
  source_nodes [] = no_nodes
  source_nodes (s ∷ ss) =
      cons
        (element source_word ((id_word, print s.id) ∷ []) none (
          cons (element description_word [] (some s.description) no_nodes) (
            cons (element query_word (split_props s.split) (some s.query) no_nodes)
              (pattern_nodes s.patterns))))
        (source_nodes ss)

  abbrev pub document : List SourceEntry → Node
  document ss = element root_word [] none (source_nodes ss)

  module _ (strtoul atoi : Text → ℕ)
      (strtoul-print : (n : ℕ) → n < 4294967296 → strtoul (print n) ≡ n)
      (atoi-print : (n : ℕ) → n < 2147483648 → atoi (print n) ≡ n) where
    one_field :
        (n code : ℕ) (fs : List (ℕ × Kind)) (acc : List PatternField) {o : List PatternField}
        → o
          ≡ reverse_onto
              (map field_of fs)
              (record { position = atoi (print n); field = code } ∷ acc)
        → n < 2147483648
        → o ≡ reverse_onto (map field_of fs) (record { position = n; field = code } ∷ acc)
    one_field n code fs acc e small =
        e
        ∙ ap (λ z. reverse_onto (map field_of fs) (record { position = z; field = code } ∷ acc))
            (atoi-print n small)

    field_lem :
        (fs : List (ℕ × Kind)) (acc : List PatternField)
        → Positions fs
        → read_field_nodes strtoul atoi (field_nodes fs) acc ≡ reverse_onto (map field_of fs) acc
    unfolding read_field_nodes
    field_lem [] acc small = refl
    field_lem ((n, of_name) ∷ fs) acc small =
        one_field n field_name fs acc
          (field_lem fs (record { position = atoi (print n); field = field_name } ∷ acc) small.1)
          small.0
    field_lem ((n, of_postal_code) ∷ fs) acc small =
        one_field n field_postal_code fs acc
          (field_lem fs (record { position = atoi (print n); field = field_postal_code } ∷ acc)
            small.1)
          small.0
    field_lem ((n, of_city) ∷ fs) acc small =
        one_field n field_city fs acc
          (field_lem fs (record { position = atoi (print n); field = field_city } ∷ acc) small.1)
          small.0
    field_lem ((n, of_street) ∷ fs) acc small =
        one_field n field_street fs acc
          (field_lem fs (record { position = atoi (print n); field = field_street } ∷ acc) small.1)
          small.0

    pattern_lem :
        (p : PatternEntry)
        → Positions p.fields
        → read_pattern_node strtoul atoi
            ((expression_word, p.expression) ∷ [])
            (field_nodes p.fields)
          ≡ pattern_of p
    unfolding read_pattern_node
    pattern_lem p small = λ i. record {
      fields =
          (ap (λ z. reverse_onto z []) (field_lem p.fields [] small)
              ∙ reverse_back (map field_of p.fields))
            i;
      expression = some p.expression;
    }

    patterns_lem :
        (ps : List PatternEntry) (s : Source)
        → All (λ (p : PatternEntry). Positions p.fields) ps
        → read_sub_sources strtoul atoi (pattern_nodes ps) s
          ≡ record s { patterns = reverse_onto (map pattern_of ps) s.patterns }
    unfolding read_sub_sources
    patterns_lem [] s small = refl
    patterns_lem (p ∷ ps) s small =
        patterns_lem ps
          (record s {
            patterns =
                read_pattern_node strtoul atoi ((expression_word, p.expression) ∷ [])
                  (field_nodes p.fields)
                ∷ s.patterns;
          })
          small.1
        ∙ ap (λ z. record s { patterns = reverse_onto (map pattern_of ps) (z ∷ s.patterns) })
            (pattern_lem p small.0)

    -- The source behind its description and its query.
    abbrev begun : SourceEntry → Bool → Source
    begun s split = record {
      id = strtoul (print s.id);
      description = some s.description;
      query = some s.query;
      split_lines = split;
      patterns = [];
    }

    read_lem :
        (s : SourceEntry) (split : Bool)
        → s.split ≡ split
        → InRange s
        → (let z = read_sub_sources strtoul atoi (pattern_nodes s.patterns) (begun s split) in
            record z { patterns = reverse_onto z.patterns [] })
          ≡ source_of s
    read_lem s split e small =
        ap (λ (z : Source). record z { patterns = reverse_onto z.patterns [] })
          (patterns_lem s.patterns (begun s split) small.1)
        ∙ (λ i. record {
          id = strtoul-print s.id small.0 i;
          description = some s.description;
          query = some s.query;
          split_lines = sym e i;
          patterns = reverse_back (map pattern_of s.patterns) i;
        })

    source_lem :
        (s : SourceEntry) (split : Bool)
        → s.split ≡ split
        → InRange s
        → read_source strtoul atoi ((id_word, print s.id) ∷ []) (
            cons (element description_word [] (some s.description) no_nodes) (
              cons
                (element query_word (split_props split) (some s.query) no_nodes)
                (pattern_nodes s.patterns)))
          ≡ source_of s
    unfolding read_source read_sub_sources
    source_lem s true e small = read_lem s true e small
    source_lem s false e small = read_lem s false e small

    sources_lem :
        (ss : List SourceEntry) (acc : List Source)
        → All InRange ss
        → read_source_nodes strtoul atoi (source_nodes ss) acc ≡ reverse_onto (map source_of ss) acc
    unfolding read_source_nodes
    sources_lem [] acc small = refl
    sources_lem (s ∷ ss) acc small =
        sources_lem ss _ small.1
        ∙ ap (λ z. reverse_onto (map source_of ss) (z ∷ acc)) (source_lem s s.split refl small.0)

    -- A document that lists sources, each with its number, its description, its query, whether its
    -- pages are split into lines, and its patterns with their fields, is loaded as these sources, in
    -- this order and with the result 0, where nothing is loaded yet, if the numbers of the sources are
    -- below 2^32 and the positions of the fields below 2^31, and strtoul and atoi read such numbers back
    -- from what they were printed to.
    pub load_sources-document :
        (ss : List SourceEntry)
        → All InRange ss
        → load_sources strtoul atoi [] (some (some (document ss))) ≡ (map source_of ss, 0)
    unfolding load_sources load_root
    load_sources-document ss small = λ i. (
      (ap (λ z. reverse_onto z []) (sources_lem ss [] small) ∙ reverse_back (map source_of ss)) i,
      0,
    )
