-- ===== src/Lookup/Sources/Examples.antt =====
-- A document with a source, where a number is printed as so many ones.
use fritz2ci.Prelude.{
  arith, ℕ, ◌≡◌, true, some, List, [], ◌∷◌, map, length, replicate, length-replicate,
}
use fritz2ci.Text.{Text}
use fritz2ci.Lookup.Sources.{load_sources}
use fritz2ci.Lookup.Sources.RoundTrip.{
  SourceEntry, of_name, of_city, source_of, document, load_sources-document,
}

abbrev print : ℕ → Text
print n = replicate n b'1'

abbrev entries : List SourceEntry
entries =
    record {
      id = 3;
      description = b'T' ∷ [];
      query = b'u' ∷ [];
      split = true;
      patterns = record { expression = b'.' ∷ []; fields = (1, of_name) ∷ (2, of_city) ∷ [] } ∷ [];
    }
    ∷ []

load_sources-document_example :
    load_sources length length [] (some (some (document print entries)))
    ≡ (map source_of entries, 0)
load_sources-document_example =
    load_sources-document print length length (λ n h. length-replicate n b'1')
      (λ n h. length-replicate n b'1') entries (omega arith)
