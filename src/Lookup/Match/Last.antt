-- ===== src/Lookup/Match/Last.antt =====
-- That the last word found for a field is the one that the caller gets (lookup.c).
use fritz2ci.Prelude.{
  ◌+◌, ◌<◌, ◌≡◌, refl, ap, ◌∙◌, Bool, true, false, Option, none, some, List, [], ◌∷◌, ◌++◌, map,
  All, length, ◌==◌, if◌then◌else◌, ◌>>=◌, arith,
}
use fritz2ci.Text.{Text, text_of}
use fritz2ci.Text.Facts.{strcpy_fits}
use fritz2ci.Lookup.Escapes.Decode.{decode, decode-Printable, Printable, remove_escapes-decode}
use fritz2ci.Lookup.Match.{
  Caller, Pattern, Found, Library, no_found, unescape, newer, convert_word, apply_patterns,
  apply_lines, decode_field, decode_fields, match_page, match_patterns,
}
use fritz2ci.Lookup.Match.Words.{
  Word, Fit, Fit-append, filled, flagged, given, given-append, words_if, on_match_lem,
}

unescape_lem : (t : Text) → Printable t → unescape t ≡ some (decode t)
unfolding unescape
unescape_lem t p =
    let (rest, e) = remove_escapes-decode t [] (length t + 1) p (omega arith) in
    rw e (ap some (text_of_lem (decode t) rest (decode-Printable t p)))
  where
    text_of_lem : (u rest : Text) → Printable u → text_of (u ++ (0 ∷ rest)) ≡ u
    text_of_lem [] rest p = refl
    text_of_lem (c ∷ u) rest (p, ps) =
        let e : (c == 0) ≡ false = ground arith in rw (e, text_of_lem u rest ps) refl

-- The charset that was found last.
abbrev pub last_charset : List (Option Text) → Option Text → Option Text
last_charset [] charset = charset
last_charset (none ∷ os) charset = last_charset os charset
last_charset (some cs ∷ os) charset = last_charset os (some cs)

abbrev pub or_same : Option Text → Text → Text
or_same none t = t
or_same (some w) t = w

module _ (lib : Library) where
  open lib use {match, find_charset, strsplit, convert}

  -- The words of a line and of a page, in the order in which they are found.
  abbrev pub line_words : Text → List Pattern → List Word
  line_words line [] = []
  line_words line (p ∷ ps) = words_if (match p.expression line) p.fields ++ line_words line ps

  abbrev pub page_words : List Text → List Pattern → List Word
  page_words [] ps = []
  page_words (line ∷ lines) ps = line_words line ps ++ page_words lines ps

  apply_patterns_lem :
      (line : Text) (ps : List Pattern) (c : Caller) (fnd : Found)
      → All Fit (line_words line ps)
      → apply_patterns lib line ps c fnd ≡ some (given (line_words line ps) c fnd)
  unfolding apply_patterns
  apply_patterns_lem line [] c fnd h = refl
  apply_patterns_lem line (p ∷ ps) c fnd h =
      let ws = words_if (match p.expression line) p.fields in
      let (k, l) = Fit-append ws (line_words line ps) h in
      ap (λ (o : Option (Caller × Found)). o >>= λ (c', fnd'). apply_patterns lib line ps c' fnd')
        (on_match_lem (match p.expression line) p.fields c fnd k)
      ∙ apply_patterns_lem line ps _ _ l
      ∙ ap some (given-append ws (line_words line ps) c fnd)

  charset_lem :
      (o : Option Text) (os : List (Option Text)) (charset : Option Text)
      → last_charset os (newer o charset) ≡ last_charset (o ∷ os) charset
  charset_lem none os charset = refl
  charset_lem (some cs) os charset = refl

  apply_lines_lem :
      (lines : List Text) (ps : List Pattern) (c : Caller) (fnd : Found) (charset : Option Text)
      → All Fit (page_words lines ps)
      → apply_lines lib lines ps c fnd charset
        ≡ some (
          filled (page_words lines ps) c,
          flagged (page_words lines ps) fnd,
          last_charset (map find_charset lines) charset,
        )
  unfolding apply_lines
  apply_lines_lem [] ps c fnd charset h = refl
  apply_lines_lem (line ∷ lines) ps c fnd charset h =
      let ws = line_words line ps in
      let (k, l) = Fit-append ws (page_words lines ps) h in
      ap
        (λ (o : Option (Caller × Found)).
          o >>= λ (c', fnd'). apply_lines lib lines ps c' fnd' (newer (find_charset line) charset))
        (apply_patterns_lem line ps c fnd k)
      ∙ apply_lines_lem lines ps _ _ _ l
      ∙ (λ i. some (
        (given-append ws (page_words lines ps) c fnd i).0,
        (given-append ws (page_words lines ps) c fnd i).1,
        charset_lem (find_charset line) (map find_charset lines) charset i,
      ))

  -- What becomes of a text that was found, if there is a charset: it is converted, if it can be, and
  -- its escapes are removed.
  abbrev pub finished : Option Text → Bool → Text → Text
  finished none found t = t
  finished (some cs) false t = t
  finished (some cs) true t = decode (or_same (convert t cs) t)

  -- The text to be decoded fits and has no NUL.
  abbrev pub Ready : Option Text → Bool → Text → Type 0
  Ready none found t = Unit
  Ready (some cs) false t = Unit
  Ready (some cs) true t =
      (length (or_same (convert t cs) t) < 256) × Printable (or_same (convert t cs) t)

  decode_field_lem :
      (found : Bool) (cs t : Text)
      → Ready (some cs) found t
      → (if found then decode_field lib 256 cs t else some t) ≡ some (finished (some cs) found t)
  unfolding decode_field
  decode_field_lem false cs t h = refl
  decode_field_lem true cs t (h, p) = by_word (convert t cs) h p
    where
      by_word :
          (o : Option Text)
          → length (or_same o t) < 256
          → Printable (or_same o t)
          → (convert_word 256 o t >>= unescape) ≡ some (decode (or_same o t))
      by_word none h p = unescape_lem t p
      by_word (some w) h p = rw (strcpy_fits 256 w h) (unescape_lem w p)

  -- A postal code is not converted.
  abbrev pub finished_code : Option Text → Bool → Text → Text
  finished_code none found t = t
  finished_code (some cs) false t = t
  finished_code (some cs) true t = decode t

  abbrev pub ReadyCode : Option Text → Bool → Text → Type 0
  ReadyCode none found t = Unit
  ReadyCode (some cs) false t = Unit
  ReadyCode (some cs) true t = Printable t

  decode_code_lem :
      (found : Bool) (cs t : Text)
      → ReadyCode (some cs) found t
      → (if found then unescape t else some t) ≡ some (finished_code (some cs) found t)
  decode_code_lem false cs t h = refl
  decode_code_lem true cs t h = unescape_lem t h

  -- A caller whose fields are finished.
  abbrev pub done : Option Text → Found → Caller → Caller
  done charset fnd c = record c {
    name = finished charset fnd.found_name c.name;
    postal_code = finished_code charset fnd.found_postal_code c.postal_code;
    city = finished charset fnd.found_city c.city;
    street = finished charset fnd.found_street c.street;
  }

  abbrev pub AllReady : Option Text → Found → Caller → Type 0
  AllReady charset fnd c =
      Ready charset fnd.found_name c.name
      × Ready charset fnd.found_city c.city
      × ReadyCode charset fnd.found_postal_code c.postal_code
      × Ready charset fnd.found_street c.street

  decode_fields_lem :
      (charset : Option Text) (fnd : Found) (c : Caller)
      → AllReady charset fnd c
      → decode_fields lib charset fnd c ≡ some (done charset fnd c)
  unfolding decode_fields
  decode_fields_lem none fnd c h = refl
  decode_fields_lem (some cs) fnd c (n, t, p, s) =
      rw
        (
          decode_field_lem fnd.found_name cs c.name n,
          decode_field_lem fnd.found_city cs c.city t,
          decode_code_lem fnd.found_postal_code cs c.postal_code p,
          decode_field_lem fnd.found_street cs c.street s,
        )
        refl

  -- A page that is split into lines, for a source with patterns: if each word that is found for a
  -- field is there and fits its array, and so do the texts once they are converted, none with a NUL,
  -- then the search returns 0; each field is the last word that was found for it, in the order of
  -- the lines, of the patterns that match them and of their fields, or as it was before if there was none; if
  -- a line names a charset, the fields that were found, but the postal code, are converted from the
  -- last charset, if they can be, and those found have each `%20` turned to a space; and exactly the
  -- fields with a word are reported as found.
  pub match_patterns-last :
      (p : Pattern) (ps : List Pattern) (text : Text) (c : Caller)
      → All Fit (page_words (strsplit text) (p ∷ ps))
      → AllReady
          (last_charset (map find_charset (strsplit text)) none)
          (flagged (page_words (strsplit text) (p ∷ ps)) no_found)
          (filled (page_words (strsplit text) (p ∷ ps)) c)
      → match_patterns lib (p ∷ ps) true (some text) c
        ≡ some (
          done
              (last_charset (map find_charset (strsplit text)) none)
              (flagged (page_words (strsplit text) (p ∷ ps)) no_found)
              (filled (page_words (strsplit text) (p ∷ ps)) c),
          flagged (page_words (strsplit text) (p ∷ ps)) no_found,
          0,
        )
  unfolding match_patterns match_page
  match_patterns-last p ps text c fit ready =
      let ws = page_words (strsplit text) (p ∷ ps) in
      let charset = last_charset (map find_charset (strsplit text)) none in
      ap
        (λ (o : Option (Caller × Found × Option Text)). o >>= λ (c', fnd, charset).
          decode_fields lib charset fnd c' >>= λ c''. some (c'', fnd, 0))
        (apply_lines_lem (strsplit text) (p ∷ ps) c no_found none fit)
      ∙ ap (λ (o : Option Caller). o >>= λ c''. some (c'', flagged ws no_found, 0))
          (decode_fields_lem charset (flagged ws no_found) (filled ws c) ready)
