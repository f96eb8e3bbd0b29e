-- ===== src/Lookup/Match/Words.antt =====
-- The words that patterns find for the fields of a caller, and what they leave there (lookup.c).
use fritz2ci.Prelude.{
  ℕ, ◌<◌, ◌≡◌, ◌⊎◌, refl, ap, sym, subst, ◌∙◌, Bool, true, false, ◌||◌, Bool-cases, inl, inr,
  Option, none, some, List, [], ◌∷◌, ◌++◌, map, All, length, ◌==◌, ==_iff, if◌then◌else◌, ◌>>=◌,
}
use fritz2ci.Text.{Text}
use fritz2ci.Text.Facts.{strcpy_fits}
use fritz2ci.Lookup.Match.{Caller, PatternField, Found, set_field, set_fields, on_match}

-- A word with the field that it is for: 1 is the name, 2 the postal code, 4 the city, 8 the street.
abbrev pub Word : Type 0
Word = ℕ × Option Text

abbrev pub known : ℕ → Bool
known f = (f == 1) || ((f == 2) || ((f == 4) || (f == 8)))

abbrev pub room : ℕ → ℕ
room f = if f == 2 then 8 else 256

-- A word for one of the fields is there and fits the array.
abbrev pub Copied : Bool → ℕ → Option Text → Type 0
Copied false f o = Unit
Copied true f none = ⊥
Copied true f (some w) = length w < room f

abbrev pub Fit : Word → Type 0
Fit (f, o) = Copied (known f) f o

-- A text, and whether there was one, behind a word.
abbrev pub replaced : Bool → Option Text → Text → Text
replaced true (some w) t = w
replaced true none t = t
replaced false o t = t

-- The last word for a field, and whether there is one.
abbrev pub last : ℕ → List Word → Text → Text
last f [] t = t
last f ((g, o) ∷ ws) t = last f ws (replaced (g == f) o t)

abbrev pub seen : ℕ → List Word → Bool → Bool
seen f [] b = b
seen f ((g, o) ∷ ws) b = seen f ws ((g == f) || b)

last-append : (f : ℕ) (ws vs : List Word) (t : Text) → last f (ws ++ vs) t ≡ last f vs (last f ws t)
last-append f [] vs t = refl
last-append f ((g, o) ∷ ws) vs t = last-append f ws vs (replaced (g == f) o t)

seen-append : (f : ℕ) (ws vs : List Word) (b : Bool) → seen f (ws ++ vs) b ≡ seen f vs (seen f ws b)
seen-append f [] vs b = refl
seen-append f ((g, o) ∷ ws) vs b = seen-append f ws vs ((g == f) || b)

pub Fit-append : (ws vs : List Word) → All Fit (ws ++ vs) → All Fit ws × All Fit vs
Fit-append [] vs h = (tt, h)
Fit-append (w ∷ ws) vs (h, hs) = let (k, l) = Fit-append ws vs hs in ((h, k), l)

-- The caller and the flags behind some words.
abbrev pub filled : List Word → Caller → Caller
filled ws c = record c {
  name = last 1 ws c.name;
  postal_code = last 2 ws c.postal_code;
  city = last 4 ws c.city;
  street = last 8 ws c.street;
}

abbrev pub flagged : List Word → Found → Found
flagged ws fnd = record {
  found_name = seen 1 ws fnd.found_name;
  found_postal_code = seen 2 ws fnd.found_postal_code;
  found_city = seen 4 ws fnd.found_city;
  found_street = seen 8 ws fnd.found_street;
}

-- Both, as a result.
abbrev pub given : List Word → Caller → Found → Caller × Found
given ws c fnd = (filled ws c, flagged ws fnd)

pub given-append :
    (ws vs : List Word) (c : Caller) (fnd : Found)
    → given vs (filled ws c) (flagged ws fnd) ≡ given (ws ++ vs) c fnd
given-append ws vs c fnd = λ i. (
  record c {
    name = sym (last-append 1 ws vs c.name) i;
    postal_code = sym (last-append 2 ws vs c.postal_code) i;
    city = sym (last-append 4 ws vs c.city) i;
    street = sym (last-append 8 ws vs c.street) i;
  },
  record {
    found_name = sym (seen-append 1 ws vs fnd.found_name) i;
    found_postal_code = sym (seen-append 2 ws vs fnd.found_postal_code) i;
    found_city = sym (seen-append 4 ws vs fnd.found_city) i;
    found_street = sym (seen-append 8 ws vs fnd.found_street) i;
  },
)

set_known :
    (f : ℕ) (o : Option Text) (c : Caller) (fnd : Found)
    → (f ≡ 1) ⊎ ((f ≡ 2) ⊎ ((f ≡ 4) ⊎ (f ≡ 8)))
    → Fit (f, o)
    → set_field f o c fnd ≡ some (given ((f, o) ∷ []) c fnd)
unfolding set_field
set_known f none c fnd (inl e) h = absurd (subst (λ z. Fit (z, none)) e h)
set_known f none c fnd (inr (inl e)) h = absurd (subst (λ z. Fit (z, none)) e h)
set_known f none c fnd (inr (inr (inl e))) h = absurd (subst (λ z. Fit (z, none)) e h)
set_known f none c fnd (inr (inr (inr e))) h = absurd (subst (λ z. Fit (z, none)) e h)
set_known f (some w) c fnd (inl e) h =
    let k = strcpy_fits 256 w (subst (λ z. Fit (z, some w)) e h) in rw (e, k) refl
set_known f (some w) c fnd (inr (inl e)) h =
    let k = strcpy_fits 8 w (subst (λ z. Fit (z, some w)) e h) in rw (e, k) refl
set_known f (some w) c fnd (inr (inr (inl e))) h =
    let k = strcpy_fits 256 w (subst (λ z. Fit (z, some w)) e h) in rw (e, k) refl
set_known f (some w) c fnd (inr (inr (inr e))) h =
    let k = strcpy_fits 256 w (subst (λ z. Fit (z, some w)) e h) in rw (e, k) refl

set_field_lem :
    (f : ℕ) (o : Option Text) (c : Caller) (fnd : Found)
    → Fit (f, o)
    → set_field f o c fnd ≡ some (given ((f, o) ∷ []) c fnd)
unfolding set_field
set_field_lem f o c fnd h = elim (Bool-cases (f == 1)) [
  | inl e ↦ set_known f o c fnd (inl ((==_iff f 1).0 e)) h
  | inr e₁ ↦ elim (Bool-cases (f == 2)) [
    | inl e ↦ set_known f o c fnd (inr (inl ((==_iff f 2).0 e))) h
    | inr e₂ ↦ elim (Bool-cases (f == 4)) [
      | inl e ↦ set_known f o c fnd (inr (inr (inl ((==_iff f 4).0 e)))) h
      | inr e₄ ↦ elim (Bool-cases (f == 8)) [
        | inl e ↦ set_known f o c fnd (inr (inr (inr ((==_iff f 8).0 e)))) h
        | inr e₈ ↦ rw (e₁, e₂, e₄, e₈) refl
      ]
    ]
  ]
]

-- The words of the fields of a pattern that matches.
abbrev pub words_of : (ℕ → Option Text) → List PatternField → List Word
words_of fetch ps = map (λ (p : PatternField). (p.field, fetch p.position)) ps

set_fields_lem :
    (fetch : ℕ → Option Text) (ps : List PatternField) (c : Caller) (fnd : Found)
    → All Fit (words_of fetch ps)
    → set_fields fetch ps c fnd ≡ some (given (words_of fetch ps) c fnd)
unfolding set_fields
set_fields_lem fetch [] c fnd h = refl
set_fields_lem fetch (p ∷ ps) c fnd (h, hs) =
    ap (λ (o : Option (Caller × Found)). o >>= λ (c', fnd'). set_fields fetch ps c' fnd')
      (set_field_lem p.field (fetch p.position) c fnd h)
    ∙ set_fields_lem fetch ps _ _ hs

abbrev pub words_if : Option (ℕ → Option Text) → List PatternField → List Word
words_if none ps = []
words_if (some fetch) ps = words_of fetch ps

pub on_match_lem :
    (m : Option (ℕ → Option Text)) (ps : List PatternField) (c : Caller) (fnd : Found)
    → All Fit (words_if m ps)
    → on_match m ps c fnd ≡ some (given (words_if m ps) c fnd)
unfolding on_match
on_match_lem none ps c fnd h = refl
on_match_lem (some fetch) ps c fnd h = set_fields_lem fetch ps c fnd h
