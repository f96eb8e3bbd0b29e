-- ===== src/Fritz/Notify/Examples.antt =====
-- The theorems on notifications, with a splitting at semicolons that meets their hypothesis.
use fritz2ci.Prelude.{
  ◌⊎◌, ◌≢◌, ℕ, ◌≡◌, refl, ap, ◌∙◌, false, some, List, [], ◌∷◌, ◌++◌, All, ◌==◌, if◌then◌else◌,
  arith,
}
use fritz2ci.Text.{Text}
use fritz2ci.Fritz.Notify.{CallMsg, Library, ring_word, no_call, parse_notification}
use fritz2ci.Fritz.Notify.Decode.{
  Notification, ring, needed, structure, fields_of, joined, Plain, parse_notification-needed,
  parse_notification-fields_of,
}

abbrev push : ℕ → List Text → List Text
push c [] = (c ∷ []) ∷ []
push c (t ∷ ts) = (c ∷ t) ∷ ts

abbrev pieces : Text → List Text
pieces [] = [] ∷ []
pieces (c ∷ s) = let rest = pieces s in if c == b';' then [] ∷ rest else push c rest

abbrev pub split : Text → List Text
split [] = []
split (c ∷ s) = pieces (c ∷ s)

pieces-Plain : (t : Text) → Plain t → pieces t ≡ t ∷ []
pieces-Plain [] h = refl
pieces-Plain (c ∷ t) (h, hs) =
    let e : (c == b';') ≡ false = ground arith in rw (e, pieces-Plain t hs)

pieces-append : (t r : Text) → Plain t → pieces (t ++ (b';' ∷ r)) ≡ t ∷ pieces r
pieces-append [] r h = refl
pieces-append (c ∷ t) r (h, hs) =
    let e : (c == b';') ≡ false = ground arith in rw (e, pieces-append t r hs)

pieces-joined : (t : Text) (ts : List Text) → All Plain (t ∷ ts) → pieces (joined (t ∷ ts)) ≡ t ∷ ts
pieces-joined t [] (h, hs) = pieces-Plain t h
pieces-joined t (u ∷ ts) (h, hs) =
    pieces-append t (joined (u ∷ ts)) h ∙ ap (λ z. t ∷ z) (pieces-joined u ts hs)

pub split-joined :
    (a b : Text) (ts : List Text)
    → All Plain (a ∷ b ∷ ts)
    → split (joined (a ∷ b ∷ ts)) ≡ a ∷ b ∷ ts
split-joined [] b ts h = pieces-joined [] (b ∷ ts) h
split-joined (c ∷ a) b ts h = pieces-joined (c ∷ a) (b ∷ ts) h

-- Dates are the texts themselves, and numbers are their first digits.
abbrev pub library : Library
library = record {
  Date = Text;
  no_date = [];
  strsplit = split;
  atoi = first;
  strtoul = first;
  strptime = λ t d. t;
}
  where
    first : Text → ℕ
    first [] = 0
    first (c ∷ t) = c

abbrev pub note : Notification
note = ring (b'2' ∷ b'5' ∷ []) (b'0' ∷ []) (b'0' ∷ b'3' ∷ b'5' ∷ b'1' ∷ []) (b'4' ∷ b'2' ∷ [])

pub note-Plain : All Plain (fields_of note (b'S' ∷ []))
note-Plain = omega arith

parse_notification-fields_of_example :
    parse_notification library (some (joined (fields_of note (b'S' ∷ [])))) (some (no_call library))
    ≡ (some (structure library note), 0)
parse_notification-fields_of_example =
    parse_notification-fields_of library note (b'S' ∷ []) (no_call library) split-joined note-Plain

-- No date, no protocol.
abbrev bare : Text
bare = b'x' ∷ b';' ∷ (ring_word ++ (b';' ∷ b'0' ∷ b';' ∷ b'1' ∷ b';' ∷ b'2' ∷ []))

parse_notification-needed_example :
    ((n : Notification) × (extra : List Text) × (split bare ≡ needed n ++ extra)
      × (parse_notification library (some bare) (some (no_call library))
          ≡ (some (structure library n), 0)))
    ⊎ (((n : Notification) (extra : List Text) → split bare ≢ needed n ++ extra)
        × (m : CallMsg Text) × (parse_notification library (some bare) (some (no_call library))
            ≡ (some m, 3)))
parse_notification-needed_example = parse_notification-needed library bare (no_call library)
