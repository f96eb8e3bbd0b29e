-- ===== src/Fritz/Notify/Decode.antt =====
-- The notifications (fritz.c), and that the parser takes exactly the texts whose first fields are those of
-- a notification up to its last number. That is more than the formats in the comment above
-- _fritz_parse_notification: the protocol and the last semicolon may be left out, anything may follow,
-- and the date and the numbers may be any texts.
use fritz2ci.Prelude.{
  some-injective, sym, ◌⊎◌, ℕ, ◌%◌, ◌≡◌, ◌≢◌, refl, ap, subst, ◌∙◌, Bool-cases, inl, inr, Option,
  none, some, List, [], ◌∷◌, ◌++◌, All, get_elem?, if◌then◌else◌,
}
use fritz2ci.Text.{Text, same, strlcpy}
use fritz2ci.Text.Facts.{eq_of_same}
use fritz2ci.Fritz.Notify.{
  Library, CallMsg, no_call, ring_type, call_type, connect_type, disconnect_type, ring_word,
  call_word, connect_word, disconnect_word, type_of_word, read_ring, read_call, read_connect,
  read_type, read_word, read_fields, parse_notification,
}

pub data Notification : Type 0 where
  ring : (date id number msn : Text) → Notification
  call : (date id nst msn number : Text) → Notification
  connect : (date id nst number : Text) → Notification
  disconnect : (date id duration : Text) → Notification

-- The fields of a notification that the parser needs.
abbrev pub needed : Notification → List Text
needed (ring date id number msn) = date ∷ ring_word ∷ id ∷ number ∷ msn ∷ []
needed (call date id nst msn number) = date ∷ call_word ∷ id ∷ nst ∷ msn ∷ number ∷ []
needed (connect date id nst number) = date ∷ connect_word ∷ id ∷ nst ∷ number ∷ []
needed (disconnect date id duration) = date ∷ disconnect_word ∷ id ∷ duration ∷ []

-- The notification that fields begin with.
abbrev decode_ring : Text → Text → Text → List Text → Option Notification
decode_ring date id f₃ (f₄ ∷ fs) = some (ring date id f₃ f₄)
decode_ring date id f₃ [] = none

abbrev decode_call : Text → Text → Text → List Text → Option Notification
decode_call date id f₃ (f₄ ∷ f₅ ∷ fs) = some (call date id f₃ f₄ f₅)
decode_call date id f₃ (f₄ ∷ []) = none
decode_call date id f₃ [] = none

abbrev decode_connect : Text → Text → Text → List Text → Option Notification
decode_connect date id f₃ (f₄ ∷ fs) = some (connect date id f₃ f₄)
decode_connect date id f₃ [] = none

abbrev decode : List Text → Option Notification
decode (date ∷ word ∷ id ∷ f₃ ∷ fs) =
    if same word ring_word
    then decode_ring date id f₃ fs
    else if same word call_word
    then decode_call date id f₃ fs
    else if same word connect_word
    then decode_connect date id f₃ fs
    else if same word disconnect_word
    then some (disconnect date id f₃)
    else none
decode _ = none

none-ne-some : (n : Notification) → ◌≡◌ {A = Option Notification} none (some n) → ⊥
none-ne-some n e = cc

-- What is decoded is what the fields begin with.
Begins : List Text → Notification → Type 0
Begins fs n = (extra : List Text) × (fs ≡ needed n ++ extra)

decoded : (fs : List Text) (a n : Notification) → some a ≡ some n → Begins fs a → Begins fs n
decoded fs a n e h = subst (Begins fs) (some-injective a n e) h

decode_ring_lem :
    (date word id f₃ : Text) (fs : List Text) (n : Notification)
    → word ≡ ring_word
    → decode_ring date id f₃ fs ≡ some n
    → Begins (date ∷ word ∷ id ∷ f₃ ∷ fs) n
unfolding Begins
decode_ring_lem date word id f₃ [] n w e = cc
decode_ring_lem date word id f₃ (f₄ ∷ fs) n w e =
    decoded _ _ n e (fs, ap (λ z. date ∷ z ∷ id ∷ f₃ ∷ f₄ ∷ fs) w)

decode_call_lem :
    (date word id f₃ : Text) (fs : List Text) (n : Notification)
    → word ≡ call_word
    → decode_call date id f₃ fs ≡ some n
    → Begins (date ∷ word ∷ id ∷ f₃ ∷ fs) n
unfolding Begins
decode_call_lem date word id f₃ [] n w e = cc
decode_call_lem date word id f₃ (f₄ ∷ []) n w e = cc
decode_call_lem date word id f₃ (f₄ ∷ f₅ ∷ fs) n w e =
    decoded _ _ n e (fs, ap (λ z. date ∷ z ∷ id ∷ f₃ ∷ f₄ ∷ f₅ ∷ fs) w)

decode_connect_lem :
    (date word id f₃ : Text) (fs : List Text) (n : Notification)
    → word ≡ connect_word
    → decode_connect date id f₃ fs ≡ some n
    → Begins (date ∷ word ∷ id ∷ f₃ ∷ fs) n
unfolding Begins
decode_connect_lem date word id f₃ [] n w e = cc
decode_connect_lem date word id f₃ (f₄ ∷ fs) n w e =
    decoded _ _ n e (fs, ap (λ z. date ∷ z ∷ id ∷ f₃ ∷ f₄ ∷ fs) w)

decode_needs : (fs : List Text) (n : Notification) → decode fs ≡ some n → Begins fs n
unfolding Begins
decode_needs [] n h = cc
decode_needs (a ∷ []) n h = cc
decode_needs (a ∷ b ∷ []) n h = cc
decode_needs (a ∷ b ∷ c ∷ []) n h = cc
decode_needs (date ∷ word ∷ id ∷ f₃ ∷ fs) n h = elim (Bool-cases (same word ring_word)) [
  | inl e ↦ decode_ring_lem date word id f₃ fs n (eq_of_same word ring_word e) (rw e at h)
  | inr e ↦ elim (Bool-cases (same word call_word)) [
    | inl e' ↦ decode_call_lem date word id f₃ fs n (eq_of_same word call_word e') (rw (e, e') at h)
    | inr e' ↦ elim (Bool-cases (same word connect_word)) [
      | inl e'' ↦
          decode_connect_lem date word id f₃ fs n (eq_of_same word connect_word e'')
            (rw (e, e', e'') at h)
      | inr e'' ↦ elim (Bool-cases (same word disconnect_word)) [
        | inl e3 ↦
            decoded _ _ n (rw (e, e', e'', e3) at h)
              (fs, ap (λ z. date ∷ z ∷ id ∷ f₃ ∷ fs) (eq_of_same word disconnect_word e3))
        | inr e3 ↦ absurd (none-ne-some n (rw (e, e', e'', e3) at h))
      ]
    ]
  ]
]

decode-needed : (n : Notification) (extra : List Text) → decode (needed n ++ extra) ≡ some n
decode-needed (ring date id number msn) extra = refl
decode-needed (call date id nst msn number) extra = refl
decode-needed (connect date id nst number) extra = refl
decode-needed (disconnect date id duration) extra = refl

module _ (lib : Library) where
  open lib use {Date, no_date, strsplit, atoi, strtoul, strptime}

  -- The structure that stands for a notification: a number has 31 characters at most.
  abbrev pub structure : Notification → CallMsg Date
  structure (ring date id number msn) = record {
    msgtype = ring_type;
    connectionid = atoi id % 65536;
    nst = 0;
    calling_number = strlcpy 32 number;
    called_number = strlcpy 32 msn;
    number = [];
    duration = 0;
    datetime = strptime date no_date;
  }
  structure (call date id nst msn number) = record {
    msgtype = call_type;
    connectionid = atoi id % 65536;
    nst = atoi nst % 65536;
    calling_number = strlcpy 32 msn;
    called_number = strlcpy 32 number;
    number = [];
    duration = 0;
    datetime = strptime date no_date;
  }
  structure (connect date id nst number) = record {
    msgtype = connect_type;
    connectionid = atoi id % 65536;
    nst = atoi nst % 65536;
    calling_number = strlcpy 32 number;
    called_number = [];
    number = [];
    duration = 0;
    datetime = strptime date no_date;
  }
  structure (disconnect date id duration) = record {
    msgtype = disconnect_type;
    connectionid = atoi id % 65536;
    nst = 0;
    calling_number = [];
    called_number = [];
    number = [];
    duration = strtoul duration;
    datetime = strptime date no_date;
  }

  -- What the parser reports for fields that are a notification, and for others.
  abbrev Reports : Option Notification → CallMsg Date × ℕ → Type 0
  Reports none r = r.1 ≡ 3
  Reports (some n) r = r ≡ (structure n, 0)

  ring_lem :
      (date id f₃ : Text) (fs : List Text) (m : CallMsg Date)
      → m ≡ record (no_call lib) {
        datetime = strptime date no_date;
        msgtype = ring_type;
        connectionid = atoi id % 65536;
      }
      → Reports (decode_ring date id f₃ fs) (read_ring lib f₃ (get_elem? fs 0) m)
  unfolding read_ring
  ring_lem date id f₃ [] m e = refl
  ring_lem date id f₃ (f₄ ∷ fs) m e =
      ap (λ z. (record z { calling_number = strlcpy 32 f₃; called_number = strlcpy 32 f₄ }, 0)) e

  call_lem :
      (date id f₃ : Text) (fs : List Text) (m : CallMsg Date)
      → m ≡ record (no_call lib) {
        datetime = strptime date no_date;
        msgtype = call_type;
        connectionid = atoi id % 65536;
      }
      → Reports (decode_call date id f₃ fs) (read_call lib f₃ (get_elem? fs 0) (get_elem? fs 1) m)
  unfolding read_call
  call_lem date id f₃ [] m e = refl
  call_lem date id f₃ (f₄ ∷ []) m e = refl
  call_lem date id f₃ (f₄ ∷ f₅ ∷ fs) m e =
      ap
        (λ z. (
          record z {
            nst = atoi f₃ % 65536;
            calling_number = strlcpy 32 f₄;
            called_number = strlcpy 32 f₅;
          },
          0,
        ))
        e

  connect_lem :
      (date id f₃ : Text) (fs : List Text) (m : CallMsg Date)
      → m ≡ record (no_call lib) {
        datetime = strptime date no_date;
        msgtype = connect_type;
        connectionid = atoi id % 65536;
      }
      → Reports (decode_connect date id f₃ fs) (read_connect lib f₃ (get_elem? fs 0) m)
  unfolding read_connect
  connect_lem date id f₃ [] m e = refl
  connect_lem date id f₃ (f₄ ∷ fs) m e =
      ap (λ z. (record z { nst = atoi f₃ % 65536; calling_number = strlcpy 32 f₄ }, 0)) e

  word_lem :
      (date word id f₃ : Text) (fs : List Text)
      → Reports (decode (date ∷ word ∷ id ∷ f₃ ∷ fs)) (
          read_word lib
            (type_of_word word)
            id
            f₃
            (date ∷ word ∷ id ∷ f₃ ∷ fs)
            (record (no_call lib) { datetime = strptime date no_date }))
  unfolding read_word type_of_word read_type
  word_lem date word id f₃ fs = elim (Bool-cases (same word ring_word)) [
    | inl e ↦ rw e (ring_lem date id f₃ fs _ refl)
    | inr e ↦ elim (Bool-cases (same word call_word)) [
      | inl e' ↦ rw (e, e') (call_lem date id f₃ fs _ refl)
      | inr e' ↦ elim (Bool-cases (same word connect_word)) [
        | inl e'' ↦ rw (e, e', e'') (connect_lem date id f₃ fs _ refl)
        | inr e'' ↦ elim (Bool-cases (same word disconnect_word)) [
          | inl e3 ↦ rw (e, e', e'', e3) refl
          | inr e3 ↦ rw (e, e', e'', e3) refl
        ]
      ]
    ]
  ]

  fields_lem :
      (fs : List Text)
      → Reports
          (decode fs)
          (read_fields lib (get_elem? fs 0) (get_elem? fs 1) (get_elem? fs 2) (get_elem? fs 3) fs)
  unfolding read_fields
  fields_lem [] = refl
  fields_lem (a ∷ []) = refl
  fields_lem (a ∷ b ∷ []) = refl
  fields_lem (a ∷ b ∷ c ∷ []) = refl
  fields_lem (a ∷ b ∷ c ∷ d ∷ fs) = word_lem a b c d fs

  decode_lem :
      (notify : Text) (old : CallMsg Date)
      → (r : CallMsg Date × ℕ) × (parse_notification lib (some notify) (some old) ≡ (some r.0, r.1))
        × Reports (decode (strsplit notify)) r
  unfolding parse_notification
  decode_lem notify old = (_, refl, fields_lem (strsplit notify))

  -- For every text: either its fields begin with those of a notification that the parser needs, whatever
  -- follows; then the structure holds what they say, whatever it held before, the numbers of
  -- telephones cut to 31 characters, the others but the duration to 16 bits, and the result is 0. Or
  -- the fields do not begin so for any notification, and the result is 3.
  pub parse_notification-needed :
      (notify : Text) (old : CallMsg Date)
      → ((n : Notification) × (extra : List Text) × (strsplit notify ≡ needed n ++ extra)
          × (parse_notification lib (some notify) (some old) ≡ (some (structure n), 0)))
        ⊎ (((n : Notification) (extra : List Text) → strsplit notify ≢ needed n ++ extra)
            × (m : CallMsg Date) × (parse_notification lib (some notify) (some old) ≡ (some m, 3)))
  unfolding Begins
  parse_notification-needed notify old =
      let (r, e, told) = decode_lem notify old in by_decode _ refl r e told
    where
      by_decode :
          (o : Option Notification)
          → decode (strsplit notify) ≡ o
          → (r : CallMsg Date × ℕ)
          → parse_notification lib (some notify) (some old) ≡ (some r.0, r.1)
          → Reports o r
          → ((n : Notification) × (extra : List Text) × (strsplit notify ≡ needed n ++ extra)
              × (parse_notification lib (some notify) (some old) ≡ (some (structure n), 0)))
            ⊎ (((n : Notification) (extra : List Text) → strsplit notify ≢ needed n ++ extra)
                × (m : CallMsg Date) × (parse_notification lib (some notify) (some old)
                    ≡ (some m, 3)))
      by_decode none d r e told = inr (
        λ n extra h. none-ne-some n (sym d ∙ ap decode h ∙ decode-needed n extra),
        r.0,
        e ∙ (λ i. (some r.0, told i)),
      )
      by_decode (some n) d r e told =
          let (extra, h) = decode_needs (strsplit notify) n d in
          inl (n, extra, h, e ∙ (λ i. (some (told i).0, (told i).1)))

-- The fields of a notification as the box sends it, with the protocol and the empty field behind the
-- last semicolon.
abbrev pub fields_of : Notification → Text → List Text
fields_of (ring date id number msn) protocol =
    date ∷ ring_word ∷ id ∷ number ∷ msn ∷ protocol ∷ [] ∷ []
fields_of (call date id nst msn number) protocol =
    date ∷ call_word ∷ id ∷ nst ∷ msn ∷ number ∷ protocol ∷ [] ∷ []
fields_of (connect date id nst number) protocol = date ∷ connect_word ∷ id ∷ nst ∷ number ∷ [] ∷ []
fields_of (disconnect date id duration) protocol = date ∷ disconnect_word ∷ id ∷ duration ∷ [] ∷ []

-- Fields with semicolons between them.
abbrev pub joined : List Text → Text
joined [] = []
joined (t ∷ []) = t
joined (t ∷ ts) = t ++ (b';' ∷ joined ts)

abbrev pub Plain : Text → Type 0
Plain t = All (λ c. c ≢ b';') t

decode-fields_of : (n : Notification) (protocol : Text) → decode (fields_of n protocol) ≡ some n
decode-fields_of (ring date id number msn) protocol = refl
decode-fields_of (call date id nst msn number) protocol = refl
decode-fields_of (connect date id nst number) protocol = refl
decode-fields_of (disconnect date id duration) protocol = refl

module _ (lib : Library) where
  open lib use {Date, strsplit}

  -- A notification whose fields have no semicolon, written in the documented format, is parsed with
  -- the result 0 and to the structure that stands for it, whatever the structure held before, if the
  -- splitting at semicolons undoes the joining of two fields or more.
  pub parse_notification-fields_of :
      (n : Notification) (protocol : Text) (old : CallMsg Date)
      → ((a b : Text) (ts : List Text)
          → All Plain (a ∷ b ∷ ts)
          → strsplit (joined (a ∷ b ∷ ts)) ≡ a ∷ b ∷ ts)
      → All Plain (fields_of n protocol)
      → parse_notification lib (some (joined (fields_of n protocol))) (some old)
        ≡ (some (structure lib n), 0)
  parse_notification-fields_of n protocol old split plain =
      let parts : strsplit (joined (fields_of n protocol)) ≡ fields_of n protocol =
        splits n plain in
      let (r, e, told) = decode_lem lib (joined (fields_of n protocol)) old in
      let told' : Reports lib (some n) r =
        subst (λ o. Reports lib o r) (ap decode parts ∙ decode-fields_of n protocol) told in
      e ∙ (λ i. (some (told' i).0, (told' i).1))
    where
      splits :
          (n : Notification)
          → All Plain (fields_of n protocol)
          → strsplit (joined (fields_of n protocol)) ≡ fields_of n protocol
      splits (ring date id number msn) h = split _ _ _ h
      splits (call date id nst msn number) h = split _ _ _ h
      splits (connect date id nst number) h = split _ _ _ h
      splits (disconnect date id duration) h = split _ _ _ h
