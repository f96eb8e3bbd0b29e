-- ===== src/Main/Handle/Report.antt =====
-- From the line that the box sends to what the clients are told (fritz.c, main.c).
use fritz2ci.Prelude.{
  ℕ, ◌≤◌, ◌<◌, ◌≡◌, refl, ap, ◌∙◌, Bool, true, false, Bool-cases, inl, inr, Option, none, some,
  List, [], ◌∷◌, ◌++◌, append_assoc, length, take, length-take_le, All, ltb, ◌==◌, if◌then◌else◌,
  ◌>>=◌, arith,
}
use fritz2ci.Text.{Text, strcpy, strlcpy}
use fritz2ci.Text.Facts.{strcpy_fits, strlcpy_fits, take_all}
use fritz2ci.Server.{message, update, complete}
use fritz2ci.Lookup.Caller.{DataSet}
use fritz2ci.Fritz.Notify.{Library, CallMsg, parse_notification}
use fritz2ci.Fritz.Notify.Decode.{
  ring, structure, joined, fields_of, Plain, parse_notification-fields_of,
}
use fritz2ci.Main.Handle.{
  Services, Event, no_data, service_word, fix_word, written, Program, queue_data, ring_data,
  tell_ring, handle_ring, dispatch, handle_fritz_message,
}

module _ (lib : Library) where
  -- The callback, if the result of the parser is 0.
  abbrev call_back :
      Services lib.Date → Option (CallMsg lib.Date) × ℕ → Text → Bool → Program → Option Program
  unfolding handle_fritz_message
  call_back services (m, rc) msgid added p =
      if rc == 0 then handle_fritz_message services m msgid added p else some p

  -- What the listening thread does with a line, where the structure held something before.
  unfoldable pub receive :
      Services lib.Date → Text → CallMsg lib.Date → Text → Bool → Program → Option Program
  unfolding parse_notification call_back
  receive services notify old msgid added p =
      call_back services (parse_notification lib (some notify) (some old)) msgid added p

-- What the clients are told of an incoming call.
abbrev pub ring_events : DataSet → DataSet → ℕ → Text → List Event
ring_events d d' rc msgid =
    record { type = message; set = d; msgid = some msgid }
    ∷ (if rc == 0
        then record { type = update; set = d'; msgid = some msgid }
          ∷ record { type = complete; set = d'; msgid = some msgid }
          ∷ []
        else record { type = complete; set = d'; msgid = some msgid } ∷ [])

queue_data-told :
    (todo : List DataSet) (added : Bool) (d : DataSet) (p : Program)
    → (queue_data todo added d p).told ≡ p.told
unfolding queue_data
queue_data-told [] true d p = refl
queue_data-told [] false d p = refl
queue_data-told (x ∷ xs) added d p = refl

tell_ring-told :
    {Date : Type 0} (services : Services Date) (d₀ d d' : DataSet) (rc : ℕ) (msgid : Text)
    (added : Bool) (p : Program)
    → (tell_ring services d₀ d d' rc msgid added p).told ≡ p.told ++ ring_events d d' rc msgid
unfolding tell_ring
tell_ring-told services d₀ d d' rc msgid added p =
    let first : List Event = record { type = message; set = d; msgid = some msgid } ∷ [] in
    let news : List Event = record { type = update; set = d'; msgid = some msgid } ∷ [] in
    let last : List Event = record { type = complete; set = d'; msgid = some msgid } ∷ [] in
    elim (Bool-cases (rc == 0)) [
      | inl e ↦ rw e (
          ap (λ z. (z ++ news) ++ last) (queue_data-told p.todo added d' _)
          ∙ append_assoc (p.told ++ first) news last
          ∙ append_assoc p.told first (news ++ last))
      | inr e ↦
          rw e (
            ap (λ z. z ++ last) (queue_data-told p.todo added d' _)
            ∙ append_assoc p.told first last)
    ]

strcpy_faults : (size : ℕ) (t : Text) → size ≤ length t → strcpy size t ≡ none
unfolding strcpy
strcpy_faults size t h = let e : ltb (length t) size ≡ false = ground arith in rw e refl

-- A copy that was cut to its array holds no less than what fits both.
strlcpy-length : (n : ℕ) (t : Text) → n ≤ 31 → n ≤ length t → n ≤ length (strlcpy 32 t)
unfolding strlcpy
strlcpy-length n t h h' = elim (Bool-cases (ltb (length t) 31)) [
  | inl e ↦
      (let short : length t ≤ 31 = ground (arith, e) in
        let k : length (take 31 t) ≡ length t = ap length (take_all 31 t short) in omega (arith, k))
  | inr e ↦
      (let long : 31 ≤ length t = ground (arith, e) in
        let k = length-take_le 31 t long in omega (arith, k))
]

-- A chain whose second step faults.
second_faults :
    {A B C : Type 0} (o : Option A) (q : Option B) (f : A → B → Option C)
    → q ≡ none
    → (o >>= λ a. q >>= f a) ≡ none
second_faults none q f e = refl
second_faults (some a) q f e = ap (λ z. z >>= f a) e

module _ (lib : Library) (services : Services lib.Date) where
  open services use {
    format_time, format_backup, format_date, get_area_code, lookup_alias, get_caller_data,
  }

  -- The data of an incoming call whose texts fit.
  abbrev data_of : CallMsg lib.Date → Text → Text → Text → DataSet
  data_of m code rest area = record no_data {
    time = format_time m.datetime;
    number_complete = m.calling_number;
    msn = m.called_number;
    service = service_word;
    fix = fix_word;
    area_code = code;
    number = rest;
    area = area;
    name = area;
    alias = written (lookup_alias m.called_number) [];
  }

  ring_data_lem :
      (m : CallMsg lib.Date) (code rest area : Text)
      → length m.calling_number < 32
      → length m.called_number < 16
      → get_area_code m.calling_number ≡ some (code, rest, area)
      → length area < 256
      → ring_data services m ≡ some (data_of m code rest area)
  unfolding ring_data
  ring_data_lem m code rest area h h' e h'' =
      rw
        (
          strcpy_fits 32 m.calling_number h,
          strcpy_fits 16 m.called_number h',
          e,
          strcpy_fits 256 area h'',
        )
        refl

  ring_data_faults :
      (m : CallMsg lib.Date) → 16 ≤ length m.called_number → ring_data services m ≡ none
  unfolding ring_data
  ring_data_faults m h =
      second_faults (strcpy 32 m.calling_number) (strcpy 16 m.called_number) _
        (strcpy_faults 16 m.called_number h)

  handle_ring_lem :
      (m : CallMsg lib.Date) (msgid : Text) (added : Bool) (p : Program) (d : DataSet)
      (r : DataSet × ℕ)
      → ring_data services m ≡ some d
      → get_caller_data (record d { date = format_date m.datetime }) ≡ some r
      → handle_ring services m msgid added p
        ≡ some (
            tell_ring services
              (record d { date = format_backup m.datetime })
              (record d { date = format_date m.datetime })
              r.0
              r.1
              msgid
              added
              p)
  unfolding handle_ring
  handle_ring_lem m msgid added p d r e e' =
      ap
        (λ (o : Option DataSet). o >>= λ d.
          get_caller_data (record d { date = format_date m.datetime }) >>= λ q. some (
            tell_ring services (record d { date = format_backup m.datetime })
              (record d { date = format_date m.datetime }) q.0 q.1 msgid added p))
        e
      ∙ ap
          (λ (o : Option (DataSet × ℕ)). o >>= λ q. some (
            tell_ring services (record d { date = format_backup m.datetime })
              (record d { date = format_date m.datetime }) q.0 q.1 msgid added p))
          e'

  -- The set on an incoming call that is looked up: the number, the called number and what the services
  -- say of them, with the area for a name.
  abbrev pub ring_set : lib.Date → Text → Text → Text → Text → Text → DataSet
  ring_set datetime number msn code rest area = record {
    number = rest;
    number_complete = number;
    name = area;
    date = format_date datetime;
    time = format_time datetime;
    msn = msn;
    alias = written (lookup_alias msn) [];
    service = service_word;
    fix = fix_word;
    area = area;
    area_code = code;
  }

  -- A line on an incoming call, in the documented format, with a number of at most 31 characters and
  -- a called number of at most 15, whose area fits its array, where splitting undoes joining and the
  -- lookup of the set that is made of it returns: the handler returns, and the clients are told of this
  -- set, with the number, the called number and the area for a name, then of what the lookup made of
  -- it if it found something, and then again that it is complete, in this order, behind what was told
  -- before.
  pub receive-ring :
      (date id number msn protocol : Text) (old : CallMsg lib.Date) (msgid : Text) (added : Bool)
      (p : Program) (code rest area : Text) (r : DataSet × ℕ)
      → ((a b : Text) (ts : List Text)
          → All Plain (a ∷ b ∷ ts)
          → lib.strsplit (joined (a ∷ b ∷ ts)) ≡ a ∷ b ∷ ts)
      → All Plain (fields_of (ring date id number msn) protocol)
      → length number < 32
      → length msn < 16
      → get_area_code number ≡ some (code, rest, area)
      → length area < 256
      → get_caller_data (ring_set (lib.strptime date lib.no_date) number msn code rest area)
        ≡ some r
      → (p' : Program) × (receive lib services
            (joined (fields_of (ring date id number msn) protocol))
            old
            msgid
            added
            p
          ≡ some p')
        × (p'.told
            ≡ p.told
              ++ ring_events
                  (ring_set (lib.strptime date lib.no_date) number msn code rest area)
                  r.0
                  r.1
                  msgid)
  unfolding receive handle_fritz_message dispatch
  receive-ring date id number msn protocol old msgid added p code rest area r split plain h h' e h''
        found =
      let m = structure lib (ring date id number msn) in
      let same_number : m.calling_number ≡ number = strlcpy_fits 32 number h in
      let same_msn : m.called_number ≡ msn = strlcpy_fits 32 msn (omega arith) in
      let made =
        ring_data_lem m code rest area (omega (arith, ap length same_number))
          (omega (arith, ap length same_msn)) (ap get_area_code same_number ∙ e) h'' in
      let same_set : ring_set m.datetime m.calling_number m.called_number code rest area
          ≡ ring_set m.datetime number msn code rest area =
        (λ i. ring_set m.datetime (same_number i) (same_msn i) code rest area) in
      (
        _,
        ap (λ z. call_back lib services z msgid added p)
              (parse_notification-fields_of lib (ring date id number msn) protocol old split plain)
            ∙ handle_ring_lem m msgid added p (data_of m code rest area) r made
                (ap get_caller_data same_set ∙ found),
        tell_ring-told services _ _ r.0 r.1 msgid added p
            ∙ ap (λ z. p.told ++ ring_events z r.0 r.1 msgid) same_set,
      )

  -- A line on an incoming call, in the documented format, for a called number of 16 characters or
  -- more, where splitting undoes joining: the copy to the array for that number overruns it.
  pub receive-overrun :
      (date id number msn protocol : Text) (old : CallMsg lib.Date) (msgid : Text) (added : Bool)
      (p : Program)
      → ((a b : Text) (ts : List Text)
          → All Plain (a ∷ b ∷ ts)
          → lib.strsplit (joined (a ∷ b ∷ ts)) ≡ a ∷ b ∷ ts)
      → All Plain (fields_of (ring date id number msn) protocol)
      → 16 ≤ length msn
      → receive lib services
          (joined (fields_of (ring date id number msn) protocol))
          old
          msgid
          added
          p
        ≡ none
  unfolding receive handle_fritz_message dispatch handle_ring
  receive-overrun date id number msn protocol old msgid added p split plain h =
      let m = structure lib (ring date id number msn) in
      ap (λ z. call_back lib services z msgid added p)
        (parse_notification-fields_of lib (ring date id number msn) protocol old split plain)
      ∙ ap
          (λ (o : Option DataSet). o >>= λ d.
            get_caller_data (record d { date = format_date m.datetime }) >>= λ q. some (
              tell_ring services (record d { date = format_backup m.datetime })
                (record d { date = format_date m.datetime }) q.0 q.1 msgid added p))
          (ring_data_faults m (strlcpy-length 16 msn (omega arith) h))
