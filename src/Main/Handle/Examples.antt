-- ===== src/Main/Handle/Examples.antt =====
-- Calls with a small library and services that find a name.
use fritz2ci.Prelude.{
  ◌≡◌, ◌≢◌, refl, Bool, true, false, Option, none, some, List, [], ◌∷◌, ◌++◌, replicate, arith,
}
use fritz2ci.Text.{Text}
use fritz2ci.Lookup.Caller.{DataSet}
use fritz2ci.Fritz.Notify.{CallMsg, no_call, ring_type}
use fritz2ci.Fritz.Notify.Decode.{ring, fields_of, joined}
use fritz2ci.Fritz.Notify.Examples.{split-joined, library, note, note-Plain}
use fritz2ci.Main.Handle.{Services, Program, no_data, handle_all}
use fritz2ci.Main.Handle.Queue.{recorded_all, handle_all-held, handle_all-stuck}
use fritz2ci.Main.Handle.Report.{receive, ring_events, ring_set, receive-ring, receive-overrun}

abbrev found_name : DataSet → DataSet
found_name d = record d { name = b'Z' ∷ [] }

-- The area is always `X`, and the lookup finds `Z`.
abbrev services : Services Text
services = record {
  format_time = λ t. t;
  format_backup = λ t. t;
  format_date = λ t. t;
  get_area_code = λ n. some ([], n, b'X' ∷ []);
  lookup_alias = λ n. none;
  get_caller_data = λ d. some (found_name d, 0);
}

abbrev nothing : Program
nothing = record { backup = []; told = []; stored = []; todo = [] }

abbrev waiting : Program
waiting = record nothing { todo = no_data ∷ [] }

abbrev ringing : CallMsg Text
ringing = record (no_call library) {
  msgtype = ring_type;
  calling_number = b'0' ∷ b'4' ∷ [];
  called_number = b'7' ∷ [];
}

-- Two calls, where the first write fails and the second would succeed.
abbrev calls : List (CallMsg Text × Text × Bool)
calls = (ringing, [], false) ∷ (ringing, [], true) ∷ []

abbrev outcome : Option Program → Program
outcome none = nothing
outcome (some p) = p

abbrev after : Program → Program
unfolding handle_all
after p = outcome (handle_all services calls p)

handle_all-held_example :
    (ds : List DataSet) × (recorded_all services calls ≡ some ds)
    × ((after nothing).stored ++ (after nothing).todo ≡ (nothing.stored ++ nothing.todo) ++ ds)
unfolding handle_all after
handle_all-held_example = handle_all-held services calls nothing (after nothing) refl

handle_all-stuck_example : ((after waiting).stored ≡ waiting.stored) × ((after waiting).todo ≢ [])
unfolding handle_all after
handle_all-stuck_example = handle_all-stuck services calls waiting (after waiting) (λ e. cc) refl

abbrev ringing_set : DataSet
ringing_set =
    ring_set library services (b'2' ∷ b'5' ∷ []) (b'0' ∷ b'3' ∷ b'5' ∷ b'1' ∷ []) (b'4' ∷ b'2' ∷ [])
      [] (b'0' ∷ b'3' ∷ b'5' ∷ b'1' ∷ []) (b'X' ∷ [])

receive-ring_example :
    (p' : Program) × (receive library services
        (joined (fields_of note (b'S' ∷ [])))
        (no_call library)
        []
        true
        nothing
      ≡ some p')
    × (p'.told ≡ nothing.told ++ ring_events ringing_set (found_name ringing_set) 0 [])
receive-ring_example =
    receive-ring library services (b'2' ∷ b'5' ∷ []) (b'0' ∷ []) (b'0' ∷ b'3' ∷ b'5' ∷ b'1' ∷ [])
      (b'4' ∷ b'2' ∷ []) (b'S' ∷ []) (no_call library) [] true nothing []
      (b'0' ∷ b'3' ∷ b'5' ∷ b'1' ∷ []) (b'X' ∷ []) (found_name ringing_set, 0) split-joined
      note-Plain (omega arith) (omega arith) refl (omega arith) refl

abbrev long_number : Text
long_number = replicate 16 b'1'

receive-overrun_example :
    receive library services
      (joined (fields_of (ring [] [] [] long_number) []))
      (no_call library)
      []
      true
      nothing
    ≡ none
receive-overrun_example =
    receive-overrun library services [] [] [] long_number [] (no_call library) [] true nothing
      split-joined (omega arith) (omega arith)
