-- ===== src/Fritz/Link/Examples.antt =====
-- The connection to the box on concrete runs.
use fritz2ci.Prelude.{count, ℕ, ◌+◌, ◌≡◌, inr, refl, true, false, none, some, List, [], ◌∷◌, ◌++◌}
use fritz2ci.Connection.{arrived}
use fritz2ci.Fritz.Link.{FritzServer, Attempt, init, try_reconnect, startup}
use fritz2ci.Fritz.Link.Shutdown.{shutdown}
use fritz2ci.Fritz.Link.Rounds.{
  up, down, handle_link, begin, stop_word, wake_word, Round, round, listen,
}
use fritz2ci.Fritz.Link.Sockets.{held}
use fritz2ci.Fritz.Link.Reach.{
  Reach, made, started, begun, rounded, timed, Reach-held, shutdown-closed,
}
use fritz2ci.Fritz.Link.Events.{retries, listen-lost, reconnect_lem, round-stops}

abbrev refused : Attempt
refused = record { socket = some 7; accepted = false; interface = none }

abbrev made_it : ℕ → Attempt
made_it fd = record { socket = some fd; accepted = true; interface = some 2 }

abbrev quiet : Round
quiet = record { readable = none; piped = none; links = [] }

-- The box closes the connection, and another interface goes down.
abbrev closing : Round
closing = record { readable = some (arrived []); piped = none; links = down 5 ∷ [] }

abbrev ready : FritzServer
ready = (init true (some 3) true).0

-- Started without success; the timeout connects; the box closes.
abbrev lost_run : FritzServer
lost_run = (round closing (try_reconnect (made_it 8) (begin (startup refused true ready).0))).0

lost_run-Reach : Reach true lost_run
unfolding init
lost_run-Reach =
    rounded closing
      (timed (made_it 8) (begun (started refused true refl (made true (some 3) true))))

Reach-held_example :
    count 8 lost_run.opened ≡ count 8 lost_run.closed + held lost_run.connected lost_run.sock 8
Reach-held_example = Reach-held true lost_run lost_run-Reach 8

-- Before the word is read, another round passes.
abbrev last_rounds : List Round
last_rounds = quiet ∷ record quiet { piped = some (stop_word ++ []) } ∷ []

shutdown-closed_example :
    (s' : FritzServer) × (shutdown last_rounds lost_run ≡ some s')
    × (s'.connected ≡ false)
    × ((fd : ℕ) → count fd s'.opened ≡ count fd s'.closed)
shutdown-closed_example =
    shutdown-closed true lost_run last_rounds lost_run-Reach
      (λ e. (quiet ∷ [], quiet, [], [], refl))

abbrev talking : FritzServer
talking = record ready { connected = true; sock = some 8; listening = true }

listen-lost_example :
    ((listen (closing ∷ quiet ∷ []) talking).0.connected ≡ false)
    × ((listen (closing ∷ quiet ∷ []) talking).0.timers ≡ talking.timers)
listen-lost_example =
    listen-lost closing (quiet ∷ []) (arrived []) talking refl (inr refl) ((tt, tt), (tt, tt))

reconnect_lem_example :
    (s' : FritzServer) × (s'
      ≡ try_reconnect (made_it 9) (retries (refused ∷ []) (handle_link (up refused) ready)))
    × (s'.connected ≡ true)
    × (s'.sock ≡ some 9)
    × (s'.timers ≡ ready.timers)
unfolding init
reconnect_lem_example =
    reconnect_lem refused (made_it 9) (refused ∷ []) 9 ready refl refl (inr refl) (inr refl, tt)
      refl refl

round-stops_example :
    ((round (record quiet { piped = some (stop_word ++ wake_word) }) talking).0.listening ≡ false)
    × ((round (record quiet { piped = some (stop_word ++ wake_word) }) talking).2 ≡ false)
    × ((round (record quiet { piped = some (wake_word ++ wake_word) }) talking).2 ≡ true)
round-stops_example = round-stops quiet wake_word talking
