-- ===== src/Fritz/Link/Shutdown.antt =====
-- fritz_shutdown and fritz_cleanup (fritz.c). The rounds that the listening thread makes from the
-- writing of the word that stops it on are a script. The thread that is joined is the one that listens:
-- the program calls fritz_startup once.
use fritz2ci.Prelude.{
  Bool, true, false, ◌||◌, Option, none, some, List, [], ◌∷◌, if◌then◌else◌, ◌>>=◌,
}
use fritz2ci.Fritz.Link.{FritzServer, close_sock}
use fritz2ci.Fritz.Link.Rounds.{Round, round}

-- g_thread_join, which returns when the thread does: `none` if no round ends it.
unfoldable pub join : List Round → FritzServer → Option FritzServer
unfolding round
join [] s = none
join (r ∷ rs) s =
    let (s', heard, more) = round r s in
    let rest : Option FritzServer = join rs s' in if more then rest else some s'

-- Where the thread is listening, it is joined.
unfoldable pub stop_listening : Bool → List Round → FritzServer → Option FritzServer
unfolding join
stop_listening true rs s = do s' ← join rs s; some (record s' { thread = false; listening = false })
stop_listening false rs s = some s

-- Then the socket is closed, if there is a connection.
unfoldable pub hang_up : Bool → FritzServer → FritzServer
unfolding close_sock
hang_up true s = record (close_sock s.sock s) { connected = false }
hang_up false s = s

-- fritz_shutdown; `none` if it waits for ever.
unfoldable pub shutdown : List Round → FritzServer → Option FritzServer
unfolding stop_listening hang_up
shutdown rs s = do s' ← stop_listening s.listening rs s; some (hang_up s'.connected s')

-- fritz_cleanup: the pipe is closed, and the number of the closed netlink socket is kept.
unfoldable pub cleanup : List Round → FritzServer → Option FritzServer
unfolding shutdown
cleanup rs s = do
  s' ← if s.connected || s.listening then shutdown rs s else some s
  some (record s' { pipe = false; host = false })
