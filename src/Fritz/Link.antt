-- ===== src/Fritz/Link.antt =====
-- The states of the connection to the FRITZ!Box (fritz.c). What the kernel does is a parameter; a
-- descriptor is `none` for -1. `opened` and `closed` are the sockets that were opened for the box and
-- the descriptors closed as such, and `timers` counts the timeouts that wait to fire.
pub mod Rounds
pub mod Shutdown
pub mod Sockets
pub mod Steps
pub mod Listening
pub mod Reach
pub mod Events
pub mod Examples
use fritz2ci.Prelude.{
  ℕ, ◌+◌, ◌-◌, Bool, true, false, ◌||◌, Option, none, some, List, [], ◌∷◌, ◌==◌, if◌then◌else◌,
}

-- CIFritzServer; the bits of `state` are three fields. `host`, `pipe` and `thread` say whether there is
-- one; the callback, the name of the host and the port are left out.
pub record FritzServer : Type 0 where
  pub host : Bool
  pub initialized : Bool
  pub connected : Bool
  pub listening : Bool
  pub sock : Option ℕ
  pub netlink : Option ℕ
  pub assoc_ifindex : ℕ
  pub pipe : Bool
  pub thread : Bool
  pub timers : ℕ
  pub opened : List ℕ
  pub closed : List ℕ

-- `memset(&_cifritz_server, 0, sizeof(CIFritzServer))`: the descriptors are 0.
abbrev pub no_server : FritzServer
no_server = record {
  host = false;
  initialized = false;
  connected = false;
  listening = false;
  sock = some 0;
  netlink = some 0;
  assoc_ifindex = 0;
  pipe = false;
  thread = false;
  timers = 0;
  opened = [];
  closed = [];
}

-- fritz_init: whether there is a host, what netutil_init_netlink returns, and whether `pipe` succeeds.
unfoldable pub init : Bool → Option ℕ → Bool → FritzServer × ℕ
init false netlink piped = (no_server, 1)
init true none piped = (record no_server { host = true; netlink = none }, 2)
init true (some fd) false = (record no_server { host = true; netlink = some fd }, 3)
init true (some fd) true =
    (record no_server { host = true; netlink = some fd; pipe = true; initialized = true }, 0)

-- netutil_close_fd(&_cifritz_server.sock), with the value of the descriptor.
unfoldable pub close_sock : Option ℕ → FritzServer → FritzServer
close_sock none s = s
close_sock (some fd) s = record s { sock = none; closed = fd ∷ s.closed }

-- What `socket`, `connect` and netutil_get_interface_from_sock come to.
pub record Attempt : Type 0 where
  pub socket : Option ℕ
  pub accepted : Bool
  pub interface : Option ℕ

abbrev pub interface_or : Option ℕ → ℕ → ℕ
interface_or none old = old
interface_or (some ix) old = ix

-- _fritz_connect from `socket` on: the server, `*connected`, and the result.
unfoldable pub connect_socket : Option ℕ → Bool → Option ℕ → FritzServer → FritzServer × Bool × ℕ
unfolding close_sock
connect_socket none accepted interface s = (record s { sock = none }, false, 2)
connect_socket (some fd) true interface s = (
  record s {
    sock = some fd;
    opened = fd ∷ s.opened;
    assoc_ifindex = interface_or interface s.assoc_ifindex;
    connected = true;
  },
  true,
  0,
)
connect_socket (some fd) false interface s =
    (close_sock (some fd) (record s { sock = some fd; opened = fd ∷ s.opened }), false, 0)

unfoldable pub connect_from : Bool → Bool → Attempt → FritzServer → FritzServer × Bool × ℕ
unfolding connect_socket
connect_from false connected a s = (s, false, 4)
connect_from true true a s = (s, true, 0)
connect_from true false a s = connect_socket a.socket a.accepted a.interface s

unfoldable pub connect : Attempt → FritzServer → FritzServer × Bool × ℕ
unfolding connect_from
connect a s = connect_from s.initialized s.connected a s

-- g_timeout_add_seconds, if the connection failed.
unfoldable pub add_timer : Bool → FritzServer → FritzServer
add_timer true s = s
add_timer false s = record s { timers = s.timers + 1 }

-- _fritz_try_connect
unfoldable pub try_connect_from : Bool → Attempt → FritzServer → FritzServer
unfolding connect add_timer
try_connect_from true a s = s
try_connect_from false a s = let (s', connected, code) = connect a s in add_timer connected s'

unfoldable pub try_connect : Attempt → FritzServer → FritzServer
unfolding try_connect_from
try_connect a s = try_connect_from s.connected a s

-- _fritz_try_reconnect, which the timeout calls: the timeout ends once it has connected. The write to
-- the pipe only wakes the thread.
unfoldable pub remove_timer : Bool → FritzServer → FritzServer
remove_timer true s = record s { timers = s.timers - 1 }
remove_timer false s = s

unfoldable pub try_reconnect : Attempt → FritzServer → FritzServer
unfolding connect remove_timer
try_reconnect a s = let (s', connected, code) = connect a s in remove_timer connected s'

-- fritz_startup, where the flag says whether `g_thread_new` succeeds.
unfoldable pub startup : Attempt → Bool → FritzServer → FritzServer × ℕ
unfolding try_connect
startup a started s = (record (try_connect a s) { thread = started }, if started then 0 else 4)
