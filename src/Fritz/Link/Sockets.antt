-- ===== src/Fritz/Link/Sockets.antt =====
-- What the operations on the connection to the box do with its sockets (fritz.c).
use fritz2ci.Prelude.{
  count, ℕ, ◌+◌, ◌≡◌, refl, sym, ap, subst, Bool, true, false, Option, none, some, [], ◌∷◌, arith,
}
use fritz2ci.Fritz.Link.{
  FritzServer, Attempt, close_sock, connect_socket, connect_from, connect, add_timer,
  try_connect_from, try_connect, remove_timer, try_reconnect, startup,
}

-- How often a descriptor is the one of the socket.
abbrev pub holds : Option ℕ → ℕ → ℕ
holds none fd = 0
holds (some x) fd = count fd (x ∷ [])

-- What is held by a connection.
abbrev pub held : Bool → Option ℕ → ℕ → ℕ
held true sock fd = holds sock fd
held false sock fd = 0

-- Without a connection, a thread finds no socket.
abbrev Idle : Bool → Bool → Option ℕ → Type 0
Idle false true sock = sock ≡ none
Idle false false sock = Unit
Idle true thread sock = Unit

-- Each socket that was opened is closed or held, as often as it was opened.
pub record Sound (thread : Bool) (s : FritzServer) : Type 0 where
  pub sum : (fd : ℕ) → count fd s.opened ≡ count fd s.closed + held s.connected s.sock fd
  pub idle : Idle s.connected thread s.sock

-- Sound with a thread and without one.
abbrev pub Steady : FritzServer → Type 0
Steady s = (thread : Bool) → Sound thread s

Idle-none : (connected thread : Bool) → Idle connected thread none
Idle-none true true = tt
Idle-none true false = tt
Idle-none false true = refl
Idle-none false false = tt

Idle-connected :
    (connected thread : Bool) (sock : Option ℕ) → connected ≡ true → Idle connected thread sock
Idle-connected connected thread sock e = subst (λ c. Idle c thread sock) (sym e) tt

connect_socket-Steady :
    (sock : Option ℕ) (accepted : Bool) (interface : Option ℕ) (s : FritzServer)
    → s.connected ≡ false
    → ((fd : ℕ) → count fd s.opened ≡ count fd s.closed)
    → Steady (connect_socket sock accepted interface s).0
unfolding connect_socket close_sock count
connect_socket-Steady none accepted interface s e even thread = record {
  sum = λ fd.
      (let k : held s.connected none fd ≡ 0 = ap (λ c. held c none fd) e in
        omega (arith, even fd, k));
  idle = Idle-none s.connected thread;
}
connect_socket-Steady (some x) true interface s e even thread = record {
  sum = λ fd. omega (arith, even fd);
  idle = tt;
}
connect_socket-Steady (some x) false interface s e even thread = record {
  sum = λ fd.
      (let k : held s.connected none fd ≡ 0 = ap (λ c. held c none fd) e in
        omega (arith, even fd, k));
  idle = Idle-none s.connected thread;
}

pub even_of :
    (thread : Bool) (s : FritzServer)
    → s.connected ≡ false
    → Sound thread s
    → (fd : ℕ) → count fd s.opened ≡ count fd s.closed
even_of thread s e h fd =
    let k : held s.connected s.sock fd ≡ 0 = ap (λ c. held c s.sock fd) e in
    omega (arith, h.sum fd, k)

connect_from-Steady :
    (connected thread : Bool) (a : Attempt) (s : FritzServer)
    → s.connected ≡ connected
    → Sound thread s
    → Steady (connect_from true connected a s).0
unfolding connect_from
connect_from-Steady true thread a s e h thread' = record {
  sum = h.sum;
  idle = Idle-connected s.connected thread' s.sock e;
}
connect_from-Steady false thread a s e h thread' =
    connect_socket-Steady a.socket a.accepted a.interface s e (even_of thread s e h) thread'

connect_from-Sound :
    (initialized : Bool) (thread : Bool) (a : Attempt) (s : FritzServer)
    → Sound thread s
    → Sound thread (connect_from initialized s.connected a s).0
unfolding connect_from
connect_from-Sound true thread a s h = connect_from-Steady s.connected thread a s refl h thread
connect_from-Sound false thread a s h = h

pub connect-Sound :
    (thread : Bool) (a : Attempt) (s : FritzServer) → Sound thread s → Sound thread (connect a s).0
unfolding connect
connect-Sound thread a s h = connect_from-Sound s.initialized thread a s h

add_timer-Sound :
    (b thread : Bool) (s : FritzServer) → Sound thread s → Sound thread (add_timer b s)
unfolding add_timer
add_timer-Sound true thread s h = h
add_timer-Sound false thread s h = record { sum = h.sum; idle = h.idle }

remove_timer-Sound :
    (b thread : Bool) (s : FritzServer) → Sound thread s → Sound thread (remove_timer b s)
unfolding remove_timer
remove_timer-Sound false thread s h = h
remove_timer-Sound true thread s h = record { sum = h.sum; idle = h.idle }

try_connect_from-Sound :
    (connected thread : Bool) (a : Attempt) (s : FritzServer)
    → Sound thread s
    → Sound thread (try_connect_from connected a s)
unfolding try_connect_from
try_connect_from-Sound true thread a s h = h
try_connect_from-Sound false thread a s h =
    add_timer-Sound (connect a s).1 thread (connect a s).0 (connect-Sound thread a s h)

pub try_connect-Sound :
    (thread : Bool) (a : Attempt) (s : FritzServer)
    → Sound thread s
    → Sound thread (try_connect a s)
unfolding try_connect
try_connect-Sound thread a s h = try_connect_from-Sound s.connected thread a s h

pub try_reconnect-Sound :
    (thread : Bool) (a : Attempt) (s : FritzServer)
    → Sound thread s
    → Sound thread (try_reconnect a s)
unfolding try_reconnect
try_reconnect-Sound thread a s h =
    remove_timer-Sound (connect a s).1 thread (connect a s).0 (connect-Sound thread a s h)

try_connect_from-Steady :
    (connected thread : Bool) (a : Attempt) (s : FritzServer)
    → s.initialized ≡ true
    → s.connected ≡ connected
    → Sound thread s
    → Steady (try_connect_from connected a s)
unfolding try_connect_from connect
try_connect_from-Steady true thread a s e e' h thread' = record {
  sum = h.sum;
  idle = Idle-connected s.connected thread' s.sock e';
}
try_connect_from-Steady false thread a s e e' h thread' =
    add_timer-Sound (connect a s).1 thread' (connect a s).0 (
      subst (λ i. Sound thread' (connect_from i s.connected a s).0) (sym e)
        (connect_from-Steady s.connected thread a s refl h thread'))

-- Once the thread is started, it finds no socket without a connection.
pub startup-Sound :
    (thread thread' : Bool) (a : Attempt) (started : Bool) (s : FritzServer)
    → s.initialized ≡ true
    → Sound thread s
    → Sound thread' (startup a started s).0
unfolding startup try_connect
startup-Sound thread thread' a started s e h =
    let h' = try_connect_from-Steady s.connected thread a s e refl h thread' in
    record { sum = h'.sum; idle = h'.idle }

-- A socket that is held, or that is none, is closed.
pub close_sock-Sound :
    (sock : Option ℕ) (connected thread : Bool) (s : FritzServer)
    → ((fd : ℕ) → count fd s.opened ≡ count fd s.closed + held connected sock fd)
    → Idle connected true sock
    → s.sock ≡ sock
    → Sound thread (record (close_sock sock s) { connected = false })
unfolding close_sock count
close_sock-Sound none true thread s sum idle e = record {
  sum = sum;
  idle = subst (Idle false thread) (sym e) (Idle-none false thread);
}
close_sock-Sound none false thread s sum idle e = record {
  sum = sum;
  idle = subst (Idle false thread) (sym e) (Idle-none false thread);
}
close_sock-Sound (some x) true thread s sum idle e = record {
  sum = λ fd. omega (arith, sum fd);
  idle = Idle-none false thread;
}
close_sock-Sound (some x) false thread s sum idle e = let k : some x ≡ none = idle in cc

pub lose-Sound :
    (s : FritzServer)
    → Sound true s
    → Sound true (record (close_sock s.sock s) { connected = false })
lose-Sound s h = close_sock-Sound s.sock s.connected true s h.sum h.idle refl
