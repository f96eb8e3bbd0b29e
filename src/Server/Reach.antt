-- ===== src/Server/Reach.antt =====
-- The states that the server of ci-server.c reaches.
use fritz2ci.Prelude.{
  count, ℕ, ◌+◌, ◌≡◌, refl, sym, ap, subst, Bool, true, false, Option, none, some, List, [], ◌∷◌,
  arith,
}
use fritz2ci.Memory.{Bytes}
use fritz2ci.Connection.{Arrival}
use fritz2ci.Server.{
  Server, ServerState, uninitialized, initialized, connected, running, ServerMsg, SendResult, init,
  start, run_from, run, add_client, remove_marked_clients, broadcast_message, disconnect,
}
use fritz2ci.Server.Listen.{NetMessage, handle_clients, round}
use fritz2ci.Server.Clients.{socks}
use fritz2ci.Server.Quiet.{Quiet, Quiet-nil, init-Quiet, run-Quiet, broadcast_message-Quiet}
use fritz2ci.Server.Accounts.{
  Accounted, same_socks, remove_marked_clients-Accounted, add_client-Accounted,
  handle_clients-Accounted, broadcast_message-Accounted, disconnect-Accounted,
}

init-Accounted : (opened : Option ℕ) → Accounted [] (init opened).0
unfolding init count
init-Accounted none = record { sum = λ fd. refl }
init-Accounted (some fd') = record { sum = λ fd. refl }

start-Accounted :
    (a : List ℕ) (port : ℕ) (piped started : Bool) (s : Server)
    → Accounted a s
    → Accounted a (start port piped started s).0
unfolding start
start-Accounted a port false started s h = h
start-Accounted a port true false s h = same_socks a s _ refl refl h
start-Accounted a port true true s h = same_socks a s _ refl refl h

run_from-Accounted :
    (st : ServerState) (a : List ℕ) (port : ℕ) (piped started : Bool) (s : Server)
    → Accounted a s
    → Accounted a (run_from st port piped started s).0
unfolding run_from
run_from-Accounted uninitialized a port piped started s h = h
run_from-Accounted initialized a port piped started s h = start-Accounted a port piped started s h
run_from-Accounted connected a port piped started s h = start-Accounted a port piped started s h
run_from-Accounted running a port piped started s h = h

run-Accounted :
    (a : List ℕ) (port : ℕ) (piped started : Bool) (s : Server)
    → Accounted a s
    → Accounted a (run port piped started s).0
unfolding run
run-Accounted a port piped started s h = run_from-Accounted s.state a port piped started s h

module _ (read_header : Bytes → Option ℕ) (read_msg : Bytes → Option NetMessage) where
  -- The sockets that were accepted so far, and the server. The thread runs in a running server only.
  pub data Reach : List ℕ → Server → Type 0 where
    made : (opened : Option ℕ) → Reach [] (init opened).0
    ran :
        {a : List ℕ} {s : Server} (port : ℕ) (piped started : Bool)
        → Reach a s
        → Reach a (run port piped started s).0
    listened :
        {a : List ℕ} {s : Server} (ready : ℕ → Option (Arrival × List Arrival))
        → s.state ≡ running
        → Reach a s
        → Reach a (round read_header read_msg none ready s)
    accepted :
        {a : List ℕ} {s : Server} (fd : ℕ) (ready : ℕ → Option (Arrival × List Arrival))
        → s.state ≡ running
        → Reach a s
        → Reach (fd ∷ a) (round read_header read_msg (some fd) ready s)
    told :
        {a : List ℕ} {s s' : Server} (net : ℕ → List SendResult) (len size : ℕ) (type : ServerMsg)
        (given : Bool) (rc : ℕ)
        → broadcast_message net len size type given s ≡ some (s', rc)
        → Reach a s
        → Reach a s'
    ended :
        {a : List ℕ} {s s' : Server} (net : ℕ → List SendResult) (len size : ℕ)
        → disconnect net len size s ≡ some s'
        → Reach a s
        → Reach a s'

  abbrev Sound : List ℕ → Server → Type 0
  Sound a s = Accounted a s × Quiet s.state s.clientlist

  Reach-Sound : (a : List ℕ) (s : Server) → Reach a s → Sound a s
  unfolding round handle_clients remove_marked_clients add_client
  Reach-Sound a s (made opened) = (init-Accounted opened, init-Quiet opened)
  Reach-Sound a s (ran {s = t} port piped started r) =
      let (h, q) = Reach-Sound a t r in
      (run-Accounted a port piped started t h, run-Quiet port piped started t q)
  Reach-Sound a s (listened {s = t} ready e r) =
      let (h, q) = Reach-Sound a t r in
      (
        remove_marked_clients-Accounted a _
            (handle_clients-Accounted read_header read_msg a ready t h),
        subst (λ st. Quiet st s.clientlist) (sym e) tt,
      )
  Reach-Sound a s (accepted {a = b} {s = t} fd ready e r) =
      let (h, q) = Reach-Sound b t r in
      (
        remove_marked_clients-Accounted a _ (
            handle_clients-Accounted read_header read_msg a ready _
              (add_client-Accounted b fd t h)),
        subst (λ st. Quiet st s.clientlist) (sym e) tt,
      )
  Reach-Sound a s (told {s = t} net len size type given rc e r) =
      let (h, q) = Reach-Sound a t r in
      (
        broadcast_message-Accounted net len size a type given t (s, rc) e h,
        broadcast_message-Quiet net len size type given t (s, rc) e q,
      )
  Reach-Sound a s (ended {s = t} net len size e r) =
      let (h, q) = Reach-Sound a t r in
      let (h', none_left) = disconnect-Accounted net len size a t s e q h in
      (h', Quiet-nil s.state s.clientlist none_left)

  -- In every state that the server reaches, whatever its clients and the kernel do: each socket
  -- that was accepted is either in the list of clients or closed, exactly as often as it was accepted.
  pub Reach-count :
      (a : List ℕ) (s : Server)
      → Reach a s
      → (fd : ℕ) → count fd a ≡ count fd s.closed + count fd (socks s.clientlist)
  Reach-count a s r fd = (Reach-Sound a s r).0.sum fd

  -- When cisrv_disconnect returns, from any state that the server reaches: no client is left, and
  -- each socket that was accepted has been closed exactly as often as it was accepted.
  pub disconnect-count :
      (net : ℕ → List SendResult) (len size : ℕ) (a : List ℕ) (s s' : Server)
      → Reach a s
      → disconnect net len size s ≡ some s'
      → (s'.clientlist ≡ []) × ((fd : ℕ) → count fd a ≡ count fd s'.closed)
  unfolding count
  disconnect-count net len size a s s' r e =
      let (h, q) = Reach-Sound a s r in
      let (h', none_left) = disconnect-Accounted net len size a s s' e q h in
      (none_left, λ fd. omega (arith, h'.sum fd, ap (λ cs. count fd (socks cs)) none_left))
