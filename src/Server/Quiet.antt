-- ===== src/Server/Quiet.antt =====
-- A server of ci-server.c that does not run has no clients, and its operations keep that.
use fritz2ci.Prelude.{
  ℕ, ◌≡◌, refl, sym, ap, subst, Bool, true, false, Option, none, some, some-injective, List, [],
  ◌∷◌, length, >>=-eq-some, arith,
}
use fritz2ci.Server.{
  Client, Server, ServerState, uninitialized, initialized, connected, running, ServerMsg, message,
  update, disconnected, complete, call, SendResult, init, start, run_from, run, remove_marked,
  remove_marked_clients, send_clients, send_and_remove, broadcast_message,
}

-- Only a running server has clients.
abbrev pub Quiet : ServerState → List Client → Type 0
Quiet running cs = Unit
Quiet _ cs = cs ≡ []

pub Quiet-nil : (st : ServerState) (cs : List Client) → cs ≡ [] → Quiet st cs
Quiet-nil uninitialized cs e = e
Quiet-nil initialized cs e = e
Quiet-nil connected cs e = e
Quiet-nil running cs e = tt

abbrev QuietServer : Server → Type 0
QuietServer s = Quiet s.state s.clientlist

pub init-Quiet : (opened : Option ℕ) → QuietServer (init opened).0
unfolding init
init-Quiet none = refl
init-Quiet (some fd) = refl

start-Quiet :
    (port : ℕ) (piped started : Bool) (s : Server)
    → QuietServer s
    → QuietServer (start port piped started s).0
unfolding start
start-Quiet port false started s q = q
start-Quiet port true false s q = q
start-Quiet port true true s q = tt

run_from-Quiet :
    (st : ServerState) (port : ℕ) (piped started : Bool) (s : Server)
    → QuietServer s
    → QuietServer (run_from st port piped started s).0
unfolding run_from
run_from-Quiet uninitialized port piped started s q = q
run_from-Quiet initialized port piped started s q = start-Quiet port piped started s q
run_from-Quiet connected port piped started s q = start-Quiet port piped started s q
run_from-Quiet running port piped started s q = q

pub run-Quiet :
    (port : ℕ) (piped started : Bool) (s : Server)
    → QuietServer s
    → QuietServer (run port piped started s).0
unfolding run
run-Quiet port piped started s q = run_from-Quiet s.state port piped started s q

module _ (net : ℕ → List SendResult) (len size : ℕ) where
  none_sent :
      (type : ServerMsg) (cs₀ cs : List Client)
      → send_clients net len size type cs₀ ≡ some cs
      → cs₀ ≡ []
      → (remove_marked cs).0 ≡ []
  unfolding send_clients remove_marked
  none_sent type [] cs e q = ap (λ z. (remove_marked z).0) (sym (some-injective _ cs e))
  none_sent type (c ∷ cs₀) cs e q = absurd (omega (arith, ap length q))

  still-Quiet :
      (st : ServerState) (type : ServerMsg) (cs₀ cs : List Client)
      → send_clients net len size type cs₀ ≡ some cs
      → Quiet st cs₀
      → Quiet st (remove_marked cs).0
  still-Quiet uninitialized type cs₀ cs e q = none_sent type cs₀ cs e q
  still-Quiet initialized type cs₀ cs e q = none_sent type cs₀ cs e q
  still-Quiet connected type cs₀ cs e q = none_sent type cs₀ cs e q
  still-Quiet running type cs₀ cs e q = tt

  abbrev QuietResult : Server × ℕ → Type 0
  QuietResult r = QuietServer r.0

  send_and_remove-Quiet :
      (type : ServerMsg) (s : Server) (r : Server × ℕ)
      → send_and_remove net len size type s ≡ some r
      → QuietServer s
      → QuietServer r.0
  unfolding send_and_remove remove_marked_clients
  send_and_remove-Quiet type s r e q =
      let (cs, e₁, e₂) = >>=-eq-some (send_clients net len size type s.clientlist) _ e in
      subst QuietResult (some-injective _ r e₂) (still-Quiet s.state type s.clientlist cs e₁ q)

  pub broadcast_message-Quiet :
      (type : ServerMsg) (given : Bool) (s : Server) (r : Server × ℕ)
      → broadcast_message net len size type given s ≡ some r
      → QuietServer s
      → QuietServer r.0
  unfolding broadcast_message
  broadcast_message-Quiet disconnected given s r e q = send_and_remove-Quiet disconnected s r e q
  broadcast_message-Quiet message true s r e q = send_and_remove-Quiet message s r e q
  broadcast_message-Quiet update true s r e q = send_and_remove-Quiet update s r e q
  broadcast_message-Quiet complete true s r e q = send_and_remove-Quiet complete s r e q
  broadcast_message-Quiet call true s r e q = send_and_remove-Quiet call s r e q
  broadcast_message-Quiet message false s r e q = subst QuietResult (some-injective _ r e) q
  broadcast_message-Quiet update false s r e q = subst QuietResult (some-injective _ r e) q
  broadcast_message-Quiet complete false s r e q = subst QuietResult (some-injective _ r e) q
  broadcast_message-Quiet call false s r e q = subst QuietResult (some-injective _ r e) q
