-- ===== src/Server/Accounts.antt =====
-- What the operations of the server do with the sockets that it accepted (ci-server.c).
use fritz2ci.Prelude.{
  count, count-append, ℕ, ◌+◌, ◌≡◌, refl, sym, ap, subst, ◌∙◌, Bool, true, false, Option, none,
  some, List, [], ◌∷◌, if◌then◌else◌, ◌>>=◌, >>=-eq-some, some-injective, arith,
}
use fritz2ci.Memory.{Bytes}
use fritz2ci.Connection.{Arrival}
use fritz2ci.Server.{
  Client, Server, ServerState, uninitialized, initialized, connected, running, ServerMsg, message,
  update, disconnected, complete, call, SendResult, add_client, remove_marked,
  remove_marked_clients, close_all_clients, serve, send_clients, send_and_remove, broadcast_message,
  stop_thread, say_goodbye, close_server, disconnect_from, disconnect,
}
use fritz2ci.Server.Listen.{NetMessage, handle_clients}
use fritz2ci.Server.Reads.{socks_handled}
use fritz2ci.Server.Quiet.{Quiet}
use fritz2ci.Server.Clients.{socks, count-socks, count-remove_marked}

-- Each accepted socket is listed or closed, as often as it was accepted.
pub record Accounted (accepted : List ℕ) (s : Server) : Type 0 where
  pub sum : (fd : ℕ) → count fd accepted ≡ count fd s.closed + count fd (socks s.clientlist)

pub remove_marked_clients-Accounted :
    (accepted : List ℕ) (s : Server)
    → Accounted accepted s
    → Accounted accepted (remove_marked_clients s)
unfolding remove_marked_clients
remove_marked_clients-Accounted accepted s h = record {
  sum = λ fd. omega (
    arith,
    h.sum fd,
    count-remove_marked fd s.clientlist,
    count-append fd s.closed (remove_marked s.clientlist).1,
  );
}

pub add_client-Accounted :
    (accepted : List ℕ) (fd : ℕ) (s : Server)
    → Accounted accepted s
    → Accounted (fd ∷ accepted) (add_client fd s)
unfolding add_client count
add_client-Accounted accepted fd s h = record {
  sum = λ fd'. omega (
    arith,
    h.sum fd',
    count-socks fd' s.clientlist (record { sock = fd; remove = false; version = 131072 }),
  );
}

close_all_clients-Accounted :
    (accepted : List ℕ) (s : Server)
    → Accounted accepted s
    → Accounted accepted (close_all_clients s)
unfolding close_all_clients count
close_all_clients-Accounted accepted s h = record {
  sum = λ fd. omega (arith, h.sum fd, count-append fd s.closed (socks s.clientlist));
}

-- The same sockets in the list, and the same closed.
pub same_socks :
    (accepted : List ℕ) (s s' : Server)
    → socks s'.clientlist ≡ socks s.clientlist
    → s'.closed ≡ s.closed
    → Accounted accepted s
    → Accounted accepted s'
same_socks accepted s s' e e' h = record {
  sum = λ fd. h.sum fd ∙ sym (λ i. count fd (e' i) + count fd (e i));
}

module _ (read_header : Bytes → Option ℕ) (read_msg : Bytes → Option NetMessage) where
  pub handle_clients-Accounted :
      (accepted : List ℕ) (ready : ℕ → Option (Arrival × List Arrival)) (s : Server)
      → Accounted accepted s
      → Accounted accepted (handle_clients read_header read_msg ready s)
  unfolding handle_clients
  handle_clients-Accounted accepted ready s h =
      same_socks accepted s _ (socks_handled read_header read_msg ready s.clientlist) refl h

marked_sock :
    (ok : Bool) (c : Client) → (if ok then c else record c { remove = true }).sock ≡ c.sock
marked_sock true c = refl
marked_sock false c = refl

-- A result that is known is the one that was counted.
carry :
    (accepted : List ℕ) (q r : Server × ℕ)
    → some q ≡ some r
    → Accounted accepted q.0
    → Accounted accepted r.0
carry accepted q r e h = subst (λ (z : Server × ℕ). Accounted accepted z.0) (some-injective q r e) h

-- The sockets of a list that is some.
abbrev socks_of : Option (List Client) → List ℕ
socks_of none = []
socks_of (some cs) = socks cs

module _ (net : ℕ → List SendResult) (len size : ℕ) where
  send_clients-socks :
      (type : ServerMsg) (cs cs' : List Client)
      → send_clients net len size type cs ≡ some cs'
      → socks cs' ≡ socks cs
  unfolding send_clients
  send_clients-socks type [] cs' e = ap socks_of (sym e)
  send_clients-socks type (c ∷ cs) cs' e =
      let (ok, e₁, rest) = >>=-eq-some (serve net len size type c) _ e in
      let (cs'', e₂, e₃) = >>=-eq-some (send_clients net len size type cs) _ rest in
      ap socks_of (sym e₃) ∙ (λ i. marked_sock ok c i ∷ send_clients-socks type cs cs'' e₂ i)

  send_and_remove-Accounted :
      (accepted : List ℕ) (type : ServerMsg) (s : Server) (r : Server × ℕ)
      → send_and_remove net len size type s ≡ some r
      → Accounted accepted s
      → Accounted accepted r.0
  unfolding send_and_remove
  send_and_remove-Accounted accepted type s r e h =
      let (cs, e₁, e₂) = >>=-eq-some (send_clients net len size type s.clientlist) _ e in
      carry accepted _ r e₂ (
        remove_marked_clients-Accounted accepted (record s { clientlist = cs })
          (same_socks accepted s _ (send_clients-socks type s.clientlist cs e₁) refl h))

  pub broadcast_message-Accounted :
      (accepted : List ℕ) (type : ServerMsg) (given : Bool) (s : Server) (r : Server × ℕ)
      → broadcast_message net len size type given s ≡ some r
      → Accounted accepted s
      → Accounted accepted r.0
  unfolding broadcast_message
  broadcast_message-Accounted accepted disconnected given s r e h =
      send_and_remove-Accounted accepted disconnected s r e h
  broadcast_message-Accounted accepted message true s r e h =
      send_and_remove-Accounted accepted message s r e h
  broadcast_message-Accounted accepted update true s r e h =
      send_and_remove-Accounted accepted update s r e h
  broadcast_message-Accounted accepted complete true s r e h =
      send_and_remove-Accounted accepted complete s r e h
  broadcast_message-Accounted accepted call true s r e h =
      send_and_remove-Accounted accepted call s r e h
  broadcast_message-Accounted accepted message false s r e h = carry accepted _ r e h
  broadcast_message-Accounted accepted update false s r e h = carry accepted _ r e h
  broadcast_message-Accounted accepted complete false s r e h = carry accepted _ r e h
  broadcast_message-Accounted accepted call false s r e h = carry accepted _ r e h

  close_server-Accounted :
      (accepted : List ℕ) (s : Server)
      → Accounted accepted s
      → Accounted accepted (close_server net len size s)
  unfolding close_server
  close_server-Accounted accepted s h =
      same_socks accepted (close_all_clients s) _ refl refl
        (close_all_clients-Accounted accepted s h)

  close_server-empty : (s : Server) → (close_server net len size s).clientlist ≡ []
  unfolding close_server close_all_clients
  close_server-empty s = refl

  -- The farewell and what follows it.
  farewell-Accounted :
      (accepted : List ℕ) (s s' : Server)
      → (say_goodbye net len size s >>= λ z. some (close_server net len size z)) ≡ some s'
      → Accounted accepted s
      → Accounted accepted s' × (s'.clientlist ≡ [])
  unfolding say_goodbye
  farewell-Accounted accepted s s' e h =
      let (s₁, bye, e₁) = >>=-eq-some (say_goodbye net len size s) _ e in
      let (r, told, e₂) = >>=-eq-some (broadcast_message net len size disconnected false s) _ bye in
      let h₂ = broadcast_message-Accounted accepted disconnected false s r told h in
      let h₁ : Accounted accepted s₁ =
        subst (Accounted accepted) (some-injective _ s₁ e₂)
          (same_socks accepted r.0 (record r.0 { state = initialized }) refl refl h₂) in
      subst (λ z. Accounted accepted z × (z.clientlist ≡ [])) (some-injective _ s' e₁)
        (close_server-Accounted accepted s₁ h₁, close_server-empty s₁)

  disconnect_from-Accounted :
      (st : ServerState) (accepted : List ℕ) (s s' : Server)
      → disconnect_from net len size st s ≡ some s'
      → Quiet st s.clientlist
      → Accounted accepted s
      → Accounted accepted s' × (s'.clientlist ≡ [])
  unfolding disconnect_from stop_thread
  disconnect_from-Accounted uninitialized accepted s s' e q h =
      subst (λ z. Accounted accepted z × (z.clientlist ≡ [])) (some-injective s s' e) (h, q)
  disconnect_from-Accounted initialized accepted s s' e q h =
      subst (λ z. Accounted accepted z × (z.clientlist ≡ [])) (some-injective _ s' e)
        (close_server-Accounted accepted s h, close_server-empty s)
  disconnect_from-Accounted connected accepted s s' e q h = farewell-Accounted accepted s s' e h
  disconnect_from-Accounted running accepted s s' e q h =
      farewell-Accounted accepted (stop_thread net len size s) s' e
        (same_socks accepted s _ refl refl h)

  pub disconnect-Accounted :
      (accepted : List ℕ) (s s' : Server)
      → disconnect net len size s ≡ some s'
      → Quiet s.state s.clientlist
      → Accounted accepted s
      → Accounted accepted s' × (s'.clientlist ≡ [])
  unfolding disconnect
  disconnect-Accounted accepted s s' e q h = disconnect_from-Accounted s.state accepted s s' e q h
