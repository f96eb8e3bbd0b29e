-- ===== src/Server/Broadcast.antt =====
-- What cisrv_broadcast_message does to the list of clients (ci-server.c).
use fritz2ci.Prelude.{
  ℕ, ◌+◌, ◌<◌, ◌≤◌, ◌≡◌, ◌⊎◌, refl, ◌∙◌, Bool, true, false, not, ◌&&◌, some, List, [], ◌∷◌, ◌++◌,
  map, All, Bool-cases, inl, inr, ltb, ◌==◌, if◌then◌else◌, arith,
}
use fritz2ci.Server.{
  Client, Server, ServerMsg, message, update, disconnected, complete, call, SendResult, sent,
  refused, serve, send_all, send_old, version_maj, check_version, make_version, is_call,
  send_clients, remove_marked, remove_marked_clients, send_and_remove, broadcast_message,
}
use fritz2ci.Server.Clients.{socks}

-- How many bytes calls of `send` take.
abbrev pub total : List ℕ → ℕ
total [] = 0
total (n ∷ ns) = n + total ns

-- What can happen to a client in a broadcast of `len` bytes, and of a structure of `size` bytes for the
-- clients before version 3, told by what its socket does.
module _ (net : ℕ → List SendResult) (len size : ℕ) (type : ServerMsg) (c : Client) where
  -- All bytes of the message are taken, by calls that take some each.
  abbrev pub Whole : Type 0
  Whole =
      (3 ≤ version_maj c.version)
      × (ns : List ℕ) × (rest : List SendResult) × (net c.sock ≡ map sent ns ++ rest)
      × All (λ n. 0 < n) ns
      × (len ≤ total ns)

  -- A call fails or takes nothing before that.
  abbrev pub Broken : Type 0
  Broken =
      (3 ≤ version_maj c.version)
      × (ns : List ℕ) × (r : SendResult) × (rest : List SendResult) × (net c.sock
          ≡ map sent ns ++ (r ∷ rest))
      × All (λ n. 0 < n) ns
      × (total ns < len)
      × ((r ≡ refused) ⊎ (r ≡ sent 0))

  -- An old client is not told of an outgoing call.
  abbrev pub Untold : Type 0
  Untold = (version_maj c.version < 3) × (is_call type ≡ true)

  -- The structure is taken whole, or the call fails, which goes unnoticed.
  abbrev pub Tried : Type 0
  Tried =
      (version_maj c.version < 3)
      × (is_call type ≡ false)
      × (r : SendResult) × (rest : List SendResult) × (net c.sock ≡ r ∷ rest)
      × ((r ≡ refused) ⊎ ((n : ℕ) × (r ≡ sent n) × (size ≤ n)))

  -- Less of the structure is taken.
  abbrev pub Short : Type 0
  Short =
      (version_maj c.version < 3)
      × (is_call type ≡ false)
      × (n : ℕ) × (rest : List SendResult) × (net c.sock ≡ sent n ∷ rest)
      × (n < size)

  -- Whether it stays unmarked.
  abbrev pub Fate : Bool → Type 0
  Fate true = Whole ⊎ (Untold ⊎ Tried)
  Fate false = Broken ⊎ Short

-- The clients that pass a test, in their order.
abbrev pub kept : (Client → Bool) → List Client → List Client
kept test [] = []
kept test (c ∷ cs) = if test c then c ∷ kept test cs else kept test cs

abbrev pub stays : (Client → Bool) → Client → Bool
stays ok c = not c.remove && ok c

abbrev marked : (Client → Bool) → Client → Client
marked ok c = if ok c then c else record c { remove = true }

remove_marked-marked :
    (ok : Client → Bool) (cs : List Client)
    → remove_marked (map (marked ok) cs)
      ≡ (kept (stays ok) cs, socks (kept (λ c. not (stays ok c)) cs))
unfolding remove_marked
remove_marked-marked ok [] = refl
remove_marked-marked ok (c ∷ cs) =
    let ih = remove_marked-marked ok cs in
    elim (Bool-cases (ok c)) [
      | inr e ↦ elim (Bool-cases c.remove) [ inl r ↦ rw (ih, e, r) | inr r ↦ rw (ih, e, r) ]
      | inl e ↦ elim (Bool-cases c.remove) [ inl r ↦ rw (ih, e, r) | inr r ↦ rw (ih, e, r) ]
    ]

check_new : (v : ℕ) → 3 ≤ version_maj v → check_version v (make_version 3 0 0) ≡ true
unfolding check_version make_version
check_new v h = ground arith

check_old : (v : ℕ) → version_maj v < 3 → check_version v (make_version 3 0 0) ≡ false
unfolding check_version make_version
check_old v h = ground arith

send_all_done : (rs : List SendResult) (len w : ℕ) → len ≤ w → send_all rs len w ≡ some true
unfolding send_all
send_all_done [] len w h = ground arith
send_all_done (refused ∷ rs) len w h = ground arith
send_all_done (sent n ∷ rs) len w h = ground arith

-- A call that takes some bytes is followed by the next, if it was needed.
send_all_more :
    (n : ℕ) (rs : List SendResult) (len w : ℕ)
    → 0 < n
    → w < len
    → send_all (sent n ∷ rs) len w ≡ send_all rs len (w + n)
unfolding send_all
send_all_more n rs len w h k =
    let e : ltb w len ≡ true = ground arith in
    let e' : (n == 0) ≡ false = ground arith in rw (e, e') refl

send_all_whole :
    (ns : List ℕ) (rest : List SendResult) (len w : ℕ)
    → All (λ n. 0 < n) ns
    → len ≤ w + total ns
    → send_all (map sent ns ++ rest) len w ≡ some true
send_all_whole [] rest len w p h = send_all_done rest len w (omega arith)
send_all_whole (n ∷ ns) rest len w (p, ps) h = elim (Bool-cases (ltb w len)) [
  | inl e ↦
      send_all_more n (map sent ns ++ rest) len w p (ground (arith, e))
      ∙ send_all_whole ns rest len (w + n) ps (omega arith)
  | inr e ↦ send_all_done (sent n ∷ (map sent ns ++ rest)) len w (ground (arith, e))
]

send_all_stop :
    (r : SendResult) (rest : List SendResult) (len w : ℕ)
    → w < len
    → (r ≡ refused) ⊎ (r ≡ sent 0)
    → send_all (r ∷ rest) len w ≡ some false
unfolding send_all
send_all_stop r rest len w h (inl e) = let k : ltb w len ≡ true = ground arith in rw (e, k) refl
send_all_stop r rest len w h (inr e) = let k : ltb w len ≡ true = ground arith in rw (e, k) refl

send_all_broken :
    (ns : List ℕ) (r : SendResult) (rest : List SendResult) (len w : ℕ)
    → All (λ n. 0 < n) ns
    → w + total ns < len
    → (r ≡ refused) ⊎ (r ≡ sent 0)
    → send_all (map sent ns ++ (r ∷ rest)) len w ≡ some false
send_all_broken [] r rest len w p h x = send_all_stop r rest len w (omega arith) x
send_all_broken (n ∷ ns) r rest len w (p, ps) h x =
    send_all_more n (map sent ns ++ (r ∷ rest)) len w p (omega arith)
    ∙ send_all_broken ns r rest len (w + n) ps (omega arith) x

module _ (net : ℕ → List SendResult) (len size : ℕ) where
  send_clients-marked :
      (type : ServerMsg) (ok : Client → Bool) (cs : List Client)
      → All (λ c. serve net len size type c ≡ some (ok c)) cs
      → send_clients net len size type cs ≡ some (map (marked ok) cs)
  unfolding send_clients
  send_clients-marked type ok [] h = refl
  send_clients-marked type ok (c ∷ cs) (h, hs) = rw (h, send_clients-marked type ok cs hs)

  abbrev outcome : (Client → Bool) → Server → Server × ℕ
  outcome ok s = (
    record s {
      clientlist = kept (stays ok) s.clientlist;
      closed = s.closed ++ socks (kept (λ c. not (stays ok c)) s.clientlist);
    },
    0,
  )

  send_and_remove-kept :
      (type : ServerMsg) (s : Server) (ok : Client → Bool)
      → All (λ c. serve net len size type c ≡ some (ok c)) s.clientlist
      → send_and_remove net len size type s ≡ some (outcome ok s)
  unfolding send_and_remove remove_marked_clients
  send_and_remove-kept type s ok h =
      rw (send_clients-marked type ok s.clientlist h) (rw (remove_marked-marked ok s.clientlist))

  serve-Fate :
      (type : ServerMsg) (c : Client) (b : Bool)
      → Fate net len size type c b
      → serve net len size type c ≡ some b
  unfolding serve send_old
  serve-Fate type c true (inl (v, ns, rest, e, p, h)) =
      rw (check_new c.version v, e) (send_all_whole ns rest len 0 p (omega arith))
  serve-Fate type c true (inr (inl (v, k))) = rw (check_old c.version v, k) refl
  serve-Fate type c true (inr (inr (v, k, r, rest, e, inl x))) =
      rw (check_old c.version v, k, e, x) refl
  serve-Fate type c true (inr (inr (v, k, r, rest, e, inr (n, x, h)))) =
      let z : ltb n size ≡ false = ground arith in rw (check_old c.version v, k, e, x, z) refl
  serve-Fate type c false (inl (v, ns, r, rest, e, p, h, x)) =
      rw (check_new c.version v, e) (send_all_broken ns r rest len 0 p (omega arith) x)
  serve-Fate type c false (inr (v, k, n, rest, e, h)) =
      let z : ltb n size ≡ true = ground arith in rw (check_old c.version v, k, e, z) refl

  All-Fate :
      (type : ServerMsg) (ok : Client → Bool) (cs : List Client)
      → All (λ c. Fate net len size type c (ok c)) cs
      → All (λ c. serve net len size type c ≡ some (ok c)) cs
  All-Fate type ok [] h = tt
  All-Fate type ok (c ∷ cs) (h, hs) = (serve-Fate type c (ok c) h, All-Fate type ok cs hs)

  -- A broadcast with data, where for each client one of these holds, by what its socket does: all
  -- bytes are taken (it stays), a call of `send` fails or takes nothing before (it goes), it is older
  -- than version 3 and the message is on an outgoing call (it stays), the structure for old clients
  -- is taken whole or its call fails (it stays), or less of it is taken (it goes). The broadcast
  -- returns 0, the clients that stay and were not marked before are as they were and in their order,
  -- and the sockets of the others are closed in the order of the list; nothing else of the server
  -- changes.
  pub broadcast_message-kept :
      (type : ServerMsg) (s : Server) (ok : Client → Bool)
      → All (λ c. Fate net len size type c (ok c)) s.clientlist
      → broadcast_message net len size type true s
        ≡ some (
          record s {
            clientlist = kept (stays ok) s.clientlist;
            closed = s.closed ++ socks (kept (λ c. not (stays ok c)) s.clientlist);
          },
          0,
        )
  unfolding broadcast_message
  broadcast_message-kept message s ok h =
      send_and_remove-kept message s ok (All-Fate message ok s.clientlist h)
  broadcast_message-kept update s ok h =
      send_and_remove-kept update s ok (All-Fate update ok s.clientlist h)
  broadcast_message-kept disconnected s ok h =
      send_and_remove-kept disconnected s ok (All-Fate disconnected ok s.clientlist h)
  broadcast_message-kept complete s ok h =
      send_and_remove-kept complete s ok (All-Fate complete ok s.clientlist h)
  broadcast_message-kept call s ok h =
      send_and_remove-kept call s ok (All-Fate call ok s.clientlist h)
