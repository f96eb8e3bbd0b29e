-- ===== src/Fritz/Link/Events.antt =====
-- How the connection to the box is lost and made again, and how its thread ends (fritz.c).
use fritz2ci.Prelude.{
  ◌⊎◌, ℕ, zero, suc, ◌+◌, ◌-◌, ◌≡◌, refl, sym, ap, subst, ◌∙◌, Bool, true, false, Bool-cases, inl,
  inr, Option, none, some, List, [], ◌∷◌, ◌++◌, length, take, All, ◌==◌, arith,
}
use fritz2ci.Memory.{Bytes}
use fritz2ci.Connection.{Arrival, arrived, failed}
use fritz2ci.Fritz.Link.{
  FritzServer, Attempt, close_sock, connect, connect_from, connect_socket, add_timer, try_connect,
  try_connect_from, remove_timer, try_reconnect,
}
use fritz2ci.Fritz.Link.Rounds.{
  LinkEvent, up, down, handle_link, handle_links, lose, read_sock, finish_round, stops, stop_word,
  wake_word, Round, round, stopped_by, listen,
}

-- A message that is not on an interface that came up.
abbrev pub IsDown : LinkEvent → Type 0
IsDown (up a) = ⊥
IsDown (down ifindex) = Unit

-- No connection, and no more timeouts than these.
abbrev Lost : ℕ → FritzServer → Type 0
Lost n s = (s.connected ≡ false) × (s.timers ≡ n)

close_sock-Lost :
    (n : ℕ) (sock : Option ℕ) (s : FritzServer) → s.timers ≡ n → (close_sock sock s).timers ≡ n
unfolding close_sock
close_sock-Lost n none s e = e
close_sock-Lost n (some fd) s e = e

handle_link-Lost :
    (n : ℕ) (e : LinkEvent) (s : FritzServer) → IsDown e → Lost n s → Lost n (handle_link e s)
unfolding handle_link
handle_link-Lost n (up a) s k h = absurd k
handle_link-Lost n (down ifindex) s k h = elim (Bool-cases (ifindex == s.assoc_ifindex)) [
  | inl e ↦ rw e (refl, close_sock-Lost n s.sock s h.1)
  | inr e ↦ rw e h
]

handle_links-Lost :
    (n : ℕ) (es : List LinkEvent) (s : FritzServer)
    → All IsDown es
    → Lost n s
    → Lost n (handle_links es s)
unfolding handle_links
handle_links-Lost n [] s k h = h
handle_links-Lost n (e ∷ es) s k h = handle_links-Lost n es _ k.1 (handle_link-Lost n e s k.0 h)

lose-Lost :
    (n : ℕ) (sock : Option ℕ) (s : FritzServer)
    → s.timers ≡ n
    → Lost n (close_sock sock (record s { connected = false }))
unfolding close_sock
lose-Lost n none s e = (refl, e)
lose-Lost n (some fd) s e = (refl, e)

read_sock-Lost :
    (n : ℕ) (heard : Option Arrival) (s : FritzServer) → Lost n s → Lost n (read_sock heard s).0
unfolding read_sock lose
read_sock-Lost n none s h = h
read_sock-Lost n (some failed) s h = lose-Lost n s.sock s h.1
read_sock-Lost n (some (arrived [])) s h = lose-Lost n s.sock s h.1
read_sock-Lost n (some (arrived (b ∷ bs))) s h = h

finish_round-Lost :
    (n : ℕ) (stop : Bool) (es : List LinkEvent) (s : FritzServer)
    → All IsDown es
    → Lost n s
    → Lost n (finish_round stop es s).0
unfolding finish_round
finish_round-Lost n true es s k h = h
finish_round-Lost n false es s k h = handle_links-Lost n es s k h

round-Lost :
    (n : ℕ) (r : Round) (s : FritzServer) → All IsDown r.links → Lost n s → Lost n (round r s).0
unfolding round
round-Lost n r s k h =
    finish_round-Lost n (stopped_by r.piped) r.links _ k (read_sock-Lost n r.readable s h)

listen-Lost :
    (n : ℕ) (rs : List Round) (s : FritzServer)
    → All (λ (r : Round). All IsDown r.links) rs
    → Lost n s
    → Lost n (listen rs s).0
unfolding listen
listen-Lost n [] s k h = h
listen-Lost n (r ∷ rs) s k h =
    let h' = round-Lost n r s k.0 h in
    elim (Bool-cases (round r s).2) [
      | inl e ↦ rw e (listen-Lost n rs (round r s).0 k.1 h')
      | inr e ↦ rw e h'
    ]

gone_lem :
    (heard : Arrival) (s : FritzServer)
    → (heard ≡ failed) ⊎ (heard ≡ arrived [])
    → Lost s.timers (read_sock (some heard) s).0
unfolding read_sock lose
gone_lem heard s k = elim k [
  | inl e ↦
      subst (λ z. Lost s.timers (read_sock (some z) s).0) (sym e) (lose-Lost s.timers s.sock s refl)
  | inr e ↦
      subst (λ z. Lost s.timers (read_sock (some z) s).0) (sym e) (lose-Lost s.timers s.sock s refl)
]

-- A connection that the box closes, or on which recv fails, stays lost: the round that finds it and
-- all that follow end with no connection and no timeout added, if no interface comes up.
pub listen-lost :
    (r : Round) (rs : List Round) (heard : Arrival) (s : FritzServer)
    → r.readable ≡ some heard
    → (heard ≡ failed) ⊎ (heard ≡ arrived [])
    → All (λ (z : Round). All IsDown z.links) (r ∷ rs)
    → ((listen (r ∷ rs) s).0.connected ≡ false) × ((listen (r ∷ rs) s).0.timers ≡ s.timers)
unfolding listen round
listen-lost r rs heard s e gone k =
    let h₁ : Lost s.timers (read_sock r.readable s).0 =
      subst (λ z. Lost s.timers (read_sock z s).0) (sym e) (gone_lem heard s gone) in
    let h = finish_round-Lost s.timers (stopped_by r.piped) r.links _ k.0 h₁ in
    elim (Bool-cases (round r s).2) [
      | inl more ↦ rw more (listen-Lost s.timers rs (round r s).0 k.1 h)
      | inr more ↦ rw more h
    ]

-- An attempt that fails: there is no socket, or the box does not accept.
abbrev pub Fails : Attempt → Type 0
Fails a = (a.socket ≡ none) ⊎ (a.accepted ≡ false)

-- Initialized, with no connection and this many timeouts.
abbrev Waits : ℕ → FritzServer → Type 0
Waits n s = (s.initialized ≡ true) × (s.connected ≡ false) × (s.timers ≡ n)

connect_socket-Fails :
    (n : ℕ) (sock : Option ℕ) (accepted : Bool) (interface : Option ℕ) (s : FritzServer)
    → (sock ≡ none) ⊎ (accepted ≡ false)
    → Waits n s
    → Waits n (connect_socket sock accepted interface s).0
      × ((connect_socket sock accepted interface s).1 ≡ false)
unfolding connect_socket close_sock
connect_socket-Fails n none accepted interface s k h = (h, refl)
connect_socket-Fails n (some fd) false interface s k h = (h, refl)
connect_socket-Fails n (some fd) true interface s (inl e) h = cc
connect_socket-Fails n (some fd) true interface s (inr e) h = cc

-- From a server that waits, the connection is made anew.
connecting :
    (n : ℕ) (a : Attempt) (s : FritzServer)
    → Waits n s
    → connect a s ≡ connect_socket a.socket a.accepted a.interface s
unfolding connect connect_from
connecting n a s (i, c, t) = λ j. connect_from (i j) (c j) a s

connect-Fails :
    (n : ℕ) (a : Attempt) (s : FritzServer)
    → Fails a
    → Waits n s
    → Waits n (connect a s).0 × ((connect a s).1 ≡ false)
connect-Fails n a s k h =
    subst (λ z. Waits n z.0 × (z.1 ≡ false)) (sym (connecting n a s h))
      (connect_socket-Fails n a.socket a.accepted a.interface s k h)

try_connect-Fails :
    (n : ℕ) (a : Attempt) (s : FritzServer) → Fails a → Waits n s → Waits (n + 1) (try_connect a s)
unfolding try_connect try_connect_from add_timer
try_connect-Fails n a s k h =
    let (w, missed) = connect-Fails n a s k h in
    subst (λ c. Waits (n + 1) (try_connect_from c a s)) (sym h.1)
      (rw missed (w.0, w.1, ap (λ z. z + 1) w.2))

-- The timeout that fires again and again.
abbrev pub retries : List Attempt → FritzServer → FritzServer
retries [] s = s
retries (a ∷ bs) s = retries bs (try_reconnect a s)

retries-Fails :
    (n : ℕ) (bs : List Attempt) (s : FritzServer)
    → All Fails bs
    → Waits n s
    → Waits n (retries bs s)
unfolding try_reconnect remove_timer
retries-Fails n [] s k h = h
retries-Fails n (a ∷ bs) s k h =
    let (w, missed) = connect-Fails n a s k.0 h in retries-Fails n bs _ k.1 (rw missed w)

-- The first attempt that succeeds.
connects :
    (n fd : ℕ) (b : Attempt) (s : FritzServer)
    → Waits n s
    → b.socket ≡ some fd
    → b.accepted ≡ true
    → ((try_reconnect b s).connected ≡ true)
      × ((try_reconnect b s).sock ≡ some fd)
      × ((try_reconnect b s).timers ≡ n - 1)
unfolding try_reconnect remove_timer connect_socket
connects n fd b s h e e' =
    let made : connect b s ≡ connect_socket (some fd) true b.interface s =
      connecting n b s h ∙ (λ j. connect_socket (e j) (e' j) b.interface s) in
    rw made (refl, refl, ap (λ z. z - 1) h.2)

-- An interface comes up, the attempt fails, and so do the first attempts of the timeout; the first
-- attempt that succeeds connects, and ends the timeout that was set.
pub reconnect_lem :
    (a b : Attempt) (bs : List Attempt) (fd : ℕ) (s : FritzServer)
    → s.initialized ≡ true
    → s.connected ≡ false
    → Fails a
    → All Fails bs
    → b.socket ≡ some fd
    → b.accepted ≡ true
    → (s' : FritzServer) × (s' ≡ try_reconnect b (retries bs (handle_link (up a) s)))
      × (s'.connected ≡ true)
      × (s'.sock ≡ some fd)
      × (s'.timers ≡ s.timers)
unfolding handle_link
reconnect_lem a b bs fd s i c k ks e e' =
    let w = retries-Fails (s.timers + 1) bs _ ks (try_connect-Fails s.timers a s k (i, c, refl)) in
    let (yes_connected, its_sock, its_timers) = connects (s.timers + 1) fd b _ w e e' in
    (_, refl, yes_connected, its_sock, its_timers ∙ omega arith)

take_nil : (n : ℕ) → take {A = ℕ} n [] ≡ []
take_nil zero = refl
take_nil (suc n) = refl

-- A read from the pipe that begins with the word of fritz_shutdown ends the thread, which is then not
-- listening; one that begins with the word of the timeout does not, whatever follows it, be it the
-- word of fritz_shutdown.
pub round-stops :
    (r : Round) (rest : Bytes) (s : FritzServer)
    → ((round (record r { piped = some (stop_word ++ rest) }) s).0.listening ≡ false)
      × ((round (record r { piped = some (stop_word ++ rest) }) s).2 ≡ false)
      × ((round (record r { piped = some (wake_word ++ rest) }) s).2 ≡ true)
unfolding round finish_round stops
round-stops r rest s = rw (take_nil (length rest)) (refl, refl, refl)
