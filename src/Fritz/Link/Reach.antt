-- ===== src/Fritz/Link/Reach.antt =====
-- The states that the connection to the box reaches (fritz.c), each operation and each round of the
-- thread being one step.
use fritz2ci.Prelude.{
  count, ℕ, ◌+◌, ◌≡◌, refl, sym, ap, ◌∙◌, Bool, true, false, Option, none, some, some-injective,
  List, ◌||◌, if◌then◌else◌, ◌>>=◌, >>=-eq-some,
}
use fritz2ci.Fritz.Link.{FritzServer, Attempt, init, connect, try_connect, try_reconnect, startup}
use fritz2ci.Fritz.Link.Rounds.{begin, Round, round}
use fritz2ci.Fritz.Link.Shutdown.{hang_up, shutdown, cleanup}
use fritz2ci.Fritz.Link.Sockets.{held, Sound, even_of, try_reconnect-Sound, startup-Sound}
use fritz2ci.Fritz.Link.Steps.{init-Sound, round-Sound, shutdown-Sound, cleanup-Sound}
use fritz2ci.Fritz.Link.Listening.{
  connect_from-listening, remove_timer-listening, try_connect_from-listening, shutdown-listening,
  cleanup-listening, either_false, Ends, stop_listening-Ends,
}

-- The timeouts and the operations come from the main thread, the rounds from a listening thread, if
-- one was started: it is not joined by a shutdown that finds it not listening yet. A shutdown or a
-- cleanup has its rounds within, and is a step if it returns.
pub data Reach : Bool → FritzServer → Type 0 where
  made : (host : Bool) (netlink : Option ℕ) (piped : Bool) → Reach false (init host netlink piped).0
  started :
      {thread : Bool} {s : FritzServer} (a : Attempt) (ok : Bool)
      → s.initialized ≡ true
      → Reach thread s
      → Reach (thread || ok) (startup a ok s).0
  begun : {s : FritzServer} → Reach true s → Reach true (begin s)
  rounded : {s : FritzServer} (r : Round) → Reach true s → Reach true (round r s).0
  timed :
      {thread : Bool} {s : FritzServer} (a : Attempt)
      → Reach thread s
      → Reach thread (try_reconnect a s)
  stopped :
      {thread : Bool} {s : FritzServer} (rs : List Round) (s' : FritzServer)
      → shutdown rs s ≡ some s'
      → Reach thread s
      → Reach thread s'
  cleaned :
      {thread : Bool} {s : FritzServer} (rs : List Round) (s' : FritzServer)
      → cleanup rs s ≡ some s'
      → Reach thread s
      → Reach thread s'

-- Where no thread was started, none is listening.
Reach-unheard :
    (thread : Bool) (s : FritzServer) → Reach thread s → thread ≡ false → s.listening ≡ false
unfolding init startup try_connect try_reconnect connect cleanup
Reach-unheard thread s (made false netlink piped) k = refl
Reach-unheard thread s (made true none piped) k = refl
Reach-unheard thread s (made true (some fd) false) k = refl
Reach-unheard thread s (made true (some fd) true) k = refl
Reach-unheard thread s (started {thread = t} {s = s'} a ok e r) k =
    try_connect_from-listening s'.connected a s' ∙ Reach-unheard t s' r (either_false t ok k)
Reach-unheard thread s (begun r) k = cc
Reach-unheard thread s (rounded rd r) k = cc
Reach-unheard thread s (timed {s = s'} a r) k =
    remove_timer-listening (connect a s').1 (connect a s').0
    ∙ connect_from-listening s'.initialized s'.connected a s'
    ∙ Reach-unheard thread s' r k
Reach-unheard thread s (stopped {s = s'} rs z e r) k =
    shutdown-listening rs s' z (Reach-unheard thread s' r k) e
Reach-unheard thread s (cleaned {s = s'} rs z e r) k =
    let (y, e₁, e₂) =
      >>=-eq-some (if s'.connected || s'.listening then shutdown rs s' else some s') _ e in
    ap (λ (x : FritzServer). x.listening) (sym (some-injective _ z e₂))
    ∙ cleanup-listening (s'.connected || s'.listening) rs s' y (Reach-unheard thread s' r k) e₁

Reach-Sound : (thread : Bool) (s : FritzServer) → Reach thread s → Sound thread s
unfolding begin
Reach-Sound thread s (made host netlink piped) = init-Sound host netlink piped
Reach-Sound thread s (started {thread = t} {s = s'} a ok e r) =
    startup-Sound t (t || ok) a ok s' e (Reach-Sound t s' r)
Reach-Sound thread s (begun {s = s'} r) =
    let h = Reach-Sound true s' r in record { sum = h.sum; idle = h.idle }
Reach-Sound thread s (rounded {s = s'} rd r) = round-Sound rd s' (Reach-Sound true s' r)
Reach-Sound thread s (timed {s = s'} a r) =
    try_reconnect-Sound thread a s' (Reach-Sound thread s' r)
Reach-Sound thread s (stopped {s = s'} rs z e r) =
    (shutdown-Sound thread rs s' z (Reach-unheard thread s' r) e (Reach-Sound thread s' r)).0
Reach-Sound thread s (cleaned {s = s'} rs z e r) =
    cleanup-Sound thread rs s' z (Reach-unheard thread s' r) e (Reach-Sound thread s' r)

-- In every state that is reached, whatever the box and the network do: each socket that was opened
-- for the box is the one of the connection or closed, exactly as often as it was opened.
pub Reach-held :
    (thread : Bool) (s : FritzServer)
    → Reach thread s
    → (fd : ℕ) → count fd s.opened ≡ count fd s.closed + held s.connected s.sock fd
Reach-held thread s r = (Reach-Sound thread s r).sum

-- From every state that is reached, if the listening thread, should it be listening, reads the word
-- that stops it in one of the rounds that it still makes, whatever follows the word and whatever
-- else the rounds bring: fritz_shutdown returns, it leaves no connection, and each socket that was
-- opened for the box has then been closed as often as it was opened.
pub shutdown-closed :
    (thread : Bool) (s : FritzServer) (rs : List Round)
    → Reach thread s
    → (s.listening ≡ true → Ends rs)
    → (s' : FritzServer) × (shutdown rs s ≡ some s')
      × (s'.connected ≡ false)
      × ((fd : ℕ) → count fd s'.opened ≡ count fd s'.closed)
unfolding shutdown
shutdown-closed thread s rs r ends =
    let (z, k) = stop_listening-Ends s.listening rs s ends in
    let e : shutdown rs s ≡ some (hang_up z.connected z) =
      ap (λ (o : Option FritzServer). o >>= λ x. some (hang_up x.connected x)) k in
    let (h, e') =
      shutdown-Sound thread rs s (hang_up z.connected z) (Reach-unheard thread s r) e
        (Reach-Sound thread s r) in
    (hang_up z.connected z, e, e', even_of thread _ e' h)
