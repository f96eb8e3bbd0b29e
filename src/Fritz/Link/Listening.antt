-- ===== src/Fritz/Link/Listening.antt =====
-- Whether a thread is listening (fritz.c): what changes it, and that the join returns once the word that
-- stops the thread is read.
use fritz2ci.Prelude.{
  ℕ, ◌≡◌, refl, sym, ap, ◌∙◌, Bool, true, false, Bool-cases, inl, inr, Option, none, some,
  some-injective, List, [], ◌∷◌, ◌++◌, ◌||◌, if◌then◌else◌, ◌>>=◌, >>=-eq-some,
}
use fritz2ci.Memory.{Bytes}
use fritz2ci.Fritz.Link.{
  FritzServer, Attempt, close_sock, connect, connect_from, connect_socket, add_timer,
  try_connect_from, remove_timer,
}
use fritz2ci.Fritz.Link.Rounds.{stop_word, Round, round}
use fritz2ci.Fritz.Link.Shutdown.{join, stop_listening, hang_up, shutdown}
use fritz2ci.Fritz.Link.Events.{round-stops}

-- What the main thread does apart from a shutdown does not change whether a thread is listening.
close_sock-listening :
    (sock : Option ℕ) (s : FritzServer) → (close_sock sock s).listening ≡ s.listening
unfolding close_sock
close_sock-listening none s = refl
close_sock-listening (some fd) s = refl

connect_socket-listening :
    (sock : Option ℕ) (accepted : Bool) (interface : Option ℕ) (s : FritzServer)
    → (connect_socket sock accepted interface s).0.listening ≡ s.listening
unfolding connect_socket close_sock
connect_socket-listening none accepted interface s = refl
connect_socket-listening (some fd) true interface s = refl
connect_socket-listening (some fd) false interface s = refl

pub connect_from-listening :
    (initialized connected : Bool) (a : Attempt) (s : FritzServer)
    → (connect_from initialized connected a s).0.listening ≡ s.listening
unfolding connect_from
connect_from-listening false connected a s = refl
connect_from-listening true true a s = refl
connect_from-listening true false a s = connect_socket-listening a.socket a.accepted a.interface s

add_timer-listening : (b : Bool) (s : FritzServer) → (add_timer b s).listening ≡ s.listening
unfolding add_timer
add_timer-listening true s = refl
add_timer-listening false s = refl

pub remove_timer-listening :
    (b : Bool) (s : FritzServer) → (remove_timer b s).listening ≡ s.listening
unfolding remove_timer
remove_timer-listening true s = refl
remove_timer-listening false s = refl

pub try_connect_from-listening :
    (connected : Bool) (a : Attempt) (s : FritzServer)
    → (try_connect_from connected a s).listening ≡ s.listening
unfolding try_connect_from connect
try_connect_from-listening true a s = refl
try_connect_from-listening false a s =
    add_timer-listening (connect a s).1 (connect a s).0
    ∙ connect_from-listening s.initialized s.connected a s

hang_up-listening : (b : Bool) (s : FritzServer) → (hang_up b s).listening ≡ s.listening
unfolding hang_up
hang_up-listening true s = close_sock-listening s.sock s
hang_up-listening false s = refl

pub shutdown-listening :
    (rs : List Round) (s s' : FritzServer)
    → s.listening ≡ false
    → shutdown rs s ≡ some s'
    → s'.listening ≡ false
unfolding shutdown stop_listening
shutdown-listening rs s s' k e =
    let (z, e₁, e₂) = >>=-eq-some (stop_listening s.listening rs s) _ e in
    let same_server : s ≡ z = some-injective s z (ap (λ b. stop_listening b rs s) (sym k) ∙ e₁) in
    ap (λ (x : FritzServer). x.listening) (sym (some-injective _ s' e₂))
    ∙ hang_up-listening z.connected z
    ∙ ap (λ (x : FritzServer). x.listening) (sym same_server)
    ∙ k

pub cleanup-listening :
    (b : Bool) (rs : List Round) (s s' : FritzServer)
    → s.listening ≡ false
    → (if b then shutdown rs s else some s) ≡ some s'
    → s'.listening ≡ false
cleanup-listening true rs s s' k e = shutdown-listening rs s s' k e
cleanup-listening false rs s s' k e =
    ap (λ (z : FritzServer). z.listening) (sym (some-injective s s' e)) ∙ k

pub either_false : (a b : Bool) → (a || b) ≡ false → a ≡ false
either_false true b h = cc
either_false false b h = refl

-- One of the rounds reads the word that stops the thread, whatever follows it.
abbrev pub Ends : List Round → Type 0
Ends rs =
    (pre : List Round) × (r : Round) × (rest : Bytes) × (post : List Round) × (rs
      ≡ pre ++ (record r { piped = some (stop_word ++ rest) } ∷ post))

join-Ends :
    (pre : List Round) (r : Round) (rest : Bytes) (post : List Round) (s : FritzServer)
    → (s' : FritzServer) × (join (pre ++ (record r { piped = some (stop_word ++ rest) } ∷ post)) s
        ≡ some s')
unfolding join
join-Ends [] r rest post s =
    let k = (round-stops r rest s).1 in
    ((round (record r { piped = some (stop_word ++ rest) }) s).0, rw k refl)
join-Ends (x ∷ pre) r rest post s = elim (Bool-cases (round x s).2) [
  | inl k ↦ (let (s', e) = join-Ends pre r rest post (round x s).0 in (s', rw k e))
  | inr k ↦ ((round x s).0, rw k refl)
]

pub stop_listening-Ends :
    (listening : Bool) (rs : List Round) (s : FritzServer)
    → (listening ≡ true → Ends rs)
    → (s' : FritzServer) × (stop_listening listening rs s ≡ some s')
unfolding stop_listening
stop_listening-Ends true rs s ends =
    let (pre, r, rest, post, e) = ends refl in
    let (z, k) = join-Ends pre r rest post s in
    (
      record z { thread = false; listening = false },
      ap
          (λ (o : Option FritzServer).
            o >>= λ x. some (record x { thread = false; listening = false }))
          (ap (λ q. join q s) e ∙ k),
    )
stop_listening-Ends false rs s ends = (s, refl)
