-- ===== src/Fritz/Link/Steps.antt =====
-- That each operation and each round keeps the account of the sockets (fritz.c).
use fritz2ci.Prelude.{
  count, ℕ, ◌+◌, ◌≡◌, refl, subst, Bool, true, false, Bool-cases, inl, inr, Option, none, some,
  some-injective, List, [], ◌∷◌, ◌==◌, ◌||◌, if◌then◌else◌, >>=-eq-some, arith,
}
use fritz2ci.Connection.{Arrival, arrived, failed}
use fritz2ci.Fritz.Link.{FritzServer, init, close_sock}
use fritz2ci.Fritz.Link.Rounds.{
  LinkEvent, up, down, handle_link, handle_links, lose, read_sock, finish_round, Round, round,
  stopped_by,
}
use fritz2ci.Fritz.Link.Shutdown.{join, stop_listening, hang_up, shutdown, cleanup}
use fritz2ci.Fritz.Link.Sockets.{held, Sound, close_sock-Sound, lose-Sound, try_connect-Sound}

pub init-Sound :
    (host : Bool) (netlink : Option ℕ) (piped : Bool) → Sound false (init host netlink piped).0
unfolding init
init-Sound false netlink piped = record { sum = λ fd. omega arith; idle = tt }
init-Sound true none piped = record { sum = λ fd. omega arith; idle = tt }
init-Sound true (some fd) false = record { sum = λ fd. omega arith; idle = tt }
init-Sound true (some fd) true = record { sum = λ fd. omega arith; idle = tt }

handle_link-Sound : (e : LinkEvent) (s : FritzServer) → Sound true s → Sound true (handle_link e s)
unfolding handle_link
handle_link-Sound (up a) s h = try_connect-Sound true a s h
handle_link-Sound (down ifindex) s h = elim (Bool-cases (ifindex == s.assoc_ifindex)) [
  | inl e ↦ rw e (lose-Sound s h)
  | inr e ↦ rw e h
]

handle_links-Sound :
    (es : List LinkEvent) (s : FritzServer) → Sound true s → Sound true (handle_links es s)
unfolding handle_links
handle_links-Sound [] s h = h
handle_links-Sound (e ∷ es) s h = handle_links-Sound es _ (handle_link-Sound e s h)

close_sock_last :
    (sock : Option ℕ) (s : FritzServer)
    → record (close_sock sock s) { connected = false }
      ≡ close_sock sock (record s { connected = false })
unfolding close_sock
close_sock_last none s = refl
close_sock_last (some x) s = refl

lost-Sound : (s : FritzServer) → Sound true s → Sound true (lose s)
unfolding lose
lost-Sound s h = subst (Sound true) (close_sock_last s.sock s) (lose-Sound s h)

read_sock-Sound :
    (heard : Option Arrival) (s : FritzServer) → Sound true s → Sound true (read_sock heard s).0
unfolding read_sock
read_sock-Sound none s h = h
read_sock-Sound (some failed) s h = lost-Sound s h
read_sock-Sound (some (arrived [])) s h = lost-Sound s h
read_sock-Sound (some (arrived (b ∷ bs))) s h = h

finish_round-Sound :
    (stop : Bool) (links : List LinkEvent) (s : FritzServer)
    → Sound true s
    → Sound true (finish_round stop links s).0
unfolding finish_round
finish_round-Sound true links s h = record { sum = h.sum; idle = h.idle }
finish_round-Sound false links s h = handle_links-Sound links s h

pub round-Sound : (r : Round) (s : FritzServer) → Sound true s → Sound true (round r s).0
unfolding round
round-Sound r s h =
    finish_round-Sound (stopped_by r.piped) r.links _ (read_sock-Sound r.readable s h)

join-Sound :
    (rs : List Round) (s s' : FritzServer) → join rs s ≡ some s' → Sound true s → Sound true s'
unfolding join
join-Sound [] s s' e h = cc
join-Sound (r ∷ rs) s s' e h = elim (Bool-cases (round r s).2) [
  | inl k ↦ join-Sound rs (round r s).0 s' (rw k at e) (round-Sound r s h)
  | inr k ↦ subst (Sound true) (some-injective (round r s).0 s' (rw k at e)) (round-Sound r s h)
]

stop_listening-Sound :
    (listening thread : Bool) (rs : List Round) (s s' : FritzServer)
    → (thread ≡ false → listening ≡ false)
    → stop_listening listening rs s ≡ some s'
    → Sound thread s
    → Sound thread s'
unfolding stop_listening
stop_listening-Sound true true rs s s' k e h =
    let (z, e₁, e₂) = >>=-eq-some (join rs s) _ e in
    let h' = join-Sound rs s z e₁ h in
    subst (Sound true) (some-injective _ s' e₂) (record { sum = h'.sum; idle = h'.idle })
stop_listening-Sound true false rs s s' k e h = let x : true ≡ false = k refl in cc
stop_listening-Sound false thread rs s s' k e h = subst (Sound thread) (some-injective s s' e) h

hang_up-Sound :
    (connected thread : Bool) (s : FritzServer)
    → s.connected ≡ connected
    → Sound thread s
    → Sound thread (hang_up connected s) × ((hang_up connected s).connected ≡ false)
unfolding hang_up
hang_up-Sound true thread s e h = (
  close_sock-Sound s.sock true thread s
      (subst (λ c. (fd : ℕ) → count fd s.opened ≡ count fd s.closed + held c s.sock fd) e h.sum) tt
      refl,
  refl,
)
hang_up-Sound false thread s e h = (h, e)

pub shutdown-Sound :
    (thread : Bool) (rs : List Round) (s s' : FritzServer)
    → (thread ≡ false → s.listening ≡ false)
    → shutdown rs s ≡ some s'
    → Sound thread s
    → Sound thread s' × (s'.connected ≡ false)
unfolding shutdown
shutdown-Sound thread rs s s' k e h =
    let (z, e₁, e₂) = >>=-eq-some (stop_listening s.listening rs s) _ e in
    subst (λ (x : FritzServer). Sound thread x × (x.connected ≡ false))
      (some-injective (hang_up z.connected z) s' e₂)
      (hang_up-Sound z.connected thread z refl
        (stop_listening-Sound s.listening thread rs s z k e₁ h))

cleanup_from-Sound :
    (b thread : Bool) (rs : List Round) (s s' : FritzServer)
    → (thread ≡ false → s.listening ≡ false)
    → (if b then shutdown rs s else some s) ≡ some s'
    → Sound thread s
    → Sound thread s'
cleanup_from-Sound true thread rs s s' k e h = (shutdown-Sound thread rs s s' k e h).0
cleanup_from-Sound false thread rs s s' k e h = subst (Sound thread) (some-injective s s' e) h

pub cleanup-Sound :
    (thread : Bool) (rs : List Round) (s s' : FritzServer)
    → (thread ≡ false → s.listening ≡ false)
    → cleanup rs s ≡ some s'
    → Sound thread s
    → Sound thread s'
unfolding cleanup
cleanup-Sound thread rs s s' k e h =
    let (z, e₁, e₂) =
      >>=-eq-some (if s.connected || s.listening then shutdown rs s else some s) _ e in
    let h' = cleanup_from-Sound (s.connected || s.listening) thread rs s z k e₁ h in
    subst (Sound thread) (some-injective _ s' e₂) (record { sum = h'.sum; idle = h'.idle })
