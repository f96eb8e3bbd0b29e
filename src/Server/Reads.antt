-- ===== src/Server/Reads.antt =====
-- Whatever a client sends, its socket stays the same (ci-server.c).
use fritz2ci.Prelude.{ℕ, ◌≡◌, refl, Option, none, some, List, [], ◌∷◌, map}
use fritz2ci.Memory.{Bytes}
use fritz2ci.Connection.{Arrival, arrived, failed}
use fritz2ci.Server.{Client}
use fritz2ci.Server.Clients.{socks}
use fritz2ci.Server.Listen.{
  NetMessage, version, leave, request, read_rest, handle_message, handle_whole, handle_rest,
  handle_header, handle_client_message, handle_ready,
}

module _ (read_header : Bytes → Option ℕ) (read_msg : Bytes → Option NetMessage) where
  whole_sock :
      (msg : Option NetMessage) (c : Client)
      → (handle_whole read_header read_msg msg c).sock ≡ c.sock
  unfolding handle_whole handle_message
  whole_sock none c = refl
  whole_sock (some (version maj min pat)) c = refl
  whole_sock (some leave) c = refl
  whole_sock (some request) c = refl

  rest_sock :
      (buffer : Bytes) (rest : Option Bytes) (c : Client)
      → (handle_rest read_header read_msg buffer rest c).sock ≡ c.sock
  unfolding handle_rest
  rest_sock buffer none c = refl
  rest_sock buffer (some rest) c = whole_sock (read_msg _) c

  header_sock :
      (buffer : Bytes) (len : Option ℕ) (rs : List Arrival) (c : Client)
      → (handle_header read_header read_msg buffer len rs c).sock ≡ c.sock
  unfolding handle_header
  header_sock buffer none rs c = refl
  header_sock buffer (some len) rs c = rest_sock buffer (read_rest rs len []) c

  pub ready_sock :
      (ready : Option (Arrival × List Arrival)) (c : Client)
      → (handle_ready read_header read_msg ready c).sock ≡ c.sock
  unfolding handle_ready handle_client_message
  ready_sock none c = refl
  ready_sock (some (failed, rs)) c = refl
  ready_sock (some (arrived [], rs)) c = refl
  ready_sock (some (arrived (b ∷ bs), rs)) c = header_sock (b ∷ bs) (read_header (b ∷ bs)) rs c

  pub socks_handled :
      (ready : ℕ → Option (Arrival × List Arrival)) (cs : List Client)
      → socks (map (λ (c : Client). handle_ready read_header read_msg (ready c.sock) c) cs)
        ≡ socks cs
  socks_handled ready [] = refl
  socks_handled ready (c ∷ cs) = λ i. ready_sock (ready c.sock) c i ∷ socks_handled ready cs i
