-- ===== src/Connection/Refusal.antt =====
-- What cidbcon_recv_message makes of a call of `recv` that fails.
use fritz2ci.Prelude.{
  sym, ◌>>=◌, ◌≤◌, ℕ, ◌≡◌, refl, ap, ◌∙◌, false, Option, some, List, [], ◌∷◌, ◌++◌, drop,
  append-nil, length, ltb, arith,
}
use fritz2ci.Memory.{Bytes}
use fritz2ci.Header.{total_size, header_size}
use fritz2ci.Messages.{Message}
use fritz2ci.Connection.{Arrival, arrived, failed, recv, recv_begun, recv_message}
use fritz2ci.Connection.Receive.{recv_lem}

drop-length : (b : Bytes) → drop (length b) b ≡ []
drop-length [] = refl
drop-length (x ∷ b) = drop-length b

recv-arrived : (buffer : Bytes) → recv (arrived buffer) buffer ≡ some (buffer, length buffer)
recv-arrived buffer =
    recv_lem buffer buffer (omega arith)
    ∙ ap (λ z. some (z, length buffer))
        (ap (λ z. buffer ++ z) (drop-length buffer) ∙ append-nil buffer)

-- Only whether the header is there depends on the number of bytes.
recv_begun-long :
    (junk : ℕ → ℕ) (arrivals : List Arrival) (old : Option Message) (buffer : Bytes) (n : ℕ)
    → header_size ≤ n
    → recv_begun junk arrivals old (buffer, 4294967295) ≡ recv_begun junk arrivals old (buffer, n)
unfolding recv_begun
recv_begun-long junk arrivals old buffer n le =
    let whole : ltb n header_size ≡ false = ground arith in rw whole

-- If the first `recv` fails, which the caller learns as 4294967295, the message is read from what
-- the buffer happened to hold, as if a whole part of 2048 bytes had come that holds just this.
pub recv_message-failed :
    (junk : ℕ → ℕ) (arrivals : List Arrival) (buffer : Bytes) (old : Option Message)
    → length buffer ≡ total_size
    → recv_message junk (failed ∷ arrivals) buffer old
      ≡ recv_message junk (arrived buffer ∷ arrivals) buffer old
unfolding recv_message
recv_message-failed junk arrivals buffer old e =
    recv_begun-long junk arrivals old buffer (length buffer) (omega arith)
    ∙ ap (λ (o : Option (Bytes × ℕ)). o >>= recv_begun junk arrivals old)
        (sym (recv-arrived buffer))
