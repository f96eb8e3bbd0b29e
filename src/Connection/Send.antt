-- ===== src/Connection/Send.antt =====
-- What cidbcon_send_message gives to the socket if each `send` takes all of its bytes.
use fritz2ci.Prelude.{
  ℕ, zero, suc, ◌+◌, ◌-◌, ◌≤◌, ◌<◌, ◌≡◌, refl, sym, ap, ◌∙◌, true, false, Option, some, List, [],
  ◌∷◌, ◌++◌, map, length, length-append, append_assoc, subst, take, drop, take-append-drop,
  take-append, concat, length-take_le, All, ltb, leb, ◌==◌, if◌then◌else◌, arith, ◌>>=◌,
}
use fritz2ci.Memory.{Bytes}
use fritz2ci.Header.{MsgHeader, total_size, part_data_size}
use fritz2ci.Messages.{Packet, region}
use fritz2ci.Transmission.{Transmission, put_part, transmission_start, transmission_continue}
use fritz2ci.Transmission.Parts.{
  Piece, part_header, part_bytes, parts_from, step, put_part_lem, length-part_bytes,
}
use fritz2ci.Connection.{Outcome, returned, outgoing, send_parts}

outgoing_lem : (part junk : Bytes) → outgoing (part ++ junk) (length part) ≡ some part
unfolding outgoing
outgoing_lem part junk =
    let e : leb (length part) (length (part ++ junk)) ≡ true =
      (let k = length-append part junk in ground arith) in
    rw (e, take-append part junk)

-- The loop behind a `send` that took all of its bytes.
abbrev pub send_next : List ℕ → Bytes → Transmission → Option (Outcome × List Bytes)
send_next results buffer tmsg = do
  (buffer', tmsg', bytes) ← transmission_continue buffer tmsg
  send_parts results buffer' tmsg' bytes

pub send_parts_step :
    (results : List ℕ) (part junk : Bytes) (tmsg : Transmission) (n : ℕ) (o : Outcome)
    (log : List Bytes)
    → length part ≡ n
    → 0 < n
    → send_next results (part ++ junk) tmsg ≡ some (o, log)
    → send_parts (length part ∷ results) (part ++ junk) tmsg n ≡ some (o, part ∷ log)
unfolding send_parts
send_parts_step results part junk tmsg zero o log e pos h = absurd (omega arith)
send_parts_step results part junk tmsg (suc n) o log e pos h =
    let same : (length part == suc n) ≡ true = ground arith in
    let out : outgoing (part ++ junk) (suc n) ≡ some part =
      ap (outgoing (part ++ junk)) (sym e) ∙ outgoing_lem part junk in
    rw (out, same, h)

-- The state of the transmission when `done` bytes are sent.
abbrev state : MsgHeader → ℕ → ℕ → Option Bytes → ℕ → Transmission
state h size off content done = record {
  complete = record { header = part_header h size off; content = content };
  offset = done;
}

-- The pieces of the rest, and what the loop does with them.
abbrev Sends : MsgHeader → ℕ → ℕ → Option Bytes → Bytes → Bytes → Bytes → Type 0
Sends h size off content done rest buffer =
    (qs : List Bytes) × (concat qs ≡ rest)
    × All Piece qs
    × (send_next (map length (parts_from h (length done) qs)) buffer
          (state h size off content (length done))
        ≡ some (returned 0, parts_from h (length done) qs))

last_sent :
    (h : MsgHeader) (size off : ℕ) (content : Option Bytes) (done buffer : Bytes)
    → h.data_size ≡ length done
    → Sends h size off content done [] buffer
unfolding transmission_continue send_parts
last_sent h size off content done buffer e =
    let over : leb h.data_size (length done) ≡ true = ground arith in ([], refl, _, rw over)

-- The size of the next piece.
abbrev piece_size : ℕ → ℕ
piece_size n = if leb part_data_size n then part_data_size else n

next_sent :
    (h : MsgHeader) (size off : ℕ) (content : Option Bytes) (done piece rest junk buffer : Bytes)
    → h.data_size ≡ length done + (length piece + length rest)
    → length piece ≡ piece_size (length piece + length rest)
    → Piece piece
    → put_part buffer
        (record { header = part_header h size off; content = content })
        (length piece)
        (length done)
      ≡ some (
          step
            (record { header = part_header h size off; content = content })
            (length done)
            piece
            junk)
    → Sends h
        (length piece)
        (length done)
        content
        (done ++ piece)
        rest
        (part_bytes h (length done) piece ++ junk)
    → Sends h size off content done (piece ++ rest) buffer
unfolding transmission_continue
next_sent h size off content done piece rest junk buffer e ep fits put (qs, cut, all, rec) =
    let more : leb h.data_size (length done) ≡ false = ground arith in
    let left : h.data_size - length done ≡ length piece + length rest = omega arith in
    let far : length (done ++ piece) ≡ length done + length piece = length-append done piece in
    (
      piece ∷ qs,
      ap (λ z. piece ++ z) cut,
      (fits, all),
      rw (more, left, sym ep, put)
          (send_parts_step (map length (parts_from h (length done + length piece) qs))
            (part_bytes h (length done) piece) junk
            (state h (length piece) (length done) content (length done + length piece))
            (length piece + 22) (returned 0) (parts_from h (length done + length piece) qs)
            (length-part_bytes h (length done) piece) (omega arith) (rw far at rec)),
    )

sends :
    (k : ℕ) (h : MsgHeader) (size off : ℕ) (content : Option Bytes) (done rest buffer : Bytes)
    → region content ≡ done ++ rest
    → h.data_size ≡ length done + length rest
    → h.data_size < 4294967296
    → length buffer ≡ total_size
    → length rest ≤ k
    → Sends h size off content done rest buffer
sends k h size off content done [] buffer er e small eb le =
    last_sent h size off content done buffer (omega arith)
sends zero h size off content done (x ∷ rest) buffer er e small eb le = absurd (omega arith)
sends (suc k) h size off content done (x ∷ rest) buffer er e small eb le =
    let n : ℕ = piece_size (length (x ∷ rest)) in
    let piece : Bytes = take n (x ∷ rest) in
    let rest' : Bytes = drop n (x ∷ rest) in
    let fits : (0 < n) × (n ≤ part_data_size) × (n ≤ length (x ∷ rest)) = ground arith in
    let split : piece ++ rest' ≡ x ∷ rest = take-append-drop n (x ∷ rest) in
    let ep : length piece ≡ n = length-take_le n (x ∷ rest) fits.2 in
    let total : length piece + length rest' ≡ length (x ∷ rest) =
      sym (length-append piece rest') ∙ ap length split in
    let p : Packet = record { header = part_header h size off; content = content } in
    let (junk, put, eb') =
      put_part_lem p done piece rest' buffer (er ∙ ap (λ z. done ++ z) (sym split))
        (omega (arith, fits.1, ep)) (omega (arith, ep, total, e, small)) eb in
    subst (λ z. Sends h size off content done z buffer) split
      (next_sent h size off content done piece rest' junk buffer
        (e ∙ ap (λ z. length done + z) (sym total)) (ep ∙ ap piece_size (sym total))
        (omega (arith, fits.0, ep), omega (arith, fits.1, ep)) put
        (sends k h (length piece) (length done) content (done ++ piece) rest'
          (part_bytes h (length done) piece ++ junk)
          (er ∙ ap (λ z. done ++ z) (sym split) ∙ sym (append_assoc done piece rest'))
          (omega (arith, e, total, length-append done piece)) small eb'
          (omega (arith, total, fits.0, ep, le))))

-- The data in pieces, of which only the first may be empty.
abbrev pub Cut : Bytes → Bytes → List Bytes → Type 0
Cut content q qs = (q ++ concat qs ≡ content) × (length q ≤ part_data_size) × All Piece qs

start_split :
    (h : MsgHeader) (size off : ℕ) (content : Option Bytes) (piece rest junk buffer : Bytes)
    → h.data_size ≡ length piece + length rest
    → length piece ≡ (
        if ltb part_data_size (length piece + length rest)
        then part_data_size
        else length piece + length rest)
    → put_part buffer
        (record { header = part_header h size off; content = content })
        (length piece)
        0
      ≡ some (step (record { header = part_header h size off; content = content }) 0 piece junk)
    → transmission_start buffer (state h size off content 0)
      ≡ some (step (record { header = part_header h size off; content = content }) 0 piece junk)
unfolding transmission_start
start_split h size off content piece rest junk buffer e ep put =
    let p : Packet = record { header = part_header h size off; content = content } in
    ap (λ z. put_part buffer p (if ltb part_data_size z then part_data_size else z) 0) e
    ∙ ap (λ z. put_part buffer p z 0) (sym ep)
    ∙ put

-- The first part, and the loop behind it.
start_step :
    (h : MsgHeader) (size off : ℕ) (content : Option Bytes) (piece junk buffer : Bytes)
    (qs : List Bytes)
    → transmission_start buffer (state h size off content 0)
      ≡ some (step (record { header = part_header h size off; content = content }) 0 piece junk)
    → send_next
        (map length (parts_from h (length piece) qs))
        (part_bytes h 0 piece ++ junk)
        (state h (length piece) 0 content (length piece))
      ≡ some (returned 0, parts_from h (length piece) qs)
    → (transmission_start buffer (state h size off content 0) >>= λ (buffer', tmsg, bytes).
        send_parts (map length (parts_from h 0 (piece ∷ qs))) buffer' tmsg bytes)
      ≡ some (returned 0, parts_from h 0 (piece ∷ qs))
start_step h size off content piece junk buffer qs start rec =
    let z : length piece ≡ 0 + length piece = omega arith in
    let rec' =
      subst
        (λ k.
          send_next (map length (parts_from h k qs)) (part_bytes h 0 piece ++ junk)
            (state h (length piece) 0 content k)
          ≡ some (returned 0, parts_from h k qs))
        z rec in
    rw start (
      send_parts_step (map length (parts_from h (0 + length piece) qs)) (part_bytes h 0 piece) junk
        (state h (length piece) 0 content (0 + length piece)) (length piece + 22) (returned 0)
        (parts_from h (0 + length piece) qs) (length-part_bytes h 0 piece) (omega arith) rec')

-- A packet whose header tells the size of its data, below 4 GiB, is sent from a buffer of 2048 bytes
-- in parts: there are pieces of at most 2026 bytes that make up the data, none but the first empty,
-- so that if each send takes its part whole, cidbmsg_transmission_start and the send loop give to the
-- socket, in order, each piece behind a header with its size and its offset, and return 0.
pub start_sends :
    (h : MsgHeader) (size off : ℕ) (content : Option Bytes) (buffer : Bytes)
    → h.data_size ≡ length (region content)
    → h.data_size < 4294967296
    → length buffer ≡ total_size
    → (q : Bytes) × (qs : List Bytes) × Cut (region content) q qs
      × ((transmission_start buffer (state h size off content 0) >>= λ (buffer', tmsg, bytes).
            send_parts (map length (parts_from h 0 (q ∷ qs))) buffer' tmsg bytes)
          ≡ some (returned 0, parts_from h 0 (q ∷ qs)))
start_sends h size off content buffer e small eb =
    let n : ℕ =
      if ltb part_data_size (length (region content))
      then part_data_size
      else length (region content) in
    let piece : Bytes = take n (region content) in
    let rest : Bytes = drop n (region content) in
    let fits : (n ≤ part_data_size) × (n ≤ length (region content)) = ground arith in
    let split : piece ++ rest ≡ region content = take-append-drop n (region content) in
    let ep : length piece ≡ n = length-take_le n (region content) fits.1 in
    let total : length piece + length rest ≡ length (region content) =
      sym (length-append piece rest) ∙ ap length split in
    let p : Packet = record { header = part_header h size off; content = content } in
    let (junk, put, eb') =
      put_part_lem p [] piece rest buffer (sym split) (omega (arith, fits.0, ep))
        (omega (arith, ep, total, e, small)) eb in
    let (qs, cut, all, rec) =
      sends (length rest) h (length piece) 0 content piece rest (part_bytes h 0 piece ++ junk)
        (sym split) (e ∙ sym total) small eb' (omega arith) in
    (
      piece,
      qs,
      (ap (λ z. piece ++ z) cut ∙ split, omega (arith, fits.0, ep), all),
      start_step h size off content piece junk buffer qs
          (start_split h size off content piece rest junk buffer (e ∙ sym total)
            (ep ∙ ap (λ z. if ltb part_data_size z then part_data_size else z) (sym total)) put)
          rec,
    )
