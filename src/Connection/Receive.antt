-- ===== src/Connection/Receive.antt =====
-- What cidbcon_recv_message makes of the parts of a message, each of which one `recv` brings.
use fritz2ci.Prelude.{
  ℕ, ◌+◌, ◌≤◌, ◌<◌, ◌≡◌, refl, sym, ap, ◌∙◌, true, false, Option, some, List, [], ◌∷◌, ◌++◌, map,
  length, length-append, append_assoc, append-nil, take, drop, take-append-drop, concat,
  length-take_le, length-drop, All, ltb, arith,
}
use fritz2ci.Memory.{Bytes, copy}
use fritz2ci.Memory.Emits.{copy_lem, split_at}
use fritz2ci.Wire.{IsU32}
use fritz2ci.Header.{MsgHeader, IsHeader, total_size, header_size, get_header}
use fritz2ci.Header.RoundTrip.{header_bytes, get_header-header_bytes}
use fritz2ci.Transmission.Parts.{
  Piece, part_header, part_bytes, parts_from, length-part_bytes, length-header_bytes, add32_small,
}
use fritz2ci.Connection.{Outcome, returned, Arrival, arrived, recv, recv_parts}

pub recv_lem :
    (part buffer : Bytes)
    → length part ≤ length buffer
    → recv (arrived part) buffer ≡ some (part ++ drop (length part) buffer, length part)
unfolding recv
recv_lem part buffer le =
    let n : ℕ = length part in
    let c : copy n (take n buffer ++ drop n buffer) 0 (part ++ []) 0
        ≡ some (part ++ drop n buffer) =
      copy_lem part [] (take n buffer) (drop n buffer) [] [] n 0 0 refl (length-take_le n buffer le)
        refl refl in
    rw (rw (take-append-drop n buffer, append-nil part) at c)

pub length-received :
    (part buffer : Bytes)
    → length part ≤ length buffer
    → length (part ++ drop (length part) buffer) ≡ length buffer
length-received part buffer le =
    omega (arith, length-append part (drop (length part) buffer), length-drop (length part) buffer)

pub get_header-part :
    (h : MsgHeader) (off : ℕ) (q tail : Bytes)
    → IsHeader h
    → IsU32 off
    → IsU32 (length q)
    → get_header (part_bytes h off q ++ tail) ≡ some (part_header h (length q) off, header_size)
get_header-part h off q tail w wo wq =
    let h' : MsgHeader = part_header h (length q) off in
    ap get_header (append_assoc (header_bytes h') q tail)
    ∙ get_header-header_bytes h' (q ++ tail) (record {
      client_id = w.client_id;
      msg_command = w.msg_command;
      msg_subcommand = w.msg_subcommand;
      msg_id = w.msg_id;
      msg_flags = w.msg_flags;
      data_size = w.data_size;
      part_size = wq;
      offset = wo;
    })

-- The bytes of a part are put in their place.
pub copy-part :
    (h : MsgHeader) (done q room₁ room₂ tail : Bytes)
    → length room₁ ≡ length q
    → copy
        (length q)
        (done ++ (room₁ ++ room₂))
        (length done)
        (part_bytes h (length done) q ++ tail)
        header_size
      ≡ some (done ++ (q ++ room₂))
copy-part h done q room₁ room₂ tail e =
    let h' : MsgHeader = part_header h (length q) (length done) in
    ap (λ z. copy (length q) (done ++ (room₁ ++ room₂)) (length done) z header_size)
      (append_assoc (header_bytes h') q tail)
    ∙ copy_lem q done room₁ room₂ (header_bytes h') tail (length q) (length done) 22 refl e refl
        (sym (length-header_bytes h'))

recv_parts_step :
    (h : MsgHeader) (total : ℕ) (done q room₁ room₂ buffer : Bytes) (arrivals : List Arrival)
    (r : Option (Outcome × Bytes × ℕ))
    → IsHeader h
    → Piece q
    → length room₁ ≡ length q
    → length done + length q ≤ total
    → total < 4294967296
    → length buffer ≡ total_size
    → recv_parts arrivals
        (part_bytes h (length done) q ++ drop (length (part_bytes h (length done) q)) buffer)
        total
        (done ++ (q ++ room₂))
        (length done + length q)
      ≡ r
    → recv_parts
        (arrived (part_bytes h (length done) q) ∷ arrivals)
        buffer
        total
        (done ++ (room₁ ++ room₂))
        (length done)
      ≡ r
unfolding recv_parts
recv_parts_step h total done q room₁ room₂ buffer arrivals r w fits e le small eb rec =
    let part : Bytes = part_bytes h (length done) q in
    let n : length part ≡ length q + 22 = length-part_bytes h (length done) q in
    let more : ltb (length done) total ≡ true = ground arith in
    let whole : ltb (length part) header_size ≡ false = ground arith in
    rw (
      more,
      recv_lem part buffer (omega arith),
      whole,
      get_header-part h (length done) q (drop (length part) buffer) w (omega arith) (omega arith),
      copy-part h done q room₁ room₂ (drop (length part) buffer) e,
      add32_small (length done) (length q) (omega arith),
      rec,
    )

-- The loop puts all the pieces in their places.
pub recv_parts_lem :
    (qs : List Bytes) (h : MsgHeader) (total : ℕ) (done room buffer : Bytes)
    → IsHeader h
    → All Piece qs
    → length room ≡ length (concat qs)
    → total ≡ length done + length room
    → total < 4294967296
    → length buffer ≡ total_size
    → recv_parts
        (map arrived (parts_from h (length done) qs))
        buffer
        total
        (done ++ room)
        (length done)
      ≡ some (returned 0, done ++ concat qs, total)
unfolding recv_parts
recv_parts_lem [] h total done [] buffer w all e et small eb =
    let full : total ≡ length done = omega arith in
    let over : ltb (length done) total ≡ false = ground arith in rw (over, full)
recv_parts_lem [] h total done (x ∷ room) buffer w all e et small eb = absurd (omega arith)
recv_parts_lem (q ∷ qs) h total done room buffer w (fits, all) e et small eb =
    let (room₁, room₂, er, e₁, e₂) =
      split_at (length q) (length (concat qs)) room (e ∙ length-append q (concat qs)) in
    let part : Bytes = part_bytes h (length done) q in
    let n : length part ≡ length q + 22 = length-part_bytes h (length done) q in
    let er' : length room ≡ length room₁ + length room₂ =
      ap length er ∙ length-append room₁ room₂ in
    let far : length (done ++ q) ≡ length done + length q = length-append done q in
    ap
      (λ z.
        recv_parts (map arrived (parts_from h (length done) (q ∷ qs))) buffer total (done ++ z)
          (length done))
      er
    ∙ recv_parts_step h total done q room₁ room₂ buffer
        (map arrived (parts_from h (length done + length q) qs))
        (some (returned 0, done ++ (q ++ concat qs), total)) w fits e₁ (omega arith) small eb
        (rw (far, append_assoc done q room₂, append_assoc done q (concat qs)) at
          (recv_parts_lem qs h total (done ++ q) room₂ (part ++ drop (length part) buffer) w all e₂
            (omega arith) small (length-received part buffer (omega arith) ∙ eb)))
