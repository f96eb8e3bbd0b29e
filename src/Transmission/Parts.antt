-- ===== src/Transmission/Parts.antt =====
-- A message cut into parts: what each step of the transmission puts into the buffer.
use fritz2ci.Prelude.{
  ℕ, ◌+◌, ◌-◌, ◌≤◌, ◌<◌, ◌≡◌, refl, sym, ap, ◌∙◌, some, List, [], ◌∷◌, ◌++◌, length, length-append,
  append_assoc, arith,
}
use fritz2ci.Memory.{Bytes}
use fritz2ci.Memory.Emits.{copy_lem, split_at}
use fritz2ci.Wire.{add32}
use fritz2ci.Header.{MsgHeader, header_size, total_size, part_data_size}
use fritz2ci.Header.RoundTrip.{header_bytes, put_header-Emits}
use fritz2ci.Messages.{Packet, region}
use fritz2ci.Transmission.{Transmission, put_part}

-- The header of a part, and the part as it is sent.
abbrev pub part_header : MsgHeader → ℕ → ℕ → MsgHeader
part_header h size off = record h { part_size = size; offset = off }

abbrev pub part_bytes : MsgHeader → ℕ → Bytes → Bytes
part_bytes h off piece = header_bytes (part_header h (length piece) off) ++ piece

pub length-header_bytes : (h : MsgHeader) → length (header_bytes h) ≡ 22
unfolding header_bytes
length-header_bytes h = refl

-- The sums that the C code takes on 32 bits.
pub add32_small : (a b : ℕ) → a + b < 4294967296 → add32 a b ≡ a + b
unfolding add32
add32_small a b h = omega arith

pub length-part_bytes :
    (h : MsgHeader) (off : ℕ) (piece : Bytes) → length (part_bytes h off piece) ≡ length piece + 22
length-part_bytes h off piece = omega (
  arith,
  length-header_bytes (part_header h (length piece) off),
  length-append (header_bytes (part_header h (length piece) off)) piece,
)

-- All the parts from an offset on, each with its piece of the data.
abbrev pub parts_from : MsgHeader → ℕ → List Bytes → List Bytes
parts_from h off [] = []
parts_from h off (q ∷ qs) = part_bytes h off q ∷ parts_from h (off + length q) qs

-- A piece is not empty and fits one part.
abbrev pub Piece : Bytes → Type 0
Piece q = (0 < length q) × (length q ≤ part_data_size)

-- What a step gives: the buffer, the transmission, and the length of the part.
abbrev pub step : Packet → ℕ → Bytes → Bytes → Bytes × Transmission × ℕ
step p off piece junk = (
  part_bytes p.header off piece ++ junk,
  record {
    complete = record p { header = part_header p.header (length piece) off };
    offset = off + length piece;
  },
  length piece + header_size,
)

put_part_split :
    (p : Packet) (done piece rest b₀ b₁ b₂ : Bytes)
    → region p.content ≡ done ++ (piece ++ rest)
    → length piece ≤ part_data_size
    → length done + length piece < 4294967296
    → length b₀ ≡ 22
    → length b₁ ≡ length piece
    → put_part (b₀ ++ (b₁ ++ b₂)) p (length piece) (length done)
      ≡ some (step p (length done) piece b₂)
unfolding put_part
put_part_split p done piece rest b₀ b₁ b₂ ed fits small e₀ e₁ =
    let h : MsgHeader = part_header p.header (length piece) (length done) in
    let n₀ : length b₀ ≡ length (header_bytes h) = e₀ ∙ sym (length-header_bytes h) in
    rw (put_header-Emits h b₀ (b₁ ++ b₂) n₀) (
      rw
        (
          ed,
          copy_lem piece (header_bytes h) b₁ b₂ done rest (length piece) 22 (length done) refl e₁
              (sym (length-header_bytes h)) refl,
          add32_small (length done) (length piece) small,
          add32_small (length piece) 22 (omega arith),
          append_assoc (header_bytes h) piece b₂,
        )
        refl)

-- A step of the transmission, where `done` is sent, `piece` comes next and `rest` behind it. The
-- buffer keeps its size, and the part stands at its start.
pub put_part_lem :
    (p : Packet) (done piece rest buffer : Bytes)
    → region p.content ≡ done ++ (piece ++ rest)
    → length piece ≤ part_data_size
    → length done + length piece < 4294967296
    → length buffer ≡ total_size
    → (junk : Bytes) × (put_part buffer p (length piece) (length done)
        ≡ some (step p (length done) piece junk))
      × (length (part_bytes p.header (length done) piece ++ junk) ≡ total_size)
put_part_lem p done piece rest buffer ed fits small eb =
    let h : MsgHeader = part_header p.header (length piece) (length done) in
    let (b₀, b, e, e₀, e') = split_at 22 2026 buffer eb in
    let (b₁, b₂, e'', e₁, e₂) = split_at (length piece) (2026 - length piece) b (omega arith) in
    (
      b₂,
      ap (λ z. put_part z p (length piece) (length done)) (e ∙ ap (λ z. b₀ ++ z) e'')
          ∙ put_part_split p done piece rest b₀ b₁ b₂ ed fits small e₀ e₁,
      omega (
        arith,
        length-header_bytes h,
        length-append (header_bytes h) piece,
        length-append (header_bytes h ++ piece) b₂,
      ),
    )
