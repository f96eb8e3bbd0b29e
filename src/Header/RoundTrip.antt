-- ===== src/Header/RoundTrip.antt =====
-- The header's layout on the wire, and that reading inverts writing.
use fritz2ci.Prelude.{
  ℕ, ◌≤◌, ◌≡◌, refl, sym, subst, some, ◌++◌, length, get_or, tabulate, eq-tabulate, take, drop,
  take-append-drop, length-take_le, All,
}
use fritz2ci.Memory.{Bytes}
use fritz2ci.Memory.Emits.{Emits}
use fritz2ci.Wire.{le8, le16, le32, IsByte}
use fritz2ci.Wire.RoundTrip.{split8, split16, split32, join8, join16, join32}
use fritz2ci.Header.{
  MsgHeader, IsHeader, put_header, get_header, header_size, prepare_header, read_header,
}

-- The format: the fields in order, each lowest byte first.
unfoldable pub header_bytes : MsgHeader → Bytes
header_bytes h =
    le16 h.client_id
    ++ (le8 h.msg_command
        ++ (le8 h.msg_subcommand
            ++ (le32 h.msg_id
                ++ (le16 h.msg_flags
                    ++ (le32 h.data_size ++ (le32 h.part_size ++ le32 h.offset))))))

pub put_header-Emits : (h : MsgHeader) → Emits (put_header h) (header_bytes h) header_size
unfolding put_header header_bytes
put_header-Emits h mid post e = rw (eq-tabulate 22 mid 0 e) refl

pub get_header-header_bytes :
    (h : MsgHeader) (post : Bytes)
    → IsHeader h
    → get_header (header_bytes h ++ post) ≡ some (h, header_size)
unfolding get_header header_bytes
get_header-header_bytes h post w = rw (
  join16 h.client_id w.client_id,
  join8 h.msg_command w.msg_command,
  join8 h.msg_subcommand w.msg_subcommand,
  join32 h.msg_id w.msg_id,
  join16 h.msg_flags w.msg_flags,
  join32 h.data_size w.data_size,
  join32 h.part_size w.part_size,
  join32 h.offset w.offset,
)

put_header_over :
    (h : MsgHeader) (dst : Bytes)
    → header_size ≤ length dst
    → put_header h dst ≡ some (header_bytes h ++ drop 22 dst, header_size)
unfolding header_bytes
put_header_over h dst n =
    rw (take-append-drop 22 dst) at
      (put_header-Emits h (take 22 dst) (drop 22 dst) (length-take_le 22 dst n))

-- A header whose fields are in range, written over the start of a buffer of 22 bytes or more, is
-- read back whole whatever the structure held before; the bytes behind the header stay.
pub read_header-prepare_header :
    (h old : MsgHeader) (dst : Bytes)
    → IsHeader h
    → header_size ≤ length dst
    → (dst' : Bytes) × (prepare_header (some dst) (some h) ≡ some (some dst', header_size))
      × (read_header (some old) (some dst') ≡ some (some h, header_size))
      × (drop header_size dst' ≡ drop header_size dst)
unfolding prepare_header read_header
read_header-prepare_header h old dst w n = (
  header_bytes h ++ drop 22 dst,
  rw (put_header_over h dst n),
  rw (get_header-header_bytes h (drop 22 dst) w),
  unfold header_bytes in refl,
)

abbrev Undone : Bytes → Bytes → Type 0
Undone post s =
    (h : MsgHeader) × (get_header (s ++ post) ≡ some (h, header_size)) × (header_bytes h ≡ s)

header_bytes-tabulate :
    (f : ℕ → ℕ) (post : Bytes) → All IsByte (tabulate 22 f) → Undone post (tabulate 22 f)
unfolding get_header header_bytes
header_bytes-tabulate f post
      (
        b0,
        (
          b1,
          (
            b2,
            (
              b3,
              (
                b4,
                (
                  b5,
                  (
                    b6,
                    (
                      b7,
                      (
                        b8,
                        (
                          b9,
                          (
                            b10,
                            (
                              b11,
                              (
                                b12,
                                (b13, (b14, (b15, (b16, (b17, (b18, (b19, (b20, (b21, _))))))))),
                              ),
                            ),
                          ),
                        ),
                      ),
                    ),
                  ),
                ),
              ),
            ),
          ),
        ),
      ) =
    (
      _,
      refl,
      λ i.
          split16 _ _ b0 b1 i
          ++ (split8 _ b2 i
              ++ (split8 _ b3 i
                  ++ (split32 _ _ _ _ b4 b5 b6 b7 i
                      ++ (split16 _ _ b8 b9 i
                          ++ (split32 _ _ _ _ b10 b11 b12 b13 i
                              ++ (split32 _ _ _ _ b14 b15 b16 b17 i
                                  ++ split32 _ _ _ _ b18 b19 b20 b21 i)))))),
    )

header_bytes-get_header :
    (src post : Bytes)
    → All IsByte src
    → length src ≡ header_size
    → (h : MsgHeader) × (get_header (src ++ post) ≡ some (h, header_size)) × (header_bytes h ≡ src)
header_bytes-get_header src post w e =
    let p = eq-tabulate 22 src 0 e in
    subst (Undone post) (sym p)
      (header_bytes-tabulate (λ i. get_or src i 0) post (subst (All IsByte) p w))

-- Any 22 bytes are a header: writing the header that was read from them over any buffer that is
-- large enough gives the same 22 bytes there.
pub prepare_header-read_header :
    (src post dst : Bytes) (old : MsgHeader)
    → All IsByte src
    → length src ≡ header_size
    → header_size ≤ length dst
    → (h : MsgHeader) × (read_header (some old) (some (src ++ post)) ≡ some (some h, header_size))
      × (prepare_header (some dst) (some h)
          ≡ some (some (src ++ drop header_size dst), header_size))
unfolding prepare_header read_header
prepare_header-read_header src post dst old w e n =
    let (h, got, same) = header_bytes-get_header src post w e in
    (h, rw got, rw (put_header_over h dst n) (rw same))
