-- ===== src/Message/Codec.antt =====
-- encode_message and decode_message.
use btb.Base.{
  ℕ, suc, ◌+◌, ◌-◌, ◌%◌, ◌^◌, ◌<◌, ◌≡◌, refl, sym, ◌∙◌, List, [], ◌∷◌, ◌++◌, ok, ◌>>=◌, arith,
  length, drop, u64_mod, read_range, IsByte, append-nil, length-drop, drop_all, read_range_all,
  uncons, le→leb, ge→ltb, read_range-append, nil_of_length, write, write_range, ==_refl, lt→ltb,
}
use native.Mathlib.Decide.{dec_lt}
use btb.BigEndian.Laws.{
  be_bytes, be_value, be_bytes-IsByte, be_value-be_bytes, lu_to_big_endian_lem,
  big_endian_to_lu_four,
}
use btb.Message.{Message, MessageEncoded, encode_message, decode_message, init_message}

-- A message whose length the wire format and the 64-bit arithmetic can hold.
pub record IsMessage (msg : Message) : Type 0 where
  pub id_byte : IsByte msg.id
  pub sized : length msg.payload ≡ msg.payload_len
  pub short : msg.payload_len + 1 < 2 ^ 31

-- The frame: the length of id and payload in four bytes, the id, the payload.
abbrev pub frame : Message → List ℕ
frame msg = be_bytes 4 (msg.payload_len + 1) ++ msg.id ∷ msg.payload

abbrev encoded : ℕ → List ℕ → MessageEncoded
encoded size buf = record { size = size; buf = buf }

-- The id and the payload go behind the four length bytes.
fill_frame :
    (a b c d x id size : ℕ) (rest payload : List ℕ)
    → length rest ≡ length payload
    → (write (a ∷ b ∷ c ∷ d ∷ x ∷ rest) 4 id >>= λ named.
        write_range named 5 payload >>= λ buf. ok (encoded size buf))
      ≡ ok (encoded size (a ∷ b ∷ c ∷ d ∷ id ∷ payload))
fill_frame a b c d x id size rest payload h = rw (
  lt→ltb 4 (length (a ∷ b ∷ c ∷ d ∷ x ∷ rest)) (omega arith),
  le→leb (5 + length payload) (length (a ∷ b ∷ c ∷ d ∷ id ∷ rest)) (omega arith),
  drop_at_five,
  append-nil payload,
)
  where
    five : 5 + length payload ≡ suc (suc (suc (suc (suc (length payload)))))
    five = omega arith

    drop_at_five : drop (5 + length payload) (a ∷ b ∷ c ∷ d ∷ id ∷ rest) ≡ []
    drop_at_five = rw five (drop_all (length payload) rest (omega arith))

pub init_message_lem :
    (msg : Message) (rest : List ℕ)
    → IsMessage msg
    → init_message msg.id msg.payload_len (msg.payload ++ rest) ≡ ok msg
unfolding init_message
init_message_lem msg rest v = elim (dec_lt 0 msg.payload_len) [
  | yes some_bytes ↦ rw (lt→ltb 0 msg.payload_len some_bytes, read_range_prefix) refl
  | no none_left ↦
      rw (ge→ltb 0 msg.payload_len (omega arith)) (ground (arith, nil_of_length msg.payload))
]
  where
    read_range_prefix : read_range (msg.payload ++ rest) 0 msg.payload_len ≡ ok msg.payload
    read_range_prefix = rw (← v.sized) (read_range-append [] msg.payload rest)

module _ (malloc : ℕ → List ℕ) (malloc_length : (n : ℕ) → length (malloc n) ≡ n) where
  -- A message with a byte as id and less than 2 ^ 31 - 1 bytes of payload is encoded as its frame:
  -- four bytes of the length of id and payload, the id, the payload, whatever the new block held
  -- before.
  pub encode_message-frame :
      (msg : Message)
      → IsMessage msg
      → encode_message malloc msg ≡ ok (record { size = 5 + msg.payload_len; buf = frame msg })
  unfolding encode_message
  encode_message-frame msg v =
      let size_lem : (4 + 1 + msg.payload_len) % u64_mod ≡ 5 + msg.payload_len =
        omega (arith, v.short) in
      let fresh = malloc_length (5 + msg.payload_len) in
      let (x, rest, split, rest_length) =
        uncons msg.payload_len (drop 4 (malloc (5 + msg.payload_len)))
          (omega (arith, length-drop 4 (malloc (5 + msg.payload_len)), fresh)) in
      let counted : 5 + msg.payload_len - 4 ≡ msg.payload_len + 1 = omega arith in
      let id_lem : msg.id % 256 ≡ msg.id = omega (arith, v.id_byte) in
      rw
        (
          size_lem,
          counted,
          lu_to_big_endian_lem (msg.payload_len + 1) (malloc (5 + msg.payload_len)) 0 4
              (omega arith) (omega (arith, fresh)),
          split,
          id_lem,
          read_range_all msg.payload msg.payload_len v.sized,
        )
        (fill_frame _ _ _ _ x msg.id (5 + msg.payload_len) rest msg.payload
          (rest_length ∙ sym v.sized))

-- A frame decodes to its message; what stands behind it in memory is not read.
pub decode_message-frame :
    (msg : Message) (rest : List ℕ)
    → IsMessage msg
    → decode_message (frame msg ++ rest) (5 + msg.payload_len) ≡ ok msg
unfolding decode_message
decode_message-frame msg rest v =
    let n = msg.payload_len + 1 in
    let bs = be_bytes-IsByte 4 n in
    let value : be_value (be_bytes 4 n) ≡ n = omega (arith, v.short, be_value-be_bytes 4 n) in
    let total : (n + 4) % u64_mod ≡ 5 + msg.payload_len = omega (arith, v.short) in
    let back : (n + u64_mod - 1) % u64_mod ≡ msg.payload_len = omega (arith, v.short) in
    rw
      (
        big_endian_to_lu_four _ _ _ _ (msg.id ∷ msg.payload ++ rest) bs.0 bs.1.0 bs.1.1.0
            bs.1.1.1.0,
        value,
        lt→ltb n (2 ^ 31) v.short,
        total,
        ==_refl (5 + msg.payload_len),
        back,
      )
      (init_message_lem msg rest v)

-- A message with a byte as id and less than 2 ^ 31 - 1 bytes of payload survives `encode_message`
-- and `decode_message`, whatever the new block held before.
pub decode_message-encode_message :
    (malloc : ℕ → List ℕ)
    → ((n : ℕ) → length (malloc n) ≡ n)
    → (msg : Message) → IsMessage msg
    → (encode_message malloc msg >>= λ e. decode_message e.buf e.size) ≡ ok msg
decode_message-encode_message malloc malloc_length msg v =
    rw (encode_message-frame malloc malloc_length msg v, ← append-nil (frame msg))
      (decode_message-frame msg [] v)
