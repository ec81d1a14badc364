-- ===== src/Message/Framing.antt =====
-- read_message_from_conn: messages cut out of a stream that arrives in pieces.
use btb.Base.{
  ◌^◌, lt→leb, ◌%◌, ℕ, zero, suc, ◌+◌, ◌-◌, ◌≤◌, ◌<◌, ◌≡◌, refl, ap, true, false, List, [], ◌∷◌,
  ◌++◌, map, Option, none, some, ok, arith, ◌==◌, length, take, ℤ, pos, is_positive, append-nil,
  append_assoc, length-append, le→leb, ge→ltb, All, Result-cases, inl, inr,
}
use btb.BigEndian.Laws.{
  be_bytes, be_value, be_bytes-IsByte, be_value-be_bytes, big_endian_to_lu_four,
}
use btb.Conn.{Conn, RecvCall, bytes, receive_data}
use btb.Message.{
  Message, read_message_from_conn, read_payload_loop, read_payload, read_body, finish_message,
}
use btb.Message.Codec.{IsMessage, frame, init_message_lem}

-- A call of `recv` that returns these bytes in time.
abbrev pub arriving : List ℕ → RecvCall
arriving bs = record { clock_ok = true; in_time = true; received = bytes bs }

abbrev pub joined : List (List ℕ) → List ℕ
joined [] = []
joined (c ∷ cs) = c ++ joined cs

-- `recv` returns no empty piece while the connection is open.
abbrev pub ArePieces : List (List ℕ) → Type 0
ArePieces = All (λ c. 0 < length c)

-- The connection when these calls are what its socket still does.
abbrev pub awaiting : Conn → List RecvCall → Conn
awaiting c calls = record c { incoming = calls }

receive_data-arriving :
    (c : Conn) (bs : List ℕ) (rest : List RecvCall) (n : ℕ)
    → length bs ≤ n
    → length bs < 2 ^ 31
    → receive_data (some (awaiting c (arriving bs ∷ rest))) n
      ≡ ok (some (awaiting c rest), pos (length bs), bs)
unfolding receive_data
receive_data-arriving c bs rest n h small =
    let same : length bs % 2 ^ 32 ≡ length bs = omega arith in
    rw (le→leb (length bs) n h, same, lt→leb (2 ^ 31) (length bs) small)

-- The pieces of a payload fill it, however it is cut, and what follows them stays in the socket.
read_payload_loop_pieces :
    (pieces : List (List ℕ)) (fuel len : ℕ) (c : Conn) (filled : List ℕ) (rest : List RecvCall)
    → ArePieces pieces
    → length filled + length (joined pieces) ≡ len
    → len ≤ length filled + fuel
    → len < 2 ^ 31
    → read_payload_loop fuel len (some (awaiting c (map arriving pieces ++ rest))) filled
      ≡ ok (some (awaiting c rest), some (filled ++ joined pieces))
unfolding read_payload_loop
read_payload_loop_pieces [] zero len c filled rest a e f small =
    rw (ge→ltb (length filled) len (omega arith), read_payload_loop, append-nil filled)
read_payload_loop_pieces [] (suc fuel) len c filled rest a e f small =
    rw (ge→ltb (length filled) len (omega arith), read_payload_loop, append-nil filled)
read_payload_loop_pieces (p ∷ pieces) zero len c filled rest a e f small =
    absurd (omega (arith, a.0, length-append p (joined pieces)))
read_payload_loop_pieces (p ∷ pieces) (suc fuel) len c filled rest a e f small =
    let total = length-append p (joined pieces) in
    ground (
      arith,
      receive_data-arriving c p (map arriving pieces ++ rest) (len - length filled)
          (omega (arith, total)) (omega (arith, total)),
      read_payload_loop_pieces pieces fuel len c (filled ++ p) rest a.1
          (omega (arith, total, length-append filled p))
          (omega (arith, a.0, length-append filled p)) small,
      append_assoc filled p (joined pieces),
      total,
    )

read_body-frame :
    (msg : Message) (pieces : List (List ℕ)) (c : Conn) (rest : List RecvCall)
    → IsMessage msg
    → ArePieces pieces
    → joined pieces ≡ msg.payload
    → read_body (take 5 (frame msg)) (some (awaiting c (map arriving pieces ++ rest)))
      ≡ ok (some (awaiting c rest), some msg)
unfolding read_body read_payload finish_message
read_body-frame msg pieces c rest v a e =
    let n = msg.payload_len + 1 in
    let bs = be_bytes-IsByte 4 n in
    let value : be_value (be_bytes 4 n) ≡ n = omega (arith, v.short, be_value-be_bytes 4 n) in
    let nonzero : (n == 0) ≡ false = ground arith in
    let back : n - 1 ≡ msg.payload_len = omega arith in
    let whole = init_message_lem msg [] v in
    ground (
      arith,
      big_endian_to_lu_four _ _ _ _ (msg.id ∷ []) bs.0 bs.1.0 bs.1.1.0 bs.1.1.1.0,
      value,
      v.short,
      read_payload_loop_pieces pieces msg.payload_len msg.payload_len c [] rest a
          (omega (arith, ap length e, v.sized)) (omega arith) (omega (arith, v.short)),
      e,
      append-nil msg.payload,
      whole,
    )

-- A frame of a message with a byte as id and less than 2 ^ 31 - 1 bytes of payload, whose five
-- header bytes arrive in one call of `recv` and whose payload arrives in any parts that are not
-- empty, is read as that message, and what follows it is left in the socket.
pub read_message_from_conn-frame :
    (msg : Message) (pieces : List (List ℕ)) (c : Conn) (rest : List RecvCall)
    → IsMessage msg
    → ArePieces pieces
    → joined pieces ≡ msg.payload
    → read_message_from_conn
        (some (awaiting c (arriving (take 5 (frame msg)) ∷ map arriving pieces ++ rest)))
      ≡ ok (some (awaiting c rest), some msg)
unfolding read_message_from_conn
read_message_from_conn-frame msg pieces c rest v a e =
    rw
      (
        receive_data-arriving c (take 5 (frame msg)) (map arriving pieces ++ rest) 5 (omega arith)
            (omega arith),
        read_message_from_conn,
      )
      (read_body-frame msg pieces c rest v a e)

-- A call that goes on has received at least one byte.
receive_data-grows :
    (c c' : Option Conn) (n : ℕ) (r : ℤ) (got : List ℕ)
    → receive_data c n ≡ ok (c', r, got)
    → is_positive r ≡ true
    → 0 < length got
unfolding receive_data
receive_data-grows none c' n r got e p = ground arith
receive_data-grows (some c) c' n r got e p = ground arith

-- Two amounts of fuel for the loop that reads a payload give the same result, whatever arrives, if
-- each is at least the number of bytes that are missing.
pub read_payload_loop-fuel :
    (f g len : ℕ) (c : Option Conn) (filled : List ℕ)
    → len ≤ length filled + f
    → len ≤ length filled + g
    → read_payload_loop f len c filled ≡ read_payload_loop g len c filled
unfolding read_payload_loop
read_payload_loop-fuel zero zero len c filled hf hg = refl
read_payload_loop-fuel zero (suc g) len c filled hf hg =
    rw (ge→ltb (length filled) len (omega arith), read_payload_loop)
read_payload_loop-fuel (suc f) zero len c filled hf hg =
    rw (ge→ltb (length filled) len (omega arith), read_payload_loop)
read_payload_loop-fuel (suc f) (suc g) len c filled hf hg =
    elim (Result-cases (receive_data c (len - length filled))) [
      | inl (inl ((c', r, got), e)) ↦ ground (
        arith,
        e,
        receive_data-grows c c' (len - length filled) r got e,
        length-append filled got,
        read_payload_loop-fuel f g len c' (filled ++ got),
      )
      | inl (inr e) ↦ ground (arith, e)
      | inr e ↦ ground (arith, e)
    ]
