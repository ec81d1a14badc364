-- ===== src/HandshakeMsg/Refused.antt =====
-- Handshakes that are too short, and one first byte that writes outside a block.
use btb.Base.{
  ℕ, zero, suc, ◌+◌, ◌≤◌, ◌<◌, ◌≡◌, refl, List, [], ◌∷◌, ok, failed, fault, arith, length,
  Bool-cases, inl, inr, ltb, ltb→ge,
}
use btb.HandshakeMsg.{decode_handshake_msg, strncpy}

-- A copy inside a block does not fault.
strncpy-ok :
    (source : List ℕ) (n : ℕ) → n ≤ length source → (text : List ℕ) × (strncpy source n ≡ ok text)
unfolding strncpy
strncpy-ok source zero h = ([], refl)
strncpy-ok [] (suc n) h = absurd (omega arith)
strncpy-ok (zero ∷ source) (suc n) h = (_, refl)
strncpy-ok (suc b ∷ source) (suc n) h =
    let (text, e) = strncpy-ok source n (omega arith) in (suc b ∷ text, ground (arith, e))

-- A buffer whose first byte is below 128 and whose stated length, not above the bytes that are
-- there, is less than the handshake that this byte announces is refused with NULL and without a
-- fault.
pub decode_handshake_msg_short :
    (first : ℕ) (rest : List ℕ) (buf_length : ℕ)
    → first < 128
    → buf_length ≤ length (first ∷ rest)
    → buf_length < 49 + first
    → decode_handshake_msg (first ∷ rest) buf_length ≡ failed
unfolding decode_handshake_msg
decode_handshake_msg_short first rest buf_length small fits short =
    elim (Bool-cases (ltb buf_length (1 + first))) [
      | inl t ↦ ground arith
      | inr f ↦
          let (text, e) = strncpy-ok rest first (omega (arith, ltb→ge buf_length (1 + first) f)) in
          ground (arith, e)
    ]

-- A handshake whose first byte is 255, of any stated length but 0, ends in a fault: the byte is
-- the `char` -1, whose length passes the test, and the name is copied into a block of 0 bytes.
pub decode_handshake_msg_overflow :
    (rest : List ℕ) (buf_length : ℕ)
    → 0 < buf_length
    → decode_handshake_msg (255 ∷ rest) buf_length ≡ fault
unfolding decode_handshake_msg
decode_handshake_msg_overflow rest buf_length pos = ground arith
