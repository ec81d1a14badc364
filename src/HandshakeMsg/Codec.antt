-- ===== src/HandshakeMsg/Codec.antt =====
-- Encoding a handshake, and decoding what was encoded.
use native.Mathlib.Omega.{arith}
use btb.Base.{
  ℕ, ◌+◌, ◌%◌, ◌<◌, ◌≡◌, refl, sym, ap, ◌∙◌, List, [], ◌∷◌, ◌++◌, Result, ok, ◌>>=◌, length, drop,
  All, write, write_range, read_range, lt→ltb, append_assoc, append-nil, length-append, length-drop,
  read_range_all, read_range-append, u64_mod, uncons, nil_of_length, write_range-end,
}
use btb.HandshakeMsg.{
  HandshakeMsg, HandshakeMsgEncoded, encode_handshake_msg, decode_handshake_msg, strncpy,
}

-- Fields of their sizes, and a protocol name that a positive `char` can count, with no NUL.
pub record IsHandshake (hm : HandshakeMsg) : Type 0 where
  pub short : hm.pstrlen < 128
  pub named : length hm.pstr ≡ hm.pstrlen
  pub no_nul : All (λ b. 0 < b) hm.pstr
  pub reserved_sized : length hm.reserved ≡ 8
  pub hash_sized : length hm.info_hash ≡ 20
  pub id_sized : length hm.peer_id ≡ 20

abbrev pub wire : HandshakeMsg → List ℕ
wire hm = hm.pstrlen ∷ (hm.pstr ++ (hm.reserved ++ (hm.info_hash ++ hm.peer_id)))

-- The next field fills its part of the rest of the block.
fill :
    (written old bytes : List ℕ) (at left : ℕ)
    → length written ≡ at
    → length old ≡ length bytes + left
    → (rest : List ℕ) × (length rest ≡ left)
      × (write_range (written ++ old) at bytes ≡ ok ((written ++ bytes) ++ rest))
fill written old bytes at left e f = (
  drop (length bytes) old,
  omega (arith, length-drop (length bytes) old),
  rw (← e) (
      write_range-end written old bytes (omega arith) ∙ ap ok (sym (append_assoc written bytes _))),
)

abbrev encoded : ℕ → List ℕ → HandshakeMsgEncoded
encoded size buf = record { size = size; buf = buf }

-- Four copies that succeed, one after the other.
four_fields :
    (size : ℕ) {w s₁ s₂ s₃ s₄ : Result (List ℕ)} {b x₁ x₂ x₃ x₄ b₁ b₂ b₃ b₄ : List ℕ}
    (f₁ f₂ f₃ f₄ : List ℕ → List ℕ → Result (List ℕ))
    → w ≡ ok b
    → s₁ ≡ ok x₁
    → f₁ b x₁ ≡ ok b₁
    → s₂ ≡ ok x₂
    → f₂ b₁ x₂ ≡ ok b₂
    → s₃ ≡ ok x₃
    → f₃ b₂ x₃ ≡ ok b₃
    → s₄ ≡ ok x₄
    → f₄ b₃ x₄ ≡ ok b₄
    → (do
      c ← w
      y₁ ← s₁
      c₁ ← f₁ c y₁
      y₂ ← s₂
      c₂ ← f₂ c₁ y₂
      y₃ ← s₃
      c₃ ← f₃ c₂ y₃
      y₄ ← s₄
      c₄ ← f₄ c₃ y₄
      ok (encoded size c₄))
      ≡ ok (encoded size b₄)
four_fields size f₁ f₂ f₃ f₄ e e₁ d₁ e₂ d₂ e₃ d₃ e₄ d₄ = rw (e, e₁, d₁, e₂, d₂, e₃, d₃, e₄, d₄)

module _ (malloc : ℕ → List ℕ) (malloc_length : (n : ℕ) → length (malloc n) ≡ n) where
  -- A handshake whose fields have their sizes and whose protocol name has less than 128 bytes and
  -- no NUL is encoded as its length byte, name, reserved bytes, info hash and peer id, whatever
  -- the new block held before.
  pub encode_handshake_msg-wire :
      (hm : HandshakeMsg)
      → IsHandshake hm
      → encode_handshake_msg malloc hm ≡ ok (record { size = 49 + hm.pstrlen; buf = wire hm })
  unfolding encode_handshake_msg
  encode_handshake_msg-wire hm v =
      let n = hm.pstrlen in
      let size : (1 + n + 8 + 20 + 20) % u64_mod ≡ 49 + n = omega (arith, v.short) in
      let byte : n % 256 ≡ n = omega (arith, v.short) in
      let (x, old, split, old_length) =
        uncons (48 + n) (malloc (49 + n)) (omega (arith, malloc_length (49 + n))) in
      let w₁ = n ∷ hm.pstr in
      let e₀ : write (x ∷ old) 0 n ≡ ok (n ∷ old) =
        rw (lt→ltb 0 (length (x ∷ old)) (omega arith)) in
      let (r₁, l₁, e₁) = fill (n ∷ []) old hm.pstr 1 48 refl (omega (arith, v.named)) in
      let (r₂, l₂, e₂) =
        fill w₁ r₁ hm.reserved (1 + n) 40 (omega (arith, v.named))
          (omega (arith, v.reserved_sized)) in
      let w₂ = w₁ ++ hm.reserved in
      let at₂ = length-append w₁ hm.reserved in
      let (r₃, l₃, e₃) =
        fill w₂ r₂ hm.info_hash (1 + n + 8) 20 (omega (arith, at₂, v.named, v.reserved_sized))
          (omega (arith, v.hash_sized)) in
      let w₃ = w₂ ++ hm.info_hash in
      let at₃ = length-append w₂ hm.info_hash in
      let (r₄, l₄, e₄) =
        fill w₃ r₃ hm.peer_id (1 + n + 8 + 20) 0
          (omega (arith, at₂, at₃, v.named, v.reserved_sized, v.hash_sized))
          (omega (arith, v.id_sized)) in
      let whole : (w₃ ++ hm.peer_id) ++ [] ≡ wire hm = simp (append_assoc, append-nil) in
      rw (size, byte, split)
        (four_fields (49 + n) (λ b x. write_range b 1 x) (λ b x. write_range b (1 + n) x)
            (λ b x. write_range b (1 + n + 8) x) (λ b x. write_range b (1 + n + 8 + 20) x) e₀
            (read_range_all hm.pstr n v.named) e₁ (read_range_all hm.reserved 8 v.reserved_sized) e₂
            (read_range_all hm.info_hash 20 v.hash_sized) e₃
            (read_range_all hm.peer_id 20 v.id_sized) e₄
          ∙ ap (λ (b : List ℕ). ok (encoded (49 + n) b)) (rw (nil_of_length r₄ l₄) whole))

-- Text with no NUL is copied as it is.
strncpy-append :
    (text rest : List ℕ) → All (λ b. 0 < b) text → strncpy (text ++ rest) (length text) ≡ ok text
unfolding strncpy
strncpy-append [] rest h = refl
strncpy-append (b ∷ text) rest h = ground (arith, h.0, strncpy-append text rest h.1)

-- A field read out of the middle of a buffer.
read_field :
    (buf before field after : List ℕ) (at n : ℕ)
    → buf ≡ before ++ (field ++ after)
    → length before ≡ at
    → length field ≡ n
    → read_range buf at n ≡ ok field
read_field buf before field after at n e f g =
    rw (e, ← f, ← g) (read_range-append before field after)

-- The wire form of a handshake whose fields have their sizes and whose protocol name has less than
-- 128 bytes and no NUL decodes to the same handshake, whatever bytes stand behind it in memory.
pub decode_handshake_msg-wire :
    (hm : HandshakeMsg) (rest : List ℕ)
    → IsHandshake hm
    → decode_handshake_msg (wire hm ++ rest) (49 + hm.pstrlen) ≡ ok hm
unfolding decode_handshake_msg
decode_handshake_msg-wire hm rest v =
    let n = hm.pstrlen in
    let at₁ = length-append (n ∷ hm.pstr) hm.reserved in
    let at₂ = length-append ((n ∷ hm.pstr) ++ hm.reserved) hm.info_hash in
    ground (
      arith,
      v.short,
      rw v.named at
          (strncpy-append hm.pstr ((hm.reserved ++ (hm.info_hash ++ hm.peer_id)) ++ rest) v.no_nul),
      append_assoc hm.pstr (hm.reserved ++ (hm.info_hash ++ hm.peer_id)) rest,
      read_field (wire hm ++ rest) (n ∷ hm.pstr) hm.reserved ((hm.info_hash ++ hm.peer_id) ++ rest)
          (1 + n) 8 (simp append_assoc) (omega (arith, v.named)) v.reserved_sized,
      read_field (wire hm ++ rest) ((n ∷ hm.pstr) ++ hm.reserved) hm.info_hash (hm.peer_id ++ rest)
          (1 + n + 8) 20 (simp append_assoc) (omega (arith, v.named, v.reserved_sized, at₁))
          v.hash_sized,
      read_field (wire hm ++ rest) (((n ∷ hm.pstr) ++ hm.reserved) ++ hm.info_hash) hm.peer_id rest
          (1 + n + 8 + 20) 20 (simp append_assoc)
          (omega (arith, v.named, v.reserved_sized, v.hash_sized, at₁, at₂)) v.id_sized,
    )
