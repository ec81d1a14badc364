-- ===== src/Heap/Objects/Laws.antt =====
-- What the functions on structs allocate and release.
use btb.Heap.Laws.{
  part_blocks, nothing_new, Held-append, Holds-append, Frees, Consumes, Leaves, Holds, Held,
  >>=-Consumes, pure-Consumes, if-Consumes, Frees-Consumes, free-Frees, access-Frees, >>-Frees,
  returns,
}
use btb.Heap.Rules.{
  free_top-Consumes, access_then-Consumes, access_all_then-Consumes, malloc_then-Consumes,
}
use btb.Heap.Objects.{
  new_peer, free_peer, new_piece_progress, new_handshake_msg, free_bitfield, free_handshake_msg,
  free_handshake_msg_encoded, free_message, free_piece_progress, Owner, owner_blocks, with_part,
  blocks_or_null, new_owner, free_owner, Decoding, decode_fields, decode_struct, new_decoded,
  new_bitfield, new_message, new_message_encoded, free_message_encoded, new_handshake_msg_encoded,
}
use btb.Base.{ℕ, refl, inl, inr, List, [], ◌∷◌, ◌++◌, Option, none, some, Bool}

module _ (held : List ℕ) where
  pub new_owner-Leaves : Leaves held owner_blocks new_owner
  unfolding new_owner
  new_owner-Leaves = malloc_then-Consumes [] held owner_blocks _ (λ self.
      malloc_then-Consumes (self ∷ []) held owner_blocks _
        (λ part. pure-Consumes held owner_blocks (with_part self part)))

pub part-Holds_self :
    (p : Option ℕ) (self : ℕ) (rest : List ℕ) → Holds self (part_blocks p ++ self ∷ rest)
part-Holds_self none self rest = inl refl
part-Holds_self (some p) self rest = inr (inl refl)

-- `free_owner` releases both blocks.
pub free_owner-Frees : (o : Option Owner) → Frees (blocks_or_null owner_blocks o) (free_owner o)
unfolding free_owner
free_owner-Frees none h xs ys d e = returns (d, e)
free_owner-Frees (some o) h xs ys d e =
    access-Frees (owner_blocks o) o.self _ (part-Holds_self o.part o.self [])
      (>>-Frees (part_blocks o.part) (o.self ∷ []) _ _ (free-Frees o.part)
        (free-Frees (some o.self)))
      h xs ys d e

module _ (held : List ℕ) where
  pub new_piece_progress-Leaves : Leaves held owner_blocks new_piece_progress
  unfolding new_piece_progress
  new_piece_progress-Leaves = new_owner-Leaves held

  pub new_handshake_msg-Leaves : Leaves held owner_blocks new_handshake_msg
  unfolding new_handshake_msg
  new_handshake_msg-Leaves = new_owner-Leaves held

module _ (self : ℕ) (held : List ℕ) where
  part-Holds_last : (p : Option ℕ) → Holds self ((part_blocks p ++ self ∷ []) ++ held)
  part-Holds_last none = inl refl
  part-Holds_last (some p) = inr (inl refl)

-- Of a struct whose blocks are in use, both can be used.
module _ (held : List ℕ) where
  pub owner-Holds_self : (o : Owner) → Holds o.self (owner_blocks o ++ held)
  owner-Holds_self o = part-Holds_last o.self held o.part

  part-Held :
      (p : Option ℕ) (rest : List ℕ) → Held (part_blocks p) ((part_blocks p ++ rest) ++ held)
  part-Held none rest = tt
  part-Held (some p) rest = (inl refl, tt)

  pub owner-Held_part : (o : Owner) → Held (part_blocks o.part) (owner_blocks o ++ held)
  owner-Held_part o = part-Held o.part (o.self ∷ [])

module _ (o : Option Owner) where
  pub free_bitfield-Frees : Frees (blocks_or_null owner_blocks o) (free_bitfield o)
  unfolding free_bitfield
  free_bitfield-Frees = free_owner-Frees o

  pub free_handshake_msg-Frees : Frees (blocks_or_null owner_blocks o) (free_handshake_msg o)
  unfolding free_handshake_msg
  free_handshake_msg-Frees = free_owner-Frees o

  pub free_handshake_msg_encoded-Frees :
      Frees (blocks_or_null owner_blocks o) (free_handshake_msg_encoded o)
  unfolding free_handshake_msg_encoded
  free_handshake_msg_encoded-Frees = free_owner-Frees o

  pub free_message-Frees : Frees (blocks_or_null owner_blocks o) (free_message o)
  unfolding free_message
  free_message-Frees = free_owner-Frees o

  pub free_message_encoded-Frees : Frees (blocks_or_null owner_blocks o) (free_message_encoded o)
  unfolding free_message_encoded
  free_message_encoded-Frees = free_owner-Frees o

  pub free_piece_progress-Frees : Frees (blocks_or_null owner_blocks o) (free_piece_progress o)
  unfolding free_piece_progress
  free_piece_progress-Frees = free_owner-Frees o

-- Every outcome of `decode_handshake_msg` leaves the blocks of the struct that it returns.
module _ (held : List ℕ) (buf : ℕ) (d : Decoding) (there : Holds buf held) where
  decode_fields-Consumes :
      (self : ℕ)
      → Consumes (self ∷ []) held (blocks_or_null owner_blocks) (decode_fields buf d self)
  unfolding decode_fields
  decode_fields-Consumes self = malloc_then-Consumes (self ∷ []) held _ _ (λ pstr.
      access_then-Consumes (pstr ∷ self ∷ []) held _ buf _ (inr (inr there)) (
        if-Consumes (pstr ∷ self ∷ []) held _ _ _ _
          (pure-Consumes held (blocks_or_null owner_blocks) (some (with_part self pstr)))
          (free_top-Consumes (self ∷ []) held _ pstr _ (
            free_top-Consumes [] held _ self _
              (pure-Consumes held (blocks_or_null owner_blocks) none)))))

  decode_struct-Leaves : Leaves held (blocks_or_null owner_blocks) (decode_struct buf d)
  unfolding decode_struct
  decode_struct-Leaves = malloc_then-Consumes [] held _ _ (λ self.
      access_then-Consumes (self ∷ []) held _ buf _ (inr there) (
        if-Consumes (self ∷ []) held _ _ _ _ (decode_fields-Consumes self) (
          free_top-Consumes [] held _ self _
            (pure-Consumes held (blocks_or_null owner_blocks) none))))

  pub new_decoded-Leaves : Leaves held (blocks_or_null owner_blocks) (new_decoded buf d)
  unfolding new_decoded
  new_decoded-Leaves =
      if-Consumes [] held _ _ _ _ decode_struct-Leaves
        (pure-Consumes held (blocks_or_null owner_blocks) none)

module _ (held : List ℕ) where
  pub new_bitfield-Leaves :
      (from : Option ℕ)
      → Held (part_blocks from) held
      → Leaves held owner_blocks (new_bitfield from)
  unfolding new_bitfield
  new_bitfield-Leaves from there = malloc_then-Consumes [] held _ _ (λ self.
      malloc_then-Consumes (self ∷ []) held _ _ (λ part.
        access_all_then-Consumes (part ∷ self ∷ []) held _ from _
          (Held-append (part_blocks from) (part ∷ self ∷ []) held there)
          (pure-Consumes held owner_blocks (with_part self part))))

  pub new_message-Leaves :
      (payload_len : ℕ) (payload : Option ℕ)
      → Held (part_blocks payload) held
      → Leaves held owner_blocks (new_message payload_len payload)
  unfolding new_message
  new_message-Leaves payload_len payload there = malloc_then-Consumes [] held _ _ (λ self.
      if-Consumes (self ∷ []) held _ _ _ _
        (malloc_then-Consumes (self ∷ []) held _ _ (λ part.
          access_all_then-Consumes (part ∷ self ∷ []) held _ payload _
            (Held-append (part_blocks payload) (part ∷ self ∷ []) held there)
            (pure-Consumes held owner_blocks (with_part self part))))
        (pure-Consumes held owner_blocks (record { self = self; part = none })))

  module _ (o : Owner) (self_there : Holds o.self held)
      (part_there : Held (part_blocks o.part) held) where
    pub new_handshake_msg_encoded-Leaves : Leaves held owner_blocks (new_handshake_msg_encoded o)
    unfolding new_handshake_msg_encoded
    new_handshake_msg_encoded-Leaves =
        >>=-Consumes [] held owner_blocks owner_blocks _ _ (new_owner-Leaves held) (λ e.
          access_then-Consumes (owner_blocks e) held _ o.self _
            (Holds-append o.self (owner_blocks e) held self_there)
            (access_all_then-Consumes (owner_blocks e) held _ o.part _
              (Held-append (part_blocks o.part) (owner_blocks e) held part_there)
              (pure-Consumes held owner_blocks e)))

    pub new_message_encoded-Leaves :
        (fits : Bool) → Leaves held (blocks_or_null owner_blocks) (new_message_encoded o fits)
    unfolding new_message_encoded free_message_encoded
    new_message_encoded-Leaves fits =
        >>=-Consumes [] held owner_blocks _ _ _ (new_owner-Leaves held) (λ e.
          access_then-Consumes (owner_blocks e) held _ o.self _
            (Holds-append o.self (owner_blocks e) held self_there)
            (if-Consumes (owner_blocks e) held _ _ _ _
              (access_all_then-Consumes (owner_blocks e) held _ o.part _
                (Held-append (part_blocks o.part) (owner_blocks e) held part_there)
                (pure-Consumes held (blocks_or_null owner_blocks) (some e)))
              (>>=-Consumes (owner_blocks e) held nothing_new _ _ _
                (Frees-Consumes (owner_blocks e) held _ (free_owner-Frees (some e)))
                (λ u. pure-Consumes held (blocks_or_null owner_blocks) none))))

pub free_peer-Frees : (p : Option ℕ) → Frees (part_blocks p) (free_peer p)
unfolding free_peer
free_peer-Frees none h xs ys d e = returns (d, e)
free_peer-Frees (some p) h xs ys d e = free-Frees (some p) h xs ys d e

pub new_peer-Leaves :
    (held : List ℕ) (peer_repr : ℕ)
    → Holds peer_repr held
    → Leaves held (λ p. p ∷ []) (new_peer peer_repr)
unfolding new_peer
new_peer-Leaves held peer_repr there =
    malloc_then-Consumes [] held (λ p. p ∷ []) _
      (λ self.
        access_then-Consumes (self ∷ []) held (λ p. p ∷ []) peer_repr _ (inr there)
          (pure-Consumes held (λ p. p ∷ []) self))
