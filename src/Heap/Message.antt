-- ===== src/Heap/Message.antt =====
-- The memory of `send_message_to_conn` and `read_message_from_conn` in src/message.c.
pub mod Answers
use btb.Heap.{Mem, pure, and_then, ◌>>=◌, ◌>>◌, malloc, free, access, access_all}
use btb.Heap.Laws.{
  part_blocks, nothing_new, Holds-append, Holds, Held, Leaves, Consumes, >>=-Consumes,
  pure-Consumes, if-Consumes, free-Frees,
}
use btb.Heap.Rules.{access_then-Consumes, malloc_then-Consumes}
use btb.Heap.Defer.{defer, defer-Consumes}
use btb.Heap.Objects.{
  Owner, owner_blocks, blocks_or_null, new_message, new_message_encoded, free_message_encoded,
}
use btb.Heap.Objects.Laws.{
  free_message_encoded-Frees, owner-Holds_self, new_message-Leaves, new_message_encoded-Leaves,
}
use btb.Base.{
  ℕ, Bool, true, false, not, ◌&&◌, inl, inr, refl, List, [], ◌∷◌, ◌++◌, Option, none, some, ltb,
  if◌then◌else◌,
}

-- The results of `lu_to_big_endian` and of `send_data`.
pub record Sending : Type 0 where
  pub fits : Bool
  pub sends : Bool

-- Whether a whole header of a message that is not empty arrives, the length of the payload that it
-- announces, and whether the payload arrives.
pub record Reading : Type 0 where
  pub header : Bool
  pub payload_len : ℕ
  pub payload : Bool

abbrev pub message_or_null : Option Owner → List ℕ
message_or_null = blocks_or_null owner_blocks

module _ (c : ℕ) where
  -- With the encoded message, if there is one.
  pub send_encoded : Sending → Option Owner → Mem Bool
  send_encoded s none = pure false
  send_encoded s (some e) =
      defer (free_message_encoded (some e)) (do access e.self; access c; pure s.sends)

  -- `send_message_to_conn`; `c` is the address of the connection.
  pub send_message : Owner → Sending → Mem Bool
  unfolding send_encoded
  send_message msg s = do encoded ← new_message_encoded msg s.fits; send_encoded s encoded

  -- After the header: a failure to read the payload returns NULL.
  pub fill_payload : Reading → ℕ → Mem (Option Owner)
  fill_payload r payload_buf = do
    let finish = do msg ← new_message r.payload_len (some payload_buf); pure (some msg)
    let receive = do access c; access payload_buf; if r.payload then finish else pure none
    if ltb 0 r.payload_len then receive else finish

  -- `read_message_from_conn`
  pub read_message : Reading → Mem (Option Owner)
  unfolding fill_payload
  read_message r = do
    access c
    let read_payload = do
      payload_buf ← malloc
      defer (free (some payload_buf)) (fill_payload r payload_buf)
    if r.header then read_payload else pure none

module _ (c : ℕ) (held : List ℕ) (conn_there : Holds c held) where
  send_encoded-Consumes :
      (s : Sending) (encoded : Option Owner)
      → Consumes (message_or_null encoded) held nothing_new (send_encoded c s encoded)
  unfolding send_encoded
  send_encoded-Consumes s none = pure-Consumes held nothing_new false
  send_encoded-Consumes s (some e) =
      defer-Consumes (owner_blocks e) held nothing_new _ _ (free_message_encoded-Frees (some e)) (
        access_then-Consumes [] (owner_blocks e ++ held) nothing_new e.self _
          (owner-Holds_self held e)
          (access_then-Consumes [] (owner_blocks e ++ held) nothing_new c _
            (Holds-append c (owner_blocks e) held conn_there)
            (pure-Consumes (owner_blocks e ++ held) nothing_new s.sends)))

  pub send_message-Leaves :
      (msg : Owner) (s : Sending)
      → Holds msg.self held
      → Held (part_blocks msg.part) held
      → Leaves held nothing_new (send_message c msg s)
  unfolding send_message
  send_message-Leaves msg s self_there part_there =
      >>=-Consumes [] held message_or_null nothing_new _ _
        (new_message_encoded-Leaves held msg self_there part_there s.fits) (send_encoded-Consumes s)

  fill_payload-Leaves :
      (r : Reading) (payload_buf : ℕ)
      → Holds payload_buf held
      → Leaves held message_or_null (fill_payload c r payload_buf)
  unfolding fill_payload
  fill_payload-Leaves r payload_buf buf_there =
      let finish =
        >>=-Consumes [] held owner_blocks message_or_null _ _
          (new_message-Leaves held r.payload_len (some payload_buf) (buf_there, tt))
          (λ msg. pure-Consumes held message_or_null (some msg)) in
      if-Consumes [] held message_or_null _ _ _
        (access_then-Consumes [] held message_or_null c _ conn_there (
          access_then-Consumes [] held message_or_null payload_buf _ buf_there (
            if-Consumes [] held message_or_null _ _ _ finish
              (pure-Consumes held message_or_null none))))
        finish

module _ (c : ℕ) (held : List ℕ) (conn_there : Holds c held) where
  pub read_message-Leaves : (r : Reading) → Leaves held message_or_null (read_message c r)
  unfolding read_message
  read_message-Leaves r = access_then-Consumes [] held message_or_null c _ conn_there (
      if-Consumes [] held message_or_null _ _ _
        (malloc_then-Consumes [] held message_or_null _ (λ payload_buf.
          defer-Consumes (payload_buf ∷ []) held message_or_null _ _ (free-Frees (some payload_buf))
            (fill_payload-Leaves c (payload_buf ∷ held) (inr conn_there) r payload_buf (inl refl))))
        (pure-Consumes held message_or_null none))
