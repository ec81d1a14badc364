-- ===== src/Heap/Thread/Laws.antt =====
-- What a thread leaves in use.
use btb.Heap.Laws.{
  part_blocks, nothing_new, Holds-append, Holds, Leaves, Consumes, >>=-Consumes, pure-Consumes,
  if-Consumes, free-Frees, Frees-first-Consumes,
}
use btb.Heap.Rules.{access_then-Consumes, access_all_then-Consumes, malloc_then-Consumes}
use btb.Heap.Defer.{defer-Consumes}
use btb.Heap.Message.{message_or_null, send_message-Leaves, read_message-Leaves}
use btb.Heap.Objects.{Owner, owner_blocks, conn_blocks, Opened, refused, opened, opened_blocks}
use btb.Heap.Objects.Laws.{
  new_message-Leaves, free_message-Frees, new_bitfield-Leaves, free_bitfield-Frees,
  new_decoded-Leaves, new_handshake_msg-Leaves, free_handshake_msg-Frees,
  new_handshake_msg_encoded-Leaves, free_handshake_msg_encoded-Frees,
}
use btb.Heap.Objects.Resources.{new_conn-Leaves, free_conn-Frees}
use btb.Heap.Thread.{
  Peering, run_state, run_interested, run_bitfield, await_bitfield_msg, compare_hashes, read_reply,
  take_reply, ask_for_pieces, copy_bitfield, with_encoded, send_handshake, run_session, run_opened,
  run_thread,
}
use btb.Heap.Thread.Pieces.{Usable, Usable-append, Usable-own, kept, run_rounds-Leaves}
use btb.Base.{ℕ, inl, inr, refl, List, [], ◌∷◌, ◌++◌, Option, none, some}

module _ (c : ℕ) (s : Peering) (held : List ℕ) (conn_there : Holds c held) (bf : Owner)
    (bf_there : Usable held bf) where
  run_state-Consumes :
      (msg : Option Owner) → Consumes (message_or_null msg) held kept (run_state c s bf msg)
  unfolding run_state
  run_state-Consumes none = pure-Consumes held kept []
  run_state-Consumes (some msg) =
      let own = owner_blocks msg in
      defer-Consumes own held kept _ _ (free_message-Frees (some msg)) (
        access_then-Consumes [] (own ++ held) kept msg.self _ (Usable-own msg held).0 (
          if-Consumes [] (own ++ held) kept _ _ _
            (run_rounds-Leaves c (own ++ held) (Holds-append c own held conn_there) bf
              (Usable-append bf own held bf_there) s.rounds)
            (pure-Consumes (own ++ held) kept [])))

  run_interested-Leaves :
      (msg : Owner) → Usable held msg → Leaves held kept (run_interested c s bf msg)
  unfolding run_interested
  run_interested-Leaves msg there =
      >>=-Consumes [] held nothing_new kept _ _
        (send_message-Leaves c held conn_there msg s.interested there.0 there.1)
        (λ sent.
          if-Consumes [] held kept sent _ _
            (>>=-Consumes [] held message_or_null kept _ _
              (read_message-Leaves c held conn_there s.state_reading) run_state-Consumes)
            (pure-Consumes held kept []))

module _ (c : ℕ) (s : Peering) (held : List ℕ) (conn_there : Holds c held) (bf : Owner)
    (bf_there : Usable held bf) where
  ask_for_pieces-Leaves : Leaves held kept (ask_for_pieces c s bf)
  unfolding ask_for_pieces
  ask_for_pieces-Leaves =
      >>=-Consumes [] held owner_blocks kept _ _ (new_message-Leaves held 0 none tt) (λ msg.
        let own = owner_blocks msg in
        defer-Consumes own held kept _ _ (free_message-Frees (some msg)) (
          run_interested-Leaves c s (own ++ held) (Holds-append c own held conn_there) bf
            (Usable-append bf own held bf_there) msg (Usable-own msg held)))

module _ (c : ℕ) (s : Peering) (held : List ℕ) (conn_there : Holds c held) where
  copy_bitfield-Leaves : (msg : Owner) → Usable held msg → Leaves held kept (copy_bitfield c s msg)
  unfolding copy_bitfield
  copy_bitfield-Leaves msg there = access_then-Consumes [] held kept msg.self _ there.0 (
      if-Consumes [] held kept _ _ _
        (>>=-Consumes [] held owner_blocks kept _ _ (new_bitfield-Leaves held msg.part there.1)
          (λ bf.
            let own = owner_blocks bf in
            defer-Consumes own held kept _ _ (free_bitfield-Frees (some bf)) (
              ask_for_pieces-Leaves c s (own ++ held) (Holds-append c own held conn_there) bf
                (Usable-own bf held))))
        (pure-Consumes held kept []))

module _ (c : ℕ) (s : Peering) (held : List ℕ) (conn_there : Holds c held) where
  run_bitfield-Consumes :
      (msg : Option Owner) → Consumes (message_or_null msg) held kept (run_bitfield c s msg)
  unfolding run_bitfield
  run_bitfield-Consumes none = pure-Consumes held kept []
  run_bitfield-Consumes (some msg) =
      let own = owner_blocks msg in
      defer-Consumes own held kept _ _ (free_message-Frees (some msg)) (
        copy_bitfield-Leaves c s (own ++ held) (Holds-append c own held conn_there) msg
          (Usable-own msg held))

module _ (c : ℕ) (s : Peering) (held : List ℕ) (conn_there : Holds c held) where
  await_bitfield_msg-Leaves : Leaves held kept (await_bitfield_msg c s)
  unfolding await_bitfield_msg
  await_bitfield_msg-Leaves = malloc_then-Consumes [] held kept _ (λ buf.
      let held' = buf ∷ held in
      defer-Consumes (buf ∷ []) held kept _ _ (free-Frees (some buf)) (
        >>=-Consumes [] held' message_or_null kept _ _
          (read_message-Leaves c held' (inr conn_there) s.bitfield_reading)
          (run_bitfield-Consumes c s held' (inr conn_there))))

  compare_hashes-Leaves :
      (hm reply : Owner)
      → Usable held hm
      → Usable held reply
      → Leaves held kept (compare_hashes c s hm (some reply))
  unfolding compare_hashes
  compare_hashes-Leaves hm reply hm_there there =
      access_then-Consumes [] held kept reply.self _ there.0 (
        access_then-Consumes [] held kept hm.self _ hm_there.0
          (if-Consumes [] held kept _ _ _ await_bitfield_msg-Leaves (pure-Consumes held kept [])))

module _ (c : ℕ) (s : Peering) (held : List ℕ) (conn_there : Holds c held) (hm : Owner)
    (hm_there : Usable held hm) where
  take_reply-Consumes :
      (reply : Option Owner) → Consumes (message_or_null reply) held kept (take_reply c s hm reply)
  unfolding take_reply compare_hashes
  take_reply-Consumes none =
      defer-Consumes [] held kept _ _ (free_handshake_msg-Frees none) (pure-Consumes held kept [])
  take_reply-Consumes (some reply) =
      let own = owner_blocks reply in
      defer-Consumes own held kept _ _ (free_handshake_msg-Frees (some reply)) (
        compare_hashes-Leaves c s (own ++ held) (Holds-append c own held conn_there) hm reply
          (Usable-append hm own held hm_there) (Usable-own reply held))

  module _ (encoded : Owner) (encoded_there : Usable held encoded) where
    read_reply-Leaves :
        (hm_buf : ℕ) → Holds hm_buf held → Leaves held kept (read_reply c s hm encoded hm_buf)
    unfolding read_reply
    read_reply-Leaves hm_buf there =
        access_then-Consumes [] held kept encoded.self _ encoded_there.0 (
          access_then-Consumes [] held kept c _ conn_there (
            access_then-Consumes [] held kept hm_buf _ there (
              if-Consumes [] held kept _ _ _
                (>>=-Consumes [] held message_or_null kept _ _
                  (new_decoded-Leaves held hm_buf s.decoding there) take_reply-Consumes)
                (pure-Consumes held kept []))))

module _ (c : ℕ) (s : Peering) (held : List ℕ) (conn_there : Holds c held) (hm : Owner)
    (hm_there : Usable held hm) where
  send_handshake-Leaves :
      (encoded : Owner) → Usable held encoded → Leaves held kept (send_handshake c s hm encoded)
  unfolding send_handshake
  send_handshake-Leaves encoded there = access_then-Consumes [] held kept encoded.self _ there.0 (
      access_then-Consumes [] held kept c _ conn_there (
        access_all_then-Consumes [] held kept encoded.part _ there.1 (
          if-Consumes [] held kept _ _ _
            (malloc_then-Consumes [] held kept _ (λ buf.
              defer-Consumes (buf ∷ []) held kept _ _ (free-Frees (some buf)) (
                read_reply-Leaves c s (buf ∷ held) (inr conn_there) hm
                  (Usable-append hm (buf ∷ []) held hm_there) encoded
                  (Usable-append encoded (buf ∷ []) held there) buf (inl refl))))
            (pure-Consumes held kept []))))

module _ (c : ℕ) (s : Peering) (held : List ℕ) (conn_there : Holds c held) (hm : Owner)
    (hm_there : Usable held hm) where
  with_encoded-Leaves : Leaves held kept (with_encoded c s hm)
  unfolding with_encoded
  with_encoded-Leaves =
      >>=-Consumes [] held owner_blocks kept _ _
        (new_handshake_msg_encoded-Leaves held hm hm_there.0 hm_there.1)
        (λ e.
          let own = owner_blocks e in
          defer-Consumes own held kept _ _ (free_handshake_msg_encoded-Frees (some e)) (
            send_handshake-Leaves c s (own ++ held) (Holds-append c own held conn_there) hm
              (Usable-append hm own held hm_there) e (Usable-own e held)))

module _ (c : ℕ) (s : Peering) (held : List ℕ) (conn_there : Holds c held) where
  run_session-Leaves : Leaves held kept (run_session c s)
  unfolding run_session
  run_session-Leaves =
      >>=-Consumes [] held owner_blocks kept _ _ (new_handshake_msg-Leaves held) (λ hm.
        let own = owner_blocks hm in
        defer-Consumes own held kept _ _ (free_handshake_msg-Frees (some hm)) (
          with_encoded-Leaves c s (own ++ held) (Holds-append c own held conn_there) hm
            (Usable-own hm held)))

module _ (s : Peering) (held : List ℕ) where
  run_opened-Consumes : (o : Opened) → Consumes (opened_blocks o) held kept (run_opened s o)
  unfolding run_opened
  run_opened-Consumes (refused socket) =
      >>=-Consumes (part_blocks socket) held (λ u. (part_blocks socket)) kept _ _
        (Frees-first-Consumes [] (part_blocks socket) held _ (free_conn-Frees none))
        (λ u. pure-Consumes held kept (part_blocks socket))
  run_opened-Consumes (opened c) =
      defer-Consumes (conn_blocks c) held kept _ _ (free_conn-Frees (some c))
        (run_session-Leaves c.self s (conn_blocks c ++ held) (inr (inl refl)))

-- On every path, a thread leaves in use what was there before and the blocks of its result.
pub run_thread-Leaves : (s : Peering) (held : List ℕ) → Leaves held kept (run_thread s)
unfolding run_thread
run_thread-Leaves s held =
    >>=-Consumes [] held opened_blocks kept _ _ (new_conn-Leaves held s.connecting)
      (run_opened-Consumes s held)
