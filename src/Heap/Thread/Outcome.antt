-- ===== src/Heap/Thread/Outcome.antt =====
-- How many blocks outlive a thread, by the path that it takes.
use btb.Heap.{Heap, Mem, ◌>>=◌, free, access, access_all}
use btb.Heap.Laws.{part_blocks, IsHeap, Returns, returns}
use btb.Heap.Answers.{
  Answers, IfDefined, returned, >>=-Answers, then-Answers, unit_then-Answers, malloc_then-Answers,
  pure-Answers, defer-Answers,
}
use btb.Heap.Objects.{
  Owner, new_message, free_message, new_bitfield, free_bitfield, new_handshake_msg,
  free_handshake_msg, new_handshake_msg_encoded, free_handshake_msg_encoded, new_decoded, Opened,
  refused, opened, new_conn, free_conn,
}
use btb.Heap.Objects.Answers.{is_some, decodes, new_decoded-Answers, Outcome, new_conn-Answers}
use btb.Heap.Message.{send_message, read_message}
use btb.Heap.Message.Answers.{delivers, arrives, send_message-Answers, read_message-Answers}
use btb.Heap.Thread.{
  Peering, run_state, run_interested, run_bitfield, await_bitfield_msg, compare_hashes, read_reply,
  take_reply, ask_for_pieces, copy_bitfield, with_encoded, send_handshake, run_session, run_opened,
  run_thread,
}
use btb.Heap.Thread.Stored.{Counts, when_true, when-Answers, stored_count, run_rounds-Answers}
use btb.Heap.Thread.Laws.{run_thread-Leaves}
use btb.Base.{
  ℕ, ◌≡◌, refl, Bool, true, false, ◌&&◌, List, [], ◌++◌, length, Option, none, some, if◌then◌else◌,
  arith,
}

-- The pieces stored after each message; any failure before the loop leaves none.
abbrev pub after_state : Peering → ℕ
after_state s = when_true (arrives s.state_reading) (when_true s.is_unchoke (stored_count s.rounds))

abbrev pub after_bitfield : Peering → ℕ
after_bitfield s =
    when_true (arrives s.bitfield_reading)
      (when_true s.is_bitfield (when_true (delivers s.interested) (after_state s)))

abbrev pub after_handshake : Peering → ℕ
after_handshake s = when_true s.handshake_sent (
    when_true s.reply_received
      (when_true (decodes s.decoding) (when_true s.same_hash (after_bitfield s))))

-- A call that may return NULL, and what follows.
maybe-Answers :
    (b : Bool) (n : ℕ) (call : Mem (Option Owner)) (rest : Option Owner → Mem (List ℕ))
    → Answers (λ o. is_some o ≡ b) call
    → ((o : Option Owner) → Answers (Counts (when_true (is_some o) n)) (rest o))
    → Answers (Counts (when_true b n)) (call >>= rest)
maybe-Answers b n call rest p next =
    >>=-Answers (λ o. is_some o ≡ b) (Counts (when_true b n)) call rest p (λ o e. rw (← e) (next o))

module _ (c : ℕ) (s : Peering) where
  state-Answers :
      (bf : Owner) (msg : Option Owner)
      → Answers
          (Counts (when_true (is_some msg) (when_true s.is_unchoke (stored_count s.rounds))))
          (run_state c s bf msg)
  unfolding run_state
  state-Answers bf none = pure-Answers _ [] refl
  state-Answers bf (some msg) = defer-Answers _ (free_message (some msg)) _ (
      unit_then-Answers _ (access msg.self) _
        (when-Answers s.is_unchoke _ _ (run_rounds-Answers c bf s.rounds)))

  interested-Answers :
      (bf msg : Owner)
      → Answers
          (Counts (when_true (delivers s.interested) (after_state s)))
          (run_interested c s bf msg)
  unfolding run_interested
  interested-Answers bf msg =
      let n = when_true (delivers s.interested) (after_state s) in
      >>=-Answers (λ r. r ≡ delivers s.interested) (Counts n) (send_message c msg s.interested) _
        (send_message-Answers c msg s.interested)
        (λ sent e. rw (← e) (
          when-Answers sent _ _ (
            maybe-Answers (arrives s.state_reading) _ (read_message c s.state_reading) _
              (read_message-Answers c s.state_reading) (state-Answers bf))))

  copy_bitfield-Answers :
      (msg : Owner)
      → Answers
          (Counts (when_true s.is_bitfield (when_true (delivers s.interested) (after_state s))))
          (copy_bitfield c s msg)
  unfolding copy_bitfield ask_for_pieces
  copy_bitfield-Answers msg = unit_then-Answers _ (access msg.self) _ (
      when-Answers s.is_bitfield _ _ (
        then-Answers _ (new_bitfield msg.part) _ (λ bf.
          defer-Answers _ (free_bitfield (some bf)) _ (
            then-Answers _ (new_message 0 none) _ (λ interested_msg.
              defer-Answers _ (free_message (some interested_msg)) _
                (interested-Answers bf interested_msg))))))

  bitfield-Answers :
      (msg : Option Owner)
      → Answers
          (Counts (
            when_true
              (is_some msg)
              (when_true s.is_bitfield (when_true (delivers s.interested) (after_state s)))))
          (run_bitfield c s msg)
  unfolding run_bitfield
  bitfield-Answers none = pure-Answers _ [] refl
  bitfield-Answers (some msg) =
      defer-Answers _ (free_message (some msg)) _ (copy_bitfield-Answers msg)

  await_bitfield-Answers : Answers (Counts (after_bitfield s)) (await_bitfield_msg c s)
  unfolding await_bitfield_msg
  await_bitfield-Answers = malloc_then-Answers _ _ (λ buf. defer-Answers _ (free (some buf)) _ (
      maybe-Answers (arrives s.bitfield_reading) _ (read_message c s.bitfield_reading) _
        (read_message-Answers c s.bitfield_reading) bitfield-Answers))

  reply-Answers :
      (hm : Owner) (reply : Option Owner)
      → Answers
          (Counts (when_true (is_some reply) (when_true s.same_hash (after_bitfield s))))
          (take_reply c s hm reply)
  unfolding take_reply compare_hashes
  reply-Answers hm none = defer-Answers _ (free_handshake_msg none) _ (pure-Answers _ [] refl)
  reply-Answers hm (some reply) = defer-Answers _ (free_handshake_msg (some reply)) _ (
      unit_then-Answers _ (access reply.self) _ (
        unit_then-Answers _ (access hm.self) _
          (when-Answers s.same_hash _ _ await_bitfield-Answers)))

  read_reply-Answers :
      (hm encoded : Owner) (buf : ℕ)
      → Answers
          (Counts (
            when_true s.reply_received
              (when_true (decodes s.decoding) (when_true s.same_hash (after_bitfield s)))))
          (read_reply c s hm encoded buf)
  unfolding read_reply
  read_reply-Answers hm encoded buf = unit_then-Answers _ (access encoded.self) _ (
      unit_then-Answers _ (access c) _ (
        unit_then-Answers _ (access buf) _ (
          when-Answers s.reply_received _ _ (
            maybe-Answers (decodes s.decoding) _ (new_decoded buf s.decoding) _
              (new_decoded-Answers buf s.decoding) (reply-Answers hm)))))

  session-Answers : Answers (Counts (after_handshake s)) (run_session c s)
  unfolding run_session with_encoded send_handshake
  session-Answers = then-Answers _ new_handshake_msg _ (λ hm.
      defer-Answers _ (free_handshake_msg (some hm)) _ (
        then-Answers _ (new_handshake_msg_encoded hm) _ (λ e.
          defer-Answers _ (free_handshake_msg_encoded (some e)) _ (
            unit_then-Answers _ (access e.self) _ (
              unit_then-Answers _ (access c) _ (
                unit_then-Answers _ (access_all e.part) _ (
                  when-Answers s.handshake_sent _ _ (
                    malloc_then-Answers _ _ (λ buf.
                      defer-Answers _ (free (some buf)) _ (read_reply-Answers hm e buf))))))))))

-- One socket, if the address is found and no connection is made.
abbrev pub remaining : Peering → ℕ
remaining s =
    let e = s.connecting in
    if e.resolves
    then (if e.clock_ok && (e.in_time && e.connects) then after_handshake s else 1)
    else 0

remaining_of : Peering → Bool → Bool → ℕ
remaining_of s resolved joined = if resolved then (if joined then after_handshake s else 1) else 0

opened-Answers :
    (s : Peering) (resolved joined : Bool) (o : Opened)
    → Outcome resolved joined o
    → Answers (Counts (remaining_of s resolved joined)) (run_opened s o)
unfolding run_opened remaining_of
opened-Answers s false joined (opened c) (e, n) = absurd (ground arith)
opened-Answers s true false (opened c) (e, n) = absurd (ground arith)
opened-Answers s true true (opened c) p =
    defer-Answers _ (free_conn (some c)) _ (session-Answers c.self s)
opened-Answers s false joined (refused socket) (e, n) =
    defer-Answers _ (free_conn none) _ (pure-Answers _ (part_blocks socket) n)
opened-Answers s true false (refused socket) (e, n) =
    defer-Answers _ (free_conn none) _ (pure-Answers _ (part_blocks socket) n)
opened-Answers s true true (refused socket) (e, n) = absurd (ground arith)

run_thread-Answers : (s : Peering) → Answers (Counts (remaining s)) (run_thread s)
unfolding run_thread remaining_of
run_thread-Answers s =
    let e = s.connecting in
    let joined = e.clock_ok && (e.in_time && e.connects) in
    >>=-Answers (Outcome e.resolves joined) (Counts (remaining s)) (new_conn e) _
      (new_conn-Answers e) (opened-Answers s e.resolves joined)

module _ {A : Type 0} {P : A → Heap → Type 0} {Q : A → Type 0} where
  both : {r : Option (A × Heap)} → Returns P r → IfDefined Q r → Returns (λ a h. P a h × Q a) r
  both (returns p) (returned q) = returns (p, q)

-- Whatever the calls on the connection and the tests of `download_torrent_thread_fun` come to, its
-- run uses no block that is not in use and frees none twice, and leaves in use what was there
-- before and `remaining` blocks more: one for each round in which the peer has the piece and every
-- block of it arrives, if the session gets as far as the unchoke; none, if it ends before or the
-- address is not found; and the open socket, if the address is found and no connection is made.
pub run_thread-memory :
    (s : Peering) (h : Heap)
    → IsHeap h
    → Returns
        (λ left h'. (IsHeap h' × (h'.live ≡ left ++ h.live)) × (length left ≡ remaining s))
        (run_thread s h)
run_thread-memory s h d = both (run_thread-Leaves s [] h h.live d refl tt) (run_thread-Answers s h)
