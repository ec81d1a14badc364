-- ===== src/Client/DownloadPiece/Received.antt =====
-- `download_piece` of src/client.c: what a call that returns true has received, from any peer.
use btb.PieceProgress.{PieceProgress, block_size}
use btb.Conn.{Conn}
use btb.Message.{
  Message, init_message, send_message_to_conn, read_message_from_conn, msg_id_request, msg_id_piece,
}
use btb.BigEndian.{big_endian_to_lu}
use btb.Client.DownloadPiece.{
  copy_block, check_block, store_block, receive_block, download_block, download_loop,
  download_piece, num_blocks, Progress, request_payload,
}
use btb.Base.{
  ℕ, zero, suc, ◌-◌, ◌≡◌, refl, Bool, true, false, List, Option, none, some, Result, ok, ◌>>=◌, ◌*◌,
  ◌%◌, u64_mod, ◌+◌, drop, read_range, write_range, ◌==◌, ==_iff, if◌then◌else◌, IsWhenOk,
  >>=-IsWhenOk, IsWhenOk-ok, >>=-ok, arith, sym, ◌∙◌, ap,
}

-- One round of the loop, from the piece `p` and the connection `c` to `p'` and `c'`: the request
-- for the block is sent whole, the message that is then read from the connection is of the right
-- kind, for this piece and this offset, and its bytes are copied to the offset.
pub record Block (malloc : ℕ → List ℕ) (p p' : PieceProgress) (c c' : Option Conn) : Type 0 where
  pub payload : List ℕ
  pub request : Message
  pub asking : Option Conn
  pub msg : Message
  pub bytes : List ℕ
  pub buf : List ℕ
  pub asked : request_payload malloc p (p.downloaded * block_size % u64_mod) ≡ ok payload
  pub made : init_message msg_id_request 12 payload ≡ ok request
  pub sent : send_message_to_conn malloc request c ≡ ok (asking, true)
  pub received : read_message_from_conn asking ≡ ok (c', some msg)
  pub is_piece : msg.id ≡ msg_id_piece
  pub same_index : big_endian_to_lu msg.payload 4 ≡ ok p.index
  pub same_offset :
      big_endian_to_lu (drop 4 msg.payload) 4 ≡ ok (p.downloaded * block_size % u64_mod)
  pub taken : read_range msg.payload 8 ((msg.payload_len + u64_mod - 4 - 4) % u64_mod) ≡ ok bytes
  pub copied : write_range p.buf (p.downloaded * block_size % u64_mod) bytes ≡ ok buf
  pub counted : p' ≡ record p { buf = buf; downloaded = p.downloaded + 1 }

-- `n` rounds, each from the piece and the connection that the one before has left, end with `p'`
-- and `c'`.
pub data Blocks (malloc : ℕ → List ℕ) (p' : PieceProgress) (c' : Option Conn)
    : ℕ → PieceProgress → Option Conn → Type 0 where
  all_there : {p : PieceProgress} {c : Option Conn} → p ≡ p' → c ≡ c' → Blocks malloc p' c' 0 p c
  one_more :
      {n : ℕ} {p q : PieceProgress} {c d : Option Conn}
      → Block malloc p q c d
      → Blocks malloc p' c' n q d
      → Blocks malloc p' c' (suc n) p c

module _ (malloc : ℕ → List ℕ) (c₀ : Option Conn) where
  abbrev WhenStored : PieceProgress → Progress → Type 0
  WhenStored p (p', c, true) = Block malloc p p' c₀ c
  WhenStored p (p', c, false) = Unit

  if-WhenStored :
      (p : PieceProgress) (b : Bool) (r : Result Progress) (c : Option Conn)
      → (b ≡ true → IsWhenOk (WhenStored p) r)
      → IsWhenOk (WhenStored p) (if b then r else ok (p, c, false))
  if-WhenStored p true r c h = h refl
  if-WhenStored p false r c h = tt

-- The block has been asked for.
record Asked (malloc : ℕ → List ℕ) (p : PieceProgress) (c asking : Option Conn) : Type 0 where
  pub payload : List ℕ
  pub request : Message
  pub asked : request_payload malloc p (p.downloaded * block_size % u64_mod) ≡ ok payload
  pub made : init_message msg_id_request 12 payload ≡ ok request
  pub sent : send_message_to_conn malloc request c ≡ ok (asking, true)

module _ (malloc : ℕ → List ℕ) (p : PieceProgress) (c₀ conn conn' : Option Conn) (msg : Message)
    (before : Asked malloc p c₀ conn)
    (received : read_message_from_conn conn ≡ ok (conn', some msg)) where
  abbrev offset : ℕ
  offset = p.downloaded * block_size % u64_mod

  copy_block-WhenStored :
      (got : ℕ)
      → msg.id ≡ msg_id_piece
      → big_endian_to_lu msg.payload 4 ≡ ok p.index
      → big_endian_to_lu (drop 4 msg.payload) 4 ≡ ok got
      → got ≡ offset
      → IsWhenOk (WhenStored malloc c₀ p) (copy_block p got conn' msg)
  unfolding copy_block
  copy_block-WhenStored got is_piece index at same =
      let size = (msg.payload_len + u64_mod - 4 - 4) % u64_mod in
      >>=-IsWhenOk (WhenStored malloc c₀ p) (read_range msg.payload 8 size) _ λ bytes e.
        >>=-IsWhenOk (WhenStored malloc c₀ p) (write_range p.buf got bytes) _ λ buf e'. record {
          payload = before.payload;
          request = before.request;
          asking = conn;
          msg = msg;
          bytes = bytes;
          buf = buf;
          asked = before.asked;
          made = before.made;
          sent = before.sent;
          received = received;
          is_piece = is_piece;
          same_index = index;
          same_offset = at ∙ ap ok same;
          taken = e;
          copied = ap (λ (o : ℕ). write_range p.buf o bytes) (sym same) ∙ e';
          counted = refl;
        }

  store_block-WhenStored : IsWhenOk (WhenStored malloc c₀ p) (store_block p offset conn' msg)
  unfolding store_block check_block
  store_block-WhenStored = if-WhenStored malloc c₀ p (msg.id == msg_id_piece) _ conn' λ is_piece.
      >>=-IsWhenOk (WhenStored malloc c₀ p) (big_endian_to_lu msg.payload 4) _ λ index e.
        >>=-IsWhenOk (WhenStored malloc c₀ p) (big_endian_to_lu (drop 4 msg.payload) 4) _ λ got e'.
          if-WhenStored malloc c₀ p (p.index == index) _ conn' λ same.
            if-WhenStored malloc c₀ p (offset == got) _ conn' λ at.
              copy_block-WhenStored got ((==_iff msg.id msg_id_piece).0 is_piece)
                (e ∙ ap ok (sym ((==_iff p.index index).0 same))) e'
                (sym ((==_iff offset got).0 at))

receive_block-WhenStored :
    (malloc : ℕ → List ℕ) (p : PieceProgress) (c₀ conn : Option Conn)
    (got : Option Conn × Option Message)
    → Asked malloc p c₀ conn
    → read_message_from_conn conn ≡ ok got
    → IsWhenOk (WhenStored malloc c₀ p) (receive_block p (p.downloaded * block_size % u64_mod) got)
unfolding receive_block
receive_block-WhenStored malloc p c₀ conn (conn', none) before e = tt
receive_block-WhenStored malloc p c₀ conn (conn', some msg) before e =
    store_block-WhenStored malloc p c₀ conn conn' msg before e

-- What follows the sending of the request.
abbrev answered : PieceProgress → Option Conn × Bool → Result Progress
answered p (c₁, sent) = elim sent [
  | false ↦ ok (p, c₁, false)
  | true ↦ do
    received ← read_message_from_conn c₁
    receive_block p (p.downloaded * block_size % u64_mod) received
]

answered-WhenStored :
    (malloc : ℕ → List ℕ) (p : PieceProgress) (c c₁ : Option Conn) (sent : Bool) (payload : List ℕ)
    (request : Message)
    → request_payload malloc p (p.downloaded * block_size % u64_mod) ≡ ok payload
    → init_message msg_id_request 12 payload ≡ ok request
    → send_message_to_conn malloc request c ≡ ok (c₁, sent)
    → IsWhenOk (WhenStored malloc c p) (answered p (c₁, sent))
answered-WhenStored malloc p c c₁ false payload request asked made sent = tt
answered-WhenStored malloc p c c₁ true payload request asked made sent =
    >>=-IsWhenOk (WhenStored malloc c p) (read_message_from_conn c₁) _ λ received e₄.
      receive_block-WhenStored malloc p c c₁ received
        (record { payload = payload; request = request; asked = asked; made = made; sent = sent })
        e₄

download_block-WhenStored :
    (malloc : ℕ → List ℕ) (p : PieceProgress) (c : Option Conn)
    → IsWhenOk (WhenStored malloc c p) (download_block malloc p c)
unfolding download_block receive_block
download_block-WhenStored malloc p c =
    let at = p.downloaded * block_size % u64_mod in
    let P = WhenStored malloc c p in
    >>=-IsWhenOk P (request_payload malloc p at) _ λ payload e₁.
      >>=-IsWhenOk P (init_message msg_id_request 12 payload) _ λ request e₂.
        >>=-IsWhenOk P (send_message_to_conn malloc request c) _
          λ (c₁, sent) e₃. answered-WhenStored malloc p c c₁ sent payload request e₁ e₂ e₃

-- The rounds behind the first, if it has stored its block.
abbrev rounds : (ℕ → List ℕ) → ℕ → PieceProgress → Option Conn → Bool → Result Progress
rounds malloc left q d true = download_loop malloc left q d
rounds malloc left q d false = ok (q, d, false)

rounds-Blocks :
    (malloc : ℕ → List ℕ) (left : ℕ) (p p' q : PieceProgress) (c c' d : Option Conn) (stored : Bool)
    → WhenStored malloc c p (q, d, stored)
    → rounds malloc left q d stored ≡ ok (p', c', true)
    → (download_loop malloc left q d ≡ ok (p', c', true) → Blocks malloc p' c' left q d)
    → Blocks malloc p' c' (suc left) p c
rounds-Blocks malloc left p p' q c c' d false v e rest = cc
rounds-Blocks malloc left p p' q c c' d true v e rest = one_more v (rest e)

download_loop-Blocks :
    (malloc : ℕ → List ℕ) (left : ℕ) (p p' : PieceProgress) (c c' : Option Conn)
    → download_loop malloc left p c ≡ ok (p', c', true)
    → Blocks malloc p' c' left p c
unfolding download_loop
download_loop-Blocks malloc zero p p' c c' e =
    let same_p : p ≡ p' = cc in let same_c : c ≡ c' = cc in all_there same_p same_c
download_loop-Blocks malloc (suc left) p p' c c' e =
    let ((q, d, stored), first, rest) = >>=-ok (download_block malloc p c) _ e in
    rounds-Blocks malloc left p p' q c c' d stored
      (IsWhenOk-ok (WhenStored malloc c p) (download_block malloc p c)
        (download_block-WhenStored malloc p c) first)
      rest (λ more. download_loop-Blocks malloc left q p' d c' more)

-- Whatever the peer sends: if `download_piece` returns true for a piece of which nothing was
-- downloaded, then it has made one round for each of the piece's `num_blocks` blocks in order,
-- each on the connection and the buffer that the round before has left: the request for the block
-- went out whole, the message that was read from the connection next is a `Piece` message with the
-- piece's index and the block's offset, and its bytes were copied to that offset. The piece and
-- the connection that are returned are those that the last round has left.
pub download_piece-Blocks :
    (malloc : ℕ → List ℕ) (p p' : PieceProgress) (c c' : Option Conn)
    → p.downloaded ≡ 0
    → download_piece malloc p c ≡ ok (p', c', true)
    → Blocks malloc p' c' (num_blocks p.size) p c
unfolding download_piece
download_piece-Blocks malloc p p' c c' fresh e =
    let left : num_blocks p.size - p.downloaded ≡ num_blocks p.size = omega arith in
    rw left at (download_loop-Blocks malloc (num_blocks p.size - p.downloaded) p p' c c' e)
