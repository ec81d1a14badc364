-- ===== src/Client/DownloadPiece/Kept.antt =====
-- `download_piece` of src/client.c: what a call leaves as it was.
use btb.PieceProgress.{PieceProgress, block_size}
use btb.Conn.{Conn}
use btb.Message.{
  Message, init_message, send_message_to_conn, read_message_from_conn, msg_id_request, msg_id_piece,
}
use btb.BigEndian.{big_endian_to_lu}
use btb.Client.DownloadPiece.{
  copy_block, check_block, store_block, receive_block, download_block, download_loop,
  download_piece, num_blocks, Progress, request_payload,
}
use btb.Base.{
  ℕ, zero, suc, ◌-◌, ◌≡◌, refl, Bool, true, false, List, Option, none, some, Result, ok, failed,
  fault, length, ◌∙◌, length-write_range, ◌*◌, ◌%◌, u64_mod, ◌+◌, drop, read_range, write_range,
  ◌==◌, if◌then◌else◌, IsWhenOk, >>=-IsWhenOk, IsWhenOk-ok, Bool-cases, inl, inr,
}

-- The piece after a call is the same piece: its index, its size and the size of its buffer.
pub record IsSame (p p' : PieceProgress) : Type 0 where
  pub same_index : p'.index ≡ p.index
  pub same_size : p'.size ≡ p.size
  pub same_length : length p'.buf ≡ length p.buf

abbrev Keeps : PieceProgress → Progress → Type 0
Keeps p (p', c, stored) = IsSame p p'

kept : (p : PieceProgress) → IsSame p p
kept p = record { same_index = refl; same_size = refl; same_length = refl }

kept_twice : (p q r : PieceProgress) → IsSame p q → IsSame q r → IsSame p r
kept_twice p q r v w = record {
  same_index = w.same_index ∙ v.same_index;
  same_size = w.same_size ∙ v.same_size;
  same_length = w.same_length ∙ v.same_length;
}

if-Keeps :
    (i : PieceProgress) (b : Bool) (r r' : Result Progress)
    → IsWhenOk (Keeps i) r
    → IsWhenOk (Keeps i) r'
    → IsWhenOk (Keeps i) (if b then r else r')
if-Keeps i true r r' h h' = h
if-Keeps i false r r' h h' = h'

copy_block-Keeps :
    (p : PieceProgress) (offset : ℕ) (c : Option Conn) (msg : Message)
    → IsWhenOk (Keeps p) (copy_block p offset c msg)
unfolding copy_block
copy_block-Keeps p offset c msg =
    let size = (msg.payload_len + u64_mod - 4 - 4) % u64_mod in
    >>=-IsWhenOk (Keeps p) (read_range msg.payload 8 size) _ λ bytes e.
      >>=-IsWhenOk (Keeps p) (write_range p.buf offset bytes) _ λ buf e'. record {
        same_index = refl;
        same_size = refl;
        same_length = length-write_range p.buf bytes offset buf e';
      }

check_block-Keeps :
    (p : PieceProgress) (offset : ℕ) (c : Option Conn) (msg : Message)
    → IsWhenOk (Keeps p) (check_block p offset c msg)
unfolding check_block
check_block-Keeps p offset c msg =
    >>=-IsWhenOk (Keeps p) (big_endian_to_lu msg.payload 4) _ λ index e.
      >>=-IsWhenOk (Keeps p) (big_endian_to_lu (drop 4 msg.payload) 4) _ λ got e'.
        if-Keeps p (p.index == index) _ _
          (if-Keeps p (offset == got) _ _ (copy_block-Keeps p got c msg) (kept p)) (kept p)

receive_block-Keeps :
    (p : PieceProgress) (offset : ℕ) (received : Option Conn × Option Message)
    → IsWhenOk (Keeps p) (receive_block p offset received)
unfolding receive_block store_block
receive_block-Keeps p offset (c, none) = kept p
receive_block-Keeps p offset (c, some msg) =
    if-Keeps p (msg.id == msg_id_piece) _ _ (check_block-Keeps p offset c msg) (kept p)

download_block-Keeps :
    (malloc : ℕ → List ℕ) (p : PieceProgress) (c : Option Conn)
    → IsWhenOk (Keeps p) (download_block malloc p c)
unfolding download_block
download_block-Keeps malloc p c =
    let offset = p.downloaded * block_size % u64_mod in
    >>=-IsWhenOk (Keeps p) (request_payload malloc p offset) _ λ payload e₁.
      >>=-IsWhenOk (Keeps p) (init_message msg_id_request 12 payload) _ λ request e₂.
        >>=-IsWhenOk (Keeps p) (send_message_to_conn malloc request c) _ λ (c₁, sent) e₃.
          elim (Bool-cases sent) [
            | inl went ↦ rw went (
                >>=-IsWhenOk (Keeps p) (read_message_from_conn c₁) _
                  λ received e₄. receive_block-Keeps p offset received)
            | inr stopped ↦ rw stopped (kept p)
          ]

widen :
    (p q : PieceProgress) (r : Result Progress)
    → IsSame p q
    → IsWhenOk (Keeps q) r
    → IsWhenOk (Keeps p) r
widen p q (ok (p', c, stored)) v h = kept_twice p q p' v h
widen p q failed v h = tt
widen p q fault v h = tt

download_loop-Keeps :
    (malloc : ℕ → List ℕ) (left : ℕ) (p : PieceProgress) (c : Option Conn)
    → IsWhenOk (Keeps p) (download_loop malloc left p c)
unfolding download_loop
download_loop-Keeps malloc zero p c = kept p
download_loop-Keeps malloc (suc left) p c =
    >>=-IsWhenOk (Keeps p) (download_block malloc p c) _ λ (p', c', stored) e.
      let same : IsSame p p' =
        IsWhenOk-ok (Keeps p) (download_block malloc p c) (download_block-Keeps malloc p c) e in
      elim (Bool-cases stored) [
        | inl went ↦ rw went (
            widen p p' (download_loop malloc left p' c') same
              (download_loop-Keeps malloc left p' c'))
        | inr stopped ↦ rw stopped same
      ]

-- A call that returns has changed neither the piece's index nor its size, nor the size of its
-- buffer.
pub download_piece-Keeps :
    (malloc : ℕ → List ℕ) (p p' : PieceProgress) (c c' : Option Conn) (done : Bool)
    → download_piece malloc p c ≡ ok (p', c', done)
    → IsSame p p'
unfolding download_piece
download_piece-Keeps malloc p p' c c' done e =
    let left = num_blocks p.size - p.downloaded in
    IsWhenOk-ok (Keeps p) (download_loop malloc left p c) (download_loop-Keeps malloc left p c) e
