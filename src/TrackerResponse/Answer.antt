-- ===== src/TrackerResponse/Answer.antt =====
-- A whole answer of the tracker: the interval and the peers, in the order that `contact_tracker`
-- reads.
use btb.HandshakeMsg.{codes}
use btb.Tokenizer.{Tokenizer, init_tokenizer}
use btb.Tokenizer.Bencode.{
  Value, integer, string, dict, done, entry, encode, tokens, decimal, IsValue, Token,
}
use btb.Tokenizer.Decimal.{decimal-IsDigit, length-decimal_pos}
use btb.Tokenizer.RoundTrip.Place.{Reads}
use btb.Tokenizer.RoundTrip.{read_whole}
use btb.TorrentFile.{TorrentFile}
use btb.TorrentFile.Parse.{next_token, strtoll}
use btb.TorrentFile.Parse.Numbers.{strtoll-decimal}
use btb.TorrentFile.Parse.Tokens.{Reads-First, next_token-First}
use btb.Peer.{Peer}
use btb.TrackerResponse.{
  TrackerResponse, Curl, contact_tracker, get_request, begins_text, parse_interval, parse_peers,
  copy_peers,
}
use btb.TrackerResponse.Peers.{IsPeer, compact, compact_all, copy_peers-compact_all}
use btb.Base.{
  ℕ, ◌*◌, ◌/◌, ◌%◌, ◌^◌, ◌<◌, ◌≡◌, refl, ◌∙◌, true, false, List, [], ◌∷◌, some, ok, length,
  length-append, All, arith, append-nil, ap, ◌>>=◌, read_range-append, same_bytes_refl,
}

-- The answer with the fields that the code asks for.
unfoldable pub answer : ℕ → List Peer → Value
answer interval peers = dict (
    entry (codes "interval") (integer false (decimal interval))
      (entry (codes "peers") (string (compact_all peers)) done))

length-compact_all :
    (peers : List Peer) → All IsPeer peers → length (compact_all peers) ≡ 6 * length peers
length-compact_all [] h = refl
length-compact_all (p ∷ peers) (v, h) = omega (
  arith,
  length-append (compact p) (compact_all peers),
  length-append p.address (p.port / 256 ∷ p.port % 256 ∷ []),
  v.four,
  length-compact_all peers h,
)

answer-IsValue :
    (interval : ℕ) (peers : List Peer)
    → All IsPeer peers
    → length peers < 2 ^ 60
    → IsValue (answer interval peers)
unfolding answer IsValue
answer-IsValue interval peers h small = (
  omega arith,
  (length-decimal_pos interval, decimal-IsDigit interval),
  (omega arith, omega (arith, length-compact_all peers h), tt),
)

-- A token that is the whole text.
begins_text_whole :
    (text : List ℕ) (t : Tokenizer)
    → t.token ≡ text
    → t.token_size ≡ length text
    → begins_text text t ≡ ok true
unfolding begins_text
begins_text_whole text t named size =
    rw (size, named, read_range-append [] text (0 ∷ []), same_bytes_refl text) refl

-- The calls of `next` that the two parts make.
module _ (r : TrackerResponse) (t a b : Tokenizer) where
  parse_peers_steps :
      begins_text (codes "peers") t ≡ ok true
      → next_token t ≡ ok (some a)
      → next_token a ≡ ok (some b)
      → parse_peers r t ≡ (
          copy_peers (b.token_size / 6) 0 b.token >>= λ peers.
          ok (record r { peers = peers }, true))
  unfolding parse_peers
  parse_peers_steps named e f = rw (named, e, f) refl

  parse_interval_steps :
      (c d e : Tokenizer)
      → begins_text (codes "interval") t ≡ ok true
      → next_token t ≡ ok (some a)
      → next_token a ≡ ok (some b)
      → next_token b ≡ ok (some c)
      → next_token c ≡ ok (some d)
      → next_token d ≡ ok (some e)
      → parse_interval r t ≡ parse_peers (record r { interval = strtoll b.token }) e
  unfolding parse_interval
  parse_interval_steps c d e named h₁ h₂ h₃ h₄ h₅ = rw (named, h₁, h₂, h₃, h₄, h₅) refl

parse_peers-Reads :
    (r : TrackerResponse) (peers : List Peer) {t v : Tokenizer} (e : List Token)
    → All IsPeer peers
    → t.token ≡ codes "peers"
    → t.token_size ≡ 5
    → Reads t ((b's' ∷ []) ∷ compact_all peers ∷ e) v
    → parse_peers r t ≡ ok (record r { peers = peers }, true)
parse_peers-Reads r peers {t} e h named size reads =
    let marker = Reads-First reads in
    let blob = Reads-First marker.rest in
    let count : blob.after.token_size / 6 ≡ length peers =
      omega (arith, blob.size, length-compact_all peers h) in
    let all = rw (append-nil (compact_all peers)) at (copy_peers-compact_all peers [] h) in
    parse_peers_steps r t marker.after blob.after (begins_text_whole (codes "peers") t named size)
      (next_token-First marker) (next_token-First blob)
    ∙ rw (count, blob.token, all) refl

parse_interval-Reads :
    (r : TrackerResponse) (interval : ℕ) (peers : List Peer) {t v : Tokenizer} (e : List Token)
    → interval < 2 ^ 63
    → All IsPeer peers
    → t.token ≡ codes "interval"
    → t.token_size ≡ 8
    → Reads t
        ((b'i' ∷ [])
          ∷ decimal interval
          ∷ (b'e' ∷ [])
          ∷ (b's' ∷ [])
          ∷ codes "peers"
          ∷ (b's' ∷ [])
          ∷ compact_all peers
          ∷ e)
        v
    → parse_interval r t ≡ ok (record { interval = interval; peers = peers }, true)
parse_interval-Reads r interval peers {t} e small h named size reads =
    let marker = Reads-First reads in
    let number = Reads-First marker.rest in
    let close = Reads-First number.rest in
    let key_marker = Reads-First close.rest in
    let key = Reads-First key_marker.rest in
    let value : strtoll number.after.token ≡ interval =
      ap strtoll number.token ∙ strtoll-decimal interval small in
    parse_interval_steps r t marker.after number.after close.after key_marker.after key.after
      (begins_text_whole (codes "interval") t named size) (next_token-First marker)
      (next_token-First number) (next_token-First close) (next_token-First key_marker)
      (next_token-First key)
    ∙ rw value
        (parse_peers-Reads (record r { interval = interval }) peers e h key.token key.size key.rest)

contact_tracker_steps :
    (curl : Curl) (r : TrackerResponse) (tf : TorrentFile) (request response : List ℕ)
    (t a b c : Tokenizer)
    → curl.initialises ≡ true
    → get_request curl tf ≡ ok request
    → curl.perform request ≡ some (response ∷ [])
    → init_tokenizer response (length response) ≡ ok t
    → next_token t ≡ ok (some a)
    → next_token a ≡ ok (some b)
    → next_token b ≡ ok (some c)
    → contact_tracker curl r tf ≡ parse_interval r c
unfolding contact_tracker
contact_tracker_steps curl r tf request response t a b c live asked answered started h₁ h₂ h₃ =
    rw (live, asked, answered, started, h₁, h₂, h₃) refl

answer-Reads :
    (interval : ℕ) (peers : List Peer) {t u : Tokenizer}
    → Reads t (tokens (answer interval peers)) u
    → Reads t
        ((b'd' ∷ [])
          ∷ (b's' ∷ [])
          ∷ codes "interval"
          ∷ (b'i' ∷ [])
          ∷ decimal interval
          ∷ (b'e' ∷ [])
          ∷ (b's' ∷ [])
          ∷ codes "peers"
          ∷ (b's' ∷ [])
          ∷ compact_all peers
          ∷ (b'e' ∷ [])
          ∷ [])
        u
unfolding answer tokens
answer-Reads interval peers reads = reads

-- If libcurl starts, the request fits its array, and the answer to it arrives in one part as the
-- Bencode of an interval below 2 ^ 63 and fewer than 2 ^ 60 peers with four-byte addresses and
-- ports below 2 ^ 16, `contact_tracker` returns true with this interval and these peers in their
-- order.
pub contact_tracker-answer :
    (curl : Curl) (r : TrackerResponse) (tf : TorrentFile) (request : List ℕ) (interval : ℕ)
    (peers : List Peer)
    → interval < 2 ^ 63
    → length peers < 2 ^ 60
    → All IsPeer peers
    → curl.initialises ≡ true
    → get_request curl tf ≡ ok request
    → curl.perform request ≡ some (encode (answer interval peers) ∷ [])
    → contact_tracker curl r tf ≡ ok (record { interval = interval; peers = peers }, true)
contact_tracker-answer curl r tf request interval peers small count h live asked answered =
    let (t, u, at_end, started, reads, over) =
      read_whole (answer interval peers) (answer-IsValue interval peers h count) in
    let open_dict = Reads-First (answer-Reads interval peers reads) in
    let key_marker = Reads-First open_dict.rest in
    let key = Reads-First key_marker.rest in
    contact_tracker_steps curl r tf request (encode (answer interval peers)) t open_dict.after
      key_marker.after key.after live asked answered started (next_token-First open_dict)
      (next_token-First key_marker) (next_token-First key)
    ∙ parse_interval-Reads r interval peers ((b'e' ∷ []) ∷ []) small h key.token key.size key.rest
