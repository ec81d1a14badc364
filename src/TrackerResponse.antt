-- ===== src/TrackerResponse.antt =====
-- src/tracker_response.c: the request to the tracker and the peers in its answer. libcurl's calls
-- are arguments.
pub mod Answer
pub mod Parts
pub mod Peers
use btb.Tokenizer.{Tokenizer, init_tokenizer}
use btb.Tokenizer.Bencode.{decimal}
use btb.TorrentFile.{TorrentFile}
use btb.TorrentFile.Parse.{next_token, strtoll}
use btb.HandshakeMsg.{codes, my_peer_id}
use btb.Hash.{bt_hash_length}
use btb.Peer.{Peer, peer_blob_size, init_peer}
use btb.Base.{
  ℕ, zero, suc, ◌+◌, ◌*◌, ◌/◌, Bool, true, false, List, [], ◌∷◌, ◌++◌, Option, none, some, Result,
  ok, fault, ◌>>=◌, ◌>>◌, defined, ltb, ◌==◌, if◌then◌else◌, length, read_range, or_fault,
  same_bytes,
}

-- `interval` holds the bits of the `long`; the length of `peers` is the field `num_peers`.
pub record TrackerResponse : Type 0 where
  pub interval : ℕ
  pub peers : List Peer

abbrev pub init_tracker_response : TrackerResponse
init_tracker_response = record { interval = 0; peers = [] }

-- libcurl: whether there is a handle, how it escapes bytes, and what the request gives: nothing, or
-- the parts of the answer for which it calls `parse_response` in turn.
pub record Curl : Type 0 where
  pub initialises : Bool
  pub escape : List ℕ → List ℕ
  pub perform : List ℕ → Option (List (List ℕ))

-- The callback: each part takes the place of the one before.
abbrev parse_response : List ℕ → Option (List ℕ) → Option (List ℕ)
parse_response part before = some part

-- `response.data` after the request; it is not set where no part came.
pub response_data : List (List ℕ) → Option (List ℕ) → Option (List ℕ)
response_data [] before = before
response_data (part ∷ parts) before = response_data parts (parse_response part before)

-- The bytes of a C string, up to its NUL.
c_string : List ℕ → List ℕ
c_string [] = []
c_string (b ∷ rest) = let text = c_string rest in if b == 0 then [] else b ∷ text

-- The URL, in an array of 2048 bytes with the NUL that ends it.
unfoldable pub get_request : Curl → TorrentFile → Result (List ℕ)
unfolding c_string
get_request curl tf = do
  announce ← or_fault tf.announce
  info_hash ← or_fault tf.info_hash
  hash ← read_range info_hash 0 bt_hash_length
  let request =
      c_string announce
      ++ (codes "?&peer_id="
          ++ (my_peer_id
              ++ (codes "&port=6881&uploaded=0&downloaded=0&compact=1&left="
                  ++ (decimal tf.length ++ (codes "&info_hash=" ++ curl.escape hash)))))
  defined (ltb (length request) 2048)
  ok request

-- So many calls of `next`, each of which must succeed.
skip_tokens : ℕ → Tokenizer → Result (Option Tokenizer)
skip_tokens zero tk = ok (some tk)
skip_tokens (suc n) tk = do
  after ← next_token tk
  elim after [ none ↦ ok none | some tk' ↦ skip_tokens n tk' ]

-- `memcmp(tk->token, text, tk->token_size) == 0` against a literal and its NUL.
begins_text : List ℕ → Tokenizer → Result Bool
begins_text text tk = do
  start ← read_range (text ++ 0 ∷ []) 0 tk.token_size
  ok (same_bytes tk.token start)

-- The loop over the peers from `i` on.
pub copy_peers : ℕ → ℕ → List ℕ → Result (List Peer)
copy_peers zero i blob = ok []
copy_peers (suc left) i blob = do
  peer_repr ← read_range blob (peer_blob_size * i) peer_blob_size
  p ← init_peer peer_repr
  rest ← copy_peers left (i + 1) blob
  ok (p ∷ rest)

-- From the token "peers" on.
parse_peers : TrackerResponse → Tokenizer → Result (TrackerResponse × Bool)
unfolding begins_text skip_tokens copy_peers
parse_peers r tk = do
  named ← begins_text (codes "peers") tk
  let blob = do
    after ← skip_tokens 2 tk
    elim after [
      | none ↦ ok (r, false)
      | some tk' ↦ do
        peers ← copy_peers (tk'.token_size / peer_blob_size) 0 tk'.token
        ok (record r { peers = peers }, true)
    ]
  if named then blob else ok (r, false)

-- From the token "interval" on.
parse_interval : TrackerResponse → Tokenizer → Result (TrackerResponse × Bool)
unfolding begins_text skip_tokens parse_peers
parse_interval r tk = do
  named ← begins_text (codes "interval") tk
  let value = do
    after ← skip_tokens 2 tk
    elim after [
      | none ↦ ok (r, false)
      | some tk' ↦ do
        let r' = record r { interval = strtoll tk'.token }
        later ← skip_tokens 3 tk'
        elim later [ none ↦ ok (r', false) | some tk'' ↦ parse_peers r' tk'' ]
    ]
  if named then value else ok (r, false)

-- The record after the call and the result.
unfoldable pub contact_tracker :
    Curl → TrackerResponse → TorrentFile → Result (TrackerResponse × Bool)
unfolding get_request response_data skip_tokens parse_interval
contact_tracker curl r tf =
    if curl.initialises
    then (do
      request ← get_request curl tf
      elim (curl.perform request) [
        | none ↦ ok (r, false)
        | some parts ↦ do
          response ← or_fault (response_data parts none)
          tk ← init_tokenizer response (length response)
          after ← skip_tokens 3 tk
          elim after [ none ↦ ok (r, false) | some tk' ↦ parse_interval r tk' ]
      ])
    else ok (r, false)
