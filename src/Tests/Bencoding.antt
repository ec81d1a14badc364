-- ===== src/Tests/Bencoding.antt =====
-- The tokenizer at concrete inputs.
use btb.HandshakeMsg.{codes}
use btb.Tokenizer.{Tokenizer, int_parse, next, init_tokenizer, tokenizer_ok, tokenizer_end}
use btb.Tokenizer.Bencode.{
  Value, integer, string, list, dict, nil, cons, done, entry, encode, encode_items, encode_entries,
  tokens, decimal, IsValue, AreItems, AreEntries,
}
use btb.Tokenizer.RoundTrip.Place.{Reads, more, stop}
use btb.Tokenizer.RoundTrip.{fresh, read_whole}
use btb.Tokenizer.Invariant.{IsTokenizer, After, next-After}
use btb.Tokenizer.Progress.{length-Reads-le}
use btb.Tokenizer.Malformed.{read_unbalanced, next_truncated}
use btb.Base.{ℕ, ◌*◌, ◌≤◌, ◌≡◌, refl, true, List, [], ◌∷◌, ◌++◌, ok, fault, length, arith}

-- {"a": -7, "b": ["hi", {}]}
abbrev sample : Value
sample = dict (
    entry (codes "a") (integer true (b'7' ∷ []))
      (entry (codes "b") (list (cons (string (codes "hi")) (cons (dict done) nil))) done))

sample-encoded : encode sample ≡ codes "d1:ai-7e1:bl2:hideee"
unfolding encode encode_items encode_entries decimal
sample-encoded = refl

sample-IsValue : IsValue sample
unfolding IsValue AreItems AreEntries
sample-IsValue = (
  omega arith,
  (omega arith, ((omega arith, omega arith), tt)),
  (omega arith, (omega arith, (tt, tt)), tt),
)

read_whole_example :
    (t : Tokenizer) × (u : Tokenizer) × (at_end : Tokenizer) × (init_tokenizer
        (encode sample)
        (length (encode sample))
      ≡ ok t)
    × Reads t (tokens sample) u
    × (next u ≡ ok (at_end, tokenizer_end))
read_whole_example = read_whole sample sample-IsValue

read_unbalanced_example :
    (u : Tokenizer) × (at_end : Tokenizer) × Reads
      (fresh (encode sample ++ b'e' ∷ []))
      (tokens sample ++ (b'e' ∷ []) ∷ [])
      u
    × (next u ≡ ok (at_end, tokenizer_end))
read_unbalanced_example = read_unbalanced sample sample-IsValue

next_truncated_example :
    (u : Tokenizer) × (next (fresh (decimal 1000 ++ b':' ∷ codes "hi")) ≡ ok (u, tokenizer_ok))
    × (next u ≡ fault)
next_truncated_example = next_truncated 1000 (codes "hi") (omega arith) (omega arith)

abbrev before : Tokenizer
before = fresh (codes "i42e")

abbrev opened : Tokenizer
opened = record before { current = 1; token = b'i' ∷ []; token_size = 1; status_fn = int_parse }

next-opened : next before ≡ ok (opened, tokenizer_ok)
unfolding next
next-opened = refl

before-IsTokenizer : IsTokenizer before
before-IsTokenizer = record { sized = refl; inside = omega arith; token_sized = refl }

next-After_example : After before opened tokenizer_ok
next-After_example = next-After before opened tokenizer_ok before-IsTokenizer next-opened

init_before : init_tokenizer (codes "i42e") 4 ≡ ok before
unfolding init_tokenizer
init_before = refl

abbrev one_token : List (List ℕ)
one_token = (b'i' ∷ []) ∷ []

length-Reads-le_example : length one_token ≤ 2 * 4
length-Reads-le_example =
    length-Reads-le (codes "i42e") 4 before opened one_token init_before
      (more next-opened refl refl stop)
