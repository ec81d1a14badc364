-- ===== src/Heap/Message/Answers.antt =====
-- When a message is sent, and when one is received.
use btb.Heap.{◌>>◌, pure, ◌>>=◌, malloc, free, access}
use btb.Heap.Defer.{defer}
use btb.Heap.Answers.{
  Answers, >>=-Answers, then-Answers, unit_then-Answers, malloc_then-Answers, pure-Answers,
  defer-Answers,
}
use btb.Heap.Objects.{Owner, new_message, new_message_encoded, free_message_encoded}
use btb.Heap.Objects.Answers.{is_some, new_message_encoded-Answers}
use btb.Heap.Message.{Sending, Reading, send_encoded, send_message, fill_payload, read_message}
use btb.Base.{ℕ, ◌≡◌, refl, Bool, true, false, not, ◌&&◌, Option, none, some, ltb, if◌then◌else◌}

abbrev pub delivers : Sending → Bool
delivers s = s.fits && s.sends

abbrev pub payload_lost : Reading → Bool
payload_lost r = ltb 0 r.payload_len && not r.payload

abbrev pub arrives : Reading → Bool
arrives r = r.header && not (payload_lost r)

module _ (c : ℕ) where
  send_encoded-Answers :
      (s : Sending) (encoded : Option Owner)
      → is_some encoded ≡ s.fits
      → Answers (λ b. b ≡ delivers s) (send_encoded c s encoded)
  unfolding send_encoded
  send_encoded-Answers s none e = pure-Answers _ false (rw (← e) refl)
  send_encoded-Answers s (some o) e = defer-Answers _ (free_message_encoded (some o)) _ (
      unit_then-Answers _ (access o.self) _
        (unit_then-Answers _ (access c) _ (pure-Answers _ s.sends (rw (← e) refl))))

  pub send_message-Answers :
      (msg : Owner) (s : Sending) → Answers (λ b. b ≡ delivers s) (send_message c msg s)
  unfolding send_message
  send_message-Answers msg s =
      >>=-Answers (λ o. is_some o ≡ s.fits) (λ b. b ≡ delivers s) (new_message_encoded msg s.fits) _
        (new_message_encoded-Answers msg s.fits) (send_encoded-Answers s)

  finish-Answers :
      (r : Reading) (payload_buf : ℕ)
      → Answers
          (λ o. is_some o ≡ true)
          (do msg ← new_message r.payload_len (some payload_buf); pure (some msg))
  finish-Answers r payload_buf =
      then-Answers _ (new_message r.payload_len (some payload_buf)) _
        (λ msg. pure-Answers _ (some msg) refl)

  payload-Answers :
      (r : Reading) (payload_buf : ℕ) (announced arrived : Bool)
      → Answers
          (λ o. is_some o ≡ not (announced && not arrived))
          (if announced
            then (do
              access c
              access payload_buf
              if arrived
                  then (do msg ← new_message r.payload_len (some payload_buf); pure (some msg))
                  else pure none)
            else (do msg ← new_message r.payload_len (some payload_buf); pure (some msg)))
  payload-Answers r payload_buf true true =
      unit_then-Answers _ (access c) _
        (unit_then-Answers _ (access payload_buf) _ (finish-Answers r payload_buf))
  payload-Answers r payload_buf true false =
      unit_then-Answers _ (access c) _
        (unit_then-Answers _ (access payload_buf) _ (pure-Answers _ none refl))
  payload-Answers r payload_buf false arrived = finish-Answers r payload_buf

  fill_payload-Answers :
      (r : Reading) (payload_buf : ℕ)
      → Answers (λ o. is_some o ≡ not (payload_lost r)) (fill_payload c r payload_buf)
  unfolding fill_payload
  fill_payload-Answers r payload_buf = payload-Answers r payload_buf (ltb 0 r.payload_len) r.payload

  header-Answers :
      (r : Reading) (header : Bool)
      → Answers
          (λ o. is_some o ≡ (header && not (payload_lost r)))
          (if header
            then (do
              payload_buf ← malloc
              defer (free (some payload_buf)) (fill_payload c r payload_buf))
            else pure none)
  header-Answers r true = malloc_then-Answers _ _ (λ payload_buf.
      defer-Answers _ (free (some payload_buf)) _ (fill_payload-Answers r payload_buf))
  header-Answers r false = pure-Answers _ _ refl

  pub read_message-Answers : (r : Reading) → Answers (λ o. is_some o ≡ arrives r) (read_message c r)
  unfolding read_message
  read_message-Answers r = unit_then-Answers _ (access c) _ (header-Answers r r.header)
