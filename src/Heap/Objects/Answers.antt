-- ===== src/Heap/Objects/Answers.antt =====
-- Which calls on structs return NULL.
use btb.Heap.{pure, ◌>>=◌, ◌>>◌, free, access, access_all, malloc}
use btb.Heap.Answers.{
  Answers, then-Answers, unit_then-Answers, malloc_then-Answers, pure-Answers, defer-Answers,
}
use btb.Heap.Laws.{part_blocks}
use btb.Heap.Objects.{
  Owner, new_owner, with_part, new_message_encoded, Decoding, decode_fields, decode_struct,
  new_decoded, Opened, refused, opened, connect_blocks, new_conn, free_message_encoded,
}
use btb.Heap.Defer.{defer}
use btb.Conn.{Connecting}
use btb.Base.{
  ℕ, ◌≡◌, refl, Bool, true, false, not, List, [], length, Option, none, some, ◌&&◌, if◌then◌else◌,
}

abbrev pub is_some : {A : Type 0} → Option A → Bool
is_some none = false
is_some (some a) = true

abbrev pub is_opened : Opened → Bool
is_opened (refused socket) = false
is_opened (opened c) = true

pub new_message_encoded-Answers :
    (msg : Owner) (fits : Bool) → Answers (λ o. is_some o ≡ fits) (new_message_encoded msg fits)
unfolding new_message_encoded free_message_encoded
new_message_encoded-Answers msg true = then-Answers _ new_owner _ (λ e.
    unit_then-Answers _ (access msg.self) _
      (unit_then-Answers _ (access_all msg.part) _ (pure-Answers _ (some e) refl)))
new_message_encoded-Answers msg false = then-Answers _ new_owner _ (λ e.
    unit_then-Answers _ (access msg.self) _
      (unit_then-Answers _ (free_message_encoded (some e)) _ (pure-Answers _ none refl)))

abbrev pub fields_fit : Decoding → Bool
fields_fit d = d.reserved_fits && (d.info_hash_fits && d.peer_id_fits)

abbrev pub decodes : Decoding → Bool
decodes d = d.nonempty && (d.pstr_fits && fields_fit d)

fields-Answers :
    (buf self pstr : ℕ) (fit : Bool)
    → Answers
        (λ (o : Option Owner). is_some o ≡ fit)
        (if fit
          then pure (some (with_part self pstr))
          else (do free (some pstr); free (some self); pure none))
fields-Answers buf self pstr true = pure-Answers _ _ refl
fields-Answers buf self pstr false =
    unit_then-Answers _ (free (some pstr)) _
      (unit_then-Answers _ (free (some self)) _ (pure-Answers _ none refl))

decode_fields-Answers :
    (buf self : ℕ) (d : Decoding)
    → Answers (λ o. is_some o ≡ fields_fit d) (decode_fields buf d self)
unfolding decode_fields
decode_fields-Answers buf self d =
    malloc_then-Answers _ _
      (λ pstr. unit_then-Answers _ (access buf) _ (fields-Answers buf self pstr (fields_fit d)))

struct-Answers :
    (buf self : ℕ) (d : Decoding) (fits : Bool)
    → Answers
        (λ (o : Option Owner). is_some o ≡ (fits && fields_fit d))
        (if fits then decode_fields buf d self else (do free (some self); pure none))
struct-Answers buf self d true = decode_fields-Answers buf self d
struct-Answers buf self d false =
    unit_then-Answers _ (free (some self)) _ (pure-Answers _ none refl)

nonempty-Answers :
    (buf : ℕ) (d : Decoding) (nonempty : Bool)
    → Answers
        (λ (o : Option Owner). is_some o ≡ (nonempty && (d.pstr_fits && fields_fit d)))
        (if nonempty then decode_struct buf d else pure none)
unfolding decode_struct
nonempty-Answers buf d true =
    malloc_then-Answers _ _
      (λ self. unit_then-Answers _ (access buf) _ (struct-Answers buf self d d.pstr_fits))
nonempty-Answers buf d false = pure-Answers _ _ refl

pub new_decoded-Answers :
    (buf : ℕ) (d : Decoding) → Answers (λ o. is_some o ≡ decodes d) (new_decoded buf d)
unfolding new_decoded
new_decoded-Answers buf d = nonempty-Answers buf d d.nonempty

-- Whether a connection is made.
abbrev pub joins : Connecting → Bool
joins e = e.resolves && (e.clock_ok && (e.in_time && e.connects))

-- The socket that is open although NULL is returned.
abbrev pub left_open : Opened → List ℕ
left_open (refused socket) = part_blocks socket
left_open (opened c) = []

abbrev pub bit : Bool → ℕ
bit true = 1
bit false = 0

abbrev pub Outcome : Bool → Bool → Opened → Type 0
Outcome resolved joined o =
    (is_opened o ≡ (resolved && joined)) × (length (left_open o) ≡ bit (resolved && not joined))

joined-Answers :
    (sockfd : ℕ) (joined : Bool)
    → Answers (Outcome true joined) (
        if joined
        then (do
          self ← malloc
          addr ← malloc
          pure (opened (record { self = self; addr = addr; sockfd = sockfd })))
        else pure (refused (some sockfd)))
joined-Answers sockfd true =
    malloc_then-Answers _ _
      (λ self. malloc_then-Answers _ _ (λ addr. pure-Answers _ _ (refl, refl)))
joined-Answers sockfd false = pure-Answers _ _ (refl, refl)

resolved-Answers :
    (e : Connecting) (resolved : Bool)
    → Answers (Outcome resolved (e.clock_ok && (e.in_time && e.connects))) (
        if resolved
        then (do res ← malloc; defer (free (some res)) (connect_blocks e))
        else pure (refused none))
unfolding connect_blocks
resolved-Answers e true = malloc_then-Answers _ _ (λ res.
    defer-Answers _ (free (some res)) (connect_blocks e) (
      malloc_then-Answers _ _
        (λ sockfd. joined-Answers sockfd (e.clock_ok && (e.in_time && e.connects)))))
resolved-Answers e false = pure-Answers _ _ (refl, refl)

pub new_conn-Answers :
    (e : Connecting)
    → Answers (Outcome e.resolves (e.clock_ok && (e.in_time && e.connects))) (new_conn e)
unfolding new_conn
new_conn-Answers e = resolved-Answers e e.resolves
