-- ===== src/Conn.antt =====
-- src/conn.c: a connection whose operations give up after a timeout. Each operation runs the system
-- call in a thread of its own and joins it with a deadline; what the system calls do is given by a
-- script, one entry for each call. A script that is used up means that nothing happens any more, so
-- that the deadline passes.
use btb.Base.{
  ℕ, Bool, false, List, [], ◌∷◌, ◌++◌, Option, none, some, Result, ok, ◌>>=◌, ◌>>◌, defined, leb,
  ◌==◌, if◌then◌else◌, length, take, ℤ, pos, negsuc, ◌%◌, ◌^◌,
}

-- What `getaddrinfo`, `clock_gettime`, the timed join and `connect` answer.
pub record Connecting : Type 0 where
  pub resolves : Bool
  pub clock_ok : Bool
  pub in_time : Bool
  pub connects : Bool
  pub sockfd : ℕ

-- `recv` fails, or writes bytes; no bytes mean that the peer has closed.
pub data Received : Type 0 where
  error : Received
  bytes : List ℕ → Received

pub record RecvCall : Type 0 where
  pub clock_ok : Bool
  pub in_time : Bool
  pub received : Received

-- `send` fails, or takes a number of bytes.
pub record SendCall : Type 0 where
  pub clock_ok : Bool
  pub in_time : Bool
  pub fails : Bool
  pub accepted : ℕ

-- The three fields of the C struct, the scripts of the socket, and the bytes it has taken.
pub record Conn : Type 0 where
  pub addr : List ℕ
  pub port : ℕ
  pub sockfd : ℕ
  pub incoming : List RecvCall
  pub outgoing : List SendCall
  pub sent : List ℕ

-- `connect_thread_fun`: its flag is what `connect` answers.
abbrev pub connect_thread_fun : Connecting → Bool
connect_thread_fun e = e.connects

unfoldable pub init_conn : List ℕ → ℕ → Connecting → List RecvCall → List SendCall → Option Conn
init_conn addr port e incoming outgoing =
    if e.resolves
    then (if e.clock_ok
        then (if e.in_time
            then (if connect_thread_fun e
                then some (record {
                  addr = addr;
                  port = port;
                  sockfd = e.sockfd;
                  incoming = incoming;
                  outgoing = outgoing;
                  sent = [];
                })
                else none)
            else none)
        else none)
    else none

-- `send_thread_fun`: the flag `ok`. The count passes through `int`, in which 2 ^ 31 and more are
-- negative, and the comparison is made there.
abbrev pub send_thread_fun : SendCall → ℕ → Bool
send_thread_fun call buf_size =
    let bytes_sent = call.accepted % 2 ^ 32 in
    if call.fails
    then false
    else (if leb (2 ^ 31) bytes_sent
        then false
        else (if bytes_sent == 0 then false else (bytes_sent == buf_size % 2 ^ 32)))

send_call : Conn → List ℕ → SendCall → Conn × Bool
send_call c buf call =
    if call.clock_ok
    then (let c' = record c {
      sent = c.sent ++ (if call.fails then [] else take call.accepted buf);
    } in
        if call.in_time then (c', send_thread_fun call (length buf)) else (c', false))
    else (c, false)

-- The connection after the call, and its result.
unfoldable pub send_data : Option Conn → List ℕ → Option Conn × Bool
unfolding send_call
send_data none buf = (none, false)
send_data (some c) buf = elim c.outgoing [
  | [] ↦ (some c, false)
  | call ∷ rest ↦
      let (c', sent_all) = send_call (record c { outgoing = rest }) buf call in (some c', sent_all)
]

-- `recv_thread_fun`: `recv_bytes`, which the initialiser of `thread_data` sets to 0, and the bytes
-- written to the buffer. `recv` writes at most `buf_size` bytes; its count passes through `int`, and
-- a negative one is taken for a failure, which leaves `recv_bytes` as it was.
abbrev pub recv_thread_fun : Received → ℕ → Result (ℤ × List ℕ)
recv_thread_fun error buf_size = ok (pos 0, [])
recv_thread_fun (bytes bs) buf_size = do
  defined (leb (length bs) buf_size)
  let bytes_received = length bs % 2 ^ 32
  ok (pos (if leb (2 ^ 31) bytes_received then 0 else bytes_received), bs)

recv_call : RecvCall → ℕ → Result (ℤ × List ℕ)
recv_call call buf_size =
    if call.clock_ok
    then (if call.in_time then recv_thread_fun call.received buf_size else ok (negsuc 0, []))
    else ok (negsuc 0, [])

-- The connection after the call, its result, and the bytes at the start of the buffer.
unfoldable pub receive_data : Option Conn → ℕ → Result (Option Conn × ℤ × List ℕ)
unfolding recv_call
receive_data none buf_size = ok (none, negsuc 0, [])
receive_data (some c) buf_size = elim c.incoming [
  | [] ↦ ok (some c, negsuc 0, [])
  | call ∷ rest ↦ do r ← recv_call call buf_size; ok (some (record c { incoming = rest }), r.0, r.1)
]
