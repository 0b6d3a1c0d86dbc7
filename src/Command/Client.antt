-- ===== src/Command/Client.antt =====
-- A subcommand as a client of the daemon: `send_request` of src/proto/ipc.rs, one request after another.
-- What a request comes back with, a response or a failure of the connection, is not known to the client.
use slotd.Prelude.{Result, ok, err, diverges, message, Text}
use slotd.Daemon.{Request, Response}

pub data Client (A : Type 0) : Type 0 where
  returns : Result A → Client A
  sends : Request → (Result Response → Client A) → Client A

unfoldable pub done : {A : Type 0} → A → Client A
done a = returns (ok a)

unfoldable pub refuse : {A : Type 0} → Text → Client A
refuse problem = returns (err (message problem))

-- `?` on the result of a function that sends nothing.
unfoldable pub from_result : {A B : Type 0} → Result A → (A → Client B) → Client B
from_result (ok a) rest = rest a
from_result (err e) rest = returns (err e)
from_result diverges rest = returns diverges

-- `?` on the result of a client.
unfoldable pub chain : {A B : Type 0} → Client A → (A → Client B) → Client B
unfolding from_result
chain (returns r) rest = from_result r rest
chain (sends request next) rest = sends request (λ answer. chain (next answer) rest)

-- `send_request(…)?`.
unfoldable pub send_request : Request → Client Response
send_request request = sends request (λ answer. returns answer)

-- `match send_request(…)? { … }`.
unfoldable pub asking : {A : Type 0} → Request → (Response → Client A) → Client A
unfolding chain send_request
asking request rest = chain (send_request request) rest

-- The client against a daemon of state `S`.
unfoldable pub run :
    {A S : Type 0} → (S → Request → Result Response × S) → Client A → S → Result A × S
run serve (returns r) s = (r, s)
run serve (sends request next) s =
    let (answer, later) = serve s request in run serve (next answer) later
