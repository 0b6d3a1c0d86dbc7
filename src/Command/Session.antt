-- ===== src/Command/Session.antt =====
-- A subcommand against the modelled daemon, which serves it as `handle_stream` of src/runtime/daemon.rs.
use slotd.Prelude.{ℕ, suc, Result, ok, err, diverges, SlotdError, Text}
use slotd.Runtime.{World, Daemon}
use slotd.Daemon.{Request, Response, error, dispatch_request}
use slotd.Command.Client.{Client, returns, sends, run, chain, asking, from_result, send_request}

-- What is read back from the socket. An error of the daemon arrives as a response; `text_of` is
-- `to_string` of the error.
unfoldable pub answer_of : (text_of : SlotdError → Text) → Result Response → Result Response
answer_of text_of (ok response) = ok response
answer_of text_of (err e) = ok (error (text_of e))
answer_of text_of diverges = diverges

-- The n-th request of the session meets the n-th world.
unfoldable pub handle_stream :
    (text_of : SlotdError → Text)
    → (worlds : ℕ → World) → ℕ × Daemon
    → Request
    → Result Response × (ℕ × Daemon)
unfolding answer_of
handle_stream text_of worlds (n, d) request =
    let (r, later) = dispatch_request (worlds n) request d in (answer_of text_of r, (suc n, later))

module _ (P : Request → Type 0) where
  -- Whatever the answers are, the client sends only such requests.
  unfoldable pub Asks : {A : Type 0} → Client A → Type 0
  Asks (returns r) = Unit
  Asks (sends request next) = P request × ((answer : Result Response) → Asks (next answer))

  pub from_result-Asks :
      {A B : Type 0} (r : Result A) (f : A → Client B)
      → ((a : A) → Asks (f a))
      → Asks (from_result r f)
  unfolding from_result Asks
  from_result-Asks (ok a) f h = h a
  from_result-Asks (err e) f h = tt
  from_result-Asks diverges f h = tt

  pub chain-Asks :
      {A B : Type 0} (c : Client A) (f : A → Client B)
      → Asks c
      → ((a : A) → Asks (f a))
      → Asks (chain c f)
  unfolding chain Asks
  chain-Asks (returns r) f h k = from_result-Asks r f k
  chain-Asks (sends request next) f h k = (h.0, λ answer. chain-Asks (next answer) f (h.1 answer) k)

  pub asking-Asks :
      {A : Type 0} (request : Request) (f : Response → Client A)
      → P request
      → ((r : Response) → Asks (f r))
      → Asks (asking request f)
  unfolding asking send_request Asks
  asking-Asks request f h k = chain-Asks (send_request request) f (h, λ answer. tt) k

  -- A property of the daemon that each request keeps holds after the session.
  pub run-keeps :
      (text_of : SlotdError → Text) (worlds : ℕ → World) (I : Daemon → Type 0)
      → ((w : World) (request : Request) (d : Daemon)
          → P request
          → I d
          → I (dispatch_request w request d).1)
      → {A : Type 0} (c : Client A) (n : ℕ) (d : Daemon) → Asks c
      → I d
      → I (run (handle_stream text_of worlds) c (n, d)).1.1
  unfolding run handle_stream Asks
  run-keeps text_of worlds I keeps (returns r) n d h i = i
  run-keeps text_of worlds I keeps (sends request next) n d h i =
      run-keeps text_of worlds I keeps (next _) (suc n) _ (h.1 _) (keeps (worlds n) request d h.0 i)
