-- ===== src/HttpServer/Serve.antt =====
-- The server as a whole: examples/http_server.cc. A task that is spawned runs on its own stream.
use xyco.Common.{ℕ, Option, none, some, List, [], ◌∷◌}
use xyco.Utils.Error.{Error, Result, ok, err}
use xyco.HttpServer.{Step, done, broken, ◌>>=◌, value}
use xyco.HttpServer.Receive.{Received, closed, received, Stream, receive_request}
use xyco.HttpServer.Respond.{Output, Opened, execute_request}

-- The task that a request spawns.
abbrev pub execute_received : ℕ → (List ℕ → Result Opened) → Output → Received → Step Output
execute_received fuel open_path out closed = done out
execute_received fuel open_path out (received request stream) =
    execute_request fuel open_path request out

-- What a connection is served: `receive_request`, and then `execute_request`.
pub serve : ℕ → Result (Unit {0}) → (List ℕ → Result Opened) → Stream → Output → Step Output
serve fuel shutdown open_path stream out =
    receive_request fuel shutdown stream >>= execute_received fuel open_path out

-- What the calls answer by which the server gets its listener.
pub record Setup : Type 0 where
  pub new_v4 : Result (Unit {0})
  pub set_reuseaddr : Result (Unit {0})
  pub bind : Result (Unit {0})
  pub listen : Result (Unit {0})

-- The loop over what `accept` answers: the streams whose tasks were spawned, and how it ended, if it did.
-- Past the end of the list it waits.
pub accept_all {ℓ} : {S : Type ℓ} → List (Result S) → List S × Option (Step (Unit {0}))
accept_all [] = ([], none)
accept_all (err e ∷ answers) = ([], some broken)
accept_all (ok stream ∷ answers) =
    let (streams, ended) = accept_all answers in (stream ∷ streams, ended)

abbrev pub set_up : Setup → Step (Unit {0})
set_up setup = value setup.new_v4 >>= λ _.
    value setup.set_reuseaddr >>= λ _. value setup.bind >>= λ _. value setup.listen

pub init_server {ℓ} : {S : Type ℓ} → Setup → List (Result S) → List S × Option (Step (Unit {0}))
init_server setup answers = elim (set_up setup) [
  | done _ ↦ accept_all answers
  | other ↦ ([], some other)
]
