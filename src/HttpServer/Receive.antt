-- ===== src/HttpServer/Receive.antt =====
-- Server::receive_request of examples/http_server.cc. The stream is the list of what its reads return;
-- past the end of the list a read returns no byte. The buffered reader reads from the same stream.
pub mod Fields
pub mod Heads
pub mod Body
pub mod Whole
pub mod Number
pub mod First
pub mod Complete
use xyco.Common.{
  ℕ, zero, suc, ◌+◌, ◌-◌, ◌*◌, ◌%◌, ◌^◌, Bool, true, false, not, ◌&&◌, Option, none, some, List, [],
  ◌∷◌, ◌++◌, length, take, drop, ltb, leb, ◌==◌, if◌then◌else◌, ℤ, pos, negsuc, codes, same,
  is_digit,
}
use xyco.Utils.Error.{Error, Result, ok, err}
use xyco.Io.BufferReader.{BufferReader, new, read_line, find}
use xyco.HttpServer.{
  Step, done, broken, throws, endless, ◌>>=◌, value, step_of, RequestLine, request_line,
}

-- size_t has 64 bits.
abbrev pub npos : ℕ
npos = 2 ^ 64 - 1

abbrev pub minus : ℕ → ℕ → ℕ
minus a b = (a + 2 ^ 64 - b) % 2 ^ 64

-- std::string::find of a character
abbrev pub find_in : ℕ → List ℕ → ℕ
find_in c text = if find c text == length text then npos else find c text

-- std::string::substr, which throws std::out_of_range.
pub substr : List ℕ → ℕ → ℕ → Step (List ℕ)
substr text begin count =
    if ltb (length text) begin then throws else done (take count (drop begin text))

abbrev pub Headers : Type 0
Headers = List (List ℕ × List ℕ)

pub header_of : List ℕ → Step (List ℕ × List ℕ)
header_of line = do
  name ← substr line 0 (find_in b':' line)
  text ← substr line ((find_in b':' line + 2) % 2 ^ 64) (minus (length line) 2)
  done (name, text)

abbrev pub lookup : List ℕ → Headers → Option (List ℕ)
lookup key [] = none
lookup key ((k, v) ∷ headers) = if same k key then some v else lookup key headers

-- std::unordered_map::emplace, which leaves the value of a key that is there.
unfoldable pub emplace : List ℕ × List ℕ → Headers → Headers
emplace (key, v) headers = elim (lookup key headers) [
  | none ↦ headers ++ ((key, v) ∷ [])
  | some _ ↦ headers
]

-- The header of a line is stored, and the loop goes on.
abbrev pub then_next :
    (Headers → Step (Headers × BufferReader)) → Headers → List ℕ → Step (Headers × BufferReader)
then_next again headers line = header_of line >>= λ header. again (emplace header headers)

-- The loop over the headers, with fuel for its rounds and for those of `read_line`.
pub read_headers : ℕ → BufferReader → Headers → Step (Headers × BufferReader)
read_headers zero reader headers = endless
read_headers (suc fuel) reader headers = step_of (read_line fuel reader) >>= λ (line, reader').
    let next = then_next (read_headers fuel reader') headers line in
    if same line (codes "\r\n") then done (headers, reader') else next

abbrev pub leading_digits : List ℕ → List ℕ
leading_digits [] = []
leading_digits (c ∷ cs) = if is_digit c then c ∷ leading_digits cs else []

abbrev pub number : ℕ → List ℕ → ℕ
number n [] = n
number n (c ∷ cs) = number (10 * n + (c - b'0')) cs

abbrev pub negated : ℕ → ℤ
negated zero = pos 0
negated (suc n) = negsuc n

abbrev pub in_range : ℤ → Bool → List ℕ → ℤ
in_range old negative [] = old
in_range old negative (d ∷ ds) =
    let n = number 0 (d ∷ ds) in
    if negative
    then (if leb n (2 ^ 31) then negated n else old)
    else (if ltb n (2 ^ 31) then pos n else old)

-- std::from_chars into an int of 32 bits, which has the value `old` where no number is read.
unfoldable pub from_chars : List ℕ → ℤ → ℤ
from_chars [] old = old
from_chars (c ∷ cs) old =
    if c == b'-'
    then in_range old true (leading_digits cs)
    else in_range old false (leading_digits (c ∷ cs))

unfoldable pub content_length : Headers → ℤ
content_length headers = elim (lookup (codes "Content-Length") headers) [
  | none ↦ pos 0
  | some text ↦ from_chars text (pos 0)
]

-- std::string::resize; a negative size is converted to one that is too large.
abbrev pub resize : ℤ → Step ℕ
resize (pos n) = done n
resize (negsuc n) = throws

abbrev pub Stream : Type 0
Stream = List (Result (List ℕ))

-- The loop over the body, of which `left` bytes are missing, with fuel for its rounds.
pub read_body : ℕ → Stream → ℕ → List ℕ → Step (List ℕ × Stream)
read_body zero stream left body = endless
read_body (suc fuel) [] left body =
    let again = read_body fuel [] left body in if left == 0 then done (body, []) else again
read_body (suc fuel) (err e ∷ stream) left body =
    if left == 0 then done (body, err e ∷ stream) else broken
read_body (suc fuel) (ok bytes ∷ stream) left body =
    let again = read_body fuel stream (left - length bytes) (body ++ bytes) in
    if left == 0
    then done (body, ok bytes ∷ stream)
    else if ltb left (length bytes)
    then broken
    else again

pub record Request : Type 0 where
  pub line : RequestLine
  pub headers : Headers
  pub body : List ℕ

-- The stream was shut down, or handed on with the request.
pub data Received : Type 0 where
  closed : Received
  received : Request → Stream → Received

-- Behind the first line.
pub receive_rest : ℕ → List ℕ → BufferReader → Step Received
receive_rest fuel line reader = do
  text ← substr line 0 (minus (length line) 2)
  (headers, reader') ← read_headers fuel reader []
  size ← resize (content_length headers)
  (body, stream) ← read_body fuel reader'.source size []
  done (received (record { line = request_line text; headers = headers; body = body }) stream)

-- `shutdown` is what the shutdown of the stream answers, where the first line is empty.
pub receive_line : ℕ → Result (Unit {0}) → List ℕ → BufferReader → Step Received
receive_line fuel shutdown [] reader = value shutdown >>= λ _. done closed
receive_line fuel shutdown (c ∷ cs) reader = receive_rest fuel (c ∷ cs) reader

pub receive_request : ℕ → Result (Unit {0}) → Stream → Step Received
receive_request fuel shutdown stream = step_of (read_line fuel (new stream)) >>= λ (line, reader).
    receive_line fuel shutdown line reader
