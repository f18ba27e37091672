-- ===== src/HttpServer/Respond.antt =====
-- Server::execute_request of examples/http_server.cc.
pub mod Copy
pub mod Answer
use xyco.Common.{
  ℕ, zero, suc, ◌+◌, ◌-◌, ◌*◌, ◌%◌, ◌^◌, Bool, true, false, not, ◌&&◌, Option, none, some, List, [],
  ◌∷◌, ◌++◌, length, codes,
}
use xyco.Utils.Error.{Error, Result, ok, err}
use xyco.Io.BufferReader.{BufferReader, new, read_line}
use xyco.HttpServer.{
  decimal, Step, done, broken, throws, endless, ◌>>=◌, value, step_of, RequestLine, Method, get,
}
use xyco.HttpServer.Receive.{Request, Stream}

-- The stream of the response: what its next calls of `write_all` return, past the end of which they
-- succeed, and the bytes that it was given.
pub record Output : Type 0 where
  pub answers : List (Result (Unit {0}))
  pub sent : List ℕ

-- *co_await write_all(server_stream, text)
pub write : List ℕ → Output → Step Output
write text out = elim out.answers [
  | [] ↦ done (record out { sent = out.sent ++ text })
  | ok _ ∷ rest ↦ done (record { answers = rest; sent = out.sent ++ text })
  | err e ∷ rest ↦ broken
]

-- What an open file answers: its size, and its reads.
pub record Opened : Type 0 where
  pub size : Result ℕ
  pub reads : Stream

-- StatusLine::to_string; the code is not negative.
pub status_line : List ℕ → ℕ → List ℕ → List ℕ
status_line version code reason =
    version ++ codes " " ++ decimal code ++ codes " " ++ reason ++ codes "\r\n"

abbrev pub length_line : ℕ → List ℕ
length_line n = codes "Content-Length: " ++ decimal n ++ codes "\r\n"

-- What stands behind the status line where no file is sent.
abbrev pub write_body : List ℕ → Output → Step Output
write_body body out = do
  out1 ← write (length_line (length body)) out
  out2 ← write (codes "\r\n") out1
  write body out2

-- The loop goes on until the line is empty.
abbrev pub unless_empty : (Output → Step Output) → List ℕ → Output → Step Output
unless_empty again [] out = done out
unless_empty again (c ∷ cs) out = again out

-- The loop over the lines of the file, with fuel for its rounds and for those of `read_line`.
pub copy_lines : ℕ → BufferReader → Output → Step Output
copy_lines zero reader out = endless
copy_lines (suc fuel) reader out = step_of (read_line fuel reader) >>= λ (line, reader').
    write line out >>= unless_empty (copy_lines fuel reader') line

-- The file that was asked for is there, or not.
pub send_file : ℕ → List ℕ → Result Opened → Output → Step Output
send_file fuel version (err e) out = do
  out1 ← write (status_line version 404 (codes "ERROR")) out
  write_body (codes "<P>Your browser sent a bad request.\r\n") out1
send_file fuel version (ok file) out = do
  out1 ← write (status_line version 200 (codes "OK")) out
  size ← value file.size
  out2 ← write (length_line size) out1
  out3 ← write (codes "\r\n") out2
  copy_lines fuel (new file.reads) out3

pub refuse : List ℕ → Output → Step Output
refuse version out = do
  out1 ← write (status_line version 500 (codes "Internal Server Error")) out
  write_body (codes "<P>Unsupported method.\r\n") out1

abbrev pub execute_method :
    ℕ → (List ℕ → Result Opened) → RequestLine → Option Method → Output → Step Output
execute_method fuel open_path line none out = broken
execute_method fuel open_path line (some get) out =
    send_file fuel line.version (open_path line.url) out
execute_method fuel open_path line (some other) out = refuse line.version out

-- `open_path` is File::open by the path.
pub execute_request : ℕ → (List ℕ → Result Opened) → Request → Output → Step Output
execute_request fuel open_path request out =
    execute_method fuel open_path request.line request.line.method out
