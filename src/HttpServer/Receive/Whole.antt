-- ===== src/HttpServer/Receive/Whole.antt =====
-- A request as a whole: examples/http_server.cc:101-138.
use xyco.Common.{
  ℕ, zero, suc, ◌+◌, ◌^◌, ◌≡◌, ◌<◌, ◌≤◌, refl, ap, ◌∙◌, List, [], ◌∷◌, ◌++◌, length, take, codes,
  arith, length-append, take_all, take-append_left, append_assoc, pos,
}
use xyco.Utils.Error.{Result, ok}
use xyco.Io.BufferReader.{BufferReader, default_buffer_size}
use xyco.Io.BufferReader.Inv.{Inv, unread, Fits}
use xyco.Io.BufferReader.ReadUntil.{Lacks}
use xyco.Io.BufferReader.Lines.{
  read_line_found, read_line-opened, opened, opened-Inv, unread-opened,
}
use xyco.HttpServer.{Step, done, endless, ◌>>=◌, RequestLine, request_line}
use xyco.HttpServer.Receive.{
  Headers, Stream, Received, received, content_length, minus, substr, read_body, receive_request,
  receive_rest, receive_line,
}
use xyco.HttpServer.Receive.Fields.{Field, substr-done}
use xyco.HttpServer.Receive.Heads.{
  AreFields, header_lines, stored, Lacks-append, read_headers-stored,
}
use xyco.HttpServer.Receive.Body.{reads, joined, AreReads, read_body-joined, read_body-endless}

-- The head of a request: its first line, the lines of the headers, and the empty line.
abbrev pub head_of : List ℕ → List Field → List ℕ
head_of text fs = text ++ (codes "\r\n" ++ header_lines fs)

receive_line-rest :
    (fuel : ℕ) (shutdown : Result (Unit {0})) (line : List ℕ) (reader : BufferReader)
    → 0 < length line
    → receive_line fuel shutdown line reader ≡ receive_rest fuel line reader
unfolding receive_line
receive_line-rest fuel shutdown [] reader h = absurd (omega arith)
receive_line-rest fuel shutdown (c ∷ cs) reader h = refl

-- The first line without its carriage return and line feed.
first_line :
    (text : List ℕ)
    → length (text ++ codes "\r\n") < 2 ^ 63
    → substr (text ++ codes "\r\n") 0 (minus (length (text ++ codes "\r\n")) 2) ≡ done text
first_line text b =
    substr-done (text ++ codes "\r\n") 0 (minus (length (text ++ codes "\r\n")) 2) (omega arith)
    ∙ ap done (
        ap (λ n. take n (text ++ codes "\r\n")) {y = length text}
          (omega (arith, length-append text (codes "\r\n"), b))
        ∙ take-append_left (length text) text (codes "\r\n") (omega arith)
        ∙ take_all (length text) text (omega arith))

-- What is received, by the loop over the body.
abbrev then_body : RequestLine → Headers → Step (List ℕ × Stream) → Step Received
then_body line headers body = body >>= λ (text, stream).
    done (received (record { line = line; headers = headers; body = text }) stream)

receive_rest-stored :
    (fuel size : ℕ) (text : List ℕ) (fs : List Field) (lost : List ℕ) (reader : BufferReader)
    → Inv reader
    → length fs + 1 < fuel
    → AreFields fs
    → length (text ++ codes "\r\n") < 2 ^ 63
    → unread reader ≡ header_lines fs ++ lost
    → content_length (stored [] fs) ≡ pos size
    → receive_rest fuel (text ++ codes "\r\n") reader
      ≡ then_body (request_line text) (stored [] fs) (read_body fuel reader.source size [])
unfolding receive_rest
receive_rest-stored fuel size text fs lost reader i b a l u c =
    let (r', e, v, j, s) = read_headers-stored fs fuel reader [] lost i b a u in
    rw (first_line text l, e, c, s) refl

receive_request-stored :
    (fuel size : ℕ) (shutdown : Result (Unit {0})) (text : List ℕ) (fs : List Field) (lost : List ℕ)
    (stream : Stream)
    → Lacks b'\n' text
    → AreFields fs
    → length (head_of text fs ++ lost) ≤ default_buffer_size
    → Fits stream
    → length fs + 1 < fuel
    → content_length (stored [] fs) ≡ pos size
    → receive_request fuel shutdown (ok (head_of text fs ++ lost) ∷ stream)
      ≡ then_body (request_line text) (stored [] fs) (read_body fuel stream size [])
unfolding receive_request
receive_request-stored zero size shutdown text fs lost stream t a b f n c = absurd (omega arith)
receive_request-stored (suc fuel) size shutdown text fs lost stream t a b f n c =
    let (r', e, v, j, s) =
      read_line_found fuel reader (text ++ codes "\r") (header_lines fs ++ lost)
        (opened-Inv bytes stream b f) (Lacks-append b'\n' text (codes "\r") t (ground arith, tt))
        (unread-opened bytes stream ∙ split) in
    rw
      (
        read_line-opened (suc fuel) bytes stream filled,
        e,
        whole,
        receive_line-rest (suc fuel) shutdown (text ++ codes "\r\n") r' long,
        receive_rest-stored (suc fuel) size text fs lost r' j n a small v c,
        s,
      )
      refl
  where
    bytes : List ℕ
    bytes = head_of text fs ++ lost

    reader : BufferReader
    reader = opened bytes stream

    split : bytes ≡ (text ++ codes "\r") ++ (b'\n' ∷ (header_lines fs ++ lost))
    split = simp append_assoc

    whole : (text ++ codes "\r") ++ (b'\n' ∷ []) ≡ text ++ codes "\r\n"
    whole = simp append_assoc

    long : 0 < length (text ++ codes "\r\n")
    long = omega (arith, length-append text (codes "\r\n"))

    split' : bytes ≡ text ++ (codes "\r\n" ++ (header_lines fs ++ lost))
    split' = simp append_assoc

    size_of : length bytes ≡ length text + (2 + length (header_lines fs ++ lost))
    size_of =
        ap length split'
        ∙ omega (arith, length-append text (codes "\r\n" ++ (header_lines fs ++ lost)))

    filled : 0 < length bytes
    filled = omega (arith, size_of)

    small : length (text ++ codes "\r\n") < 2 ^ 63
    small = omega (arith, size_of, b, length-append text (codes "\r\n"))

-- The body comes in the reads behind the head. Bytes that came with the head are lost.
pub receive_request-body :
    (fuel : ℕ) (shutdown : Result (Unit {0})) (text : List ℕ) (fs : List Field) (lost : List ℕ)
    (chunks : List (List ℕ)) (stream : Stream)
    → Lacks b'\n' text
    → AreFields fs
    → length (head_of text fs ++ lost) ≤ default_buffer_size
    → Fits (reads chunks stream)
    → AreReads chunks
    → content_length (stored [] fs) ≡ pos (length (joined chunks))
    → length fs + 1 < fuel
    → length chunks < fuel
    → receive_request fuel shutdown (ok (head_of text fs ++ lost) ∷ reads chunks stream)
      ≡ done (
          received
            (record { line = request_line text; headers = stored [] fs; body = joined chunks })
            stream)
receive_request-body fuel shutdown text fs lost chunks stream t a b f r c n m =
    receive_request-stored fuel (length (joined chunks)) shutdown text fs lost (reads chunks stream)
      t a b f n c
    ∙ ap (then_body (request_line text) (stored [] fs)) (read_body-joined chunks fuel [] stream m r)

-- A body that has come in one read with the head, all of it or in part, with nothing behind it: the loop
-- over the body does not end, however many rounds it makes.
pub receive_request-endless :
    (fuel size : ℕ) (shutdown : Result (Unit {0})) (text : List ℕ) (fs : List Field) (body : List ℕ)
    → Lacks b'\n' text
    → AreFields fs
    → length (head_of text fs ++ body) ≤ default_buffer_size
    → content_length (stored [] fs) ≡ pos size
    → 0 < size
    → length fs + 1 < fuel
    → receive_request fuel shutdown (ok (head_of text fs ++ body) ∷ []) ≡ endless
receive_request-endless fuel size shutdown text fs body t a b c z n =
    receive_request-stored fuel size shutdown text fs body [] t a b tt n c
    ∙ ap (then_body (request_line text) (stored [] fs)) (read_body-endless fuel size [] z)
