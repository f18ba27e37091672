-- ===== src/HttpServer/Respond/Answer.antt =====
-- What a request is answered: examples/http_server.cc:141-192.
use xyco.Common.{
  ℕ, ◌+◌, ◌≡◌, ◌<◌, ◌≤◌, refl, ap, ◌∙◌, Option, none, some, List, ◌++◌, length, codes, append_assoc,
}
use xyco.Utils.Error.{Error, Result, ok, err}
use xyco.Io.BufferReader.{default_buffer_size}
use xyco.HttpServer.{
  done, ◌>>=◌, RequestLine, Method, get, head, post, put, delete, connect, options, trace, patch,
}
use xyco.HttpServer.Receive.{Request}
use xyco.HttpServer.Respond.Copy.{quiet, write-quiet, text_of, AreLines, reads_of, copy_lines-file}
use xyco.HttpServer.Respond.{
  Opened, write, write_body, status_line, length_line, send_file, refuse, execute_request,
  execute_method,
}

-- A response whose header gives the length of its body.
abbrev pub response : List ℕ → ℕ → List ℕ → List ℕ → List ℕ
response version code reason body =
    status_line version code reason ++ (length_line (length body) ++ (codes "\r\n" ++ body))

-- The response to a method; `file` is the lines of the file that was asked for, where it can be opened.
abbrev pub response_to : Method → List ℕ → Option (List (List ℕ)) → List ℕ
response_to get version (some lines) = response version 200 (codes "OK") (text_of lines)
response_to get version none =
    response version 404 (codes "ERROR") (codes "<P>Your browser sent a bad request.\r\n")
response_to other version file =
    response version 500 (codes "Internal Server Error") (codes "<P>Unsupported method.\r\n")

-- How a file is opened that has these lines, and how one that cannot be opened.
abbrev pub opened_of : Error → Option (List (List ℕ)) → Result Opened
opened_of e none = err e
opened_of e (some lines) =
    ok (record { size = ok (length (text_of lines)); reads = reads_of (text_of lines) })

-- Lines of text, that together fit into the buffer of a reader.
abbrev pub IsText : ℕ → Option (List (List ℕ)) → Type 0
IsText fuel none = Unit
IsText fuel (some lines) =
    AreLines lines × (length (text_of lines) ≤ default_buffer_size) × (length lines + 1 < fuel)

write_body-quiet :
    (body sent : List ℕ)
    → write_body body (quiet sent)
      ≡ done (quiet (sent ++ (length_line (length body) ++ (codes "\r\n" ++ body))))
write_body-quiet body sent =
    rw
      (
        write-quiet (length_line (length body)) sent,
        write-quiet (codes "\r\n") (sent ++ length_line (length body)),
        write-quiet body ((sent ++ length_line (length body)) ++ codes "\r\n"),
      )
      (ap (λ text. done (quiet text)) (simp append_assoc))

short_response :
    (version : List ℕ) (code : ℕ) (reason body sent : List ℕ)
    → (write (status_line version code reason) (quiet sent) >>= write_body body)
      ≡ done (quiet (sent ++ response version code reason body))
short_response version code reason body sent =
    rw (write-quiet (status_line version code reason) sent) (
      write_body-quiet body (sent ++ status_line version code reason)
      ∙ ap (λ text. done (quiet text)) (append_assoc sent (status_line version code reason) _))

send_file-quiet :
    (fuel : ℕ) (version : List ℕ) (e : Error) (file : Option (List (List ℕ))) (sent : List ℕ)
    → IsText fuel file
    → send_file fuel version (opened_of e file) (quiet sent)
      ≡ done (quiet (sent ++ response_to get version file))
unfolding send_file
send_file-quiet fuel version e none sent t =
    short_response version 404 (codes "ERROR") (codes "<P>Your browser sent a bad request.\r\n")
      sent
send_file-quiet fuel version e (some lines) sent t =
    rw
      (
        write-quiet (status_line version 200 (codes "OK")) sent,
        write-quiet (length_line (length text)) (sent ++ status_line version 200 (codes "OK")),
        write-quiet (codes "\r\n")
            ((sent ++ status_line version 200 (codes "OK")) ++ length_line (length text)),
        copy_lines-file lines fuel text
            (((sent ++ status_line version 200 (codes "OK")) ++ length_line (length text))
              ++ codes "\r\n")
            refl t.1 t.2 t.0,
      )
      (ap (λ text. done (quiet text)) (simp append_assoc))
  where
    text : List ℕ
    text = text_of lines

refuse-quiet :
    (version sent : List ℕ)
    → refuse version (quiet sent)
      ≡ done (
          quiet (
            sent
            ++ response version 500
                (codes "Internal Server Error")
                (codes "<P>Unsupported method.\r\n")))
unfolding refuse
refuse-quiet version sent =
    short_response version 500 (codes "Internal Server Error") (codes "<P>Unsupported method.\r\n")
      sent

execute_method-responds :
    (fuel : ℕ) (files : List ℕ → Option (List (List ℕ))) (e : Error) (line : RequestLine)
    (m : Method) (sent : List ℕ)
    → IsText fuel (files line.url)
    → execute_method fuel (λ path. opened_of e (files path)) line (some m) (quiet sent)
      ≡ done (quiet (sent ++ response_to m line.version (files line.url)))
execute_method-responds fuel files e line get sent t =
    send_file-quiet fuel line.version e (files line.url) sent t
execute_method-responds fuel files e line head sent t = refuse-quiet line.version sent
execute_method-responds fuel files e line post sent t = refuse-quiet line.version sent
execute_method-responds fuel files e line put sent t = refuse-quiet line.version sent
execute_method-responds fuel files e line delete sent t = refuse-quiet line.version sent
execute_method-responds fuel files e line connect sent t = refuse-quiet line.version sent
execute_method-responds fuel files e line options sent t = refuse-quiet line.version sent
execute_method-responds fuel files e line trace sent t = refuse-quiet line.version sent
execute_method-responds fuel files e line patch sent t = refuse-quiet line.version sent

-- Where the writes to the stream succeed: a GET of a file that consists of lines, each with its line
-- feed, and that one read returns, is answered with the file; a GET of a file that cannot be opened with
-- 404, and any other method with 500. In each of the three the header gives the length of the body.
pub execute_request-responds :
    (fuel : ℕ) (files : List ℕ → Option (List (List ℕ))) (e : Error) (request : Request)
    (m : Method) (sent : List ℕ)
    → request.line.method ≡ some m
    → IsText fuel (files request.line.url)
    → execute_request fuel (λ path. opened_of e (files path)) request (quiet sent)
      ≡ done (quiet (sent ++ response_to m request.line.version (files request.line.url)))
unfolding execute_request
execute_request-responds fuel files e request m sent q t =
    rw q (execute_method-responds fuel files e request.line m sent t)
