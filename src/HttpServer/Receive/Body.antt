-- ===== src/HttpServer/Receive/Body.antt =====
-- The body of a request: examples/http_server.cc:131-137.
use xyco.Common.{
  ℕ, zero, suc, ◌+◌, ◌-◌, ◌≡◌, ◌<◌, refl, sym, ap, ◌∙◌, List, [], ◌∷◌, ◌++◌, length, arith,
  length-append, append_assoc, append-nil,
}
use xyco.Utils.Error.{ok, err}
use xyco.HttpServer.{done, endless}
use xyco.HttpServer.Receive.{Stream, read_body}

-- Reads that return the bytes of one list each, and then others.
abbrev pub reads : List (List ℕ) → Stream → Stream
reads [] stream = stream
reads (bytes ∷ rest) stream = ok bytes ∷ reads rest stream

abbrev pub joined : List (List ℕ) → List ℕ
joined [] = []
joined (bytes ∷ rest) = bytes ++ joined rest

-- Before the end of a stream a read returns bytes.
abbrev pub AreReads : List (List ℕ) → Type 0
AreReads [] = Unit
AreReads (bytes ∷ rest) = (0 < length bytes) × AreReads rest

read_body_over :
    (fuel : ℕ) (stream : Stream) (body : List ℕ)
    → read_body (suc fuel) stream 0 body ≡ done (body, stream)
unfolding read_body
read_body_over fuel [] body = refl
read_body_over fuel (ok bytes ∷ stream) body = refl
read_body_over fuel (err e ∷ stream) body = refl

read_body_next :
    (fuel left n : ℕ) (bytes body : List ℕ) (stream : Stream)
    → left ≡ length bytes + n
    → 0 < length bytes
    → read_body (suc fuel) (ok bytes ∷ stream) left body ≡ read_body fuel stream n (body ++ bytes)
unfolding read_body
read_body_next fuel left n bytes body stream e h =
    let q : left - length bytes ≡ n = omega (arith, e) in
    ground (arith, e, h) ∙ ap (λ k. read_body fuel stream k (body ++ bytes)) q

pub read_body-joined :
    (chunks : List (List ℕ)) (fuel : ℕ) (body : List ℕ) (stream : Stream)
    → length chunks < fuel
    → AreReads chunks
    → read_body fuel (reads chunks stream) (length (joined chunks)) body
      ≡ done (body ++ joined chunks, stream)
unfolding read_body
read_body-joined chunks zero body stream b a = absurd (omega arith)
read_body-joined [] (suc fuel) body stream b a =
    read_body_over fuel stream body ∙ ap (λ text. done (text, stream)) (sym (append-nil body))
read_body-joined (bytes ∷ rest) (suc fuel) body stream b a =
    read_body_next fuel (length (bytes ++ joined rest)) (length (joined rest)) bytes body
      (reads rest stream) (length-append bytes (joined rest)) a.0
    ∙ read_body-joined rest fuel (body ++ bytes) stream (omega (arith, b)) a.1
    ∙ ap (λ text. done (text, stream)) (append_assoc body bytes (joined rest))

-- Where the stream has ended and bytes are missing, the loop does not end.
pub read_body-endless :
    (fuel left : ℕ) (body : List ℕ) → 0 < left → read_body fuel [] left body ≡ endless
unfolding read_body
read_body-endless zero left body h = refl
read_body-endless (suc fuel) left body h = ground (arith, read_body-endless fuel left body h)
