-- ===== src/HttpServer/Words.antt =====
-- The first line of a request: RequestLine of examples/http_server.cc.
use xyco.Common.{
  ℕ, ◌≡◌, ◌<◌, refl, ap, ◌∙◌, false, some, List, [], ◌∷◌, ◌++◌, length, codes, is_space, arith,
}
use xyco.Io.BufferReader.ReadUntil.{Lacks}
use xyco.HttpServer.Receive.Heads.{Lacks-append}
use xyco.HttpServer.{
  Method, get, head, post, put, delete, connect, options, trace, patch, word, skip_spaces, extract,
  method_of, path_of, request_line,
}

-- The name of a method in the protocol.
abbrev pub name_of : Method → List ℕ
name_of get = codes "GET"
name_of head = codes "HEAD"
name_of post = codes "POST"
name_of put = codes "PUT"
name_of delete = codes "DELETE"
name_of connect = codes "CONNECT"
name_of options = codes "OPTIONS"
name_of trace = codes "TRACE"
name_of patch = codes "PATCH"

method_of-name_of : (m : Method) → method_of (name_of m) ≡ some m
unfolding method_of
method_of-name_of get = refl
method_of-name_of head = refl
method_of-name_of post = refl
method_of-name_of put = refl
method_of-name_of delete = refl
method_of-name_of connect = refl
method_of-name_of options = refl
method_of-name_of trace = refl
method_of-name_of patch = refl

abbrev NoSpaces : List ℕ → Type 0
NoSpaces [] = Unit
NoSpaces (c ∷ cs) = (is_space c ≡ false) × NoSpaces cs

-- A word has a character, and no white space.
abbrev pub IsWord : List ℕ → Type 0
IsWord w = (0 < length w) × NoSpaces w

name_of-IsWord : (m : Method) → IsWord (name_of m)
name_of-IsWord get = ground arith
name_of-IsWord head = ground arith
name_of-IsWord post = ground arith
name_of-IsWord put = ground arith
name_of-IsWord delete = ground arith
name_of-IsWord connect = ground arith
name_of-IsWord options = ground arith
name_of-IsWord trace = ground arith
name_of-IsWord patch = ground arith

word-space : (w rest : List ℕ) → NoSpaces w → word (w ++ (b' ' ∷ rest)) ≡ (w, b' ' ∷ rest)
word-space [] rest h = refl
word-space (c ∷ cs) rest h = rw (h.0, word-space cs rest h.1) refl

word-end : (w : List ℕ) → NoSpaces w → word w ≡ (w, [])
word-end [] h = refl
word-end (c ∷ cs) h = rw (h.0, word-end cs h.1) refl

skip_spaces-word : (w rest : List ℕ) → IsWord w → skip_spaces (w ++ rest) ≡ w ++ rest
skip_spaces-word [] rest h = absurd (omega (arith, h.0))
skip_spaces-word (c ∷ cs) rest h = rw h.1.0 refl

extract-space : (w rest : List ℕ) → IsWord w → extract (w ++ (b' ' ∷ rest)) ≡ (w, b' ' ∷ rest)
extract-space w rest h = ap word (skip_spaces-word w (b' ' ∷ rest) h) ∙ word-space w rest h.1

extract-end : (w : List ℕ) → IsWord w → extract w ≡ (w, [])
extract-end [] h = absurd (omega (arith, h.0))
extract-end (c ∷ cs) h = ap word (the_word c cs h) ∙ word-end (c ∷ cs) h.1
  where
    the_word : (c : ℕ) (cs : List ℕ) → IsWord (c ∷ cs) → skip_spaces (c ∷ cs) ≡ c ∷ cs
    the_word c cs h = rw h.1.0 refl

-- What a client writes for a request.
abbrev pub request_text : Method → List ℕ → List ℕ → List ℕ
request_text m url version = name_of m ++ (b' ' ∷ (url ++ (b' ' ∷ version)))

-- The first line that a client writes, of a method, a path and a version, each a word, is taken apart
-- into them; the path is the one of the file that is opened.
pub request_line-request_text :
    (m : Method) (url version : List ℕ)
    → IsWord url
    → IsWord version
    → request_line (request_text m url version)
      ≡ record { method = some m; url = path_of url; version = version }
unfolding request_line
request_line-request_text m url version u v =
    rw
      (
        extract-space (name_of m) (url ++ (b' ' ∷ version)) (name_of-IsWord m),
        extract-space url version u,
        extract-end version v,
        method_of-name_of m,
      )
      refl

NoSpaces-Lacks : (w : List ℕ) → NoSpaces w → Lacks b'\n' w
NoSpaces-Lacks [] h = tt
NoSpaces-Lacks (c ∷ cs) h = (ground (arith, h.0), NoSpaces-Lacks cs h.1)

pub request_text-Lacks :
    (m : Method) (url version : List ℕ)
    → IsWord url
    → IsWord version
    → Lacks b'\n' (request_text m url version)
request_text-Lacks m url version u v =
    Lacks-append b'\n' (name_of m) _ (NoSpaces-Lacks (name_of m) (name_of-IsWord m).1) (
      ground arith,
      Lacks-append b'\n' url _ (NoSpaces-Lacks url u.1) (ground arith, NoSpaces-Lacks version v.1),
    )
