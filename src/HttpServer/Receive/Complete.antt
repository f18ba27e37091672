-- ===== src/HttpServer/Receive/Complete.antt =====
-- A request as its client writes it, and what is received: examples/http_server.cc:15-63 and 101-138.
use xyco.Common.{ℕ, List, [], ◌∷◌, ◌++◌, codes, ◌==◌, if◌then◌else◌}

-- The file of a path that begins with `dir` and ends with the character `c`.
abbrev pub file_of : List ℕ → ℕ → List ℕ
file_of dir c = codes "." ++ (dir ++ (c ∷ (if c == b'/' then codes "index.html" else [])))
