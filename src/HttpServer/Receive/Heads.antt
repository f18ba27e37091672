-- ===== src/HttpServer/Receive/Heads.antt =====
-- The head of a request that has come in one read: examples/http_server.cc:102-118.
use xyco.Common.{
  ℕ, zero, suc, ◌+◌, ◌^◌, ◌≡◌, ◌<◌, refl, ap, ◌∙◌, List, [], ◌∷◌, ◌++◌, length, codes, arith,
  length-append, append_assoc,
}
use xyco.Io.BufferReader.{BufferReader}
use xyco.Io.BufferReader.Inv.{Inv, unread}
use xyco.Io.BufferReader.ReadUntil.{Lacks, length-unread}
use xyco.Io.BufferReader.Lines.{read_line_found}
use xyco.HttpServer.{done}
use xyco.HttpServer.Receive.{Headers, emplace, read_headers}
use xyco.HttpServer.Receive.Fields.{Field, field_line, IsField, header_of-field, same-field}

abbrev pub AreFields : List Field → Type 0
AreFields [] = Unit
AreFields (f ∷ fs) = IsField f × AreFields fs

-- The lines of the headers, and the empty line.
abbrev pub header_lines : List Field → List ℕ
header_lines [] = codes "\r\n"
header_lines (f ∷ fs) = field_line f ++ header_lines fs

-- What the headers become: each text with the carriage return and the line feed of its line.
abbrev pub stored : Headers → List Field → Headers
stored headers [] = headers
stored headers ((name, text) ∷ fs) = stored (emplace (name, text ++ codes "\r\n") headers) fs

pub Lacks-append : (c : ℕ) (xs ys : List ℕ) → Lacks c xs → Lacks c ys → Lacks c (xs ++ ys)
Lacks-append c [] ys h k = k
Lacks-append c (x ∷ xs) ys h k = (h.0, Lacks-append c xs ys h.1 k)

-- A field line without its line feed.
abbrev field_start : Field → List ℕ
field_start (name, text) = name ++ (codes ": " ++ (text ++ codes "\r"))

field_start-Lacks : (f : Field) → IsField f → Lacks b'\n' (field_start f)
field_start-Lacks (name, text) h =
    Lacks-append b'\n' name (codes ": " ++ (text ++ codes "\r")) h.1
      (ground arith, (ground arith, Lacks-append b'\n' text (codes "\r") h.2 (ground arith, tt)))

field_line-split :
    (f : Field) (rest : List ℕ) → field_line f ++ rest ≡ field_start f ++ (b'\n' ∷ rest)
field_line-split (name, text) rest = simp append_assoc

field_line-whole : (f : Field) → field_start f ++ (b'\n' ∷ []) ≡ field_line f
field_line-whole (name, text) = simp append_assoc

pub line_length :
    (r : BufferReader) (xs ys : List ℕ) → Inv r → unread r ≡ xs ++ ys → length xs < 2 ^ 63
line_length r xs ys i u =
    omega (arith, length-unread r i, ap length u, length-append xs ys, i.cap_le)

pub read_headers-stored :
    (fs : List Field) (fuel : ℕ) (r : BufferReader) (headers : Headers) (rest : List ℕ)
    → Inv r
    → length fs + 1 < fuel
    → AreFields fs
    → unread r ≡ header_lines fs ++ rest
    → (r' : BufferReader) × (read_headers fuel r headers ≡ done (stored headers fs, r'))
      × (unread r' ≡ rest)
      × Inv r'
      × (r'.source ≡ r.source)
unfolding read_headers
read_headers-stored fs zero r headers rest i b a u = absurd (omega arith)
read_headers-stored fs (suc zero) r headers rest i b a u = absurd (omega arith)
read_headers-stored [] (suc (suc fuel)) r headers rest i b a u =
    let (r', e, v, j, s) = read_line_found fuel r (codes "\r") rest i (ground arith, tt) u in
    (r', rw (e, read_headers) refl, v, j, s)
read_headers-stored (f ∷ fs) (suc (suc fuel)) r headers rest i b a u =
    let split : unread r ≡ field_start f ++ (b'\n' ∷ (header_lines fs ++ rest)) =
      u
      ∙ append_assoc (field_line f) (header_lines fs) rest
      ∙ field_line-split f (header_lines fs ++ rest) in
    let (r', e, v, j, s) =
      read_line_found fuel r (field_start f) (header_lines fs ++ rest) i (field_start-Lacks f a.0)
        split in
    let (r'', e', v', j', s') =
      read_headers-stored fs (suc fuel) r' (emplace (f.0, f.1 ++ codes "\r\n") headers) rest j
        (omega (arith, b)) a.1 v in
    let small : length (field_line f) < 2 ^ 63 =
      line_length r (field_line f) (header_lines fs ++ rest) i
        (u ∙ append_assoc (field_line f) (header_lines fs) rest) in
    (
      r'',
      rw
          (
            e,
            read_headers,
            field_line-whole f,
            same-field f.0 f.1 a.0.1,
            header_of-field f.0 f.1 a.0.0 small,
          )
          e',
      v',
      j',
      s' ∙ s,
    )
