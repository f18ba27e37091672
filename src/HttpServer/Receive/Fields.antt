-- ===== src/HttpServer/Receive/Fields.antt =====
-- The lines of the headers of a request: examples/http_server.cc:112-117.
use xyco.Common.{
  ℕ, suc, ◌+◌, ◌%◌, ◌^◌, ◌≡◌, ◌<◌, ◌≤◌, refl, ap, ◌∙◌, false, List, [], ◌∷◌, ◌++◌, length, take,
  drop, codes, same, arith, length-append, take_all, take-append_left,
}
use xyco.Io.BufferReader.ReadUntil.{Lacks, find-append}
use xyco.HttpServer.{done}
use xyco.HttpServer.Receive.{minus, find_in, substr, header_of}

-- A name and a text, as a client writes them on a line.
abbrev pub Field : Type 0
Field = List ℕ × List ℕ

abbrev pub field_line : Field → List ℕ
field_line (name, text) = name ++ (codes ": " ++ (text ++ codes "\r\n"))

-- No colon in the name, and no line feed.
abbrev pub IsField : Field → Type 0
IsField (name, text) = Lacks b':' name × Lacks b'\n' name × Lacks b'\n' text

pub drop-past : (xs ys : List ℕ) (k : ℕ) → drop (length xs + k) (xs ++ ys) ≡ drop k ys
drop-past [] ys k = ap (λ j. drop j ys) (omega arith)
drop-past (x ∷ xs) ys k =
    ap (λ j. drop j (x ∷ (xs ++ ys))) {x = suc (length xs) + k} {y = suc (length xs + k)}
      (omega arith)
    ∙ drop-past xs ys k

pub substr-done :
    (text : List ℕ) (begin count : ℕ)
    → begin ≤ length text
    → substr text begin count ≡ done (take count (drop begin text))
unfolding substr
substr-done text begin count h = ground arith

find_in-field :
    (name text : List ℕ) → Lacks b':' name → find_in b':' (field_line (name, text)) ≡ length name
find_in-field name text l = ground (
  arith,
  find-append b':' name (b' ' ∷ (text ++ codes "\r\n")) l,
  length-append name (codes ": " ++ (text ++ codes "\r\n")),
)

-- The value that is stored keeps the carriage return and the line feed.
pub header_of-field :
    (name text : List ℕ)
    → Lacks b':' name
    → length (field_line (name, text)) < 2 ^ 63
    → header_of (field_line (name, text)) ≡ done (name, text ++ codes "\r\n")
unfolding header_of
header_of-field name text l b =
    rw
      (
        find_in-field name text l,
        substr-done line 0 (length name) (omega arith),
        substr-done line ((length name + 2) % 2 ^ 64) (minus (length line) 2)
            (omega (arith, size, b)),
      )
      (ap (λ n. done (n, take (minus (length line) 2) (drop ((length name + 2) % 2 ^ 64) line)))
          first
        ∙ ap (λ t. done (name, t)) second)
  where
    line : List ℕ
    line = field_line (name, text)

    size : length line ≡ length name + (2 + length (text ++ codes "\r\n"))
    size = omega (arith, length-append name (codes ": " ++ (text ++ codes "\r\n")))

    first : take (length name) line ≡ name
    first =
        take-append_left (length name) name _ (omega arith)
        ∙ take_all (length name) name (omega arith)

    second :
        take (minus (length line) 2) (drop ((length name + 2) % 2 ^ 64) line) ≡ text ++ codes "\r\n"
    second =
        ap (λ k. take (minus (length line) 2) (drop k line)) {y = length name + 2}
          (omega (arith, size, b))
        ∙ ap (take (minus (length line) 2))
            (drop-past name (codes ": " ++ (text ++ codes "\r\n")) 2)
        ∙ take_all (minus (length line) 2) (text ++ codes "\r\n") (omega (arith, size, b))

pub same-field :
    (name text : List ℕ) → Lacks b'\n' name → same (field_line (name, text)) (codes "\r\n") ≡ false
same-field [] text l = refl
same-field (c ∷ []) text l = ground arith
same-field (c ∷ d ∷ cs) text l = ground (arith, l.1.0)
