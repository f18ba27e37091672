-- ===== src/HttpServer/Respond/Copy.antt =====
-- How a file is sent: examples/http_server.cc:174-179.
use xyco.Common.{
  ℕ, zero, suc, ◌+◌, ◌≡◌, ◌<◌, ◌≤◌, refl, sym, ap, ◌∙◌, List, [], ◌∷◌, ◌++◌, length, arith,
  append_assoc,
}
use xyco.Utils.Error.{ok}
use xyco.Io.BufferReader.{BufferReader, default_buffer_size, new}
use xyco.Io.BufferReader.Inv.{Inv, unread, new-Inv}
use xyco.Io.BufferReader.ReadUntil.{Lacks}
use xyco.Io.BufferReader.Lines.{
  unread-new, new-source, read_line_found, read_line-opened, read_line_end, opened, opened-Inv,
  unread-opened,
}
use xyco.HttpServer.{Step, done}
use xyco.HttpServer.Receive.{Stream}
use xyco.HttpServer.Respond.{Output, write, copy_lines, unless_empty}

-- A stream whose writes succeed.
abbrev pub quiet : List ℕ → Output
quiet sent = record { answers = []; sent = sent }

pub write-quiet : (text sent : List ℕ) → write text (quiet sent) ≡ done (quiet (sent ++ text))
unfolding write
write-quiet text sent = refl

-- The text of lines, each with its line feed.
abbrev pub text_of : List (List ℕ) → List ℕ
text_of [] = []
text_of (line ∷ lines) = line ++ (b'\n' ∷ text_of lines)

abbrev pub AreLines : List (List ℕ) → Type 0
AreLines [] = Unit
AreLines (line ∷ lines) = Lacks b'\n' line × AreLines lines

line_split :
    (line rest : List ℕ) (again : Output → Step Output) (out : Output)
    → unless_empty again (line ++ (b'\n' ∷ rest)) out ≡ again out
line_split [] rest again out = refl
line_split (c ∷ cs) rest again out = refl

copy_lines-quiet :
    (lines : List (List ℕ)) (fuel : ℕ) (reader : BufferReader) (sent : List ℕ)
    → Inv reader
    → length lines + 1 < fuel
    → AreLines lines
    → unread reader ≡ text_of lines
    → reader.source ≡ []
    → copy_lines fuel reader (quiet sent) ≡ done (quiet (sent ++ text_of lines))
unfolding copy_lines
copy_lines-quiet lines zero reader sent i b a u e = absurd (omega arith)
copy_lines-quiet lines (suc zero) reader sent i b a u e = absurd (omega arith)
copy_lines-quiet [] (suc (suc fuel)) reader sent i b a u e =
    let (r', q) = read_line_end fuel reader i u e in rw (q, copy_lines, write-quiet [] sent) refl
copy_lines-quiet (line ∷ lines) (suc (suc fuel)) reader sent i b a u e =
    let (r', q, v, j, s) = read_line_found fuel reader line (text_of lines) i a.0 u in
    rw
      (
        q,
        copy_lines,
        write-quiet (line ++ (b'\n' ∷ [])) sent,
        line_split line [] (copy_lines (suc fuel) r') (quiet (sent ++ (line ++ (b'\n' ∷ [])))),
      )
      (copy_lines-quiet lines (suc fuel) r' (sent ++ (line ++ (b'\n' ∷ []))) j (omega (arith, b))
          a.1 v (s ∙ e)
        ∙ ap (λ text. done (quiet text)) (simp append_assoc))

-- A file that one read returns; the first read of an empty one returns no byte.
abbrev pub reads_of : List ℕ → Stream
reads_of [] = []
reads_of (c ∷ cs) = ok (c ∷ cs) ∷ []

copy_lines-opened :
    (fuel : ℕ) (bytes : List ℕ) (out : Output)
    → 0 < length bytes
    → copy_lines fuel (new (ok bytes ∷ [])) out ≡ copy_lines fuel (opened bytes []) out
unfolding copy_lines
copy_lines-opened zero bytes out h = refl
copy_lines-opened (suc fuel) bytes out h = rw (read_line-opened fuel bytes [] h) refl

pub copy_lines-file :
    (lines : List (List ℕ)) (fuel : ℕ) (bytes sent : List ℕ)
    → bytes ≡ text_of lines
    → length bytes ≤ default_buffer_size
    → length lines + 1 < fuel
    → AreLines lines
    → copy_lines fuel (new (reads_of bytes)) (quiet sent) ≡ done (quiet (sent ++ bytes))
copy_lines-file lines fuel [] sent e l b a =
    copy_lines-quiet lines fuel (new []) sent (new-Inv [] tt) b a (unread-new [] ∙ e)
      (new-source [])
    ∙ ap (λ text. done (quiet (sent ++ text))) (sym e)
copy_lines-file lines fuel (c ∷ cs) sent e l b a =
    copy_lines-opened fuel (c ∷ cs) (quiet sent) (omega arith)
    ∙ copy_lines-quiet lines fuel (opened (c ∷ cs) []) sent (opened-Inv (c ∷ cs) [] l tt) b a
        (unread-opened (c ∷ cs) [] ∙ e) refl
    ∙ ap (λ text. done (quiet (sent ++ text))) (sym e)
