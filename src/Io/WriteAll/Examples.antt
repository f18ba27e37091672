-- ===== src/Io/WriteAll/Examples.antt =====
-- The theorems of `write_all` at concrete inputs.
use xyco.Common.{ℕ, ◌≡◌, List, [], ◌∷◌, refl, arith, pos}
use xyco.Utils.Error.{Error, Result, ok, err}
use xyco.Io.WriteAll.{Errno, finished, write_all}
use xyco.Io.WriteAll.Complete.{Written, IsDone, write_all-Written, write_all-IsDone}

abbrev codes : Errno
codes = record { eagain = pos 11; ewouldblock = pos 11; eintr = pos 4 }

abbrev interrupted : Error
interrupted = record { errno = pos 4; info = "" }

-- Two short writes around an interrupted one.
abbrev answers : List (Result ℕ)
answers = ok 2 ∷ err interrupted ∷ ok 1 ∷ []

write_all_test : write_all codes answers (7 ∷ 8 ∷ 9 ∷ []) ≡ finished (7 ∷ 8 ∷ 9 ∷ []) (ok tt)
unfolding write_all
write_all_test = refl

write_all-Written_example :
    Written codes (7 ∷ 8 ∷ 9 ∷ []) (write_all codes answers (7 ∷ 8 ∷ 9 ∷ []))
write_all-Written_example = write_all-Written codes answers (7 ∷ 8 ∷ 9 ∷ []) (omega arith)

write_all-IsDone_example :
    IsDone codes (write_all codes (ok 1 ∷ err interrupted ∷ ok 1 ∷ []) (7 ∷ 8 ∷ []))
write_all-IsDone_example =
    write_all-IsDone codes (ok 1 ∷ err interrupted ∷ ok 1 ∷ []) (7 ∷ 8 ∷ []) (omega arith)
      (ground arith) (omega arith)
