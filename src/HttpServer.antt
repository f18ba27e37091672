-- ===== src/HttpServer.antt =====
-- examples/http_server.cc: a server of files over the library. A string is the list of its bytes. What
-- the system answers is an argument: the reads of a stream and of a file, the writes, and the opening of a
-- file by its path. The methods of a future are their results, one after the other.
pub mod Receive
pub mod Respond
pub mod Words
pub mod Serve
pub mod Examples
use xyco.Common.{
  ℕ, zero, suc, ◌+◌, ◌-◌, ◌*◌, ◌%◌, ◌^◌, Bool, true, false, not, ◌&&◌, Option, none, some, List, [],
  ◌∷◌, ◌++◌, length, take, drop, ltb, leb, ◌==◌, if◌then◌else◌, ℤ, pos, negsuc, codes, same,
  is_space, is_digit, ◌/◌,
}
use xyco.Utils.Error.{Error, Result, ok, err}
use xyco.Io.BufferReader.{BufferReader, Outcome, returns, undefined, out_of_fuel, new, read_line}

-- How a coroutine ends: `broken` is undefined behaviour, such as `*` on an error or the use of a value
-- that was never set, and `throws` an exception.
pub data Step {ℓ} (A : Type ℓ) : Type ℓ where
  done : A → Step A
  broken : Step A
  throws : Step A
  endless : Step A

infixl 5 ◌>>=◌
abbrev pub ◌>>=◌ {ℓ κ} : {A : Type ℓ} {B : Type κ} → Step A → (A → Step B) → Step B
done a >>= f = f a
broken >>= f = broken
throws >>= f = throws
endless >>= f = endless

-- `*` on a result.
abbrev pub value {ℓ} : {A : Type ℓ} → Result A → Step A
value (ok a) = done a
value (err e) = broken

abbrev pub step_of {ℓ} : {A : Type ℓ} → Outcome A → Step A
step_of (returns a) = done a
step_of undefined = broken
step_of out_of_fuel = endless

-- The decimal digits of a number, with fuel for their count.
pub digits : ℕ → ℕ → List ℕ
digits zero n = []
digits (suc fuel) n =
    let rest = digits fuel (n / 10) in
    if ltb n 10 then (b'0' + n) ∷ [] else rest ++ ((b'0' + n % 10) ∷ [])

-- std::to_string of a number that is not negative. It has fewer digits than its successor's value.
pub decimal : ℕ → List ℕ
decimal n = digits (suc n) n

-- RequestLine::Method
pub data Method : Type 0 where
  get head post put delete connect options trace patch : Method

-- `none` is a method_ that was never set.
pub record RequestLine : Type 0 where
  pub method : Option Method
  pub url : List ℕ
  pub version : List ℕ

-- operator>> into a string: white space is left out, then the word is taken.
abbrev pub skip_spaces : List ℕ → List ℕ
skip_spaces [] = []
skip_spaces (c ∷ cs) = if is_space c then skip_spaces cs else c ∷ cs

abbrev pub word : List ℕ → List ℕ × List ℕ
word [] = ([], [])
word (c ∷ cs) = let (w, rest) = word cs in if is_space c then ([], c ∷ cs) else (c ∷ w, rest)

abbrev pub extract : List ℕ → List ℕ × List ℕ
extract stream = word (skip_spaces stream)

-- std::string::ends_with a character
abbrev pub ends_with : ℕ → List ℕ → Bool
ends_with c [] = false
ends_with c (x ∷ []) = x == c
ends_with c (x ∷ y ∷ ys) = ends_with c (y ∷ ys)

abbrev pub set_method : List ℕ → List ℕ → Method → Option Method → Option Method
set_method method name m old = if same method name then some m else old

-- The tests of the constructor, one after the other.
pub method_of : List ℕ → Option Method
method_of method = set_method method (codes "PATCH") patch (
    set_method method (codes "TRACE") trace (
      set_method method (codes "OPTIONS") options (
        set_method method (codes "CONNECT") connect (
          set_method method (codes "DELETE") delete (
            set_method method (codes "PUT") put (
              set_method method (codes "POST") post (
                set_method method (codes "HEAD") head
                  (set_method method (codes "GET") get none))))))))

-- The path that is opened for the one that was asked for.
unfoldable pub path_of : List ℕ → List ℕ
path_of url = b'.' ∷ (if ends_with b'/' url then url ++ codes "index.html" else url)

pub request_line : List ℕ → RequestLine
request_line line =
    let (method, rest) = extract line in
    let (url, rest') = extract rest in
    let (version, rest'') = extract rest' in
    record { method = method_of method; url = path_of url; version = version }
