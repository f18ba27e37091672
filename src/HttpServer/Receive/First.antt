-- ===== src/HttpServer/Receive/First.antt =====
-- What the headers of a request hold under a name: examples/http_server.cc:112-124.
use xyco.Common.{
  ℕ, ◌≡◌, ◌<◌, ◌^◌, refl, ap, ◌∙◌, sym, true, Bool-cases, Option, none, some, Option-cases, inl,
  inr, List, [], ◌∷◌, ◌++◌, codes, same, if◌then◌else◌, arith, pos, lt→ltb,
}
use xyco.HttpServer.{decimal}
use xyco.HttpServer.Receive.{Headers, lookup, emplace, content_length}
use xyco.HttpServer.Receive.Fields.{Field}
use xyco.HttpServer.Receive.Heads.{stored}
use xyco.HttpServer.Receive.Number.{from_chars-decimal}

-- The first of the fields that has the name, as its line ends: with a carriage return and a line feed.
abbrev pub first_value : List ℕ → List Field → Option (List ℕ)
first_value key [] = none
first_value key ((name, text) ∷ fs) =
    if same name key then some (text ++ codes "\r\n") else first_value key fs

abbrev or_else : Option (List ℕ) → Option (List ℕ) → Option (List ℕ)
or_else none o = o
or_else (some v) o = some v

abbrev one_value : List ℕ → List ℕ × List ℕ → Option (List ℕ)
one_value key (name, v) = if same name key then some v else none

same→≡ : (xs ys : List ℕ) → same xs ys ≡ true → xs ≡ ys
same→≡ [] [] h = refl
same→≡ [] (y ∷ ys) h = absurd (ground (arith, h))
same→≡ (x ∷ xs) [] h = absurd (ground (arith, h))
same→≡ (x ∷ xs) (y ∷ ys) h =
    let e : x ≡ y = ground (arith, h) in
    let t : same xs ys ≡ true = ground (arith, h) in rw (e, same→≡ xs ys t) refl

lookup-append :
    (key : List ℕ) (headers : Headers) (h : List ℕ × List ℕ)
    → lookup key (headers ++ (h ∷ [])) ≡ or_else (lookup key headers) (one_value key h)
lookup-append key [] (name, v) = refl
lookup-append key ((k, u) ∷ headers) h = elim (Bool-cases (same k key)) [
  | inl e ↦ rw e refl
  | inr e ↦ rw e (lookup-append key headers h)
]

or_else-none : (o : Option (List ℕ)) → or_else o none ≡ o
or_else-none none = refl
or_else-none (some v) = refl

-- A name that is there keeps its value.
lookup-emplace :
    (key : List ℕ) (headers : Headers) (h : List ℕ × List ℕ)
    → lookup key (emplace h headers) ≡ or_else (lookup key headers) (one_value key h)
unfolding emplace
lookup-emplace key headers (name, v) = elim (Option-cases (lookup name headers)) [
  | inl n ↦ rw (n, emplace) (lookup-append key headers (name, v))
  | inr (u, s) ↦ elim (Bool-cases (same name key)) [
    | inl e ↦
        let found : lookup key headers ≡ some u = rw (← same→≡ name key e) s in
        rw (s, e, found, emplace) refl
    | inr e ↦ rw (s, e, emplace) (sym (or_else-none (lookup key headers)))
  ]
]

or_else-value :
    (key : List ℕ) (o : Option (List ℕ)) (name text : List ℕ) (fs : List Field)
    → or_else (or_else o (one_value key (name, text ++ codes "\r\n"))) (first_value key fs)
      ≡ or_else o (first_value key ((name, text) ∷ fs))
or_else-value key (some v) name text fs = refl
or_else-value key none name text fs = elim (Bool-cases (same name key)) [
  | inl e ↦ rw e refl
  | inr e ↦ rw e refl
]

lookup-stored_onto :
    (key : List ℕ) (headers : Headers) (fs : List Field)
    → lookup key (stored headers fs) ≡ or_else (lookup key headers) (first_value key fs)
lookup-stored_onto key headers [] = sym (or_else-none (lookup key headers))
lookup-stored_onto key headers ((name, text) ∷ fs) =
    lookup-stored_onto key (emplace (name, text ++ codes "\r\n") headers) fs
    ∙ ap (λ o. or_else o (first_value key fs))
        (lookup-emplace key headers (name, text ++ codes "\r\n"))
    ∙ or_else-value key (lookup key headers) name text fs

pub lookup-stored :
    (key : List ℕ) (fs : List Field) → lookup key (stored [] fs) ≡ first_value key fs
lookup-stored key fs = lookup-stored_onto key [] fs

-- The text of the header gives a length in decimal digits, which fits into an int; without one it is 0.
abbrev pub Announces : ℕ → Option (List ℕ) → Type 0
Announces n none = n ≡ 0
Announces n (some text) = (text ≡ decimal n ++ codes "\r\n") × (n < 2 ^ 31)

pub content_length-announced :
    (n : ℕ) (headers : Headers)
    → Announces n (lookup (codes "Content-Length") headers)
    → content_length headers ≡ pos n
unfolding content_length
content_length-announced n headers a =
    elim (Option-cases (lookup (codes "Content-Length") headers)) [
      | inl e ↦ let z : n ≡ 0 = rw e at a in rw (e, content_length) (ap pos (sym z))
      | inr (text, e) ↦
          let (t, b) : Announces n (some text) = rw e at a in
          rw (e, content_length) (rw (t, from_chars-decimal n (pos 0), lt→ltb n (2 ^ 31) b) refl)
    ]
