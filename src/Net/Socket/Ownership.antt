-- ===== src/Net/Socket/Ownership.antt =====
-- Which socket holds a descriptor.
use xyco.Common.{
  ℕ, sym, ◌∙◌, ◌≡◌, ◌≢◌, refl, Option, none, some, List, [], pos, ◌∷◌, arith, ◌==◌, if◌then◌else◌,
  Option-cases, inl, inr,
}
use xyco.Utils.Error.{into_sys_result}
use xyco.Net.Socket.{into_sys_result, Sockets, construct, move, destroy, put}

-- A socket is made from a descriptor, moved from another, made by a move or assigned, or destroyed,
-- where close(2) succeeds.
pub data Op : Type 0 where
  constructs : ℕ → ℕ → Op
  moves : ℕ → ℕ → Op
  destroys : ℕ → Op

abbrev or_same : Option Sockets → Sockets → Sockets
or_same none s = s
or_same (some s') s = s'

abbrev pub step : Sockets → Op → Sockets
step s (constructs p f) = construct p (some f) s
step s (moves p q) = move p q s
step s (destroys p) = or_same (destroy (pos 0) (pos 0) p s) s

unfoldable pub run : Sockets → List Op → Sockets
run s [] = s
run s (op ∷ ops) = run (step s op) ops

-- A socket is made from a descriptor that no socket holds.
abbrev pub IsLegal : Sockets → Op → Type 0
IsLegal s (constructs p f) = (q : ℕ) → s.fd q ≢ some f
IsLegal s (moves p q) = p ≢ q
IsLegal s (destroys p) = Unit

abbrev pub AllLegal : Sockets → List Op → Type 0
AllLegal s [] = Unit
AllLegal s (op ∷ ops) = IsLegal s op × AllLegal (step s op) ops

-- Each descriptor that is held has one owner.
abbrev BelongsTo : (ℕ → ℕ) → ℕ → Option ℕ → Type 0
BelongsTo owner p none = Unit
BelongsTo owner p (some f) = owner f ≡ p

abbrev Owned : Sockets → Type 0
Owned s = (owner : ℕ → ℕ) × ((p : ℕ) → BelongsTo owner p (s.fd p))

belongs :
    (owner : ℕ → ℕ) (r : ℕ) (o : Option ℕ)
    → ((g : ℕ) → o ≡ some g → owner g ≡ r)
    → BelongsTo owner r o
belongs owner r none h = tt
belongs owner r (some g) h = h g refl

owned :
    (owner : ℕ → ℕ) (r : ℕ) (o : Option ℕ) (g : ℕ) → BelongsTo owner r o → o ≡ some g → owner g ≡ r
owned owner r none g b e = absurd (ground arith)
owned owner r (some f) g b e = ground arith

-- The owner of a descriptor after it goes to `p`.
abbrev owner_after : (ℕ → ℕ) → ℕ → Option ℕ → ℕ → ℕ
owner_after owner p none g = owner g
owner_after owner p (some f) g = if g == f then p else owner g

constructs-Owned :
    (p f : ℕ) (s : Sockets) → IsLegal s (constructs p f) → Owned s → Owned (construct p (some f) s)
unfolding construct
constructs-Owned p f s l (owner, h) = (
  owner_after owner p (some f),
  λ r.
      belongs (owner_after owner p (some f)) r (if r == p then some f else s.fd r)
        (λ g e. ground (arith, l r, owned owner r (s.fd r) g (h r))),
)

moves-Owned : (p q : ℕ) (s : Sockets) → IsLegal s (moves p q) → Owned s → Owned (move p q s)
unfolding move
moves-Owned p q s l (owner, h) = elim (Option-cases (s.fd q)) [
  | inl n ↦ (
    owner,
    λ r.
        belongs owner r ((move p q s).fd r) (λ g e. ground (arith, owned owner r (s.fd r) g (h r))),
  )
  | inr (f, n) ↦ (
    owner_after owner p (some f),
    λ r.
        belongs (owner_after owner p (some f)) r ((move p q s).fd r)
          (λ g e. ground (arith, owned owner r (s.fd r) g (h r), owned owner q (s.fd q) f (h q))),
  )
]

destroy_lem :
    (p : ℕ) (s : Sockets)
    → or_same (destroy (pos 0) (pos 0) p s) s
      ≡ record (put p none s) { closed = (or_same (destroy (pos 0) (pos 0) p s) s).closed }
unfolding destroy into_sys_result
destroy_lem p s = elim (Option-cases (s.fd p)) [ inl n ↦ rw (n) | inr (f, n) ↦ rw (n) ]

destroys-Owned : (p : ℕ) (s : Sockets) → Owned s → Owned (step s (destroys p))
destroys-Owned p s (owner, h) = rw (destroy_lem p s) (
  owner,
  λ r.
      belongs owner r (if r == p then none else s.fd r)
        (λ g e. ground (arith, owned owner r (s.fd r) g (h r))),
)

step-Owned : (op : Op) (s : Sockets) → IsLegal s op → Owned s → Owned (step s op)
step-Owned (constructs p f) s l o = constructs-Owned p f s l o
step-Owned (moves p q) s l o = moves-Owned p q s l o
step-Owned (destroys p) s l o = destroys-Owned p s o

run-Owned : (ops : List Op) (s : Sockets) → AllLegal s ops → Owned s → Owned (run s ops)
unfolding run
run-Owned [] s l o = o
run-Owned (op ∷ ops) s (l, ls) o = run-Owned ops (step s op) ls (step-Owned op s l o)

abbrev pub no_sockets : Sockets
no_sockets = record { fd = λ p. none; closed = [] }

-- However sockets are made from descriptors that no socket holds, moved, but not into themselves,
-- and destroyed, where close(2) succeeds: no two sockets hold the same descriptor.
pub run-one_owner :
    (ops : List Op) (p q f : ℕ)
    → AllLegal no_sockets ops
    → (run no_sockets ops).fd p ≡ some f
    → (run no_sockets ops).fd q ≡ some f
    → p ≡ q
run-one_owner ops p q f l x y =
    let (owner, h) = run-Owned ops no_sockets l (λ g. g, λ r. tt) in
    sym (owned owner p _ f (h p) x) ∙ owned owner q _ f (h q) y

-- A socket that holds a descriptor and is assigned another one's loses it: then no socket holds it,
-- and it has not been closed.
pub move_leaks :
    (ops : List Op) (p q r f : ℕ)
    → AllLegal no_sockets ops
    → p ≢ q
    → (run no_sockets ops).fd p ≡ some f
    → let s = run no_sockets ops in ((move p q s).fd r ≢ some f) × ((move p q s).closed ≡ s.closed)
unfolding move
move_leaks ops p q r f l n x =
    let s : Sockets = run no_sockets ops in
    (
      λ e. ground (
        arith,
        (λ (a : s.fd r ≡ some f). run-one_owner ops p r f l x a),
        (λ (a : s.fd q ≡ some f). run-one_owner ops p q f l x a),
      ),
      refl,
    )
