-- ===== src/Io/Uring/Listed.antt =====
-- Which events the registry of io_uring has.
use xyco.Common.{
  eqb, ◌≤◌, ℕ, ℤ, ◌≡◌, refl, true, false, Option, none, some, List, [], ◌∷◌, ◌==◌, ◌||◌, eqb, arith,
  if◌then◌else◌, Bool-cases, inl, inr, ap, ◌∙◌, subst,
}
use xyco.Io.Events.{mem, erase_first, weight, weight-push, weight-erase_first}
use xyco.Io.Uring.{
  fails, succeed, Registry, IoExtra, Answer, register, deregister, take_completed, list_event,
  update, complete, Cqe, without_data, of_event, Waited, fails, gives, select, succeed,
}

-- 1 for the event and 0 for the others.
abbrev pub single : ℕ → ℕ → ℕ
single e x = if x == e then 1 else 0

-- An event is among the registered ones once if its flag says so, and not at all otherwise.
abbrev pub IsListed : Registry → Type 0
IsListed r = (e : ℕ) → weight (single e) r.events ≡ (if (r.extras e).registered then 1 else 0)

-- A call that returns, with any answers of liburing.
pub data Step : Registry → Registry → Type 0 where
  registers :
      (first second : Option ℕ) (e : ℕ) (r r' : Registry) (a : Answer)
      → register first second e r ≡ (r', a)
      → Step r r'
  deregisters :
      (first second : Option ℕ) (e : ℕ) (r r' : Registry) (a : Answer)
      → deregister first second e r ≡ some (r', a)
      → Step r r'
  selects :
      (etime ebusy : ℤ) (waited : Waited) (r r' : Registry) (due due' : List ℕ) (a : Answer)
      → select etime ebusy waited r due ≡ some (r', due', a)
      → Step r r'

pub data Reach (r : Registry) : Registry → Type 0 where
  here : Reach r r
  next : {s t : Registry} → Reach r s → Step s t → Reach r t

pub single_same : (x e : ℕ) → (x == e) ≡ true → single x e ≡ 1
single_same x e g = ground arith

single_other : (x e : ℕ) → (x == e) ≡ false → single x e ≡ 0
single_other x e g = ground arith

same_flag :
    (r : Registry) (x e : ℕ) → (x == e) ≡ true → (r.extras x).registered ≡ (r.extras e).registered
same_flag r x e g = ap (λ y. (r.extras y).registered) (ground arith)

none_listed :
    (r : Registry) (x : ℕ)
    → IsListed r
    → (r.extras x).registered ≡ false
    → weight (single x) r.events ≡ 0
none_listed r x l h = ground (arith, l x)

list_event-IsListed : (e : ℕ) (r : Registry) → IsListed r → IsListed (list_event e r)
list_event-IsListed e r l = elim (Bool-cases (r.extras e).registered) [
  | inl h ↦ rw h l
  | inr h ↦ rw h (λ x. elim (Bool-cases (x == e)) [
    | inl g ↦ rw g (
        omega (
          arith,
          weight-push (single x) e r.events,
          none_listed r x l (same_flag r x e g ∙ h),
          single_same x e g,
        ))
    | inr g ↦ rw g (omega (arith, weight-push (single x) e r.events, l x, single_other x e g))
  ])
]

one_listed : (r : Registry) (x : ℕ) → IsListed r → weight (single x) r.events ≤ 1
one_listed r x l = ground (arith, l x)

erase-IsListed :
    (f : IoExtra → IoExtra) (e : ℕ) (r : Registry)
    → ((x : IoExtra) → (f x).registered ≡ false)
    → mem e r.events ≡ true
    → IsListed r
    → IsListed (update e f (record r { events = erase_first e r.events }))
erase-IsListed f e r off m l x = elim (Bool-cases (x == e)) [
  | inl g ↦
      rw (g, off (r.extras x))
        (omega
          (arith, weight-erase_first (single x) e r.events m, one_listed r x l, single_same x e g))
  | inr g ↦
      rw g (omega (arith, weight-erase_first (single x) e r.events m, l x, single_other x e g))
]

register-IsListed :
    (first second : Option ℕ) (e : ℕ) (r r' : Registry) (a : Answer)
    → register first second e r ≡ (r', a)
    → IsListed r
    → IsListed r'
unfolding register
register-IsListed none none e r r' a q l = subst (λ p. IsListed p.0) q l
register-IsListed none (some s) e r r' a q l =
    subst (λ p. IsListed p.0) q (list_event-IsListed e _ l)
register-IsListed (some s) second e r r' a q l =
    subst (λ p. IsListed p.0) q (list_event-IsListed e _ l)

-- What is returned has a property, where anything is.
abbrev pub Returns {ℓ κ} : {A : Type ℓ} → (A → Type κ) → Option A → Type κ
Returns P none = Unit
Returns P (some a) = P a

deregister-IsListed :
    (first second : Option ℕ) (e : ℕ) (r : Registry)
    → IsListed r
    → Returns (λ p. IsListed p.0) (deregister first second e r)
unfolding deregister
deregister-IsListed first none e r l = l
deregister-IsListed first (some s) e r l = elim (Bool-cases (mem e r.events)) [
  | inl m ↦ rw m (erase-IsListed (λ x. record x { registered = false }) e r (λ x. refl) m l)
  | inr m ↦ rw m tt
]

take_completed-IsListed :
    (cqes : List Cqe) (r : Registry) (due : List ℕ)
    → IsListed r
    → Returns (λ p. IsListed p.0) (take_completed cqes r due)
unfolding take_completed
take_completed-IsListed [] r due l = l
take_completed-IsListed (without_data res ∷ rest) r due l = take_completed-IsListed rest r due l
take_completed-IsListed (of_event e res ∷ rest) r due l = elim (Bool-cases (mem e r.events)) [
  | inl m ↦
      rw m (take_completed-IsListed rest _ _ (erase-IsListed (complete res) e r (λ x. refl) m l))
  | inr m ↦ rw m tt
]

succeed-Returns :
    (o : Option (Registry × List ℕ))
    → Returns (λ p. IsListed p.0) o
    → Returns (λ p. IsListed p.0) (succeed o)
succeed-Returns none l = tt
succeed-Returns (some (r, due)) l = l

select-IsListed :
    (etime ebusy : ℤ) (waited : Waited) (r : Registry) (due : List ℕ)
    → IsListed r
    → Returns (λ p. IsListed p.0) (select etime ebusy waited r due)
unfolding select
select-IsListed etime ebusy (fails errno) r due l =
    elim (Bool-cases (eqb errno etime || eqb errno ebusy)) [ inl h ↦ rw h l | inr h ↦ rw h tt ]
select-IsListed etime ebusy (gives cqes) r due l =
    succeed-Returns (take_completed cqes r due) (take_completed-IsListed cqes r due l)

Step-IsListed : {r r' : Registry} → Step r r' → IsListed r → IsListed r'
Step-IsListed (registers first second e r r' a q) l = register-IsListed first second e r r' a q l
Step-IsListed (deregisters first second e r r' a q) l =
    subst (Returns (λ p. IsListed p.0)) q (deregister-IsListed first second e r l)
Step-IsListed (selects etime ebusy waited r r' due due' a q) l =
    subst (Returns (λ p. IsListed p.0)) q (select-IsListed etime ebusy waited r due l)

-- After any calls of the registry that return, from a registry where it is so: each event is among
-- the registered ones once if its flag Registered is set, and not at all otherwise, however often it
-- was registered.
pub Reach-IsListed : {r r' : Registry} → IsListed r → Reach r r' → IsListed r'
Reach-IsListed l here = l
Reach-IsListed l (next reach step) = Step-IsListed step (Reach-IsListed l reach)
