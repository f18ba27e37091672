-- ===== src/Common.antt =====
-- The names that the other modules share: the libraries', passed on, and those of two children.
mod Tests
mod Lists
mod Int
mod Text
pub use Tests.*
pub use Lists.*
pub use Int.*
pub use Text.*
pub use Prim.Native.Nat.{ℕ, zero, suc, ◌+◌, ◌-◌, ◌*◌, ◌/◌, ◌%◌, ◌^◌, ◌≤◌, ◌<◌, min, max}
pub use mathlib.Core.Path.{◌≡◌, refl, sym, ap, subst, ◌∙◌}
pub use mathlib.Core.Logic.{◌≢◌, ◌⊎◌, inl, inr}
pub use mathlib.Core.Bool.{Bool, true, false, not, ◌&&◌, ◌||◌}
pub use mathlib.Core.Option.{Option, none, some}
pub use mathlib.Core.List.{List, [], ◌∷◌, ◌++◌, map, append_assoc, append-nil}
pub use native.Mathlib.Omega.{arith}
unfoldable pub use native.Mathlib.Decide.{dec_lt, dec_le}

-- What `poll` of a future answers: runtime::Poll, a variant of Ready and Pending.
pub data Poll {ℓ} (A : Type ℓ) : Type ℓ where
  ready : A → Poll A
  pending : Poll A

-- What is handed on where a poll returns and suspends.
abbrev pub OnPending {ℓ κ} : {R : Type κ} {A : Type ℓ} → (R → Type 0) → Option (R × Poll A) → Type 0
OnPending P none = Unit
OnPending P (some (r, ready x)) = Unit
OnPending P (some (r, pending)) = P r

pub OnPending-if {ℓ κ} :
    {R : Type κ} (A : Type ℓ) (P : R → Type 0) (b : Bool) (x y : Option (R × Poll A))
    → (b ≡ true → OnPending P x)
    → (b ≡ false → OnPending P y)
    → OnPending P (if b then x else y)
OnPending-if A P true x y f g = f refl
OnPending-if A P false x y f g = g refl
