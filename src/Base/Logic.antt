-- ===== src/Base/Logic.antt =====
-- Boolean tests on numbers and identifiers, the conditional, and splits that keep the equation.
use Prim.Native.Nat.{ℕ, compare, Ordering}
use Prim.Native.String.{String}
use mathlib.Core.Path.{◌≡◌, refl}
use mathlib.Core.Logic.{◌⊎◌, inl, inr, ◌≢◌}
use mathlib.Core.Bool.{Bool, true, false}
use mathlib.Core.Option.{Option, none, some}
use native.Mathlib.Omega.{arith}
use text.Mathlib.Text.{◌==◌ as text_eq}
use text.Mathlib.TextEquality.{eq_iff}

abbrev pub ltb : ℕ → ℕ → Bool
ltb a b = elim (compare a b) [ Ordering.lt ↦ true | _ ↦ false ]

abbrev pub leb : ℕ → ℕ → Bool
leb a b = elim (compare a b) [ Ordering.gt ↦ false | _ ↦ true ]

abbrev pub nat_eq : ℕ → ℕ → Bool
nat_eq a b = elim (compare a b) [ Ordering.eq ↦ true | _ ↦ false ]

infix 1 if◌then◌else◌
abbrev pub if◌then◌else◌ {ℓ} : {A : Type ℓ} → Bool → A → A → A
if true then x else y = x
if false then x else y = y

pub Bool-cases : (b : Bool) → (b ≡ true) ⊎ (b ≡ false)
Bool-cases true = inl refl
Bool-cases false = inr refl

pub Option-cases {ℓ} : {A : Type ℓ} (o : Option A) → (o ≡ none) ⊎ ((a : A) × (o ≡ some a))
Option-cases none = inl refl
Option-cases (some a) = inr (a, refl)

decision : (s t : String) (b : Bool) → text_eq s t ≡ b → Dec (s ≡ t)
decision s t true h = yes ((eq_iff s t).0 h)
decision s t false h = no (λ e. cc ((eq_iff s t).1 e))

-- Equality of identifiers, decided. A test that is shut still gives its branches the equation.
unfoldable pub same_id : (s t : String) → Dec (s ≡ t)
unfolding decision
same_id s t = decision s t (text_eq s t) refl

abbrev pub is_yes {ℓ} : {A : Type ℓ} → Dec A → Bool
is_yes (yes _) = true
is_yes (no _) = false

-- `===` on strings.
infix 50 ◌==◌
abbrev pub ◌==◌ : String → String → Bool
s == t = is_yes (same_id s t)

pub eq_self : (s : String) → (s == s) ≡ true
eq_self s = ground arith

-- `map.get(k) || d`
abbrev pub or_else {ℓ} : {A : Type ℓ} → Option A → A → A
or_else none d = d
or_else (some a) d = a

pub differs : (s t : String) → (s == t) ≡ false → s ≢ t
differs s t h e = ground arith
