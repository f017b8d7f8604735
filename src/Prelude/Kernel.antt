-- ===== src/Prelude/Kernel.antt =====
-- Kernel code as a state monad with faults, and what every module says of it.
use mathlib.Core.Path.{◌≡◌, refl, sym, subst}
use mathlib.Core.Logic.{◌⊎◌, inl, inr}
use mathlib.Core.Bool.{Bool, true, false}
use canon_r.Prelude.Tests.{if◌then◌else◌}

-- What a kernel thread must never do: take a mutex that it holds, follow a NULL pointer, read past
-- an object, divide by zero, free memory that no allocation returned, use memory that was freed,
-- use a variable that was never written.
pub data Fault : Type 0 where
  deadlock null_deref out_of_bounds div_by_zero invalid_free use_after_free uninitialized : Fault

-- `done` has the result and the new state.
pub data Outcome (S A : Type 0) : Type 0 where
  done : A → S → Outcome S A
  fault : Fault → Outcome S A

abbrev pub M : Type 0 → Type 0 → Type 0
M S A = S → Outcome S A

infixl 5 ◌>>=◌ ◌>>◌
abbrev pub ◌>>=◌ : {S A B : Type 0} → M S A → (A → M S B) → M S B
◌>>=◌ m f s = elim (m s) [ done a s' ↦ f a s' | fault e ↦ fault e ]

abbrev pub ◌>>◌ : {S B : Type 0} → M S (Unit {0}) → M S B → M S B
m >> k = m >>= λ _. k

abbrev pub return : {S A : Type 0} → A → M S A
return a s = done a s

abbrev pub get : {S : Type 0} → M S S
get s = done s s

abbrev pub modify : {S : Type 0} → (S → S) → M S (Unit {0})
modify f s = done tt (f s)

abbrev pub crash : {S A : Type 0} → Fault → M S A
crash e s = fault e

-- A pointer to the one object of its type that the state holds, or NULL.
pub data Ptr : Type 0 where
  null valid : Ptr

abbrev pub is_null : Ptr → Bool
is_null null = true
is_null valid = false

pub Ptr-cases : (p : Ptr) → (p ≡ null) ⊎ (p ≡ valid)
Ptr-cases null = inl refl
Ptr-cases valid = inr refl

-- The run ends, in a state and with a result for which P holds. A fault is no such end.
abbrev pub Ends : {S A : Type 0} → (A → S → Type 0) → Outcome S A → Type 0
Ends P (done a s) = P a s
Ends P (fault e) = ⊥

-- The rule for a sequence: what the first part ends with is all that the second may use.
pub Ends-bind :
    {S A B : Type 0} (P : A → S → Type 0) (Q : B → S → Type 0) (r : Outcome S A) (f : A → M S B)
    → Ends P r
    → ((a : A) (s : S) → P a s → Ends Q (f a s))
    → Ends Q (elim r [ done a s' ↦ f a s' | fault e ↦ fault e ])
Ends-bind P Q (done a s) f h k = k a s h
Ends-bind P Q (fault e) f h k = absurd h

pub Ends-mono :
    {S A : Type 0} (P Q : A → S → Type 0) (r : Outcome S A)
    → Ends P r
    → ((a : A) (s : S) → P a s → Q a s)
    → Ends Q r
Ends-mono P Q (done a s) h k = k a s h
Ends-mono P Q (fault e) h k = absurd h

-- What the run ends with is what it computed.
pub Ends-run :
    {S A : Type 0} (P : A → S → Type 0) (r : Outcome S A)
    → Ends P r
    → Ends (λ a s. P a s × (r ≡ done a s)) r
Ends-run P (done a s) h = (h, refl)
Ends-run P (fault e) h = absurd h

-- A run whose end is known.
pub done-Ends :
    {S A : Type 0} (P : A → S → Type 0) (r : Outcome S A) (a : A) (s : S)
    → r ≡ done a s
    → P a s
    → Ends P r
done-Ends P r a s e h = subst (Ends P) (sym e) h

pub if-Ends :
    {S A : Type 0} (Q : A → S → Type 0) (b : Bool) (m n : M S A) (s : S)
    → Ends Q (m s)
    → Ends Q (n s)
    → Ends Q ((if b then m else n) s)
if-Ends Q true m n s h k = h
if-Ends Q false m n s h k = k
