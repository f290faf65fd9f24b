-- ===== src/Prelude/Loops.antt =====
-- `for (i = 0; i < n; ++i)` as a function, with its invariant rule.
use Prim.Native.Nat.{ℕ, zero, suc, ◌<◌}
use native.Mathlib.Decide.{ℕ_discrete}
use mathlib.Core.Logic.{inl, inr}
use multilife.Prelude.Lists.{In}
use native.Mathlib.Omega.{arith}
use mathlib.Core.List.{List, [], ◌∷◌}

-- The rounds 0, 1, .., n - 1 in this order.
unfoldable pub upto {ℓ} : {S : Type ℓ} → ℕ → (ℕ → S → S) → S → S
upto zero body s = s
upto (suc n) body s = body n (upto n body s)

pub upto_inv {ℓ κ} :
    {S : Type ℓ} (P : ℕ → S → Type κ) (n : ℕ) (body : ℕ → S → S) (s : S)
    → P 0 s
    → ((i : ℕ) (t : S) → i < n → P i t → P (suc i) (body i t))
    → P n (upto n body s)
unfolding upto
upto_inv P zero body s h keep = h
upto_inv P (suc n) body s h keep =
    keep n (upto n body s) (omega arith)
      (upto_inv P n body s h (λ i t lt p. keep i t (omega arith) p))

-- A range-based `for` over a sequence.
unfoldable pub each {ℓ κ} : {A : Type ℓ} {S : Type κ} → List A → (A → S → S) → S → S
each [] body s = s
each (x ∷ xs) body s = each xs body (body x s)

-- What one round makes true, and every round keeps, holds at the end.
pub upto_once {ℓ κ} :
    {S : Type ℓ} (P : S → Type κ) (n : ℕ) (body : ℕ → S → S) (s : S) (i : ℕ)
    → i < n
    → ((j : ℕ) (t : S) → P t → P (body j t))
    → ((t : S) → P (body i t))
    → P (upto n body s)
unfolding upto
upto_once P zero body s i h keep make = elim h [ ]
upto_once P (suc n) body s i h keep make = elim (ℕ_discrete i n) [
  | yes e ↦ rw (← e) (make _)
  | no e ↦ keep n _ (upto_once P n body s i (omega arith) keep make)
]

pub upto_keep {ℓ κ} :
    {S : Type ℓ} (P : S → Type κ) (n : ℕ) (body : ℕ → S → S) (s : S)
    → P s
    → ((j : ℕ) (t : S) → P t → P (body j t))
    → P (upto n body s)
upto_keep P n body s h keep = upto_inv (λ i t. P t) n body s h (λ i t lt p. keep i t p)

pub each_keep {ℓ κ μ} :
    {A : Type ℓ} {S : Type κ} (P : S → Type μ) (xs : List A) (body : A → S → S) (s : S)
    → P s
    → ((x : A) (t : S) → P t → P (body x t))
    → P (each xs body s)
unfolding each
each_keep P [] body s h keep = h
each_keep P (x ∷ xs) body s h keep = each_keep P xs body (body x s) (keep x s h) keep

pub each_once {ℓ κ μ} :
    {A : Type ℓ} {S : Type κ} (P : S → Type μ) (xs : List A) (body : A → S → S) (s : S) (a : A)
    → In a xs
    → ((x : A) (t : S) → P t → P (body x t))
    → ((t : S) → P (body a t))
    → P (each xs body s)
unfolding each
each_once P [] body s a h keep make = elim h [ ]
each_once P (x ∷ xs) body s a (inl e) keep make =
    each_keep P xs body (body x s) (rw (← e) (make s)) keep
each_once P (x ∷ xs) body s a (inr h) keep make = each_once P xs body (body x s) a h keep make
