-- ===== src/Prelude/Map.antt =====
-- A hash map as an association list: one entry for each key, in the order of insertion, which
-- stands for the unspecified order of iteration.
use multilife.Prelude.Tests.{if◌then◌else◌, Eq, Bool-cases}
use mathlib.Core.Path.{◌≡◌, refl}
use mathlib.Core.Logic.{◌≢◌, inl, inr}
use mathlib.Core.Bool.{true, false}
use mathlib.Core.Option.{Option, none, some}
use mathlib.Core.List.{List, [], ◌∷◌}
use multilife.Prelude.Lists.{In}
use native.Mathlib.Omega.{arith}

module _ {ℓ} {K : Type ℓ} ⦃e : Eq K⦄ where
  pub beq_false : (j k : K) → j ≢ k → e.beq j k ≡ false
  beq_false j k h = elim (Bool-cases (e.beq j k)) [
    | inl t ↦ absurd (h ((e.beq_iff j k).0 t))
    | inr f ↦ f
  ]

  pub beq_refl : (k : K) → e.beq k k ≡ true
  beq_refl k = (e.beq_iff k k).1 refl

module _ {ℓ κ} {K : Type ℓ} {V : Type κ} ⦃e : Eq K⦄ where
  unfoldable pub find : K → List (K × V) → Option V
  find k [] = none
  find k ((j, v) ∷ m) = if e.beq j k then some v else find k m

  -- `m[k] = v`
  unfoldable pub insert : K → V → List (K × V) → List (K × V)
  insert k v [] = (k, v) ∷ []
  insert k v ((j, w) ∷ m) = if e.beq j k then (j, v) ∷ m else (j, w) ∷ insert k v m

  unfoldable pub erase : K → List (K × V) → List (K × V)
  erase k [] = []
  erase k ((j, w) ∷ m) = if e.beq j k then erase k m else (j, w) ∷ erase k m

  -- What a look-up sees after an assignment, whichever the two keys are.
  pub find-insert :
      (k j : K) (v : V) (m : List (K × V))
      → find j (insert k v m) ≡ (if e.beq k j then some v else find j m)
  unfolding find insert
  find-insert k j v [] = refl
  find-insert k j v ((i, w) ∷ m) =
      ground (arith, e.beq_iff i k, e.beq_iff i j, e.beq_iff k j, find-insert k j v m)

  pub find-erase :
      (k j : K) (m : List (K × V)) → find j (erase k m) ≡ (if e.beq k j then none else find j m)
  unfolding find erase
  find-erase k j [] = ground arith
  find-erase k j ((i, w) ∷ m) =
      ground (arith, e.beq_iff i k, e.beq_iff i j, e.beq_iff k j, find-erase k j m)

  pub find-In : (k : K) (v : V) (m : List (K × V)) → find k m ≡ some v → In (k, v) m
  unfolding find
  find-In k v [] h = cc
  find-In k v ((j, w) ∷ m) h = elim (Bool-cases (e.beq j k)) [
    | inl hit ↦ inl (ground (arith, (e.beq_iff j k).0 hit))
    | inr miss ↦ inr (find-In k v m (ground arith))
  ]

  -- Every value of the map has the property.
  abbrev pub Everywhere {μ} : (V → Type μ) → List (K × V) → Type (ℓ ⊔ κ ⊔ μ)
  Everywhere P m = (k : K) (v : V) → find k m ≡ some v → P v

  pub Everywhere-insert {μ} :
      (P : V → Type μ) (k : K) (v : V) (m : List (K × V))
      → P v
      → Everywhere P m
      → Everywhere P (insert k v m)
  Everywhere-insert P k v m h all j w f = elim (Bool-cases (e.beq k j)) [
    | inl hit ↦ let q : v ≡ w = cc (find-insert k j v m, hit, f) in rw (← q) h
    | inr miss ↦ all j w (cc (find-insert k j v m, miss, f))
  ]
