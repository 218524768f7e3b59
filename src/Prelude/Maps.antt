-- ===== src/Prelude/Maps.antt =====
-- Go's `map[K]V` as an association list. `range` visits the entries in the list's order, so a fact
-- about every list of entries is a fact about every order of iteration.
use Prim.Native.Nat.{ℕ, ◌+◌, ◌≤◌}
use mathlib.Core.Path.{◌≡◌, refl}
use mathlib.Core.Logic.{inl, inr}
use mathlib.Core.Bool.{Bool, true, false}
use mathlib.Core.List.{List, [], ◌∷◌, ◌++◌}
use mathlib.Core.Option.{Option, none, some}
use native.Mathlib.Omega.{arith}
use vpc_routing.Prelude.Deciding.{Eq, ◌==◌, if◌then◌else◌, beq_refl, Bool-cases}
use vpc_routing.Prelude.Lists.{All, count_by}

abbrev pub Map {ℓ κ} : Type ℓ → Type κ → Type (ℓ ⊔ κ)
Map K V = List (K × V)

abbrev pub bool_nat : Bool → ℕ
bool_nat true = 1
bool_nat false = 0

-- The values, in the order of iteration.
abbrev pub values {ℓ κ} : {K : Type ℓ} {V : Type κ} → Map K V → List V
values [] = []
values ((k, v) ∷ m) = v ∷ values m

module _ {K V : Type 0} ⦃e : Eq K⦄ where
  -- `v, ok := m[k]`.
  unfoldable pub lookup : K → Map K V → Option V
  lookup k [] = none
  lookup k ((j, v) ∷ m) = if j == k then some v else lookup k m

  -- `m[k] = v`.
  unfoldable pub insert : K → V → Map K V → Map K V
  insert k v [] = (k, v) ∷ []
  insert k v ((j, w) ∷ m) = if j == k then (j, v) ∷ m else (j, w) ∷ insert k v m

  -- `delete(m, k)`.
  unfoldable pub delete : K → Map K V → Map K V
  delete k [] = []
  delete k ((j, w) ∷ m) = if j == k then delete k m else (j, w) ∷ delete k m

  pub lookup-insert :
      (k j : K) (v : V) (m : Map K V)
      → lookup j (insert k v m) ≡ (if k == j then some v else lookup j m)
  unfolding lookup insert
  lookup-insert k j v [] = refl
  lookup-insert k j v ((held, u) ∷ m) =
      ground (arith, e.beq_iff k j, e.beq_iff held k, e.beq_iff held j, lookup-insert k j v m)

  pub lookup-insert_self : (k : K) (v : V) (m : Map K V) → lookup k (insert k v m) ≡ some v
  lookup-insert_self k v m = rw (lookup-insert k k v m, beq_refl k)

  pub lookup-delete :
      (k j : K) (m : Map K V) → lookup j (delete k m) ≡ (if k == j then none else lookup j m)
  unfolding lookup delete
  lookup-delete k j [] = ground arith
  lookup-delete k j ((i, w) ∷ m) =
      ground (arith, e.beq_iff k j, e.beq_iff i k, e.beq_iff i j, lookup-delete k j m)

  -- A predicate on the values.
  abbrev pub AllValues : (V → Type 0) → Map K V → Type 0
  AllValues P m = All P (values m)

  pub AllValues-insert :
      (P : V → Type 0) (k : K) (v : V) (m : Map K V)
      → P v
      → AllValues P m
      → AllValues P (insert k v m)
  unfolding insert
  AllValues-insert P k v [] h a = (h, tt)
  AllValues-insert P k v ((j, w) ∷ m) h a = elim (Bool-cases (j == k)) [
    | inl q ↦ rw q (h, a.1)
    | inr q ↦ rw q (a.0, AllValues-insert P k v m h a.1)
  ]

  pub AllValues-lookup :
      (P : V → Type 0) (k : K) (v : V) (m : Map K V) → lookup k m ≡ some v → AllValues P m → P v
  unfolding lookup
  AllValues-lookup P k v [] q a = cc
  AllValues-lookup P k v ((j, w) ∷ m) q a = elim (Bool-cases (j == k)) [
    | inl t ↦ rw (← some-inj (rw t at q)) a.0
    | inr t ↦ AllValues-lookup P k v m (rw t at q) a.1
  ]
    where
      some-inj : some w ≡ some v → w ≡ v
      some-inj h = cc

  -- The number of entries whose value passes a test.
  abbrev pub count_values : (V → Bool) → Map K V → ℕ
  count_values p m = count_by p (values m)

  pub count_values-insert_new :
      (p : V → Bool) (k : K) (v : V) (m : Map K V)
      → lookup k m ≡ none
      → count_values p (insert k v m) ≡ count_values p m + bool_nat (p v)
  unfolding lookup insert
  count_values-insert_new p k v [] q = ground arith
  count_values-insert_new p k v ((j, w) ∷ m) q = ground (arith, count_values-insert_new p k v m)

  pub count_values-insert_old :
      (p : V → Bool) (k : K) (v w : V) (m : Map K V)
      → lookup k m ≡ some w
      → count_values p (insert k v m) + bool_nat (p w) ≡ count_values p m + bool_nat (p v)
  unfolding lookup insert
  count_values-insert_old p k v w [] q = cc
  count_values-insert_old p k v w ((j, u) ∷ m) q = ground (arith, count_values-insert_old p k v w m)

  pub insert_new :
      (k : K) (v : V) (m : Map K V) → lookup k m ≡ none → insert k v m ≡ m ++ (k, v) ∷ []
  unfolding lookup insert
  insert_new k v [] q = refl
  insert_new k v ((j, w) ∷ m) q = ground (arith, insert_new k v m)

  -- Replacing a value by one that passes a test only if the old one did adds nothing to the count.
  pub count_values-insert_le :
      (p : V → Bool) (k : K) (v w : V) (m : Map K V)
      → lookup k m ≡ some w
      → (p v ≡ true → p w ≡ true)
      → count_values p (insert k v m) ≤ count_values p m
  count_values-insert_le p k v w m q h = ground (arith, count_values-insert_old p k v w m q)

  -- Writing a value adds one at most.
  pub count_values-insert_any :
      (p : V → Bool) (k : K) (v : V) (m : Map K V)
      → count_values p (insert k v m) ≤ count_values p m + bool_nat (p v)
  unfolding insert
  count_values-insert_any p k v [] = ground arith
  count_values-insert_any p k v ((j, w) ∷ m) = ground (arith, count_values-insert_any p k v m)
