-- ===== src/Store/Postgres/Tables.antt =====
-- A map of internal/store/memory.go as the list of its entries, each under its own key.
pub mod Agreement
use vpc_routing.Prelude.{
  ℕ, zero, suc, Result, ok, err, ◌≡◌, ◌≢◌, ◌⊎◌, inl, inr, refl, sym, ap, subst, ◌∙◌, arith, Bool,
  true, false, Option, none, some, List, [], ◌∷◌, ◌++◌, map, if◌then◌else◌, ◌==◌, nat_eq,
  nat_beq_iff, beq_refl, keep, count_by, All, All-In, In, Pairwise, Bool-cases, any,
}
use vpc_routing.Prelude.Maps.{Map, lookup, insert, values}
use vpc_routing.Model.Entities.{Uuid}
use vpc_routing.Store.Postgres.{PgError, or_not_found}

module _ {V : Type 0} (key : V → Uuid) where
  -- The map that holds each entry under its key.
  abbrev pub index : List V → Map Uuid V
  index [] = []
  index (v ∷ vs) = (key v, v) ∷ index vs

  abbrev pub Distinct : List V → Type 0
  Distinct vs = Pairwise (λ a b. key a ≢ key b) vs

  pub values-index : (vs : List V) → values (index vs) ≡ vs
  values-index [] = refl
  values-index (v ∷ vs) = ap (λ ws. v ∷ ws) (values-index vs)

  pub lookup-index_absent :
      (k : Uuid) (vs : List V) → All (λ v. key v ≢ k) vs → lookup k (index vs) ≡ none
  unfolding lookup
  lookup-index_absent k [] a = refl
  lookup-index_absent k (v ∷ vs) a =
      ground (arith, nat_beq_iff (key v) k, a.0, lookup-index_absent k vs a.1)

  pub lookup-index_present :
      (v : V) (vs : List V) → Distinct vs → In v vs → lookup (key v) (index vs) ≡ some v
  unfolding lookup
  lookup-index_present v [] d m = absurd m
  lookup-index_present v (u ∷ vs) d (inl q) = rw (ap key q, beq_refl (key u), q) refl
  lookup-index_present v (u ∷ vs) d (inr m) = ground (
    arith,
    nat_beq_iff (key u) (key v),
    All-In (λ b. key u ≢ key b) vs v d.0 m,
    lookup-index_present v vs d.1 m,
  )

  pub lookup-index_In :
      (k : Uuid) (v : V) (vs : List V) → lookup k (index vs) ≡ some v → In v vs × (key v ≡ k)
  unfolding lookup
  lookup-index_In k v [] q = cc
  lookup-index_In k v (u ∷ vs) q = elim (Bool-cases (key u == k)) [
    | inl e ↦
        (let h : u ≡ v = some-inj (rw e at q) in
          (inl (sym h), ap key (sym h) ∙ (nat_beq_iff (key u) k).0 e))
    | inr e ↦ (let r = lookup-index_In k v vs (rw e at q) in (inr r.0, r.1))
  ]
    where
      some-inj : some u ≡ some v → u ≡ v
      some-inj h = cc

  pub insert-index_new :
      (v : V) (vs : List V)
      → All (λ u. key u ≢ key v) vs
      → insert (key v) v (index vs) ≡ index (vs ++ v ∷ [])
  unfolding insert
  insert-index_new v [] a = refl
  insert-index_new v (u ∷ vs) a =
      ground (arith, nat_beq_iff (key u) (key v), a.0, insert-index_new v vs a.1)

  -- The list with the entry of the same key replaced.
  abbrev pub replace : V → List V → List V
  replace w [] = []
  replace w (v ∷ vs) = if key v == key w then w ∷ vs else v ∷ replace w vs

  pub insert-index_old :
      (w old : V) (vs : List V)
      → lookup (key w) (index vs) ≡ some old
      → insert (key w) w (index vs) ≡ index (replace w vs)
  unfolding lookup insert
  insert-index_old w old [] q = cc
  insert-index_old w old (v ∷ vs) q = elim (Bool-cases (key v == key w)) [
    | inl e ↦ rw e (ap (λ k. (k, w) ∷ index vs) ((nat_beq_iff (key v) (key w)).0 e))
    | inr e ↦ rw e (ap (λ m. (key v, v) ∷ m) (insert-index_old w old vs (rw e at q)))
  ]

  All-replace :
      (k : Uuid) (w : V) (vs : List V)
      → All (λ v. k ≢ key v) vs
      → All (λ v. k ≢ key v) (replace w vs)
  All-replace k w [] a = tt
  All-replace k w (v ∷ vs) a = elim (Bool-cases (key v == key w)) [
    | inl e ↦ rw e (subst (λ j. k ≢ j) ((nat_beq_iff (key v) (key w)).0 e) a.0, a.1)
    | inr e ↦ rw e (a.0, All-replace k w vs a.1)
  ]

  pub replace-Distinct : (w : V) (vs : List V) → Distinct vs → Distinct (replace w vs)
  replace-Distinct w [] d = tt
  replace-Distinct w (v ∷ vs) d = elim (Bool-cases (key v == key w)) [
    | inl e ↦
        rw e (subst (λ j. All (λ b. j ≢ key b) vs) ((nat_beq_iff (key v) (key w)).0 e) d.0, d.1)
    | inr e ↦ rw e (All-replace (key v) w vs d.0, replace-Distinct w vs d.1)
  ]

  All-append_one : (P : V → Type 0) (vs : List V) (v : V) → All P vs → P v → All P (vs ++ v ∷ [])
  All-append_one P [] v a h = (h, tt)
  All-append_one P (u ∷ vs) v a h = (a.0, All-append_one P vs v a.1 h)

  pub append-Distinct :
      (v : V) (vs : List V) → All (λ u. key u ≢ key v) vs → Distinct vs → Distinct (vs ++ v ∷ [])
  append-Distinct v [] a d = (tt, tt)
  append-Distinct v (u ∷ vs) a d =
      (All-append_one (λ b. key u ≢ key b) vs v d.0 a.0, append-Distinct v vs a.1 d.1)

-- What a statement that changed a row has found.
pub count_by_positive :
    {A : Type 0} (p : A → Bool) (n : ℕ) (xs : List A)
    → suc n ≡ count_by p xs
    → (x : A) × In x xs × (p x ≡ true)
count_by_positive p n [] q = absurd (omega (arith, q))
count_by_positive p n (x ∷ xs) q = elim (Bool-cases (p x)) [
  | inl e ↦ (x, inl refl, e)
  | inr e ↦ (let r = count_by_positive p n xs (rw e at q) in (r.0, inr r.1, r.2))
]

-- A successful statement changed at least one row.
pub or_not_found-ok : (r : Result PgError ℕ) → or_not_found r ≡ ok tt → (n : ℕ) × (r ≡ ok (suc n))
or_not_found-ok (ok zero) q = cc
or_not_found-ok (ok (suc n)) q = (n, refl)
or_not_found-ok (err e) q = cc
