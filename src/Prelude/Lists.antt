-- ===== src/Prelude/Lists.antt =====
-- Lists over the native numbers, tests by Boolean functions, and predicates by recursion.
use Prim.Native.Nat.{ℕ, zero, suc, ◌+◌, min}
use mathlib.Core.Path.{◌≡◌, refl, ap, sym, subst, ◌∙◌}
use mathlib.Core.Logic.{◌↔◌, ◌⊎◌, inl, inr}
use mathlib.Core.Bool.{Bool, true, false, ◌||◌}
use mathlib.Core.List.{List, [], ◌∷◌, ◌++◌, map}
use mathlib.Core.Option.{Option, none, some}
use native.Mathlib.Omega.{arith}
use vpc_routing.Prelude.Deciding.{if◌then◌else◌, or_true, Bool-cases, true-ne-false}

module _ {ℓ} {A : Type ℓ} where
  abbrev pub length : List A → ℕ
  length [] = 0
  length (x ∷ xs) = suc (length xs)

  abbrev pub take : ℕ → List A → List A
  take zero rest = []
  take (suc more) [] = []
  take (suc more) (head ∷ rest) = head ∷ take more rest

  pub length-take : (k : ℕ) (items : List A) → length (take k items) ≡ min k (length items)
  length-take zero items = omega arith
  length-take (suc k) [] = omega arith
  length-take (suc k) (i ∷ items) = omega (length-take k items, arith)

  pub length-append : (front back : List A) → length (front ++ back) ≡ length front + length back
  length-append [] back = omega arith
  length-append (f ∷ front) back = omega (length-append front back, arith)

  -- The loop `for … { if p(x) { return true } }; return false`.
  abbrev pub any : (A → Bool) → List A → Bool
  any p [] = false
  any p (x ∷ xs) = p x || any p xs

  -- The loop that appends the elements that pass a test.
  abbrev pub keep : (A → Bool) → List A → List A
  keep p [] = []
  keep p (x ∷ xs) = if p x then x ∷ keep p xs else keep p xs

  -- The loop that returns the first element that passes a test.
  abbrev pub first : (A → Bool) → List A → Option A
  first p [] = none
  first p (x ∷ xs) = if p x then some x else first p xs

  -- The number of elements that pass a test.
  abbrev pub count_by : (A → Bool) → List A → ℕ
  count_by p [] = 0
  count_by p (x ∷ xs) = let n = count_by p xs in if p x then suc n else n

  pub first-some : (p : A → Bool) (xs : List A) (a : A) → first p xs ≡ some a → p a ≡ true
  first-some p [] a h = cc
  first-some p (x ∷ xs) a h = elim (Bool-cases (p x)) [
    | inl e ↦ ground arith
    | inr e ↦ first-some p xs a (ground arith)
  ]

  pub first-none : (p : A → Bool) (xs : List A) → first p xs ≡ none → any p xs ≡ false
  first-none p [] h = refl
  first-none p (x ∷ xs) h = ground (arith, first-none p xs)

  pub count_by-append :
      (p : A → Bool) (xs ys : List A) → count_by p (xs ++ ys) ≡ count_by p xs + count_by p ys
  count_by-append p [] ys = omega arith
  count_by-append p (x ∷ xs) ys = ground (arith, count_by-append p xs ys)

  pub length-keep : (p : A → Bool) (xs : List A) → length (keep p xs) ≡ count_by p xs
  length-keep p [] = refl
  length-keep p (x ∷ xs) = ground (arith, length-keep p xs)

-- Every element satisfies a predicate.
abbrev pub All {ℓ κ} : {A : Type ℓ} → (A → Type κ) → List A → Type κ
All Holds [] = Unit
All Holds (x ∷ rest) = Holds x × All Holds rest

-- Membership, by recursion, with the position kept.
abbrev pub In : {A : Type 0} → A → List A → Type 0
In a [] = ⊥
In a (x ∷ xs) = (a ≡ x) ⊎ In a xs

module _ {A : Type 0} where
  pub first-In : (p : A → Bool) (xs : List A) (a : A) → first p xs ≡ some a → In a xs
  first-In p [] a q = cc
  first-In p (y ∷ xs) a q = elim (Bool-cases (p y)) [
    | inl e ↦ inl (sym (some-inj (rw e at q)))
    | inr e ↦ inr (first-In p xs a (rw e at q))
  ]
    where
      some-inj : some y ≡ some a → y ≡ a
      some-inj h = cc

  pub any_elim : (p : A → Bool) (xs : List A) → any p xs ≡ true → (x : A) × In x xs × (p x ≡ true)
  any_elim p [] h = absurd (true-ne-false (sym h))
  any_elim p (x ∷ xs) h = elim (or_true (p x) (any p xs) h) [
    | inl e ↦ (x, inl refl, e)
    | inr e ↦ (let r = any_elim p xs e in (r.0, inr r.1, r.2))
  ]

  pub any_intro : (p : A → Bool) (xs : List A) (x : A) → In x xs → p x ≡ true → any p xs ≡ true
  any_intro p [] x m h = absurd m
  any_intro p (y ∷ xs) x (inl e) h = ground arith
  any_intro p (y ∷ xs) x (inr m) h = ground (arith, any_intro p xs x m h)

  pub any_iff :
      (p : A → Bool) (xs : List A) → (any p xs ≡ true) ↔ ((x : A) × In x xs × (p x ≡ true))
  any_iff p xs = (any_elim p xs, λ r. any_intro p xs r.0 r.1 r.2)

  pub All-In {κ} : (P : A → Type κ) (xs : List A) (x : A) → All P xs → In x xs → P x
  All-In P [] x h m = absurd m
  All-In P (y ∷ xs) x h (inl e) = subst P (sym e) h.0
  All-In P (y ∷ xs) x h (inr m) = All-In P xs x h.1 m

  pub In-All {κ} : (P : A → Type κ) (xs : List A) → ((x : A) → In x xs → P x) → All P xs
  In-All P [] h = tt
  In-All P (y ∷ xs) h = (h y (inl refl), In-All P xs (λ x m. h x (inr m)))

  pub In-append : (x : A) (xs ys : List A) → In x (xs ++ ys) ↔ (In x xs ⊎ In x ys)
  In-append x xs ys = (split xs, join xs)
    where
      split : (zs : List A) → In x (zs ++ ys) → In x zs ⊎ In x ys
      split [] m = inr m
      split (z ∷ zs) (inl e) = inl (inl e)
      split (z ∷ zs) (inr m) = elim (split zs m) [ inl a ↦ inl (inr a) | inr b ↦ inr b ]

      join : (zs : List A) → In x zs ⊎ In x ys → In x (zs ++ ys)
      join [] (inl m) = absurd m
      join [] (inr m) = m
      join (z ∷ zs) (inl (inl e)) = inl e
      join (z ∷ zs) (inl (inr m)) = inr (join zs (inl m))
      join (z ∷ zs) (inr m) = inr (join zs (inr m))

  pub In-keep : (p : A → Bool) (xs : List A) (x : A) → In x (keep p xs) ↔ (In x xs × (p x ≡ true))
  In-keep p xs x = (there xs, back xs)
    where
      there : (ys : List A) → In x (keep p ys) → In x ys × (p x ≡ true)
      there [] m = absurd m
      there (y ∷ ys) m = elim (Bool-cases (p y)) [
        | inl e ↦ (elim (rw e at m) [
          | inl q ↦ (inl q, ap p q ∙ e)
          | inr n ↦ (let r = there ys n in (inr r.0, r.1))
        ])
        | inr e ↦ (let r = there ys (rw e at m) in (inr r.0, r.1))
      ]

      back : (ys : List A) → In x ys × (p x ≡ true) → In x (keep p ys)
      back [] (m, h) = absurd m
      back (y ∷ ys) (inl q, h) = rw (sym (ap p q) ∙ h) (inl q)
      back (y ∷ ys) (inr m, h) = elim (Bool-cases (p y)) [
        | inl e ↦ rw e (inr (back ys (m, h)))
        | inr e ↦ rw e (back ys (m, h))
      ]

module _ {A B : Type 0} (f : A → B) where
  pub length-map : (rs : List A) → length (map f rs) ≡ length rs
  length-map [] = refl
  length-map (r ∷ rs) = ap suc (length-map rs)

  pub In-map : (r : A) (rs : List A) → In r rs → In (f r) (map f rs)
  In-map r [] m = absurd m
  In-map r (q ∷ rs) (inl e) = inl (ap f e)
  In-map r (q ∷ rs) (inr m) = inr (In-map r rs m)

  pub In-map_elim : (z : B) (rs : List A) → In z (map f rs) → (r : A) × In r rs × (z ≡ f r)
  In-map_elim z [] m = absurd m
  In-map_elim z (q ∷ rs) (inl e) = (q, inl refl, e)
  In-map_elim z (q ∷ rs) (inr m) = (let (r, n, e) = In-map_elim z rs m in (r, inr n, e))

-- A relation between each element and those after it.
abbrev pub Pairwise {ℓ κ} : {A : Type ℓ} → (A → A → Type κ) → List A → Type κ
Pairwise R [] = Unit
Pairwise R (x ∷ xs) = All (R x) xs × Pairwise R xs
