-- ===== src/Auth/Bearer.antt =====
-- `ParseBearerToken` of internal/auth/auth.go.
use vpc_routing.Prelude.{
  ℕ, ◌≡◌, ◌≢◌, ◌↔◌, refl, inl, inr, arith, true, false, Bool, Option, none, some, List, [], ◌∷◌,
  ◌++◌, map, All, Result, ok, err, ◌==◌, nat_eq, nat_beq_iff, Bool-cases, ok-inj, ◌||◌,
  if◌then◌else◌, ◌>>=◌, >>=-eq-ok,
}
use vpc_routing.Model.Entities.{Uuid, AppError, err_unauthenticated}
use vpc_routing.Auth.Access.{
  longer, split_at_space, to_lower, bytes_beq, bearer, token_of, parse_bearer_token,
  or_unauthenticated, is_empty, healthz, readyz, middleware,
}

pub bytes_beq_iff : (xs ys : List ℕ) → (bytes_beq xs ys ≡ true) ↔ (xs ≡ ys)
bytes_beq_iff [] [] = (λ h. refl, λ h. refl)
bytes_beq_iff [] (y ∷ ys) = (λ h. cc, λ h. cc)
bytes_beq_iff (x ∷ xs) [] = (λ h. cc, λ h. cc)
bytes_beq_iff (x ∷ xs) (y ∷ ys) =
    (λ h. ground (arith, bytes_beq_iff xs ys), λ h. ground (arith, bytes_beq_iff xs ys))

split_sound : (header a b : List ℕ) → split_at_space header ≡ some (a, b) → header ≡ a ++ b' ' ∷ b
unfolding split_at_space
split_sound [] a b h = cc
split_sound (c ∷ cs) a b h = elim (Bool-cases (c == b' ')) [
  | inl e ↦ (let q : c ≡ b' ' = (nat_beq_iff c (b' ')).0 e in at-space q (rw e at h))
  | inr e ↦ at-rest (split_at_space cs) (split_sound cs) (rw e at h)
]
  where
    at-space :
        c ≡ b' '
        → ◌≡◌ {A = Option (List ℕ × List ℕ)} (some ([], cs)) (some (a, b))
        → c ∷ cs ≡ a ++ b' ' ∷ b
    at-space q h = ground arith

    at-rest :
        (o : Option (List ℕ × List ℕ))
        → ((u v : List ℕ) → o ≡ some (u, v) → cs ≡ u ++ b' ' ∷ v)
        → longer c o ≡ some (a, b)
        → c ∷ cs ≡ a ++ b' ' ∷ b
    at-rest none s h = cc
    at-rest (some (u, v)) s h = ground (arith, s u v refl)

split_complete :
    (a b : List ℕ) → All (λ c. (c == b' ') ≡ false) a → split_at_space (a ++ b' ' ∷ b) ≡ some (a, b)
unfolding split_at_space
split_complete [] b w = refl
split_complete (c ∷ a) b w = rw (w.0, split_complete a b w.1) refl

no_space :
    (xs ys : List ℕ)
    → map to_lower xs ≡ ys
    → All (λ y. y ≢ b' ') ys
    → All (λ c. (c == b' ') ≡ false) xs
no_space [] ys h w = tt
no_space (x ∷ xs) [] h w = cc
no_space (x ∷ xs) (y ∷ ys) h w = (head (x == b' ') refl, no_space xs ys (cc) w.1)
  where
    head : (b : Bool) → (x == b' ') ≡ b → (x == b' ') ≡ false
    head false e = e
    head true e = absurd (w.0 (ground arith))

-- The header of a scheme and a token.
abbrev pub IsBearer : List ℕ → List ℕ → Type 0
IsBearer header token =
    (scheme : List ℕ) × (header ≡ scheme ++ b' ' ∷ token) × (map to_lower scheme ≡ bearer)

-- `ParseBearerToken` returns a token without an error exactly when the header is a scheme, a
-- space and that token, and the scheme is the word bearer in letters of either case.
pub parse_bearer_token_iff :
    (header token : List ℕ) → (parse_bearer_token header ≡ ok token) ↔ IsBearer header token
unfolding parse_bearer_token
parse_bearer_token_iff header token = (λ h. there (split_at_space header) refl h, back)
  where
    there :
        (o : Option (List ℕ × List ℕ))
        → split_at_space header ≡ o
        → token_of o ≡ ok token
        → IsBearer header token
    there none s h = cc
    there (some (a, b)) s h = elim (Bool-cases (bytes_beq (map to_lower a) bearer)) [
      | inl e ↦
          (let t : b ≡ token = ok-inj (rw e at h) in
            (a, rw (← t) (split_sound header a b s), (bytes_beq_iff (map to_lower a) bearer).0 e))
      | inr e ↦ absurd (refused (rw e at h))
    ]
      where
        refused : {x : AppError} → ◌≡◌ {A = Result AppError (List ℕ)} (err x) (ok token) → ⊥
        refused h = cc

    back : IsBearer header token → token_of (split_at_space header) ≡ ok token
    back (a, e, l) =
        rw
          (
            e,
            split_complete a token (no_space a bearer l (ground arith)),
            (bytes_beq_iff (map to_lower a) bearer).1 l,
          )
          refl

account-ok : (o : Option Uuid) (acc : Uuid) → or_unauthenticated o ≡ ok (some acc) → o ≡ some acc
account-ok none acc h = cc
account-ok (some id) acc h = ground arith

-- A request goes on with an account only by a bearer token that is read as that account.
pub middleware-IsBearer :
    (parse : List ℕ → Option Uuid) (path header : List ℕ) (acc : Uuid)
    → middleware parse path header ≡ ok (some acc)
    → (token : List ℕ) × IsBearer header token × (parse token ≡ some acc)
unfolding middleware
middleware-IsBearer parse path header acc h =
    elim (Bool-cases (bytes_beq path healthz || bytes_beq path readyz)) [
      | inl e ↦ absurd (unnamed (rw e at h))
      | inr e ↦ asked header (rw e at h)
    ]
  where
    unnamed : ◌≡◌ {A = Result AppError (Option Uuid)} (ok none) (ok (some acc)) → ⊥
    unnamed q = cc

    asked :
        (header : List ℕ)
        → (if is_empty header
            then err err_unauthenticated
            else parse_bearer_token header >>= λ token. or_unauthenticated (parse token))
          ≡ ok (some acc)
        → (token : List ℕ) × IsBearer header token × (parse token ≡ some acc)
    asked [] q = absurd (refused q)
      where
        refused :
            ◌≡◌ {A = Result AppError (Option Uuid)} (err err_unauthenticated) (ok (some acc)) → ⊥
        refused r = cc
    asked (c ∷ cs) q =
        let (token, t, r) = >>=-eq-ok (parse_bearer_token (c ∷ cs)) _ q in
        (token, (parse_bearer_token_iff (c ∷ cs) token).0 t, account-ok (parse token) acc r)
