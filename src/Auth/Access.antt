-- ===== src/Auth/Access.antt =====
-- internal/auth/auth.go and middleware.go. The context's account is an optional UUID.
use vpc_routing.Prelude.{
  ℕ, ◌+◌, Bool, true, false, ◌&&◌, ◌||◌, Option, none, some, List, [], ◌∷◌, map, if◌then◌else◌, leb,
  ◌==◌, nat_eq, string_eq, Result, ok, err, ◌>>=◌, guard,
}
use vpc_routing.Model.Entities.{Uuid, Vpc, AppError, err_unauthenticated, err_permission_denied}

abbrev pub account_from_context : Option Uuid → Result AppError Uuid
account_from_context none = err err_unauthenticated
account_from_context (some id) = ok id

unfoldable pub require_vpc_owner : Option Uuid → Vpc → Result AppError (Unit {0})
require_vpc_owner ctx vpc = do
  account_id ← account_from_context ctx
  guard (vpc.account_id == account_id) err_permission_denied

unfoldable pub require_peering_access : Option Uuid → Uuid → Uuid → Result AppError (Unit {0})
require_peering_access ctx requester accepter = do
  account_id ← account_from_context ctx
  guard (account_id == requester || account_id == accepter) err_permission_denied

-- The character goes to the first part.
abbrev pub longer : ℕ → Option (List ℕ × List ℕ) → Option (List ℕ × List ℕ)
longer c none = none
longer c (some (a, b)) = some (c ∷ a, b)

-- `strings.SplitN(header, " ", 2)` where it gives two parts.
unfoldable pub split_at_space : List ℕ → Option (List ℕ × List ℕ)
split_at_space [] = none
split_at_space (c ∷ cs) =
    let rest = split_at_space cs in if c == b' ' then some ([], cs) else longer c rest

-- ASCII case folding: the letters of "bearer" have no other folding in Unicode.
abbrev pub to_lower : ℕ → ℕ
to_lower c = if leb b'A' c && leb c b'Z' then c + 32 else c

abbrev pub bytes_beq : List ℕ → List ℕ → Bool
bytes_beq [] [] = true
bytes_beq [] (y ∷ ys) = false
bytes_beq (x ∷ xs) [] = false
bytes_beq (x ∷ xs) (y ∷ ys) = x == y && bytes_beq xs ys

abbrev pub bearer : List ℕ
bearer = b'b' ∷ b'e' ∷ b'a' ∷ b'r' ∷ b'e' ∷ b'r' ∷ []

abbrev pub token_of : Option (List ℕ × List ℕ) → Result AppError (List ℕ)
token_of none = err err_unauthenticated
token_of (some (scheme, token)) =
    if bytes_beq (map to_lower scheme) bearer then ok token else err err_unauthenticated

-- The header as its bytes.
unfoldable pub parse_bearer_token : List ℕ → Result AppError (List ℕ)
unfolding split_at_space
parse_bearer_token header = token_of (split_at_space header)

abbrev pub or_unauthenticated : Option Uuid → Result AppError (Option Uuid)
or_unauthenticated none = err err_unauthenticated
or_unauthenticated (some id) = ok (some id)

abbrev pub is_empty : List ℕ → Bool
is_empty [] = true
is_empty (_ ∷ _) = false

abbrev pub healthz : List ℕ
healthz = b'/' ∷ b'h' ∷ b'e' ∷ b'a' ∷ b'l' ∷ b't' ∷ b'h' ∷ b'z' ∷ []

abbrev pub readyz : List ℕ
readyz = b'/' ∷ b'r' ∷ b'e' ∷ b'a' ∷ b'd' ∷ b'y' ∷ b'z' ∷ []

-- The account that the next handler finds in its context, or the refusal. `parse` is `uuid.Parse`.
unfoldable pub middleware :
    (List ℕ → Option Uuid) → (path header : List ℕ) → Result AppError (Option Uuid)
unfolding parse_bearer_token
middleware parse path header =
    if bytes_beq path healthz || bytes_beq path readyz
    then ok none
    else if is_empty header
    then err err_unauthenticated
    else parse_bearer_token header >>= λ token. or_unauthenticated (parse token)
