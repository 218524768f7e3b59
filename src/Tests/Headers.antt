-- ===== src/Tests/Headers.antt =====
-- Authorization headers.
use vpc_routing.Prelude.{ℕ, ◌≡◌, ◌↔◌, List, [], ◌∷◌, ok}
use vpc_routing.Auth.Access.{parse_bearer_token}
use vpc_routing.Auth.Bearer.{IsBearer, parse_bearer_token_iff}

-- `BeaRer 7`.
abbrev header : List ℕ
header = b'B' ∷ b'e' ∷ b'a' ∷ b'R' ∷ b'e' ∷ b'r' ∷ b' ' ∷ b'7' ∷ []

parse_bearer_token_iff_example :
    (parse_bearer_token header ≡ ok (b'7' ∷ [])) ↔ IsBearer header (b'7' ∷ [])
parse_bearer_token_iff_example = parse_bearer_token_iff header (b'7' ∷ [])
