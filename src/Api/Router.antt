-- ===== src/Api/Router.antt =====
-- internal/api/router.go: which handler a method and a path reach. A path is its bytes, none of them
-- percent-encoded, and `uuid.Parse` a parameter.
pub mod Paths
pub mod Fits
pub mod Reached
use vpc_routing.Prelude.{
  ℕ, Bool, true, false, ◌&&◌, ◌||◌, not, Option, none, some, List, [], ◌∷◌, ◌++◌, if◌then◌else◌,
  ◌==◌, nat_eq,
}
use vpc_routing.Model.Entities.{Uuid}
use vpc_routing.Auth.Access.{bytes_beq, healthz}
use vpc_routing.Auth.RateLimit.{Kind}

pub data Method : Type 0 where
  post get patch delete connect other : Method

abbrev pub v1_word : List ℕ
v1_word = b'v' ∷ b'1' ∷ []

abbrev pub vpcs_word : List ℕ
vpcs_word = b'v' ∷ b'p' ∷ b'c' ∷ b's' ∷ []

abbrev pub peerings_word : List ℕ
peerings_word = b'p' ∷ b'e' ∷ b'e' ∷ b'r' ∷ b'i' ∷ b'n' ∷ b'g' ∷ b's' ∷ []

abbrev pub effective_routes_word : List ℕ
effective_routes_word =
    b'e' ∷ b'f' ∷ b'f' ∷ b'e' ∷ b'c' ∷ b't' ∷ b'i' ∷ b'v' ∷ b'e' ∷ b'-' ∷ b'r' ∷ b'o' ∷ b'u' ∷ b't'
    ∷ b'e' ∷ b's' ∷ []

abbrev pub accept_word : List ℕ
accept_word = b'a' ∷ b'c' ∷ b'c' ∷ b'e' ∷ b'p' ∷ b't' ∷ []

abbrev pub reject_word : List ℕ
reject_word = b'r' ∷ b'e' ∷ b'j' ∷ b'e' ∷ b'c' ∷ b't' ∷ []

abbrev pub routes_word : List ℕ
routes_word = b'r' ∷ b'o' ∷ b'u' ∷ b't' ∷ b'e' ∷ b's' ∷ []

abbrev pub events_word : List ℕ
events_word = b'e' ∷ b'v' ∷ b'e' ∷ b'n' ∷ b't' ∷ b's' ∷ []

-- The handlers, with the identifier that the path gives.
pub data Endpoint : Type 0 where
  create_vpc list_vpcs : Endpoint
  get_vpc delete_vpc effective_routes : Uuid → Endpoint
  create_peering list_peerings : Endpoint
  get_peering update_peering delete_peering : Uuid → Endpoint
  accept_peering reject_peering list_routes override_route list_events : Uuid → Endpoint

-- The answers without a handler: the health answer, the mux's redirect to the cleaned path, and errors.
pub data Plain : Type 0 where
  health redirected not_found method_not_allowed invalid_id : Plain

-- What the mux and the functions of `registerRoutes` do with a request: a handler behind the rate limit, or
-- a plain answer.
pub data Target : Type 0 where
  serves : Endpoint → Target
  answers : Plain → Target

-- The first part goes on.
abbrev pub cons_first : ℕ → List ℕ × List (List ℕ) → List ℕ × List (List ℕ)
cons_first c (a, parts) = (c ∷ a, parts)

abbrev pub new_part : List ℕ × List (List ℕ) → List ℕ × List (List ℕ)
new_part (a, parts) = ([], a ∷ parts)

-- `strings.Split(path, "/")`: the first part and the others.
unfoldable pub split : List ℕ → List ℕ × List (List ℕ)
split [] = ([], [])
split (c ∷ cs) = let parts = split cs in if c == b'/' then new_part parts else cons_first c parts

abbrev is_dots : List ℕ → Bool
is_dots p = bytes_beq p (b'.' ∷ []) || bytes_beq p (b'.' ∷ b'.' ∷ [])

-- `http.ServeMux` redirects a path that has an empty part before its end, or one that is `.` or `..`.
abbrev pub are_clean : List (List ℕ) → Bool
are_clean [] = true
are_clean ([] ∷ []) = true
are_clean ([] ∷ q ∷ qs) = false
are_clean ((c ∷ p) ∷ qs) = not (is_dots (c ∷ p)) && are_clean qs

abbrev pub is_clean : List ℕ × List (List ℕ) → Bool
is_clean ([], q ∷ qs) = are_clean (q ∷ qs)
is_clean ([], []) = false
is_clean (c ∷ p, qs) = false

-- The cases of `/v1/vpcs`.
abbrev pub vpcs_target : Method → Target
vpcs_target post = serves create_vpc
vpcs_target get = serves list_vpcs
vpcs_target m = answers method_not_allowed

abbrev pub is_get : Method → Bool
is_get get = true
is_get m = false

abbrev pub vpc_target : Uuid → Method → List (List ℕ) → Target
vpc_target id get [] = serves (get_vpc id)
vpc_target id delete [] = serves (delete_vpc id)
vpc_target id m [] = answers method_not_allowed
vpc_target id m (p ∷ []) =
    if bytes_beq p effective_routes_word && is_get m
    then serves (effective_routes id)
    else answers not_found
vpc_target id m (p ∷ q ∷ qs) = answers not_found

abbrev pub peerings_target : Method → Target
peerings_target post = serves create_peering
peerings_target get = serves list_peerings
peerings_target m = answers method_not_allowed

abbrev accept_target : Uuid → Method → Target
accept_target id post = serves (accept_peering id)
accept_target id m = answers not_found

abbrev reject_target : Uuid → Method → Target
reject_target id post = serves (reject_peering id)
reject_target id m = answers not_found

abbrev routes_target : Uuid → Method → Target
routes_target id get = serves (list_routes id)
routes_target id post = serves (override_route id)
routes_target id m = answers not_found

abbrev events_target : Uuid → Method → Target
events_target id get = serves (list_events id)
events_target id m = answers not_found

-- The switch on the part after the identifier; what follows it is not looked at.
abbrev pub peering_target : Uuid → Method → List (List ℕ) → Target
peering_target id get [] = serves (get_peering id)
peering_target id patch [] = serves (update_peering id)
peering_target id delete [] = serves (delete_peering id)
peering_target id m [] = answers method_not_allowed
peering_target id m (p ∷ qs) =
    if bytes_beq p accept_word
    then accept_target id m
    else if bytes_beq p reject_word
    then reject_target id m
    else if bytes_beq p routes_word
    then routes_target id m
    else if bytes_beq p events_word
    then events_target id m
    else answers not_found

abbrev pub or_invalid : Option Uuid → (Uuid → Target) → Target
or_invalid none f = answers invalid_id
or_invalid (some id) f = f id

-- The patterns below `/v1`, by the parts of the path after it.
abbrev pub v1_target : (List ℕ → Option Uuid) → Method → List (List ℕ) → Target
v1_target parse m [] = answers not_found
v1_target parse m (p ∷ []) =
    if bytes_beq p vpcs_word
    then vpcs_target m
    else if bytes_beq p peerings_word
    then peerings_target m
    else answers not_found
v1_target parse m (p ∷ text ∷ qs) =
    if bytes_beq p vpcs_word
    then or_invalid (parse text) (λ id. vpc_target id m qs)
    else if bytes_beq p peerings_word
    then or_invalid (parse text) (λ id. peering_target id m qs)
    else answers not_found

abbrev pub below_root : (List ℕ → Option Uuid) → Method → List ℕ × List (List ℕ) → Target
below_root parse m ([], q ∷ qs) =
    if bytes_beq q v1_word then v1_target parse m qs else answers not_found
below_root parse m p = answers not_found

-- CONNECT is not answers redirected.
abbrev pub is_connect : Method → Bool
is_connect connect = true
is_connect m = false

-- By the path and its parts.
abbrev pub routed : (List ℕ → Option Uuid) → Method → List ℕ → List ℕ × List (List ℕ) → Target
routed parse m path parts =
    if not (is_connect m) && not (is_clean parts)
    then answers redirected
    else if bytes_beq path healthz
    then answers health
    else below_root parse m parts

unfoldable pub route : (List ℕ → Option Uuid) → Method → List ℕ → Target
unfolding split
route parse m path = routed parse m path (split path)

-- `rateLimitMutate` or `rateLimitRead`.
abbrev pub kind_of : Endpoint → Kind
kind_of create_vpc = Kind.mutate
kind_of (delete_vpc id) = Kind.mutate
kind_of create_peering = Kind.mutate
kind_of (update_peering id) = Kind.mutate
kind_of (delete_peering id) = Kind.mutate
kind_of (accept_peering id) = Kind.mutate
kind_of (reject_peering id) = Kind.mutate
kind_of (override_route id) = Kind.mutate
kind_of e = Kind.read
