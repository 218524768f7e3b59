-- ===== src/Tests/Servers.antt =====
-- The server with small libraries.
use vpc_routing.Prelude.{
  ℕ, zero, suc, ◌<◌, ◌≡◌, ◌⊎◌, refl, arith, Option, none, some, List, [], ◌∷◌,
}
use vpc_routing.Model.Entities.{Uuid}
use vpc_routing.Bgp.Service.{in_memory}
use vpc_routing.Api.Router.{Method, Endpoint, route, split, serves}
use vpc_routing.Api.Router.Paths.{IsPart, IsUuidText, method_of, path_of, route-path_of}
use vpc_routing.Api.Serve.{Libraries, Request, Server, serve, handle}
use vpc_routing.Api.Serve.Effects.{SameObjects, serve-SameObjects}
use vpc_routing.Lifecycle.Served.{Arrival, Effect, serve-Effect, serve_all}
use vpc_routing.Lifecycle.Uptime.{IsSound}
use vpc_routing.Config.{Environment}
use vpc_routing.Programs.{api_server, served-IsSound}
use vpc_routing.Prelude.Maps.{lookup, insert}
use vpc_routing.Auth.Access.{middleware, parse_bearer_token, split_at_space}
use vpc_routing.Auth.RateLimit.{allow, get_limiter, make_room}
use vpc_routing.Api.Render.{write_error}
use vpc_routing.Api.VpcHandler
use vpc_routing.Store.Vpcs
use vpc_routing.Tests.Data.{outside, env_for, east_request, peering_request}
use vpc_routing.Tests.Histories.{fresh}
use vpc_routing.Tests.Limits.{bucket_of_tokens}

-- An identifier is written as a letter for each of its units, and one more.
abbrev letters : Uuid → List ℕ
letters zero = b'a' ∷ []
letters (suc n) = b'a' ∷ letters n

abbrev count_letters : List ℕ → ℕ
count_letters [] = 0
count_letters (c ∷ cs) = suc (count_letters cs)

abbrev parse_letters : List ℕ → Option Uuid
parse_letters [] = none
parse_letters (c ∷ cs) = some (count_letters cs)

letters_parse : (id : Uuid) → parse_letters (letters id) ≡ some id
letters_parse zero = refl
letters_parse (suc n) = ground (arith, letters_parse n)

letters-IsPart : (id : Uuid) → IsPart (letters id)
letters-IsPart zero = refl
letters-IsPart (suc n) = ground (arith, letters-IsPart n)

letters-IsUuidText : IsUuidText parse_letters letters
letters-IsUuidText = record { parses = letters_parse; part = letters-IsPart }

route-path_of_example :
    route parse_letters
      (method_of (Endpoint.accept_peering 3))
      (path_of letters (Endpoint.accept_peering 3))
    ≡ serves (Endpoint.accept_peering 3)
route-path_of_example =
    route-path_of parse_letters letters (Endpoint.accept_peering 3) letters-IsUuidText

abbrev lib : Libraries
lib = record {
  externals = outside;
  texts = record {
    of_uuid = λ id. "id";
    of_prefix = λ p. "prefix";
    of_addr = λ a. "address";
    of_time = λ t. "time";
  };
  parse_id = parse_letters;
  vpc_body = λ s. east_request;
  peering_body = λ s. peering_request;
  update_body = λ s. none;
  override_body = λ s. none;
  rate = bucket_of_tokens;
}

-- A request of account 1.
abbrev sends : Method → List ℕ → Request
sends m path = record {
  method = m;
  path = path;
  authorization = b'B' ∷ b'e' ∷ b'a' ∷ b'r' ∷ b'e' ∷ b'r' ∷ b' ' ∷ b'a' ∷ b'a' ∷ [];
  region_id = "";
  vpc_id = "";
  state = "";
  body = "{}";
}

abbrev nothing_set : Environment
nothing_set = record {
  getenv = λ s. "";
  atoi = λ s. none;
  parse_duration = λ s. none;
  split_commas = λ s. s ∷ [];
}

abbrev asked : Endpoint → Request
asked e = sends (method_of e) (path_of letters e)

abbrev arrivals : List Arrival
arrivals =
    Arrival.request (asked Endpoint.create_vpc) (env_for 11)
    ∷ Arrival.tick 2000 env_for
    ∷ Arrival.request (asked (Endpoint.delete_vpc 11)) (env_for 0)
    ∷ []

served-IsSound_example :
    IsSound in_memory lib (serve_all in_memory lib arrivals (api_server lib nothing_set, fresh))
served-IsSound_example = served-IsSound in_memory lib nothing_set arrivals fresh

abbrev started : Server lib
started = api_server lib nothing_set

serve-Effect_example :
    ((serve lib (asked Endpoint.create_vpc) (env_for 11) started).0.db ≡ started.db)
    ⊎ Effect in_memory lib
        (asked Endpoint.create_vpc)
        (env_for 11)
        started.db
        (serve lib (asked Endpoint.create_vpc) (env_for 11) started).0.db
        fresh
serve-Effect_example =
    serve-Effect in_memory lib (asked Endpoint.create_vpc) (env_for 11) started fresh

-- No such VPC.
is_refused : 204 < (serve lib (asked (Endpoint.delete_vpc 11)) (env_for 0) started).1.status
unfolding serve api_server middleware parse_bearer_token split_at_space route split handle allow
    get_limiter make_room VpcHandler.delete Vpcs.get lookup insert write_error
is_refused = omega arith

serve-SameObjects_example :
    SameObjects started.db (serve lib (asked (Endpoint.delete_vpc 11)) (env_for 0) started).0.db
serve-SameObjects_example =
    serve-SameObjects lib (asked (Endpoint.delete_vpc 11)) (env_for 0) started is_refused
