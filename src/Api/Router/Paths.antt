-- ===== src/Api/Router/Paths.antt =====
-- The API's paths and methods, and where internal/api/router.go sends them.
use vpc_routing.Prelude.{
  ℕ, ◌≡◌, refl, sym, true-ne-false, ap, ◌∙◌, arith, Bool, true, false, ◌&&◌, ◌||◌, not, Option,
  some, List, [], ◌∷◌, ◌++◌, All, if◌then◌else◌, ◌==◌, nat_eq, string_eq,
}
use vpc_routing.Model.Entities.{Uuid}
use vpc_routing.Api.Router.{
  Method, post, get, patch, Endpoint, create_vpc, list_vpcs, get_vpc, delete_vpc, effective_routes,
  create_peering, list_peerings, get_peering, update_peering, delete_peering, accept_peering,
  reject_peering, list_routes, override_route, list_events, Target, Plain, serves, split, new_part,
  are_clean, is_connect, route, routed, v1_target, vpcs_word, peerings_word, v1_word,
  effective_routes_word, accept_word, reject_word, routes_word, events_word,
}

abbrev pub method_of : Endpoint → Method
method_of create_vpc = post
method_of list_vpcs = get
method_of (get_vpc id) = get
method_of (delete_vpc id) = Method.delete
method_of (effective_routes id) = get
method_of create_peering = post
method_of list_peerings = get
method_of (get_peering id) = get
method_of (update_peering id) = patch
method_of (delete_peering id) = Method.delete
method_of (accept_peering id) = post
method_of (reject_peering id) = post
method_of (list_routes id) = get
method_of (override_route id) = post
method_of (list_events id) = get

abbrev pub join : List (List ℕ) → List ℕ
join [] = []
join (p ∷ ps) = b'/' ∷ p ++ join ps

-- The parts of an endpoint's path after `/v1`.
abbrev pub parts_of : (Uuid → List ℕ) → Endpoint → List (List ℕ)
parts_of text create_vpc = vpcs_word ∷ []
parts_of text list_vpcs = vpcs_word ∷ []
parts_of text (get_vpc id) = vpcs_word ∷ text id ∷ []
parts_of text (delete_vpc id) = vpcs_word ∷ text id ∷ []
parts_of text (effective_routes id) = vpcs_word ∷ text id ∷ effective_routes_word ∷ []
parts_of text create_peering = peerings_word ∷ []
parts_of text list_peerings = peerings_word ∷ []
parts_of text (get_peering id) = peerings_word ∷ text id ∷ []
parts_of text (update_peering id) = peerings_word ∷ text id ∷ []
parts_of text (delete_peering id) = peerings_word ∷ text id ∷ []
parts_of text (accept_peering id) = peerings_word ∷ text id ∷ accept_word ∷ []
parts_of text (reject_peering id) = peerings_word ∷ text id ∷ reject_word ∷ []
parts_of text (list_routes id) = peerings_word ∷ text id ∷ routes_word ∷ []
parts_of text (override_route id) = peerings_word ∷ text id ∷ routes_word ∷ []
parts_of text (list_events id) = peerings_word ∷ text id ∷ events_word ∷ []

abbrev pub path_of : (Uuid → List ℕ) → Endpoint → List ℕ
path_of text e = join (v1_word ∷ parts_of text e)

abbrev are_plain : List ℕ → Bool
are_plain [] = true
are_plain (c ∷ cs) = not (c == b'/' || c == b'.') && are_plain cs

-- A part of a path with neither a slash nor a dot.
abbrev is_part : List ℕ → Bool
is_part [] = false
is_part (c ∷ cs) = are_plain (c ∷ cs)

abbrev pub IsPart : List ℕ → Type 0
IsPart p = is_part p ≡ true

-- `text` writes an identifier as a part of a path, and `parse` reads it back.
pub record IsUuidText (parse : List ℕ → Option Uuid) (text : Uuid → List ℕ) : Type 0 where
  pub parses : (id : Uuid) → parse (text id) ≡ some id
  pub part : (id : Uuid) → IsPart (text id)

split-part :
    (p rest : List ℕ) (a : List ℕ) (qs : List (List ℕ))
    → are_plain p ≡ true
    → split rest ≡ (a, qs)
    → split (p ++ rest) ≡ (p ++ a, qs)
unfolding split
split-part [] rest a qs w h = h
split-part (c ∷ cs) rest a qs w h = ground (arith, split-part cs rest a qs)

part_plain : (p : List ℕ) → IsPart p → are_plain p ≡ true
part_plain [] h = cc
part_plain (c ∷ cs) h = h

append_nil : (p : List ℕ) → p ++ [] ≡ p
append_nil [] = refl
append_nil (c ∷ p) = ap (λ q. c ∷ q) (append_nil p)

split-join : (ps : List (List ℕ)) → All IsPart ps → split (join ps) ≡ ([], ps)
unfolding split
split-join [] w = refl
split-join (p ∷ ps) w =
    ap new_part (split-part p (join ps) [] ps (part_plain p w.0) (split-join ps w.1))
    ∙ ap (λ (q : List ℕ). ([], q ∷ ps)) (append_nil p)

parts-clean : (ps : List (List ℕ)) → All IsPart ps → are_clean ps ≡ true
parts-clean [] w = refl
parts-clean ([] ∷ ps) w = absurd (true-ne-false (sym (w.0)))
parts-clean ((c ∷ cs) ∷ ps) w = ground (arith, parts-clean ps w.1, w.0)

-- A clean path below `/v1` reaches its patterns.
route-join :
    (parse : List ℕ → Option Uuid) (m : Method) (ps : List (List ℕ))
    → All IsPart ps
    → route parse m (join (v1_word ∷ ps)) ≡ v1_target parse m ps
unfolding route
route-join parse m ps w =
    let path = join (v1_word ∷ ps) in
    ap (routed parse m path) (split-join (v1_word ∷ ps) (refl, w)) ∙ clean (is_connect m)
  where
    clean :
        (b : Bool)
        → (if not b && not (are_clean ps)
            then Target.answers Plain.redirected
            else v1_target parse m ps)
          ≡ v1_target parse m ps
    clean true = refl
    clean false = rw (parts-clean ps w) refl

parts_of-IsPart :
    (text : Uuid → List ℕ) (e : Endpoint)
    → ((id : Uuid) → IsPart (text id))
    → All IsPart (parts_of text e)
parts_of-IsPart text create_vpc h = (refl, tt)
parts_of-IsPart text list_vpcs h = (refl, tt)
parts_of-IsPart text create_peering h = (refl, tt)
parts_of-IsPart text list_peerings h = (refl, tt)
parts_of-IsPart text (get_vpc id) h = (refl, (h id, tt))
parts_of-IsPart text (delete_vpc id) h = (refl, (h id, tt))
parts_of-IsPart text (get_peering id) h = (refl, (h id, tt))
parts_of-IsPart text (update_peering id) h = (refl, (h id, tt))
parts_of-IsPart text (delete_peering id) h = (refl, (h id, tt))
parts_of-IsPart text (effective_routes id) h = (refl, (h id, (refl, tt)))
parts_of-IsPart text (accept_peering id) h = (refl, (h id, (refl, tt)))
parts_of-IsPart text (reject_peering id) h = (refl, (h id, (refl, tt)))
parts_of-IsPart text (list_routes id) h = (refl, (h id, (refl, tt)))
parts_of-IsPart text (override_route id) h = (refl, (h id, (refl, tt)))
parts_of-IsPart text (list_events id) h = (refl, (h id, (refl, tt)))

v1-parts_of :
    (parse : List ℕ → Option Uuid) (text : Uuid → List ℕ) (e : Endpoint)
    → ((id : Uuid) → parse (text id) ≡ some id)
    → v1_target parse (method_of e) (parts_of text e) ≡ serves e
v1-parts_of parse text create_vpc h = refl
v1-parts_of parse text list_vpcs h = refl
v1-parts_of parse text create_peering h = refl
v1-parts_of parse text list_peerings h = refl
v1-parts_of parse text (get_vpc id) h = rw (h id) refl
v1-parts_of parse text (delete_vpc id) h = rw (h id) refl
v1-parts_of parse text (effective_routes id) h = rw (h id) refl
v1-parts_of parse text (get_peering id) h = rw (h id) refl
v1-parts_of parse text (update_peering id) h = rw (h id) refl
v1-parts_of parse text (delete_peering id) h = rw (h id) refl
v1-parts_of parse text (accept_peering id) h = rw (h id) refl
v1-parts_of parse text (reject_peering id) h = rw (h id) refl
v1-parts_of parse text (list_routes id) h = rw (h id) refl
v1-parts_of parse text (override_route id) h = rw (h id) refl
v1-parts_of parse text (list_events id) h = rw (h id) refl

-- The method and path of every endpoint reach that endpoint, if identifiers are written without
-- a slash or a dot and are read back.
pub route-path_of :
    (parse : List ℕ → Option Uuid) (text : Uuid → List ℕ) (e : Endpoint)
    → IsUuidText parse text
    → route parse (method_of e) (path_of text e) ≡ serves e
route-path_of parse text e h =
    route-join parse (method_of e) (parts_of text e) (parts_of-IsPart text e h.part)
    ∙ v1-parts_of parse text e h.parses
