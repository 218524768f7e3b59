-- ===== src/Tests/Pools.antt =====
-- The VNI code and its pool, and a page of events.
use vpc_routing.Prelude.{
  string_eq, nat_eq, ℕ, ◌≡◌, refl, ◌↔◌, ok, err, some, List, [], ◌∷◌, true, arith, pos,
}
use vpc_routing.Prelude.Maps.{lookup, insert}
use vpc_routing.Model.Entities.{PeeringEvent, peering_created}
use vpc_routing.Store.Page.{ListParams, page_of, IsPage, page_of-IsPage}
use vpc_routing.Vni.{
  Allocator, allocate, exhausted, encode_vni, decode_vni, is_allocated, for_each, try_seq,
  try_shard, account_shard,
}
use vpc_routing.Vni.Codec.{decode-encode_vni}
use vpc_routing.Vni.Pool.{IsFree, Allocates, allocate-Allocates, allocate-exhausted_iff}
use vpc_routing.Tests.Data.{pool}

decode-encode_vni_example : decode_vni (encode_vni 3 700 1023) ≡ (3, 700, 1023)
decode-encode_vni_example = decode-encode_vni 3 700 1023 (omega arith) (omega arith) (omega arith)

-- The pool after account 5 takes the first VNI of its shard.
abbrev taken : Allocator
taken = record pool { allocated = (3150848, true) ∷ [] }

eu : lookup "eu" pool.region_map ≡ some 3
unfolding lookup
eu = refl

first_vni : allocate 5 pool "eu" ≡ ok (3150848, taken)
unfolding allocate lookup try_shard for_each try_seq encode_vni is_allocated account_shard insert
first_vni = refl

allocate-Allocates_example : Allocates pool 3 3150848 taken
allocate-Allocates_example =
    allocate-Allocates 5 pool "eu" 3 eu (omega arith) 3150848 taken first_vni

allocate-exhausted_iff_example :
    (allocate 5 pool "eu" ≡ err exhausted) ↔ ((v : ℕ) → IsFree pool 3 v → ⊥)
allocate-exhausted_iff_example = allocate-exhausted_iff 5 pool "eu" 3 eu (omega arith)

-- An event of peering 7.
abbrev event_at : ℕ → PeeringEvent
event_at t = record { id = t; peering_id = 7; type = peering_created; timestamp = t }

abbrev events : List PeeringEvent
events = event_at 3 ∷ event_at 9 ∷ event_at 5 ∷ []

abbrev page_of_two : ListParams
page_of_two = record { page_size = pos 2; page_token = "" }

page_of-IsPage_example :
    IsPage (λ e. e.timestamp) events page_of_two (page_of (λ e. e.timestamp) events page_of_two)
page_of-IsPage_example = page_of-IsPage (λ e. e.timestamp) events page_of_two
