-- ===== src/Vni.antt =====
-- internal/vni: the pool of VXLAN network identifiers. The lock makes each method one step, so a
-- method is a function from the allocator to the next one.
pub mod Codec
pub mod Pool
use Prim.Native.Nat.{bit_and, bit_or}
use vpc_routing.Prelude.{
  ℕ, zero, suc, ◌+◌, ◌-◌, ◌*◌, ◌/◌, ◌%◌, ◌^◌, Bool, true, false, ◌||◌, Option, none, some, String,
  if◌then◌else◌, ltb, leb, Result, ok, err,
}
use vpc_routing.Prelude.Maps.{Map, lookup, insert, delete}
use vpc_routing.Prelude.{string_eq, nat_eq, List, []}

abbrev pub min_vni : ℕ
min_vni = 4096

abbrev pub max_vni : ℕ
max_vni = 16000000

abbrev pub region_bits : ℕ
region_bits = 4

abbrev pub tenant_bits : ℕ
tenant_bits = 10

abbrev pub vpc_bits : ℕ
vpc_bits = 10

-- `x << k` on a uint32.
abbrev pub shl32 : ℕ → ℕ → ℕ
shl32 x k = x * 2 ^ k % 2 ^ 32

unfoldable pub encode_vni : ℕ → ℕ → ℕ → ℕ
encode_vni region tenant_shard vpc_seq =
    bit_or (bit_or (shl32 region (tenant_bits + vpc_bits)) (shl32 tenant_shard vpc_bits)) vpc_seq

-- The region, the tenant shard and the sequence number.
unfoldable pub decode_vni : ℕ → ℕ × ℕ × ℕ
decode_vni vni = (
  bit_and (vni / 2 ^ (tenant_bits + vpc_bits)) (2 ^ region_bits - 1),
  bit_and (vni / 2 ^ vpc_bits) (2 ^ tenant_bits - 1),
  bit_and vni (2 ^ vpc_bits - 1),
)

pub record Allocator : Type 0 where
  pub allocated : Map ℕ Bool
  pub region_map : Map String ℕ

abbrev pub new_allocator : Allocator
new_allocator = record { allocated = []; region_map = [] }

pub data VniError : Type 0 where
  bad_region_id unknown_region exhausted : VniError

unfoldable pub register_region : Allocator → String → ℕ → Result VniError Allocator
register_region a name id =
    if ltb 15 id
    then err bad_region_id
    else ok (record a { region_map = insert name id a.region_map })

-- A missing key reads as false.
abbrev flag : Option Bool → Bool
flag (some b) = b
flag none = false

unfoldable pub is_allocated : Allocator → ℕ → Bool
is_allocated a vni = flag (lookup vni a.allocated)

unfoldable pub release : Allocator → ℕ → Allocator
release a vni = record a { allocated = delete vni a.allocated }

-- `for i := start; rounds are left; i++`, until the body returns a value.
unfoldable pub for_each {ℓ} : {A : Type ℓ} → (ℕ → Option A) → ℕ → ℕ → Option A
for_each body zero i = none
for_each body (suc rounds) i =
    let rest = for_each body rounds (i + 1) in elim (body i) [ some v ↦ some v | none ↦ rest ]

-- The body of the loop over sequence numbers.
unfoldable pub try_seq : Allocator → ℕ → ℕ → ℕ → Option ℕ
try_seq a region shard seq =
    let vni = encode_vni region shard seq in
    if ltb vni min_vni || leb max_vni vni
    then none
    else if is_allocated a vni
    then none
    else some vni

unfoldable pub try_shard : Allocator → ℕ → ℕ → Option ℕ
unfolding for_each try_seq
try_shard a region shard = for_each (try_seq a region shard) (2 ^ vpc_bits) 0

unfoldable pub try_region : Allocator → ℕ → Option ℕ
unfolding for_each try_shard
try_region a region = for_each (try_shard a region) (2 ^ tenant_bits) 0

-- The low ten bits of `hash`, the first four bytes of the SHA-256 of the account's identifier.
unfoldable pub account_shard : ℕ → ℕ
account_shard hash = bit_and hash (2 ^ tenant_bits - 1)

abbrev take_vni : Allocator → Option ℕ → Result VniError (ℕ × Allocator)
take_vni a none = err exhausted
take_vni a (some vni) = ok (vni, record a { allocated = insert vni true a.allocated })

abbrev or_else {ℓ} : {A : Type ℓ} → Option A → Option A → Option A
or_else (some v) o = some v
or_else none o = o

unfoldable pub allocate : (hash : ℕ) → Allocator → String → Result VniError (ℕ × Allocator)
unfolding try_shard try_region
allocate hash a region_id = elim (lookup region_id a.region_map) [
  | none ↦ err unknown_region
  | some region ↦
      let spare = try_region a region in
      take_vni a (or_else (try_shard a region (account_shard hash)) spare)
]
