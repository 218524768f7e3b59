-- ===== src/Vni/Codec.antt =====
-- `EncodeVNI` and `DecodeVNI`.
use Prim.Native.Nat.{bit_or}
use vpc_routing.Prelude.{ℕ, ◌+◌, ◌*◌, ◌/◌, ◌%◌, ◌^◌, ◌<◌, ◌≡◌, ◌∙◌, arith}
use vpc_routing.Prelude.Bits.{bit_or_add, bit_and-ones}
use vpc_routing.Vni.{encode_vni, decode_vni, shl32, account_shard}

-- For parts that fit their fields the code is their sum.
pub encode_vni_sum :
    (r t s : ℕ) → r < 16 → t < 1024 → s < 1024 → encode_vni r t s ≡ r * 2 ^ 20 + t * 2 ^ 10 + s
unfolding encode_vni
encode_vni_sum r t s hr ht hs =
    let a : shl32 r 20 ≡ r * 2 ^ 20 = omega arith in
    let b : shl32 t 10 ≡ t * 2 ^ 10 = omega arith in
    let c : bit_or (r * 2 ^ 20) (t * 2 ^ 10) ≡ r * 2 ^ 20 + t * 2 ^ 10 =
      bit_or_add 20 r (t * 2 ^ 10) (omega arith) in
    let d : r * 2 ^ 20 + t * 2 ^ 10 ≡ (r * 2 ^ 10 + t) * 2 ^ 10 = omega arith in
    rw (a, b, c, d) (bit_or_add 10 (r * 2 ^ 10 + t) s (omega arith))

pub decode_vni_digits : (v : ℕ) → decode_vni v ≡ (v / 2 ^ 20 % 16, v / 2 ^ 10 % 1024, v % 1024)
unfolding decode_vni
decode_vni_digits v =
    rw (bit_and-ones 4 (v / 2 ^ 20), bit_and-ones 10 (v / 2 ^ 10), bit_and-ones 10 v)

-- A region below 16, a shard below 1024 and a sequence number below 1024 come back from their
-- VNI.
pub decode-encode_vni :
    (r t s : ℕ) → r < 16 → t < 1024 → s < 1024 → decode_vni (encode_vni r t s) ≡ (r, t, s)
decode-encode_vni r t s hr ht hs =
    rw (encode_vni_sum r t s hr ht hs)
      (decode_vni_digits (r * 2 ^ 20 + t * 2 ^ 10 + s) ∙ ground arith)

-- Every VNI of 24 bits is the code of its parts.
pub encode-decode_vni :
    (v : ℕ) → v < 2 ^ 24 → encode_vni (decode_vni v).0 (decode_vni v).1 (decode_vni v).2 ≡ v
encode-decode_vni v h = rw (decode_vni_digits v) (
    encode_vni_sum (v / 2 ^ 20 % 16) (v / 2 ^ 10 % 1024) (v % 1024) (omega arith) (omega arith)
      (omega arith)
    ∙ omega arith)

pub account_shard-lt : (hash : ℕ) → account_shard hash < 1024
unfolding account_shard
account_shard-lt hash = omega (arith, bit_and-ones 10 hash)
