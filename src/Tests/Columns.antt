-- ===== src/Tests/Columns.antt =====
-- A text of prefixes that is read back, route policies that are their own documents, and times kept
-- to the microsecond.
use vpc_routing.Prelude.{
  ℕ, zero, suc, ◌+◌, ◌*◌, ◌/◌, ◌%◌, ◌≤◌, ◌<◌, ◌≡◌, refl, ap, ◌∙◌, arith, some, String, ok, ok-inj,
  sym,
}
use Prim.Native.String.{◌++◌, len}
use text.Mathlib.TextPositions.{len-append}
use vpc_routing.Model.Netip.{Family, zero_addr, ip4, ip6, Prefix, IsPrefix, bit_len}
use vpc_routing.Model.Policy.{RoutePolicy}
use vpc_routing.Store.Postgres.{PgLib, IsPgLib}

family_code : Family → ℕ
family_code zero_addr = 0
family_code ip4 = 1
family_code ip6 = 2

family_of : ℕ → Family
family_of zero = zero_addr
family_of (suc zero) = ip4
family_of (suc (suc n)) = ip6

-- A prefix as one number, and as so many letters.
pub prefix_code : Prefix → ℕ
prefix_code p = (p.ip.number * 200 + p.bits_plus_one) * 3 + family_code p.ip.family

pub prefix_of : ℕ → Prefix
prefix_of n = record {
  ip = record { family = family_of (n % 3); number = n / 600 };
  bits_plus_one = n / 3 % 200;
}

pub letters : ℕ → String
letters zero = ""
letters (suc n) = "a" ++ letters n

len-letters : (n : ℕ) → len (letters n) ≡ n
unfolding letters
len-letters zero = refl
len-letters (suc n) = len-append "a" (letters n) ∙ ap (λ k. 1 + k) (len-letters n) ∙ omega arith

digits_of :
    (n b f : ℕ)
    → b < 200
    → f < 3
    → (((n * 200 + b) * 3 + f) % 3 ≡ f)
      × (((n * 200 + b) * 3 + f) / 600 ≡ n)
      × (((n * 200 + b) * 3 + f) / 3 % 200 ≡ b)
digits_of n b f h k = (omega (arith, h, k), omega (arith, h, k), omega (arith, h, k))

family_of-family_code : (f : Family) → family_of (family_code f) ≡ f
unfolding family_of family_code
family_of-family_code zero_addr = refl
family_of-family_code ip4 = refl
family_of-family_code ip6 = refl

family_code_bound : (f : Family) → family_code f < 3
unfolding family_code
family_code_bound zero_addr = omega arith
family_code_bound ip4 = omega arith
family_code_bound ip6 = omega arith

bit_len_bound : (f : Family) → bit_len f ≤ 128
bit_len_bound zero_addr = omega arith
bit_len_bound ip4 = omega arith
bit_len_bound ip6 = omega arith

prefix_of-prefix_code : (p : Prefix) → IsPrefix p → prefix_of (prefix_code p) ≡ p
unfolding prefix_of prefix_code
prefix_of-prefix_code p v =
    let b = p.bits_plus_one in
    let f = family_code p.ip.family in
    let (d, e, g) =
      digits_of p.ip.number b f (omega (arith, v.short, bit_len_bound p.ip.family))
        (family_code_bound p.ip.family) in
    rw (prefix_of, prefix_code, d, e, g, family_of-family_code p.ip.family) refl

unfoldable pub to_microseconds : ℕ → ℕ
to_microseconds n = n / 1000 * 1000

abbrev pub columns : PgLib
columns = record {
  prefix_text = λ p. letters (prefix_code p);
  parse_prefix = λ s. some (prefix_of (len s));
  Json = RoutePolicy;
  marshal = λ p. ok p;
  unmarshal = λ p. ok p;
  column_time = to_microseconds;
}

pub columns-IsPgLib : IsPgLib columns
unfolding to_microseconds
columns-IsPgLib = record {
  parse-text =
      λ p v. ap some (ap prefix_of (len-letters (prefix_code p)) ∙ prefix_of-prefix_code p v);
  marshals = λ p. (p, refl);
  unmarshal-marshal = λ p j a d e. ap ok (ok-inj (sym e));
  column_time_twice = λ n. omega arith;
}
