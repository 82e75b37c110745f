-- ===== src/Core/ClientIp/Masks.antt =====
-- crates/waf-core/src/network/client_ip.rs: the masked comparison and the leading bits.
use Prim.Native.Nat.{bit_and}
use rust_waf.Common.{
  ℕ, ◌-◌, ◌^◌, ◌≤◌, ◌<◌, true, ◌&&◌, ◌≡◌, refl, sym, ap, ◌∙◌, ◌↔◌, arith, ◌==◌, ==_iff,
}
use rust_waf.Core.Context.{IpAddr}
use rust_waf.Common.Bits.{
  high_mask, drop_digits, add_zeros, bit_and-high_mask, add_zeros-injective, table, table-entry,
}
use rust_waf.Core.ClientIp.{Cidr, mask_u32, mask_u128, contains}

-- The mask is `prefix` ones before the zeros, and an address has as many digits.
mask_u32-table :
    table 32 (λ p. mask_u32 p == high_mask p (32 - p) && (add_zeros (32 - p) (2 ^ p) == 2 ^ 32))
    ≡ true
unfolding mask_u32 table
mask_u32-table = refl

mask_u128-table :
    table 128
      (λ p. mask_u128 p == high_mask p (128 - p) && (add_zeros (128 - p) (2 ^ p) == 2 ^ 128))
    ≡ true
unfolding mask_u128 table
mask_u128-table = refl

-- A mask that passed the table compares what is left of both numbers behind `k` dropped digits.
masked_iff :
    (p k m top a b : ℕ)
    → (m == high_mask p k && (add_zeros k (2 ^ p) == top)) ≡ true
    → a < top
    → b < top
    → ((bit_and a m == bit_and b m) ≡ true) ↔ (drop_digits k a ≡ drop_digits k b)
masked_iff p k m top a b table ha hb = (forth, back)
  where
    facts : (m ≡ high_mask p k) × (add_zeros k (2 ^ p) ≡ top)
    facts = ground arith

    masked : (x : ℕ) → x < top → bit_and x m ≡ add_zeros k (drop_digits k x)
    masked x h = rw facts.0 (bit_and-high_mask p k x (omega (arith, facts.1)))

    forth : (bit_and a m == bit_and b m) ≡ true → drop_digits k a ≡ drop_digits k b
    forth h =
        add_zeros-injective k (drop_digits k a) (drop_digits k b)
          (sym (masked a ha) ∙ (==_iff (bit_and a m) (bit_and b m)).0 h ∙ masked b hb)

    back : drop_digits k a ≡ drop_digits k b → (bit_and a m == bit_and b m) ≡ true
    back h =
        (==_iff (bit_and a m) (bit_and b m)).1
          (masked a ha ∙ ap (add_zeros k) h ∙ sym (masked b hb))

abbrev width : IpAddr → ℕ
width (IpAddr.v4 a) = 32
width (IpAddr.v6 a) = 128

abbrev pub InRange : IpAddr → Type 0
InRange (IpAddr.v4 a) = a < 2 ^ 32
InRange (IpAddr.v6 a) = a < 2 ^ 128

abbrev pub CidrInRange : Cidr → Type 0
CidrInRange (Cidr.v4 net prefix) = (net < 2 ^ 32) × (prefix ≤ 32)
CidrInRange (Cidr.v6 net prefix) = (net < 2 ^ 128) × (prefix ≤ 128)

-- The block and the address are of one family, and agree but for the digits behind the prefix.
abbrev pub Covers : Cidr → IpAddr → Type 0
Covers (Cidr.v4 net prefix) (IpAddr.v4 a) =
    drop_digits (32 - prefix) net ≡ drop_digits (32 - prefix) a
Covers (Cidr.v6 net prefix) (IpAddr.v6 a) =
    drop_digits (128 - prefix) net ≡ drop_digits (128 - prefix) a
Covers (Cidr.v4 net prefix) (IpAddr.v6 a) = ⊥
Covers (Cidr.v6 net prefix) (IpAddr.v4 a) = ⊥

-- A block of an address and a prefix within its family's width contains an address exactly when the
-- two are of one family and agree in their first `prefix` binary digits. The edges /0, /32 and /128
-- are among the cases.
pub contains_iff :
    (c : Cidr) (ip : IpAddr) → CidrInRange c → InRange ip → (contains c ip ≡ true) ↔ Covers c ip
unfolding contains
contains_iff (Cidr.v4 net prefix) (IpAddr.v4 a) (hn, hp) ha =
    masked_iff prefix (32 - prefix) (mask_u32 prefix) (2 ^ 32) net a
      (table-entry 32 _ mask_u32-table prefix hp) hn ha
contains_iff (Cidr.v6 net prefix) (IpAddr.v6 a) (hn, hp) ha =
    masked_iff prefix (128 - prefix) (mask_u128 prefix) (2 ^ 128) net a
      (table-entry 128 _ mask_u128-table prefix hp) hn ha
contains_iff (Cidr.v4 net prefix) (IpAddr.v6 a) h k = ((λ e. cc), λ e. absurd e)
contains_iff (Cidr.v6 net prefix) (IpAddr.v4 a) h k = ((λ e. cc), λ e. absurd e)
