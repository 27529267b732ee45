-- ===== src/XorTlb/Address.antt =====
-- The operand addresses that `xor_u64_user_addr_ok` accepts.
use jvm_gc_acclelerator.Common.{
  ℕ, zero, suc, sym, subst, ◌+◌, ◌-◌, ◌*◌, ◌/◌, ◌<◌, ◌%◌, ◌^◌, ◌≤◌, ◌≡◌, ◌≢◌, ◌↔◌, arith, true,
  bit_and,
}
use native.Mathlib.Nat.{pow-le-pow_right, mod-lt, mul_right_comm, pow-suc, one-le-pow}
use native.Mathlib.Omega.{div_any}
use jvm_gc_acclelerator.Common.Bits.{bit_and-low_mask}
use jvm_gc_acclelerator.XorTlb.{u64_user_addr_ok}

-- For pages of at least 8 bytes, an accepted operand address is not null, is a multiple of 8,
-- and its offset in the page leaves room for 8 bytes.
u64_user_addr_ok-in_page :
    (page_shift addr : ℕ)
    → 3 ≤ page_shift
    → u64_user_addr_ok page_shift addr ≡ true
    → (addr ≢ 0) × (addr % 8 ≡ 0) × (addr % 2 ^ page_shift + 8 ≤ 2 ^ page_shift)
unfolding u64_user_addr_ok
u64_user_addr_ok-in_page page_shift addr big ok =
    let low : bit_and addr (8 - 1) ≡ addr % 8 = bit_and-low_mask 3 addr in
    let room : 8 ≤ 2 ^ page_shift = pow-le-pow_right (omega arith) big in
    ground (arith, low, room, bit_and-low_mask page_shift addr)

-- A multiple of 8 has room for 8 bytes in a page whose size is one.
aligned_room : (addr m : ℕ) → addr % 8 ≡ 0 → 1 ≤ m → addr % (m * 8) + 8 ≤ m * 8
aligned_room addr m aligned some_page =
    let parts = div_any addr (m * 8) in
    let below : addr % (m * 8) < m * 8 = mod-lt addr (omega arith) in
    let same : m * 8 * (addr / (m * 8)) ≡ m * (addr / (m * 8)) * 8 =
      mul_right_comm m 8 (addr / (m * 8)) in
    omega (arith, parts, below, same, aligned)

aligned-in_page :
    (page_shift addr : ℕ)
    → 3 ≤ page_shift
    → addr % 8 ≡ 0
    → addr % 2 ^ page_shift + 8 ≤ 2 ^ page_shift
aligned-in_page zero addr big aligned = absurd (omega arith)
aligned-in_page (suc zero) addr big aligned = absurd (omega arith)
aligned-in_page (suc (suc zero)) addr big aligned = absurd (omega arith)
aligned-in_page (suc (suc (suc q))) addr big aligned =
    let size : 2 ^ suc (suc (suc q)) ≡ 2 ^ q * 8 =
      omega (arith, pow-suc 2 q, pow-suc 2 (suc q), pow-suc 2 (suc (suc q))) in
    subst (λ n. addr % n + 8 ≤ n) (sym size)
      (aligned_room addr (2 ^ q) aligned (one-le-pow q 2 (omega arith)))

pub u64_user_addr_ok-aligned :
    (page_shift addr : ℕ)
    → 3 ≤ page_shift
    → addr ≢ 0
    → addr % 8 ≡ 0
    → u64_user_addr_ok page_shift addr ≡ true
unfolding u64_user_addr_ok
u64_user_addr_ok-aligned page_shift addr big some_addr aligned =
    let low : bit_and addr (8 - 1) ≡ addr % 8 = bit_and-low_mask 3 addr in
    let room : addr % 2 ^ page_shift + 8 ≤ 2 ^ page_shift =
      aligned-in_page page_shift addr big aligned in
    ground (arith, low, room, some_addr, aligned, bit_and-low_mask page_shift addr)

-- For pages of at least 8 bytes, the driver accepts an operand address exactly if it is not null and a
-- multiple of 8; and then its offset in the page leaves room for 8 bytes.
u64_user_addr_ok-aligned_in_page :
    (page_shift addr : ℕ)
    → 3 ≤ page_shift
    → ((u64_user_addr_ok page_shift addr ≡ true) ↔ ((addr ≢ 0) × (addr % 8 ≡ 0)))
      × (u64_user_addr_ok page_shift addr ≡ true → addr % 2 ^ page_shift + 8 ≤ 2 ^ page_shift)
u64_user_addr_ok-aligned_in_page page_shift addr big = (
  (
    λ ok.
        let (some_addr, aligned, room) = u64_user_addr_ok-in_page page_shift addr big ok in
        (some_addr, aligned),
    λ h. u64_user_addr_ok-aligned page_shift addr big h.0 h.1,
  ),
  λ ok. (u64_user_addr_ok-in_page page_shift addr big ok).2,
)
