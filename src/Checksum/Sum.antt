-- ===== src/Checksum/Sum.antt =====
-- The loop of `IPv4HdrChecksum` (include/util.hpp) in closed form: the sum of the words modulo
-- 2 ^ 16 - 1, in the representation in which only the empty sum is 0.
use ariadne.Base.{
  ℕ, zero, suc, ◌+◌, ◌-◌, ◌*◌, ◌/◌, ◌%◌, ◌^◌, ◌≤◌, ◌≡◌, bit_and, bit_and_high, bit_and_low, arith,
  ltb, ◌==◌, if◌then◌else◌, ◌∙◌, ap,
}
use ariadne.Util.{u32, htons, ntohs}
use ariadne.Headers.{Ipv4, word, ihl}
use ariadne.Checksum.{fold_carry, checksum_from, ipv4_hdr_checksum}

-- One step of one's complement addition.
abbrev pub ones_add : ℕ → ℕ → ℕ
ones_add r w = if ltb 0xffff (r + w) then r + w - 0xffff else r + w

pub fold_carry_lem : (r w : ℕ) → r ≤ 0xffff → w ≤ 0xffff → fold_carry (u32 (r + w)) ≡ ones_add r w
unfolding fold_carry
fold_carry_lem r w hr hw =
    let n = r + w in
    let e : u32 n ≡ n = omega arith in
    let high : bit_and n (1 * 2 ^ 16) ≡ n / 2 ^ 16 % 2 * 2 ^ 16 =
      bit_and_high 16 n 1 ∙ ap (λ (t : ℕ). t * 2 ^ 16) (bit_and_low 1 (n / 2 ^ 16)) in
    let low : bit_and n 0xffff ≡ n % 2 ^ 16 = bit_and_low 16 n in rw (e, high, low) (ground arith)

-- The representative of `t` modulo 2 ^ 16 - 1 that is 0 only for 0.
abbrev pub ones : ℕ → ℕ
ones t = if t == 0 then 0 else (t - 1) % 0xffff + 1

ones_step : (t w : ℕ) → w ≤ 0xffff → ones_add (ones t) w ≡ ones (t + w)
ones_step t w h = ground arith

ones_small : (t : ℕ) → ones t ≤ 0xffff
ones_small t = ground arith

-- The sum of `left` words from word `i` on, in host order.
unfoldable pub total : Ipv4 → ℕ → ℕ → ℕ
total h zero i = 0
total h (suc left) i = ntohs (word h i) + total h left (i + 1)

checksum_from-total :
    (h : Ipv4) (left i t : ℕ) → checksum_from h left i (ones t) ≡ ones (t + total h left i)
unfolding checksum_from total
checksum_from-total h zero i t = ground arith
checksum_from-total h (suc left) i t =
    let w = ntohs (word h i) in
    let small : w ≤ 0xffff = omega arith in
    rw
      (
        fold_carry_lem (ones t) w (ones_small t) small,
        ones_step t w small,
        checksum_from-total h left (i + 1) (t + w),
      )
      (ap ones (omega arith))

-- The checksum is the complement of the sum of the header's words without its own.
pub ipv4_hdr_checksum-total :
    (h : Ipv4)
    → ipv4_hdr_checksum h ≡ htons (0xffff - ones (total (record h { checksum = 0 }) (ihl h * 2) 0))
unfolding ipv4_hdr_checksum
ipv4_hdr_checksum-total h =
    let t = total (record h { checksum = 0 }) (ihl h * 2) 0 in
    let zero' : 0 + t ≡ t = omega arith in
    rw (checksum_from-total (record h { checksum = 0 }) (ihl h * 2) 0 0, zero')
      (ap htons (omega (arith, ones_small t)))
