-- ===== src/Checksum.antt =====
-- include/util.hpp, `IPv4HdrChecksum`: the one's complement sum of the header's words.
pub mod Sum
pub mod Forward
use ariadne.Base.{ℕ, zero, suc, ◌+◌, ◌-◌, ◌*◌, ◌/◌, ◌%◌, ◌^◌, bit_and, ◌==◌, if◌then◌else◌}
use ariadne.Util.{u16, u32, htons, ntohs, not_bits}
use ariadne.Headers.{Ipv4, word, ihl}

-- The body of the loop: `if(result & (1<<16)){ result &= 0xffff; result++; }` after the addition.
unfoldable pub fold_carry : ℕ → ℕ
fold_carry result = if bit_and result (1 * 2 ^ 16) == 0 then result else bit_and result 0xffff + 1

-- `left` rounds are to come, the next one at word `i`.
unfoldable pub checksum_from : Ipv4 → ℕ → ℕ → ℕ → ℕ
checksum_from h zero i result = result
checksum_from h (suc left) i result =
    checksum_from h left (i + 1) (fold_carry (u32 (result + ntohs (word h i))))

-- The checksum field counts as zero, and is restored at the end. The result is truncated to 16
-- bits by the conversion to the argument of `htons`.
unfoldable pub ipv4_hdr_checksum : Ipv4 → ℕ
unfolding checksum_from fold_carry ihl word
ipv4_hdr_checksum h =
    htons (u16 (not_bits 32 (checksum_from (record h { checksum = 0 }) (ihl h * 2) 0 0)))
