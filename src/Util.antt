-- ===== src/Util.antt =====
-- include/util.hpp: the byte order conversions, the bit helpers, and the IPv4 header checksum.
-- The target is little-endian, as the netmap hosts of the program are: a 16-bit load of the
-- bytes b0, b1 yields b0 + 256 * b1, so `htons` and `ntohs` both swap the two bytes.
pub mod MacText
use ariadne.Base.{
  ℕ, zero, suc, ◌+◌, ◌-◌, ◌*◌, ◌/◌, ◌%◌, ◌^◌, bit_and, bit_or, leb, ◌==◌, if◌then◌else◌, Option,
  some, none, ◌<◌, ◌≡◌, arith,
}

abbrev pub u8 : ℕ → ℕ
u8 n = n % 2 ^ 8

abbrev pub u16 : ℕ → ℕ
u16 n = n % 2 ^ 16

abbrev pub u32 : ℕ → ℕ
u32 n = n % 2 ^ 32

abbrev pub uint16_t_max : ℕ
uint16_t_max = 0xffff

abbrev pub uint32_t_max : ℕ
uint32_t_max = 0xffffffff

-- Byte order: the libc functions, on a little-endian host.
abbrev pub htons : ℕ → ℕ
htons n = n % 256 * 256 + n / 256 % 256

abbrev pub ntohs : ℕ → ℕ
ntohs n = htons n

abbrev pub htonl : ℕ → ℕ
htonl n = n % 256 * 2 ^ 24 + n / 256 % 256 * 2 ^ 16 + n / 2 ^ 16 % 256 * 256 + n / 2 ^ 24 % 256

abbrev pub ntohl : ℕ → ℕ
ntohl n = htonl n

pub swap_twice : (n : ℕ) → n < 2 ^ 32 → ntohl (htonl n) ≡ n
swap_twice n h = omega arith

-- `~n` on w bits, of an n below 2 ^ w.
abbrev pub not_bits : ℕ → ℕ → ℕ
not_bits w n = 2 ^ w - 1 - n

-- PREFIX_MASK(len) for 0 ≤ len ≤ 32.
unfoldable pub prefix_mask : ℕ → ℕ
prefix_mask len = u32 (not_bits 64 (2 ^ (32 - len) - 1))

-- `extractBit`. The shift amount 31 - pos is negative from pos = 32 on, where C++ leaves the
-- result undefined: `shifted_out` is whatever the machine then computes from the address.
unfoldable pub extract_bit : (ℕ → ℕ) → ℕ → ℕ → ℕ
extract_bit shifted_out addr pos =
    if leb pos 31 then bit_and addr (1 * 2 ^ (31 - pos)) / 2 ^ (31 - pos) else shifted_out addr

-- `mostSigOne`: `left` rounds of the loop that runs i from 31 down to 0 are to come, the next
-- one at i = left - 1. `none` stands for -1.
unfoldable pub most_sig_one_from : ℕ → ℕ → Option ℕ
most_sig_one_from zero num = none
most_sig_one_from (suc i) num =
    let rest = most_sig_one_from i num in
    if bit_and num (1 * 2 ^ i) == 0 then rest else some (31 - i)

unfoldable pub most_sig_one : ℕ → Option ℕ
unfolding most_sig_one_from
most_sig_one num = most_sig_one_from 32 num

-- `rotl<T>` at width `w`, for 0 < s < w.
unfoldable pub rotl : ℕ → ℕ → ℕ → ℕ
rotl w n s = bit_or (n * 2 ^ s % 2 ^ w) (n / 2 ^ (w - s))
