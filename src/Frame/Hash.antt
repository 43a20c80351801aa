-- ===== src/Frame/Hash.antt =====
-- src/frame.cpp: the hash of a frame, over the bytes of its buffer.
use ariadne.Base.{
  ℕ, ◌+◌, ◌*◌, ◌%◌, ◌^◌, ◌<◌, ◌≡◌, ◌≢◌, refl, sym, ap, ap₂, ◌∙◌, Bool-cases, inl, inr, arith, ◌==◌,
  if◌then◌else◌, bit_and, bit_or, ne→==,
}
use ariadne.Util.{u16, htons, rotl}
use ariadne.Headers.{Tcp, Udp, Icmp, proto_icmp, proto_tcp, proto_udp}

-- The buffer from `buf_ptr` on.
abbrev pub Bytes : Type 0
Bytes = ℕ → ℕ

-- The loads of the little-endian host.
abbrev pub load16 : Bytes → ℕ → ℕ
load16 b at = b at + 2 ^ 8 * b (at + 1)

abbrev pub load32 : Bytes → ℕ → ℕ
load32 b at = load16 b at + 2 ^ 16 * load16 b (at + 2)

abbrev pub load_tcp : Bytes → ℕ → Tcp
load_tcp b addr = record {
  s_port = load16 b addr;
  d_port = load16 b (addr + 2);
  seq = load32 b (addr + 4);
  ack = load32 b (addr + 8);
  offset_flags = load16 b (addr + 12);
  window = load16 b (addr + 14);
  checksum = load16 b (addr + 16);
  urgend_ptr = load16 b (addr + 18);
}

abbrev pub load_udp : Bytes → ℕ → Udp
load_udp b addr = record {
  s_port = load16 b addr;
  d_port = load16 b (addr + 2);
  len = load16 b (addr + 4);
  checksum = load16 b (addr + 6);
}

abbrev pub load_icmp : Bytes → ℕ → Icmp
load_icmp b addr = record { kind = b addr; code = b (addr + 1); checksum = load16 b (addr + 2) }

unfoldable pub tcp_hash : Tcp → ℕ
tcp_hash t = u16 (bit_or (rotl 16 t.d_port 3) (rotl 16 t.s_port 7))

unfoldable pub udp_hash : Udp → ℕ
udp_hash t = u16 (bit_or (rotl 16 t.d_port 3) (rotl 16 t.s_port 7))

unfoldable pub icmp_hash : Icmp → ℕ
icmp_hash t = u16 (bit_or (t.code * 2 ^ 8) t.kind)

-- `rotl(ipv4->proto, MAGIC_3)` shifts the promoted byte left by 12, of which nothing is left in a
-- byte, and right by 8 - 12 bits, which is undefined: `wild` is what that yields.
module _ (wild : ℕ → ℕ) where
  unfoldable pub rotl_proto : ℕ → ℕ
  rotl_proto proto = bit_or (proto * 2 ^ 12) (wild proto) % 2 ^ 8

  unfoldable pub ipv4_hash : Bytes → ℕ → ℕ
  unfolding rotl_proto tcp_hash udp_hash icmp_hash
  ipv4_hash b addr =
      let d_ip = load32 b (addr + 16) in
      let s_ip = load32 b (addr + 12) in
      let proto = b (addr + 9) in
      let res = bit_or (bit_or (rotl 32 d_ip 3) (rotl 32 s_ip 7)) (rotl_proto proto) in
      let next = addr + bit_and (b addr) 0x0f * 4 in
      let full =
        if proto == proto_icmp
        then bit_or res (icmp_hash (load_icmp b next))
        else (if proto == proto_tcp
            then bit_or res (tcp_hash (load_tcp b next))
            else (if proto == proto_udp then bit_or res (udp_hash (load_udp b next)) else res)) in
      u16 (bit_or (bit_and full 0x0000ffff) (bit_and full 0xffff0000))

  -- `frame::hash`, whose call of `ipv4_hash` passes the start of the Ethernet header.
  unfoldable pub hash : Bytes → ℕ
  unfolding ipv4_hash
  hash b =
      let ethertype = load16 b 12 in
      if ethertype == htons 0x0800 then u16 (bit_or ethertype (ipv4_hash b 0)) else ethertype

  -- The hash of a packet of another protocol, by the fields that it looks at.
  abbrev mixed : ℕ → ℕ → ℕ → ℕ
  mixed d_ip s_ip proto =
      let full = bit_or (bit_or (rotl 32 d_ip 3) (rotl 32 s_ip 7)) (rotl_proto proto) in
      u16 (bit_or (bit_and full 0x0000ffff) (bit_and full 0xffff0000))

  ipv4_hash-other :
      (b : Bytes)
      → b 9 ≢ proto_icmp
      → b 9 ≢ proto_tcp
      → b 9 ≢ proto_udp
      → ipv4_hash b 0 ≡ mixed (load32 b 16) (load32 b 12) (b 9)
  unfolding ipv4_hash
  ipv4_hash-other b icmp tcp udp =
      rw (ne→== (b 9) proto_icmp icmp)
        (rw (ne→== (b 9) proto_tcp tcp) (rw (ne→== (b 9) proto_udp udp) refl))

  load16-same :
      (b c : Bytes) (at : ℕ)
      → ((i : ℕ) → i < 20 → b i ≡ c i)
      → at + 1 < 20
      → load16 b at ≡ load16 c at
  load16-same b c at same h = omega (arith, same at (omega arith), same (at + 1) h)

  load32-same :
      (b c : Bytes) (at : ℕ)
      → ((i : ℕ) → i < 20 → b i ≡ c i)
      → at + 3 < 20
      → load32 b at ≡ load32 c at
  load32-same b c at same h =
      omega
        (arith, load16-same b c at same (omega arith), load16-same b c (at + 2) same (omega arith))

  mixed-same :
      (b c : Bytes)
      → ((i : ℕ) → i < 20 → b i ≡ c i)
      → mixed (load32 b 16) (load32 b 12) (b 9) ≡ mixed (load32 c 16) (load32 c 12) (c 9)
  mixed-same b c same =
      ap (λ d. mixed d (load32 b 12) (b 9)) (load32-same b c 16 same (omega arith))
      ∙ ap (λ s. mixed (load32 c 16) s (b 9)) (load32-same b c 12 same (omega arith))
      ∙ ap (mixed (load32 c 16) (load32 c 12)) (same 9 (omega arith))

  abbrev tagged : ℕ → ℕ → ℕ
  tagged ethertype h = if ethertype == htons 0x0800 then u16 (bit_or ethertype h) else ethertype

  tagged_lt : (ethertype h : ℕ) → ethertype < 2 ^ 16 → tagged ethertype h < 2 ^ 16
  tagged_lt ethertype h small = elim (Bool-cases (ethertype == htons 0x0800)) [
    | inl e ↦ rw e (omega arith)
    | inr e ↦ rw e small
  ]

  -- Frames whose first 20 bytes are the same have the same hash, unless the tenth byte, which is one
  -- of the source MAC address, is the number of ICMP, TCP or UDP: the IPv4 addresses, which
  -- come later, are not looked at. The hash of such a frame fits in 16 bits.
  pub hash_ignores_addresses :
      (b c : Bytes)
      → ((i : ℕ) → i < 20 → b i ≡ c i)
      → b 9 ≢ proto_icmp
      → b 9 ≢ proto_tcp
      → b 9 ≢ proto_udp
      → ((i : ℕ) → b i < 2 ^ 8)
      → (hash b ≡ hash c) × (hash b < 2 ^ 16)
  unfolding hash
  hash_ignores_addresses b c same icmp tcp udp bytes =
      let proto = same 9 (omega arith) in
      let equal =
        ipv4_hash-other b icmp tcp udp
        ∙ mixed-same b c same
        ∙ sym (
            ipv4_hash-other c (λ e. icmp (proto ∙ e)) (λ e. tcp (proto ∙ e))
              (λ e. udp (proto ∙ e))) in
      (
        ap₂ tagged (load16-same b c 12 same (omega arith)) equal,
        tagged_lt (load16 b 12) (ipv4_hash b 0) (omega (arith, bytes 12, bytes 13)),
      )
