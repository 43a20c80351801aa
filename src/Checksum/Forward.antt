-- ===== src/Checksum/Forward.antt =====
-- The header change of src/worker.cpp, `Worker::process`, when a packet is forwarded:
-- `ipv4_hdr->ttl--; ipv4_hdr->checksum++`. On the little-endian host the increment adds 0x100 to
-- the checksum as the network reads it, with the carry going round into its low byte.
use ariadne.Base.{
  ℕ, zero, suc, ◌+◌, ◌-◌, ◌*◌, ◌^◌, ◌≤◌, ◌<◌, ◌≡◌, ◌≢◌, ◌&&◌, refl, arith, ltb, leb, ◌==◌,
  if◌then◌else◌, ◌∙◌, ap, sym, subst, Bool-cases, inl, inr,
}
use ariadne.Util.{u8, u16, htons, ntohs}
use ariadne.Headers.{Ipv4, IsIpv4, word, ihl, version}
use ariadne.Checksum.{ipv4_hdr_checksum}
use ariadne.Checksum.Sum.{ones, total, ipv4_hdr_checksum-total}

unfoldable pub forward : Ipv4 → Ipv4
forward h = record h { ttl = u8 (h.ttl + 2 ^ 8 - 1); checksum = u16 (h.checksum + 1) }

word_other :
    (h : Ipv4) (ttl j : ℕ)
    → j ≢ 4
    → word (record h { ttl = ttl; checksum = 0 }) j ≡ word (record h { checksum = 0 }) j
unfolding word
word_other h ttl zero n = refl
word_other h ttl (suc zero) n = refl
word_other h ttl (suc (suc zero)) n = refl
word_other h ttl (suc (suc (suc zero))) n = refl
word_other h ttl (suc (suc (suc (suc zero)))) n = absurd (n refl)
word_other h ttl (suc (suc (suc (suc (suc zero))))) n = refl
word_other h ttl (suc (suc (suc (suc (suc (suc zero)))))) n = refl
word_other h ttl (suc (suc (suc (suc (suc (suc (suc zero))))))) n = refl
word_other h ttl (suc (suc (suc (suc (suc (suc (suc (suc zero)))))))) n = refl
word_other h ttl (suc (suc (suc (suc (suc (suc (suc (suc (suc zero))))))))) n = refl
word_other h ttl (suc (suc (suc (suc (suc (suc (suc (suc (suc (suc i)))))))))) n = refl

module _ (h : Ipv4) (v : IsIpv4 h) (alive : 0 < h.ttl) where
  abbrev before : Ipv4
  before = record h { checksum = 0 }

  abbrev after : Ipv4
  after = record h { ttl = u8 (h.ttl + 2 ^ 8 - 1); checksum = 0 }

  word_four : ntohs (word after 4) + 256 ≡ ntohs (word before 4)
  unfolding word
  word_four = omega (arith, v.ttl, v.proto)

  -- The sum loses 256, once the word of the time to live is among its words.
  total-after :
      (left i : ℕ)
      → total after left i + (if leb i 4 && ltb 4 (i + left) then 256 else 0) ≡ total before left i
  unfolding total
  total-after zero i = ground arith
  total-after (suc left) i = elim (Bool-cases (i == 4)) [
    | inl t ↦
        let e : i ≡ 4 = ground arith in
        rw e (
          ground (
            arith,
            word_four,
            subst
                (λ j.
                  total after left (j + 1)
                    + (if leb (j + 1) 4 && ltb 4 (j + 1 + left) then 256 else 0)
                  ≡ total before left (j + 1))
                e (total-after left (i + 1)),
          ))
    | inr f ↦ ground (
      arith,
      word_other h (u8 (h.ttl + 2 ^ 8 - 1)) i (λ e. ground arith),
      total-after left (i + 1),
    )
  ]

  total_pos : (left : ℕ) → 0 < h.version_ihl → 0 < total after (suc left) 0
  unfolding total word
  total_pos left pos = omega (arith, v.version_ihl)

module _ (h : Ipv4) (v : IsIpv4 h) (is_v4 : version h ≡ 4) (long : 5 ≤ ihl h) (alive : 0 < h.ttl)
    (valid : ipv4_hdr_checksum h ≡ h.checksum) where
  first_byte : 0 < h.version_ihl
  unfolding version
  first_byte = elim (Bool-cases (h.version_ihl == 0)) [
    | inl t ↦ absurd (
        let e : h.version_ihl ≡ 0 = ground arith in
        let z : ◌≡◌ {A = ℕ} 0 4 = rw e at is_v4 in omega arith)
    | inr f ↦ ground arith
  ]

  sums :
      (s : ℕ) × (0 < s)
      × (ipv4_hdr_checksum h ≡ htons (0xffff - ones (s + 256)))
      × (ipv4_hdr_checksum (forward h) ≡ htons (0xffff - ones s))
  unfolding forward ihl
  sums =
      let n = ihl h * 2 in
      let s = total (after h v alive) n 0 in
      let more : n ≡ suc (n - 1) = omega arith in
      let pos : 0 < s =
        subst (λ k. 0 < total (after h v alive) k 0) (sym more)
          (total_pos h v alive (n - 1) first_byte) in
      let step : s + 256 ≡ total (before h v alive) n 0 =
        ground (arith, total-after h v alive n 0) in
      (
        s,
        pos,
        ipv4_hdr_checksum-total h ∙ ap (λ (t : ℕ). htons (0xffff - ones t)) (sym step),
        ipv4_hdr_checksum-total (forward h),
      )

  -- A version 4 header of at least five words, with fields in range, a positive time to live and
  -- a valid checksum, keeps a valid checksum when it is forwarded, unless the checksum was 0xfeff
  -- on the wire.
  pub forward-checksum : h.checksum ≢ 0xfffe → ipv4_hdr_checksum (forward h) ≡ (forward h).checksum
  unfolding forward
  forward-checksum ne = let (s, pos, old, new) = sums in ground (arith, old, new, pos)

  -- Such a header with the checksum 0xfeff on the wire gets the checksum 0xffff, while the
  -- router's own computation then yields 0.
  pub forward-checksum_zero :
      h.checksum ≡ 0xfffe → ((forward h).checksum ≡ 0xffff) × (ipv4_hdr_checksum (forward h) ≡ 0)
  unfolding forward
  forward-checksum_zero e = let (s, pos, old, new) = sums in ground (arith, old, new, pos)
