-- ===== src/Worker/Host.antt =====
-- The frames that src/worker.cpp, `Worker::process`, treats as the router's own or drops.
use ariadne.Base.{
  ℕ, ◌^◌, ◌<◌, ◌≢◌, refl, sym, ap, ◌∙◌, ◌==◌, [], ◌∷◌, bit_or, ne→==, eq→==, ◌≡◌, ◌⊎◌, ◌↔◌, inl,
  inr, arith, some, true, false, Option-cases,
}
use ariadne.Util.{htons, htonl, ntohl, swap_twice}
use ariadne.Interface.{Interface, find_by_netmap, has_ip}
use ariadne.Frame.{Frame, Packet, port, iface_host}
use ariadne.Worker.{
  Tables, Processed, ok, process_frame, route_packet, send_to, ipv4_hdr_verification,
}
use ariadne.Worker.Route.{transit_step}

-- The frame came in on interface `i` and holds an IPv4 packet with a valid header.
abbrev pub IsAccepted : Tables → Interface → Frame → Packet → Type 0
IsAccepted t i f p =
    (find_by_netmap t.interfaces (port f) ≡ some i)
    × (p.ether.ethertype ≡ htons 0x0800)
    × (ipv4_hdr_verification p.ipv4 f.len ≡ true)

only_address : (a b : ℕ) → a ≢ b → has_ip b (a ∷ []) ≡ false
unfolding has_ip
only_address a b n = let e : (a == b) ≡ false = ne→== a b n in rw e refl

same_address : (a : ℕ) → has_ip a (a ∷ []) ≡ true
unfolding has_ip
same_address a = let e : (a == a) ≡ true = eq→== a a refl in rw e refl

-- Let an interface have one address, `a`, which reads differently with its bytes swapped. A valid
-- IPv4 packet for `a` that comes in there is routed like another host's; a valid packet for the
-- swapped address, which is not the router's, is taken for the router's own: it is marked for the host
-- and does not reach the egress queue.
pub own_packet_routed :
    (shifted_out : ℕ → ℕ) (t : Tables) (i : Interface) (a : ℕ) (f g : Frame) (p q : Packet)
    → i.ips ≡ a ∷ []
    → a < 2 ^ 32
    → htonl a ≢ a
    → IsAccepted t i f p
    → ntohl p.ipv4.d_ip ≡ a
    → p.ipv4.d_ip < 2 ^ 32
    → IsAccepted t i g q
    → ntohl q.ipv4.d_ip ≡ htonl a
    → q.ipv4.d_ip < 2 ^ 32
    → (process_frame shifted_out t f p ≡ route_packet shifted_out t i f p)
      × (process_frame shifted_out t g q
          ≡ ok (record {
            frame = record g { iface = bit_or g.iface iface_host };
            packet = q;
            enqueued = false;
          }))
unfolding process_frame
own_packet_routed shifted_out t i a f g p q ips small odd (e1, e2, e3) to_a sized (d1, d2, d3)
      to_swapped sized' =
    let loaded : p.ipv4.d_ip ≡ htonl a = sym (swap_twice p.ipv4.d_ip sized) ∙ ap htonl to_a in
    let loaded' : q.ipv4.d_ip ≡ a =
      sym (swap_twice q.ipv4.d_ip sized') ∙ ap htonl to_swapped ∙ swap_twice a small in
    let foreign : has_ip p.ipv4.d_ip i.ips ≡ false =
      rw (ips, loaded) (only_address a (htonl a) (λ z. odd (sym z))) in
    let own : has_ip q.ipv4.d_ip i.ips ≡ true = rw (ips, loaded') (same_address a) in
    (
      transit_step shifted_out t f p i
          (record { at_port = e1; is_ipv4 = e2; verified = e3; foreign = foreign }),
      ground (arith, d1, d2, d3, own),
    )

route_packet-enqueued :
    (shifted_out : ℕ → ℕ) (t : Tables) (i : Interface) (f : Frame) (p : Packet) (r : Processed)
    → route_packet shifted_out t i f p ≡ ok r
    → (r.enqueued ≡ true) × (r.frame.buf_ptr ≡ f.buf_ptr)
unfolding route_packet send_to
route_packet-enqueued shifted_out t i f p r h = ground arith

-- The frames from a known port that are processed, but never reach the egress queue, are exactly
-- the IPv4 packets whose header is refused or whose destination, as loaded, is an address of the
-- interface.
pub process_frame_lost :
    (shifted_out : ℕ → ℕ) (t : Tables) (f : Frame) (p : Packet) (i : Interface) (r : Processed)
    → find_by_netmap t.interfaces (port f) ≡ some i
    → process_frame shifted_out t f p ≡ ok r
    → (r.enqueued ≡ false) ↔ (
        (p.ether.ethertype ≡ htons 0x0800)
        × ((ipv4_hdr_verification p.ipv4 f.len ≡ false) ⊎ (has_ip p.ipv4.d_ip i.ips ≡ true)))
unfolding process_frame
process_frame_lost shifted_out t f p i r at_port h =
    ground (arith, at_port, route_packet-enqueued shifted_out t i f p r)

-- Processing never moves a frame to another buffer.
pub process_frame-buf_ptr :
    (shifted_out : ℕ → ℕ) (t : Tables) (f : Frame) (p : Packet) (r : Processed)
    → process_frame shifted_out t f p ≡ ok r
    → r.frame.buf_ptr ≡ f.buf_ptr
unfolding process_frame
process_frame-buf_ptr shifted_out t f p r h =
    elim (Option-cases (find_by_netmap t.interfaces (port f))) [
      | inl e ↦ absurd (ground arith)
      | inr (i, e) ↦ ground (arith, e, route_packet-enqueued shifted_out t i f p r)
    ]
