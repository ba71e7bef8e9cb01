-- ===== src/Arp/Packets.antt =====
-- The packets of arp.c, by their offsets in `struct arp_pkt`.
use chamelio.Arp.Buffer.{ControlMsg, push, Channel, arp_pkt, queue_arp_pkt, queue_arp_tx_pkt}
use chamelio.Common.{none, some, true, false, Bytes, ℕ, Bool, copy}
use chamelio.Headers.{put16, put32, put8}

-- The fields that differ between a request and a reply.
unfoldable pub fill_arp_pkt :
    Bytes → (oper : ℕ) (local_mac : Bytes) (local_ip : ℕ) (dst_mac : Bytes) (dst_ip : ℕ) → Bytes
fill_arp_pkt p oper local_mac local_ip dst_mac dst_ip =
    let p1 = put16 (copy (copy p 6 local_mac 0 6) 0 dst_mac 0 6) 12 2054 in
    let p2 = copy (copy p1 22 local_mac 0 6) 32 dst_mac 0 6 in
    let p3 = put32 (put32 p2 28 local_ip) 38 dst_ip in
    put16 (put8 (put8 (put16 (put16 p3 14 1) 16 2048) 18 6) 19 4) 20 oper

abbrev pub broadcast : Bytes
broadcast k = 255

-- What the slot of the transmit queue held before, as the packet that is overwritten.
abbrev pub old_pkt : ControlMsg → Bytes
old_pkt (arp_pkt p) = p
old_pkt _ = λ k. 0

-- The end of arp_request and arp_reply: the packet is enqueued, then the fast path is told; the
-- entry of the second message is not written.
unfoldable pub send_arp_pkt : (txq cfq : Channel) → (Bytes → Bytes) → Channel × Channel × Bool
unfolding push
send_arp_pkt txq cfq fill =
    elim (push txq queue_arp_pkt (arp_pkt (fill (old_pkt (txq.slots.entry txq.eq.tail))))) [
      | none ↦ (txq, cfq, false)
      | some txq' ↦ elim (push cfq queue_arp_tx_pkt (cfq.slots.entry cfq.eq.tail)) [
        | none ↦ (txq', cfq, false)
        | some cfq' ↦ (txq', cfq', true)
      ]
    ]

unfoldable pub arp_request :
    (txq cfq : Channel) (remote_ip : ℕ) (local_mac : Bytes) (local_ip : ℕ)
    → Channel × Channel × Bool
unfolding send_arp_pkt fill_arp_pkt
arp_request txq cfq remote_ip local_mac local_ip =
    send_arp_pkt txq cfq (λ p. fill_arp_pkt p 1 local_mac local_ip broadcast remote_ip)

unfoldable pub arp_reply :
    (txq cfq : Channel) (local_mac : Bytes) (local_ip : ℕ) (remote_mac : Bytes) (remote_ip : ℕ)
    → Channel × Channel × Bool
unfolding send_arp_pkt fill_arp_pkt
arp_reply txq cfq local_mac local_ip remote_mac remote_ip =
    send_arp_pkt txq cfq (λ p. fill_arp_pkt p 2 local_mac local_ip remote_mac remote_ip)
