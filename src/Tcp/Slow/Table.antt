-- ===== src/Tcp/Slow/Table.antt =====
-- The flow table: what the slow path puts in is what both paths find.
use chamelio.Common.{refl, [], none, some, false, ◌∷◌, ℕ, List, ◌≡◌, Option, arith}
use chamelio.Common.{◌⊎◌, update, ◌<◌, inl, inr, Bytes, leb, ◌%◌, Option-cases, ◌∙◌, Bool-cases}
use chamelio.Common.{ap, ◌==◌, sym, ==→eq}
use chamelio.Tcp.Context.{Context}
use chamelio.Tcp.Lookup.{find_slot, sock_find, is_match, is_flow, flow_hash, id_invalid}
use chamelio.Tcp.Lookup.{sock_hash, tcp_flow_buckets, bucket_slots}
use chamelio.Tcp.Packet.{ip_dst, tcp_dest, ip_src, tcp_src}
use chamelio.Tcp.Slow.Flow.{slot_with, lookup_slots, tcp_flow_lookup, is_conn, tcp_flow_hash}
use chamelio.Tcp.Slow.Flow.{bucket_of, set_bucket, tcp_flow_remove}
use chamelio.Tcp.Slow.State.{Slow}
use chamelio.Tcp.Sock.{Sock}

-- The slots name sockets of the map or are empty.
abbrev pub SlotsIn : ℕ → (ℕ → ℕ) → List ℕ → Type 0
SlotsIn n_socks bucket [] = Unit {0}
SlotsIn n_socks bucket (i ∷ slots) =
    ((bucket i ≡ id_invalid) ⊎ (bucket i < n_socks)) × SlotsIn n_socks bucket slots

find_slot-lookup_slots :
    (x : Context) (bucket : ℕ → ℕ) (slots : List ℕ)
    → SlotsIn x.n_socks bucket slots
    → find_slot x bucket slots
      ≡ lookup_slots x.socks bucket
          (ip_dst x.pkt)
          (tcp_dest x.pkt)
          (ip_src x.pkt)
          (tcp_src x.pkt)
          slots
unfolding find_slot lookup_slots is_match is_flow is_conn
find_slot-lookup_slots x bucket [] t = refl
find_slot-lookup_slots x bucket (i ∷ slots) (e, t) =
    ground (arith, find_slot-lookup_slots x bucket slots t)

flow_hash_lt : (p : Bytes) → flow_hash p < tcp_flow_buckets
unfolding flow_hash
flow_hash_lt p = omega arith

flow_hash-tcp_flow_hash :
    (p : Bytes)
    → flow_hash p ≡ tcp_flow_hash (ip_dst p) (tcp_dest p) (ip_src p) (tcp_src p) % tcp_flow_buckets
unfolding flow_hash sock_hash tcp_flow_hash
flow_hash-tcp_flow_hash p = refl

-- Over the same maps, with all buckets there and the slots of the packet's bucket empty or
-- naming sockets of the map, the fast path finds the socket that the slow path finds.
pub sock_find-tcp_flow_lookup :
    (x : Context) (c : Slow)
    → x.n_buckets ≡ tcp_flow_buckets
    → SlotsIn x.n_socks (x.buckets (flow_hash x.pkt)) bucket_slots
    → x.socks ≡ c.socks
    → x.buckets ≡ c.buckets
    → sock_find x ≡ tcp_flow_lookup c (ip_dst x.pkt) (tcp_dest x.pkt) (ip_src x.pkt) (tcp_src x.pkt)
unfolding sock_find tcp_flow_lookup
sock_find-tcp_flow_lookup x c size inside socks buckets =
    let used : leb x.n_buckets (flow_hash x.pkt) ≡ false = ground (arith, flow_hash_lt x.pkt) in
    let found = find_slot-lookup_slots x (x.buckets (flow_hash x.pkt)) bucket_slots inside in
    rw (used, ← flow_hash-tcp_flow_hash x.pkt, ← socks, ← buckets) found

-- The fields of a socket's connection.
abbrev pub lookup_of : Slow → Sock → Option ℕ
lookup_of c s = tcp_flow_lookup c s.local_ip s.local_port s.remote_ip s.remote_port

slot_with-eq :
    (bucket : ℕ → ℕ) (v i : ℕ) (slots : List ℕ) → slot_with bucket v slots ≡ some i → bucket i ≡ v
unfolding slot_with
slot_with-eq bucket v i [] e = cc
slot_with-eq bucket v i (j ∷ slots) e = ground (arith, slot_with-eq bucket v i slots)

-- A socket of another connection in an empty slot changes no other answer.
lookup_slots-other :
    (socks : ℕ → Sock) (bucket : ℕ → ℕ) (li lp ri rp v i : ℕ) (slots : List ℕ)
    → (bucket i ≡ id_invalid) ⊎ (is_conn (socks (bucket i)) li lp ri rp ≡ false)
    → (v ≡ id_invalid) ⊎ (is_conn (socks v) li lp ri rp ≡ false)
    → lookup_slots socks (update bucket i v) li lp ri rp slots
      ≡ lookup_slots socks bucket li lp ri rp slots
unfolding lookup_slots
lookup_slots-other socks bucket li lp ri rp v i [] old new = refl
lookup_slots-other socks bucket li lp ri rp v i (j ∷ slots) old new =
    ground (arith, lookup_slots-other socks bucket li lp ri rp v i slots old new)

bucket_of_lem :
    (s : Sock)
    → bucket_of s
      ≡ tcp_flow_hash s.local_ip s.local_port s.remote_ip s.remote_port % tcp_flow_buckets
unfolding bucket_of
bucket_of_lem s = refl

-- A slot that held no socket of the connection and gets none changes no answer for it.
lookup_kept :
    (c : Slow) (h i v li lp ri rp : ℕ)
    → (c.buckets h i ≡ id_invalid) ⊎ (is_conn (c.socks (c.buckets h i)) li lp ri rp ≡ false)
    → (v ≡ id_invalid) ⊎ (is_conn (c.socks v) li lp ri rp ≡ false)
    → tcp_flow_lookup (set_bucket c h i v) li lp ri rp ≡ tcp_flow_lookup c li lp ri rp
unfolding tcp_flow_lookup
lookup_kept c h i v li lp ri rp old new =
    let hash = tcp_flow_hash li lp ri rp % tcp_flow_buckets in
    elim (Bool-cases (hash == h)) [
      | inl same ↦ rw same (
          lookup_slots-other c.socks (c.buckets h) li lp ri rp v i bucket_slots old new
          ∙ ap (λ k. lookup_slots c.socks (c.buckets k) li lp ri rp bucket_slots)
              (sym (==→eq hash h same)))
      | inr apart ↦ rw apart
    ]

-- Every slot of the socket's bucket is used.
abbrev pub IsFull : Slow → Sock → Type 0
IsFull c s = slot_with (c.buckets (bucket_of s)) id_invalid bucket_slots ≡ none

-- When a socket leaves the table, a connection that is not the socket's is found as before.
pub tcp_flow_remove_lem :
    (c : Slow) (sid : ℕ) (li lp ri rp : ℕ)
    → (c.socks sid).id ≡ sid
    → is_conn (c.socks sid) li lp ri rp ≡ false
    → tcp_flow_lookup (tcp_flow_remove c sid) li lp ri rp ≡ tcp_flow_lookup c li lp ri rp
unfolding tcp_flow_remove
tcp_flow_remove_lem c sid li lp ri rp own other =
    let s = c.socks sid in
    elim (Option-cases (slot_with (c.buckets (bucket_of s)) s.id bucket_slots)) [
      | inl missing ↦ rw (missing, tcp_flow_remove)
      | inr (i, held) ↦
          let e = slot_with-eq (c.buckets (bucket_of s)) s.id i bucket_slots held in
          rw (held, tcp_flow_remove)
            (lookup_kept c (bucket_of s) i id_invalid li lp ri rp (inr (rw (e ∙ own) other))
              (inl refl))
    ]
