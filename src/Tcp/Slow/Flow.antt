-- ===== src/Tcp/Slow/Flow.antt =====
-- tcp_flow.c: the slow path's side of the table that maps connections to sockets.
use Prim.Native.Nat.{bit_xor}
use chamelio.Common.{[], none, some, true, false, ◌∷◌, ℕ, ◌%◌, List, update, Bool, Option}
use chamelio.Common.{if◌then◌else◌, not, ◌==◌, ◌&&◌, ◌*◌, ◌^◌, ◌/◌}
use chamelio.Tcp.Lookup.{bucket_slots, tcp_flow_buckets, id_invalid}
use chamelio.Tcp.Slow.State.{Slow}
use chamelio.Tcp.Sock.{Sock, is_closed}

-- `flow_hash`
unfoldable pub tcp_flow_hash : (local_ip local_port remote_ip remote_port : ℕ) → ℕ
tcp_flow_hash local_ip local_port remote_ip remote_port =
    let hash = bit_xor (bit_xor (bit_xor local_ip remote_ip) (local_port * 2 ^ 16)) remote_port in
    bit_xor hash (hash / 2 ^ 16)

unfoldable pub bucket_of : Sock → ℕ
unfolding tcp_flow_hash
bucket_of s = tcp_flow_hash s.local_ip s.local_port s.remote_ip s.remote_port % tcp_flow_buckets

-- The first of the slots that holds `sid`.
unfoldable pub slot_with : (ℕ → ℕ) → ℕ → List ℕ → Option ℕ
slot_with bucket sid [] = none
slot_with bucket sid (i ∷ slots) = if bucket i == sid then some i else slot_with bucket sid slots

abbrev pub set_bucket : Slow → (hash slot sid : ℕ) → Slow
set_bucket c hash slot sid = record c {
  buckets = update c.buckets hash (update (c.buckets hash) slot sid);
}

unfoldable pub tcp_flow_insert : Slow → ℕ → Slow × Bool
unfolding bucket_of slot_with
tcp_flow_insert c sid =
    let hash = bucket_of (c.socks sid) in
    elim (slot_with (c.buckets hash) id_invalid bucket_slots) [
      | none ↦ (c, false)
      | some i ↦ (set_bucket c hash i (c.socks sid).id, true)
    ]

unfoldable pub tcp_flow_remove : Slow → ℕ → Slow
unfolding bucket_of slot_with
tcp_flow_remove c sid =
    let hash = bucket_of (c.socks sid) in
    elim (slot_with (c.buckets hash) (c.socks sid).id bucket_slots) [
      | none ↦ c
      | some i ↦ set_bucket c hash i id_invalid
    ]

-- The socket is not closed and belongs to the connection.
unfoldable pub is_conn : Sock → (local_ip local_port remote_ip remote_port : ℕ) → Bool
is_conn s local_ip local_port remote_ip remote_port =
    not (is_closed s.state)
    && s.local_ip == local_ip
    && s.local_port == local_port
    && s.remote_ip == remote_ip
    && s.remote_port == remote_port

unfoldable pub lookup_slots :
    (ℕ → Sock) → (ℕ → ℕ) → (local_ip local_port remote_ip remote_port : ℕ) → List ℕ → Option ℕ
unfolding is_conn
lookup_slots socks bucket local_ip local_port remote_ip remote_port [] = none
lookup_slots socks bucket local_ip local_port remote_ip remote_port (i ∷ slots) =
    let rest = lookup_slots socks bucket local_ip local_port remote_ip remote_port slots in
    if not (bucket i == id_invalid)
      && is_conn (socks (bucket i)) local_ip local_port remote_ip remote_port
    then some (bucket i)
    else rest

unfoldable pub tcp_flow_lookup : Slow → (local_ip local_port remote_ip remote_port : ℕ) → Option ℕ
unfolding lookup_slots tcp_flow_hash
tcp_flow_lookup c local_ip local_port remote_ip remote_port =
    let hash = tcp_flow_hash local_ip local_port remote_ip remote_port % tcp_flow_buckets in
    lookup_slots c.socks (c.buckets hash) local_ip local_port remote_ip remote_port bucket_slots
