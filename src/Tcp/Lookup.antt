-- ===== src/Tcp/Lookup.antt =====
-- `sock_find`: the flow table of hash buckets, and `sock_map_lookup`.
use Prim.Native.Nat.{bit_xor}
use chamelio.Common.{ℕ, ◌-◌, ◌*◌, ◌/◌, ◌%◌, ◌^◌, Bool, ◌&&◌, not, Option, none, some, List, []}
use chamelio.Common.{◌∷◌, Bytes, leb, ◌==◌, if◌then◌else◌}
use chamelio.Tcp.Context.{Context}
use chamelio.Tcp.Packet.{ip_src, ip_dst, tcp_src, tcp_dest}
use chamelio.Tcp.Sock.{Sock, is_closed}

-- ID_INVALID, TCP_FLOW_BUCKETS and the numbers of the TCP_FLOW_BUCKET_SLOTS slots of a bucket.
abbrev pub id_invalid : ℕ
id_invalid = 2 ^ 32 - 1

abbrev pub tcp_flow_buckets : ℕ
tcp_flow_buckets = 4096

abbrev pub bucket_slots : List ℕ
bucket_slots = 0 ∷ 1 ∷ 2 ∷ 3 ∷ []

unfoldable pub sock_hash : (lip lport rip rport : ℕ) → ℕ
sock_hash lip lport rip rport =
    let h = bit_xor (bit_xor (bit_xor lip rip) (lport * 2 ^ 16)) rport in bit_xor h (h / 2 ^ 16)

-- The four fields of the packet that name the connection, from the receiver's side.
unfoldable pub is_flow : Bytes → Sock → Bool
is_flow p s =
    s.local_ip == ip_dst p
    && s.local_port == tcp_dest p
    && s.remote_ip == ip_src p
    && s.remote_port == tcp_src p

-- A slot that is used, names a socket of the map that is not closed, and has the flow.
unfoldable pub is_match : Context → ℕ → Bool
unfolding is_flow
is_match c sid =
    not (sid == id_invalid)
    && not (leb c.n_socks sid)
    && not (is_closed (c.socks sid).state)
    && is_flow c.pkt (c.socks sid)

unfoldable pub find_slot : Context → (ℕ → ℕ) → List ℕ → Option ℕ
find_slot c bucket [] = none
find_slot c bucket (i ∷ slots) =
    if is_match c (bucket i) then some (bucket i) else find_slot c bucket slots

unfoldable pub flow_hash : Bytes → ℕ
flow_hash p = sock_hash (ip_dst p) (tcp_dest p) (ip_src p) (tcp_src p) % tcp_flow_buckets

unfoldable pub sock_find : Context → Option ℕ
sock_find c =
    let hash = flow_hash c.pkt in
    if leb c.n_buckets hash then none else find_slot c (c.buckets hash) bucket_slots

unfoldable pub sock_map_lookup : Context → ℕ → Option ℕ
sock_map_lookup c sid = if leb c.n_socks sid then none else some sid
