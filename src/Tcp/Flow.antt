-- ===== src/Tcp/Flow.antt =====
-- `sock_find` finds the socket of a packet's flow.
use chamelio.Common.{zero, suc, List, [], ◌∷◌, ℕ, ◌<◌, ◌≡◌, true, ◌≢◌, some, false, arith}
use chamelio.Common.{Bool-cases, none, inl, inr, leb}
use chamelio.Tcp.Context.{Context}
use chamelio.Tcp.Lookup.{is_match, find_slot, is_flow, id_invalid, bucket_slots, sock_find}
use chamelio.Tcp.Lookup.{flow_hash}
use chamelio.Tcp.Packet.{ip_dst, tcp_dest, ip_src, tcp_src}
use chamelio.Tcp.Sock.{is_closed}

-- The socket is open and has the four names of the packet.
pub record IsFlowOf (c : Context) (sid : ℕ) : Type 0 where
  pub known : sid < c.n_socks
  pub open_sock : is_closed (c.socks sid).state ≡ false
  pub local_ip : (c.socks sid).local_ip ≡ ip_dst c.pkt
  pub local_port : (c.socks sid).local_port ≡ tcp_dest c.pkt
  pub remote_ip : (c.socks sid).remote_ip ≡ ip_src c.pkt
  pub remote_port : (c.socks sid).remote_port ≡ tcp_src c.pkt

is_match-IsFlowOf : (c : Context) (sid : ℕ) → is_match c sid ≡ true → IsFlowOf c sid
unfolding is_match is_flow
is_match-IsFlowOf c sid h = ground arith

IsFlowOf-is_match :
    (c : Context) (sid : ℕ) → sid ≢ id_invalid → IsFlowOf c sid → is_match c sid ≡ true
unfolding is_match is_flow
IsFlowOf-is_match c sid ne f =
    ground (arith, f.known, f.open_sock, f.local_ip, f.local_port, f.remote_ip, f.remote_port, ne)

-- What the walk over the slots gives.
find_slot-found :
    (c : Context) (bucket : ℕ → ℕ) (slots : List ℕ) (sid : ℕ)
    → find_slot c bucket slots ≡ some sid
    → is_match c sid ≡ true
unfolding find_slot
find_slot-found c bucket [] sid h = ground (arith, h)
find_slot-found c bucket (i ∷ slots) sid h = elim (Bool-cases (is_match c (bucket i))) [
  | inl e ↦ let same = rw e at h in ground (arith, e, same)
  | inr e ↦ find_slot-found c bucket slots sid (rw e at h)
]

-- Every slot that the walk has passed does not match.
NoMatch : Context → (ℕ → ℕ) → List ℕ → Type 0
NoMatch c bucket [] = Unit
NoMatch c bucket (i ∷ slots) = (is_match c (bucket i) ≡ false) × NoMatch c bucket slots

find_slot-none :
    (c : Context) (bucket : ℕ → ℕ) (slots : List ℕ)
    → find_slot c bucket slots ≡ none
    → NoMatch c bucket slots
unfolding find_slot NoMatch
find_slot-none c bucket [] h = tt
find_slot-none c bucket (i ∷ slots) h = elim (Bool-cases (is_match c (bucket i))) [
  | inl e ↦ let same = rw e at h in ground (arith, same)
  | inr e ↦ (e, find_slot-none c bucket slots (rw e at h))
]

no_slot :
    (c : Context) (bucket : ℕ → ℕ)
    → NoMatch c bucket bucket_slots
    → (i : ℕ) → i < 4
    → is_match c (bucket i) ≡ false
unfolding NoMatch
no_slot c bucket h zero lt = h.0
no_slot c bucket h (suc zero) lt = h.1.0
no_slot c bucket h (suc (suc zero)) lt = h.1.1.0
no_slot c bucket h (suc (suc (suc zero))) lt = h.1.1.1.0
no_slot c bucket h (suc (suc (suc (suc k)))) lt = absurd (omega arith)

-- When the table has the packet's bucket: a socket that is found is known, open and has the packet's
-- addresses and ports; when none is found, no slot of the bucket holds such a socket.
pub sock_find_lem :
    (c : Context)
    → flow_hash c.pkt < c.n_buckets
    → ((sid : ℕ) → sock_find c ≡ some sid → IsFlowOf c sid)
      × (sock_find c ≡ none
          → (i : ℕ) → i < 4
          → c.buckets (flow_hash c.pkt) i ≢ id_invalid
          → ¬ IsFlowOf c (c.buckets (flow_hash c.pkt) i))
unfolding sock_find
sock_find_lem c lt =
    let inside : leb c.n_buckets (flow_hash c.pkt) ≡ false = ground (arith, lt) in
    let bucket = c.buckets (flow_hash c.pkt) in
    (
      (λ sid h.
          is_match-IsFlowOf c sid (find_slot-found c bucket bucket_slots sid (rw inside at h))),
      (λ h i below ne f.
          let no =
            no_slot c bucket (find_slot-none c bucket bucket_slots (rw inside at h)) i below in
          let yes = IsFlowOf-is_match c (bucket i) ne f in absurd (ground (arith, no, yes))),
    )
