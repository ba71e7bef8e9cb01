-- ===== src/Udp/Slow/Bound.antt =====
-- The ports and the sockets agree with each other.
use chamelio.Common.{inl, inr, ℕ, ◌≤◌, update, ◌≢◌, u32, ◌<◌, ◌≡◌, ◌+◌, ◌⊎◌, update_self}
use chamelio.Common.{Bool-cases, ◌==◌, ==→eq, ap, sym, ◌∙◌, arith, update_ne, ==→ne, refl}
use chamelio.Common.{Option-cases, true, false, not, ◌&&◌, leb, if◌then◌else◌, ltb, Bool, none}
use chamelio.Common.{some}
use chamelio.Queue.{send, queue_tail}
use chamelio.Udp.App.State.{SlowRes, udp_queue_bind_res, bind_res}
use chamelio.Udp.Find.{scan_ports, start_port}
use chamelio.Udp.Slow.Requests.{udp_answer, UdpSlow, bind_port, refuse_bind, bind_to}
use chamelio.Udp.Slow.Requests.{slow_free_port, handle_bind, bind_sock, max_udp_sockets}
use chamelio.Udp.State.{Sock, Port, max_reusock_port, udp_port_scan_max, max_port}
use mathlib.Core.Path.{subst}

-- Every socket that is listed at a port has this port, which is not 0; and the lists are short.
pub record IsBound (ports : ℕ → Port) (socks : ℕ → Sock) : Type 0 where
  pub few : (nr : ℕ) → (ports nr).nsocks ≤ max_reusock_port
  pub listed :
      (nr k : ℕ) → k < (ports nr).nsocks → ((socks ((ports nr).sids k)).local_port ≡ nr) × (nr ≢ 0)

abbrev named : Sock → (local_ip nr : ℕ) → Sock
named s local_ip nr = record s { local_ip = local_ip; local_port = nr }

abbrev listing : Port → (sock_id : ℕ) → Port
listing p sock_id = record p { sids = update p.sids p.nsocks sock_id; nsocks = u32 (p.nsocks + 1) }

module _ (ports : ℕ → Port) (socks : ℕ → Sock) (sock_id local_ip nr : ℕ) (v : IsBound ports socks)
    (valid : nr ≢ 0) (room : (ports nr).nsocks < max_reusock_port)
    (own : ((socks sock_id).local_port ≡ 0) ⊎ ((socks sock_id).local_port ≡ nr)) where
  abbrev ports' : ℕ → Port
  ports' = update ports nr (listing (ports nr) sock_id)

  abbrev socks' : ℕ → Sock
  socks' = update socks sock_id (named (socks sock_id) local_ip nr)

  port_self : ports' nr ≡ listing (ports nr) sock_id
  port_self = update_self ports nr (listing (ports nr) sock_id)

  -- A socket that is listed keeps its port, unless it is the one that is bound.
  port_of : (x id : ℕ) → (socks id).local_port ≡ x → x ≢ 0 → (socks' id).local_port ≡ x
  port_of x id at ne = elim (Bool-cases (id == sock_id)) [
    | inl same ↦
        let e = ==→eq id sock_id same in
        let there : (socks sock_id).local_port ≡ x = ap (λ i. (socks i).local_port) (sym e) ∙ at in
        let nr_is : nr ≡ x = omega (arith, own, there, ne) in
        ap (λ i. (socks' i).local_port) e
        ∙ ap (λ (s : Sock). s.local_port)
            (update_self socks sock_id (named (socks sock_id) local_ip nr))
        ∙ nr_is
    | inr other ↦
        ap (λ (s : Sock). s.local_port)
          (update_ne socks sock_id (named (socks sock_id) local_ip nr) id (==→ne id sock_id other))
        ∙ at
  ]

  count_self : (ports' nr).nsocks ≡ (ports nr).nsocks + 1
  count_self = ap (λ (p : Port). p.nsocks) port_self ∙ omega (arith, room)

  sid_self : (k : ℕ) → (ports' nr).sids k ≡ update (ports nr).sids (ports nr).nsocks sock_id k
  sid_self k = ap (λ (p : Port). p.sids k) port_self

  listed_self : (k : ℕ) → k < (ports' nr).nsocks → (socks' ((ports' nr).sids k)).local_port ≡ nr
  listed_self k lt = elim (Bool-cases (k == (ports nr).nsocks)) [
    | inl new ↦
        let e = ==→eq k (ports nr).nsocks new in
        let here : (ports' nr).sids k ≡ sock_id =
          sid_self k
          ∙ ap (update (ports nr).sids (ports nr).nsocks sock_id) e
          ∙ update_self (ports nr).sids (ports nr).nsocks sock_id in
        ap (λ id. (socks' id).local_port) here
        ∙ ap (λ (s : Sock). s.local_port)
            (update_self socks sock_id (named (socks sock_id) local_ip nr))
    | inr old ↦
        let ne = ==→ne k (ports nr).nsocks old in
        let before = v.listed nr k (omega (arith, lt, count_self, ne)) in
        ap (λ id. (socks' id).local_port)
          (sid_self k ∙ update_ne (ports nr).sids (ports nr).nsocks sock_id k ne)
        ∙ port_of nr ((ports nr).sids k) before.0 valid
  ]

  listed_other :
      (x k : ℕ)
      → x ≢ nr
      → k < (ports' x).nsocks
      → ((socks' ((ports' x).sids k)).local_port ≡ x) × (x ≢ 0)
  listed_other x k ne lt =
      let same = update_ne ports nr (listing (ports nr) sock_id) x ne in
      let before = v.listed x k (subst (λ (p : Port). k < p.nsocks) same lt) in
      (
        ap (λ (p : Port). (socks' (p.sids k)).local_port) same
            ∙ port_of x ((ports x).sids k) before.0 before.1,
        before.1,
      )

  few_each : (x : ℕ) → (ports' x).nsocks ≤ max_reusock_port
  few_each x = elim (Bool-cases (x == nr)) [
    | inl same ↦
        let e = ==→eq x nr same in
        let count = ap (λ y. (ports' y).nsocks) e ∙ count_self in omega (arith, count, room)
    | inr other ↦
        let same = update_ne ports nr (listing (ports nr) sock_id) x (==→ne x nr other) in
        let count = ap (λ (p : Port). p.nsocks) same in omega (arith, count, v.few x)
  ]

  listing-IsBound : IsBound ports' socks'
  listing-IsBound = record {
    few = few_each;
    listed = λ x k lt. elim (Bool-cases (x == nr)) [
      | inl same ↦
          let e = ==→eq x nr same in
          subst (λ y. ((socks' ((ports' y).sids k)).local_port ≡ y) × (y ≢ 0)) (sym e)
            (listed_self k (subst (λ y. k < (ports' y).nsocks) e lt), valid)
      | inr other ↦ listed_other x k (==→ne x nr other) lt
    ];
  }

abbrev pub SlowBound : UdpSlow → Type 0
SlowBound c = IsBound c.ports c.socks

udp_answer-SlowBound :
    (c : UdpSlow) (type : ℕ) (res : SlowRes) → SlowBound c → SlowBound (udp_answer c type res).0
unfolding udp_answer
udp_answer-SlowBound c type res v =
    elim (Option-cases (send c.slow_app_q c.slow_app_slots type res)) [
      | inl full ↦ rw (full, udp_answer) v
      | inr (r, sent) ↦ rw (sent, udp_answer) v
    ]

refuse_bind-SlowBound :
    (c : UdpSlow) (opaque : ℕ) → SlowBound c → SlowBound (refuse_bind c opaque).0
unfolding refuse_bind
refuse_bind-SlowBound c opaque v =
    udp_answer-SlowBound c udp_queue_bind_res (bind_res opaque false) v

bind_to-SlowBound :
    (c : UdpSlow) (sock_id local_ip nr opaque : ℕ)
    → SlowBound c
    → nr ≢ 0
    → (c.ports nr).nsocks < max_reusock_port
    → ((c.socks sock_id).local_port ≡ 0) ⊎ ((c.socks sock_id).local_port ≡ nr)
    → SlowBound (bind_to c sock_id local_ip nr opaque).0
unfolding bind_to
bind_to-SlowBound c sock_id local_ip nr opaque v valid room own =
    udp_answer-SlowBound
      (record c {
        socks = update c.socks sock_id (named (c.socks sock_id) local_ip nr);
        ports = update c.ports nr (listing (c.ports nr) sock_id);
      })
      udp_queue_bind_res (bind_res opaque true)
      (listing-IsBound c.ports c.socks sock_id local_ip nr v valid room own)

bind_port-SlowBound :
    (c : UdpSlow) (sock_id local_ip nr opaque : ℕ)
    → SlowBound c
    → ((c.socks sock_id).local_port ≡ 0) ⊎ ((c.socks sock_id).local_port ≡ nr)
    → SlowBound (bind_port c sock_id local_ip nr opaque).0
unfolding bind_port
bind_port-SlowBound c sock_id local_ip nr opaque v own =
    let refused = refuse_bind-SlowBound c opaque v in
    elim (Bool-cases (nr == 0)) [
      | inl failed ↦ rw (failed, bind_port) refused
      | inr chosen ↦
          elim (Bool-cases (not ((c.ports nr).nsocks == 0) && (c.socks sock_id).reuport == 0)) [
            | inl taken ↦ rw (chosen, taken, bind_port) refused
            | inr free ↦ elim (Bool-cases (leb max_reusock_port (c.ports nr).nsocks)) [
              | inl many ↦ rw (chosen, free, many, bind_port) refused
              | inr room ↦
                  rw (chosen, free, room, bind_port)
                    (bind_to-SlowBound c sock_id local_ip nr opaque v (==→ne nr 0 chosen)
                      (ground (arith, room)) own)
            ]
          ]
    ]

free_port_same :
    (c : UdpSlow) → ((slow_free_port c).1.ports ≡ c.ports) × ((slow_free_port c).1.socks ≡ c.socks)
unfolding slow_free_port
free_port_same c = elim (Option-cases c.next_port) [
  | inl no_cfg ↦ rw (no_cfg, slow_free_port) (refl, refl)
  | inr (cfg, conf) ↦
      elim (Option-cases (scan_ports c.ports (start_port cfg) udp_port_scan_max 0)) [
        | inl used ↦ rw (conf, used, slow_free_port) (refl, refl)
        | inr (nr, found) ↦ rw (conf, found, slow_free_port) (refl, refl)
      ]
]

free_port-SlowBound : (c : UdpSlow) → SlowBound c → SlowBound (slow_free_port c).1
free_port-SlowBound c v = let (ports, socks) = free_port_same c in rw (ports, socks) v

if_either :
    {A : Type 0} (P : A → Type 0) (b : Bool) (x y : A)
    → (b ≡ true → P x)
    → (b ≡ false → P y)
    → P (if b then x else y)
if_either P true x y f g = f refl
if_either P false x y f g = g refl

bind_sock-SlowBound :
    (c : UdpSlow) (sock_id local_ip local_port opaque : ℕ)
    → SlowBound c
    → SlowBound (bind_sock c sock_id local_ip local_port opaque).0
unfolding bind_sock
bind_sock-SlowBound c sock_id local_ip local_port opaque v =
    let s = c.socks sock_id in
    let wanted = if not (s.local_port == 0) then s.local_port else local_port in
    let own : (s.local_port ≡ 0) ⊎ (s.local_port ≡ wanted) = elim (Bool-cases (s.local_port == 0)) [
      | inl unbound ↦ inl (==→eq s.local_port 0 unbound)
      | inr bound ↦ inr (rw bound refl)
    ] in
    if_either (λ (r : UdpSlow × Bool). SlowBound r.0) (ltb max_port wanted) _ _
      (λ invalid. refuse_bind-SlowBound c opaque v)
      (λ valid.
        if_either (λ (r : UdpSlow × Bool). SlowBound r.0) (wanted == 0) _ _
          (λ any.
            let none_yet : s.local_port ≡ 0 = omega (arith, own, ==→eq wanted 0 any) in
            bind_port-SlowBound (slow_free_port c).1 sock_id local_ip (slow_free_port c).0 opaque
              (free_port-SlowBound c v)
              (inl (ap (λ socks. (socks sock_id).local_port) (free_port_same c).1 ∙ none_yet)))
          (λ known. bind_port-SlowBound c sock_id local_ip wanted opaque v own))

-- Where ports and sockets agree with each other, a bind request either uses a socket behind the map,
-- which happens only for a number from MAX_SOCKETS on, or returns, and then, whatever it asks for and
-- however it ends, they agree again: a socket that is listed at a port has that port, no socket is
-- listed at port 0, and no port lists more than MAX_REUSOCK_PORT sockets.
pub handle_bind-SlowBound :
    (c : UdpSlow) (sock_id local_ip local_port opaque : ℕ)
    → SlowBound c
    → ((max_udp_sockets ≤ sock_id) × (handle_bind c sock_id local_ip local_port opaque ≡ none))
      ⊎ ((c' : UdpSlow) × (done : Bool) × (handle_bind c sock_id local_ip local_port opaque
            ≡ some (c', done))
          × SlowBound c')
unfolding handle_bind
handle_bind-SlowBound c sock_id local_ip local_port opaque v =
    let r = bind_sock c sock_id local_ip local_port opaque in
    elim (Option-cases (queue_tail c.slow_app_q c.slow_app_slots)) [
      | inl full ↦ inr (c, false, rw (full, handle_bind) refl, v)
      | inr (pos, tail) ↦ elim (Bool-cases (leb max_udp_sockets sock_id)) [
        | inl behind ↦ inl (ground (arith, behind), rw (tail, behind, handle_bind) refl)
        | inr inside ↦ inr (
          r.0,
          r.1,
          rw (tail, inside, handle_bind) refl,
          bind_sock-SlowBound c sock_id local_ip local_port opaque v,
        )
      ]
    ]
