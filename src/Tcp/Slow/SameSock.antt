-- ===== src/Tcp/Slow/SameSock.antt =====
-- What a control packet's move depends on, and the steps before it that keep this.
use chamelio.Common.{ℕ, ◌≡◌, refl, inl, inr, Bool-cases, ◌∙◌, ◌==◌, sub32, u32, ap, update_self}
use chamelio.Tcp.Slow.Move.{Move, Moves, listener_of, MovesFrom}
use chamelio.Tcp.Slow.Moves.{Becomes, Becomes-kept, Becomes-self, Becomes-then, Becomes-set_sock}
use chamelio.Tcp.Slow.Moves.{Becomes-trans}
use chamelio.Tcp.Slow.RxCtl.{ctl_ts_rx, measure_rtt, next_rtt}
use chamelio.Tcp.Slow.State.{Slow, RxCtl, slow_rdtsc, set_sock, Listener}
use chamelio.Tcp.Sock.{Sock}
use mathlib.Core.Path.{subst}

-- A step before that keeps what the moves depend on.
pub record SameSock (c : Slow) (sid : ℕ) (c1 : Slow) : Type 0 where
  pub becomes : Becomes c sid (c.socks sid).state c1
  pub seq : (c1.socks sid).tx_seq ≡ (c.socks sid).tx_seq
  pub pending : (c1.socks sid).tx_pending ≡ (c.socks sid).tx_pending
  pub listener : listener_of c1 sid ≡ listener_of c sid

pub MovesFrom-after :
    {seq pending : ℕ} {l : Listener} {rx : RxCtl} {c c1 : Slow} {sid : ℕ} (c2 : Slow)
    → Becomes c sid (c.socks sid).state c1
    → MovesFrom seq pending l rx c1 sid c2
    → MovesFrom seq pending l rx c sid c2
MovesFrom-after {seq} {pending} {l} {rx} c2 b (t, move, a) =
    (t, subst (λ u. Move seq pending l rx u t) b.here move, Becomes-trans b a)

pub Moves-after :
    {c c1 : Slow} {sid : ℕ} {rx : RxCtl} (c2 : Slow)
    → SameSock c sid c1
    → Moves c1 sid rx c2
    → Moves c sid rx c2
Moves-after {c} {c1} {sid} {rx} c2 b a = MovesFrom-after c2 b.becomes (
    subst (λ l. MovesFrom (c.socks sid).tx_seq (c.socks sid).tx_pending l rx c1 sid c2) b.listener
      (subst (λ n. MovesFrom (c.socks sid).tx_seq n (listener_of c1 sid) rx c1 sid c2) b.pending
        (subst (λ n. MovesFrom n (c1.socks sid).tx_pending (listener_of c1 sid) rx c1 sid c2) b.seq
          a)))

pub set_sock-SameSock :
    (c : Slow) (sid : ℕ) (s : Sock)
    → s.state ≡ (c.socks sid).state
    → s.tx_seq ≡ (c.socks sid).tx_seq
    → s.tx_pending ≡ (c.socks sid).tx_pending
    → s.id ≡ (c.socks sid).id
    → SameSock c sid (set_sock c sid s)
set_sock-SameSock c sid s state seq pending id =
    let here = update_self c.socks sid s in
    record {
      becomes = rw (← state) (Becomes-set_sock c sid s);
      seq = ap (λ (x : Sock). x.tx_seq) here ∙ seq;
      pending = ap (λ (x : Sock). x.tx_pending) here ∙ pending;
      listener =
          ap (λ (x : ℕ). c.listeners (c.sock_meta x).listener_id)
            (ap (λ (x : Sock). x.id) here ∙ id);
    }

pub SameSock-trans :
    {c c1 c2 : Slow} {sid : ℕ} → SameSock c sid c1 → SameSock c1 sid c2 → SameSock c sid c2
SameSock-trans a b = record {
  becomes = Becomes-then a.becomes b.becomes;
  seq = b.seq ∙ a.seq;
  pending = b.pending ∙ a.pending;
  listener = b.listener ∙ a.listener;
}

measure-SameSock : (c : Slow) (sid : ℕ) (rx : RxCtl) → SameSock c sid (measure_rtt c sid rx)
unfolding measure_rtt slow_rdtsc
measure-SameSock c sid rx =
    let s = c.socks sid in
    let rtt = sub32 (u32 (c.clock.base.tsc_to_us (c.clock.base.reading c.ticks))) rx.ts_ecr in
    let t =
      set_sock-SameSock c sid (record s { rtt_est = next_rtt s.rtt_est rtt }) refl refl refl refl in
    record {
      becomes = Becomes-kept (measure_rtt c sid rx) t.becomes refl;
      seq = t.seq;
      pending = t.pending;
      listener = t.listener;
    }

pub ts-SameSock : (c : Slow) (sid : ℕ) (rx : RxCtl) → SameSock c sid (ctl_ts_rx c sid rx)
unfolding ctl_ts_rx
ts-SameSock c sid rx =
    let s1 = record (c.socks sid) { ts_recent = rx.ts_val } in
    let recent = set_sock-SameSock c sid s1 refl refl refl refl in
    elim (Bool-cases rx.ts_valid) [
      | inr no_option ↦
          rw no_option
            (record { becomes = Becomes-self c sid; seq = refl; pending = refl; listener = refl })
      | inl option ↦ elim (Bool-cases (rx.ts_ecr == 0)) [
        | inl none_echoed ↦ rw (option, none_echoed) recent
        | inr echoed ↦
            rw (option, echoed)
              (SameSock-trans recent (measure-SameSock (set_sock c sid s1) sid rx))
      ]
    ]
