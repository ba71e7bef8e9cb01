-- ===== src/Udp/App/Polling.antt =====
-- `udp_poll_fast` takes all messages.
use chamelio.Common.{zero, suc, refl, [], some, ◌∷◌, ℕ, List, ◌≡◌, update, ◌≢◌, ◌<◌, ◌+◌, arith}
use chamelio.Common.{◌∙◌, update_ne, slot_at, update_self, ap, sym}
use chamelio.Queue.{Equeue, IsQueue, contents, Dqueue, Slots, recv_refines}
use chamelio.Udp.App.Data.{handle_tx_bump, handle_rx_bump}
use chamelio.Udp.App.Poll.{on_bump, poll_queue, polled, set_fast_app}
use chamelio.Udp.App.State.{AppSock, App}
use chamelio.Udp.State.{Message, bump_app_tx, bump_app_rx, udp_queue_bump_app_tx}
use chamelio.Udp.State.{udp_queue_bump_app_rx}
use mathlib.Core.Path.{subst}
use native.Mathlib.Nat.{add-zero}

-- The type of a message is its own.
abbrev pub IsBump : ℕ × Message → Type 0
IsBump (type, bump_app_tx opaque tx_head) = type ≡ udp_queue_bump_app_tx
IsBump (type, bump_app_rx opaque core rx_port rx_ip rx_avail) = type ≡ udp_queue_bump_app_rx

abbrev pub AllBumps : List (ℕ × Message) → Type 0
AllBumps [] = Unit {0}
AllBumps (x ∷ xs) = IsBump x × AllBumps xs

-- What a message makes of the sockets, and what all of them make, one after the other.
abbrev pub bumped : (ℕ → AppSock) → Message → ℕ → AppSock
bumped socks (bump_app_tx opaque tx_head) =
    update socks opaque (handle_tx_bump (socks opaque) tx_head)
bumped socks (bump_app_rx opaque core rx_port rx_ip rx_avail) =
    update socks opaque (handle_rx_bump (socks opaque) core rx_port rx_ip rx_avail)

abbrev pub all_bumped : (ℕ → AppSock) → List (ℕ × Message) → ℕ → AppSock
all_bumped socks [] = socks
all_bumped socks (x ∷ xs) = all_bumped (bumped socks x.1) xs

on_bump_known :
    (a : App) (type : ℕ) (msg : Message)
    → IsBump (type, msg)
    → on_bump a type msg ≡ some (record a { socks = bumped a.socks msg })
unfolding on_bump
on_bump_known a type (bump_app_tx opaque tx_head) e = rw e refl
on_bump_known a type (bump_app_rx opaque core rx_port rx_ip rx_avail) e = rw e refl

-- The queue of core `i` has been emptied, and its messages have been taken in their order.
pub record Drained (p : Equeue) (a : App) (i : ℕ) (msgs : List (ℕ × Message)) (a' : App)
    : Type 0 where
  pub socks : a'.socks ≡ all_bumped a.socks msgs
  pub empty : (h : ℕ) × IsQueue p (a'.fast_app_qs i) (a'.fast_app_slots i) h 0
  pub others :
      (j : ℕ)
      → j ≢ i
      → (a'.fast_app_qs j ≡ a.fast_app_qs j) × (a'.fast_app_slots j ≡ a.fast_app_slots j)
  pub memory : a'.shm ≡ a.shm

-- One message has been taken; the others follow.
after_bump :
    (p : Equeue) (a : App) (i : ℕ) (q : Dqueue) (m : Slots Message) (x : ℕ × Message)
    (msgs : List (ℕ × Message)) (a' : App)
    → Drained p (set_fast_app (record a { socks = bumped a.socks x.1 }) i q m) i msgs a'
    → Drained p a i (x ∷ msgs) a'
after_bump p a i q m x msgs a' d = record {
  socks = d.socks;
  empty = d.empty;
  others = λ j ne.
      let (qs, slots) = d.others j ne in
      (qs ∙ update_ne a.fast_app_qs i q j ne, slots ∙ update_ne a.fast_app_slots i m j ne);
  memory = d.memory;
}

drain :
    (fuel i n : ℕ) (a : App) (p : Equeue) (h c : ℕ) (q : Dqueue) (m : Slots Message)
    → a.fast_app_qs i ≡ q
    → a.fast_app_slots i ≡ m
    → IsQueue p q m h c
    → AllBumps (contents m p.nelems p.elsize h c)
    → c < fuel
    → (a' : App) × (poll_queue fuel i n a ≡ polled (some (n + c)) a')
      × Drained p a i (contents m p.nelems p.elsize h c) a'
unfolding poll_queue
drain zero i n a p h c q m eq em v all enough = absurd (omega (arith, enough))
drain (suc fuel) i n a p h zero q m eq em v all enough =
    let nothing = (recv_refines p q m h 0 v).0 refl in
    (
      a,
      rw (eq, em, nothing, add-zero, poll_queue) refl,
      record {
        socks = refl;
        empty = (h, rw (eq, em) v);
        others = λ j ne. (refl, refl);
        memory = refl;
      },
    )
drain (suc fuel) i n a p h (suc c) q m eq em v all enough =
    let (x, q', m', got, v', held) = (recv_refines p q m h (suc c) v).1 c refl in
    let known = subst AllBumps held all in
    let a1 = set_fast_app (record a { socks = bumped a.socks x.1 }) i q' m' in
    let (a', done, d) =
      drain fuel i (n + 1) a1 p (slot_at p.nelems h 1) c q' m' (update_self a.fast_app_qs i q')
        (update_self a.fast_app_slots i m') v' known.1 (omega (arith, enough)) in
    let taken = on_bump_known a x.0 x.1 known.0 in
    let count : n + 1 + c ≡ n + suc c = omega arith in
    (
      a',
      rw (eq, em, got, taken, poll_queue) (done ∙ ap (λ k. polled (some k) a') count),
      subst (λ (msgs : List (ℕ × Message)). Drained p a i msgs a') (sym held)
          (after_bump p a i q' m' x (contents m' p.nelems p.elsize (slot_at p.nelems h 1) c) a' d),
    )

-- With fuel for one round more than the queue of core `i` has messages, the loop ends: it has counted
-- every message, each has been taken in order, the queue is empty, and other queues and the shared
-- memory are as before.
pub poll_queue-Drained :
    (fuel i n : ℕ) (a : App) (p : Equeue) (h c : ℕ)
    → IsQueue p (a.fast_app_qs i) (a.fast_app_slots i) h c
    → AllBumps (contents (a.fast_app_slots i) p.nelems p.elsize h c)
    → c < fuel
    → (a' : App) × (poll_queue fuel i n a ≡ polled (some (n + c)) a')
      × Drained p a i (contents (a.fast_app_slots i) p.nelems p.elsize h c) a'
poll_queue-Drained fuel i n a p h c v all enough =
    drain fuel i n a p h c (a.fast_app_qs i) (a.fast_app_slots i) refl refl v all enough
