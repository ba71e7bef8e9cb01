-- ===== src/Udp/App/Joining.antt =====
-- A socket joins a set to wait for.
use chamelio.Common.{refl, none, some, inl, inr, ℕ, ◌≡◌, arith, ◌+◌, update_self, ◌≢◌, ◌<◌}
use chamelio.Common.{update, update_ne, Bool-cases, ap, ◌==◌, ==→eq, ◌∙◌, sym, ==→ne}
use chamelio.Udp.App.Rings.{IsOurs}
use chamelio.Udp.App.State.{App}
use chamelio.Udp.App.Wait.{Wait, udp_wait_add, udp_wait_new, WaitEntry}
use chamelio.Udp.App.Waiting.{IsWaitSet, one_index}

module _ (w : Wait) (sockfd events data_word : ℕ) (v : IsWaitSet w)
    (absent : (w.entries sockfd).index ≡ none) where
  abbrev wish_entry : WaitEntry
  wish_entry = record {
    events = events;
    data_word = data_word;
    index = some w.nfds;
    sock = some sockfd;
  }

  abbrev linked : Wait
  linked = record {
    nfds = w.nfds + 1;
    sockfds = update w.sockfds w.nfds sockfd;
    entries = update w.entries sockfd wish_entry;
  }

  entry_new : linked.entries sockfd ≡ wish_entry
  entry_new = update_self w.entries sockfd wish_entry

  entry_old : (fd : ℕ) → fd ≢ sockfd → linked.entries fd ≡ w.entries fd
  entry_old fd ne = update_ne w.entries sockfd wish_entry fd ne

  linked_entered : (k : ℕ) → k < w.nfds + 1 → (linked.entries (linked.sockfds k)).index ≡ some k
  linked_entered k lt = elim (Bool-cases (k == w.nfds)) [
    | inl here ↦
        let k_is = ==→eq k w.nfds here in
        ap (λ m. (linked.entries (linked.sockfds m)).index) k_is
        ∙ ap (λ fd. (linked.entries fd).index) (update_self w.sockfds w.nfds sockfd)
        ∙ ap (λ (e : WaitEntry). e.index) entry_new
        ∙ ap some (sym k_is)
    | inr past ↦
        let k_ne = ==→ne k w.nfds past in
        let own = v.entered k (omega (arith, lt, k_ne)) in
        let ne : w.sockfds k ≢ sockfd =
          λ e. ground (arith, own, ap (λ fd. (w.entries fd).index) e ∙ absent) in
        ap (λ fd. (linked.entries fd).index) (update_ne w.sockfds w.nfds sockfd k k_ne)
        ∙ ap (λ (e : WaitEntry). e.index) (entry_old (w.sockfds k) ne)
        ∙ own
  ]

  linked_placed :
      (fd k : ℕ)
      → (linked.entries fd).index ≡ some k
      → (k < w.nfds + 1) × (linked.sockfds k ≡ fd) × ((linked.entries fd).sock ≡ some fd)
  linked_placed fd k e = elim (Bool-cases (fd == sockfd)) [
    | inl new ↦
        let same = ==→eq fd sockfd new in
        let entry = ap (λ x. linked.entries x) same ∙ entry_new in
        let k_is : w.nfds ≡ k = one_index (ap (λ (x : WaitEntry). x.index) entry) e in
        (
          omega (arith, k_is),
          ap (λ m. linked.sockfds m) (sym k_is) ∙ update_self w.sockfds w.nfds sockfd ∙ sym same,
          ap (λ (x : WaitEntry). x.sock) entry ∙ ap some (sym same),
        )
    | inr other ↦
        let entry = entry_old fd (==→ne fd sockfd other) in
        let own = ap (λ (x : WaitEntry). x.index) (sym entry) ∙ e in
        let (lt, here) = v.placed fd k own in
        (
          omega (arith, lt),
          update_ne w.sockfds w.nfds sockfd k (omega (arith, lt)) ∙ here,
          ap (λ (x : WaitEntry). x.sock) entry ∙ v.has_sock fd k own,
        )
  ]

-- Adding a socket of the context that is not in the set succeeds: the set is a set again with one
-- socket more, the socket is in it with the events asked for, and all other entries stay.
pub udp_wait_add-IsWaitSet :
    (a : App) (w : Wait) (sockfd events data_word : ℕ)
    → IsWaitSet w
    → IsOurs a sockfd
    → (w.entries sockfd).index ≡ none
    → (w' : Wait) × (udp_wait_add a w sockfd events data_word ≡ some w')
      × IsWaitSet w'
      × (w'.nfds ≡ w.nfds + 1)
      × ((w'.entries sockfd).index ≡ some w.nfds)
      × ((w'.entries sockfd).events ≡ events)
      × ((fd : ℕ) → fd ≢ sockfd → w'.entries fd ≡ w.entries fd)
unfolding udp_wait_add
udp_wait_add-IsWaitSet a w sockfd events data_word v ours absent =
    let set : IsWaitSet (linked w sockfd events data_word v absent) = record {
      entered = linked_entered w sockfd events data_word v absent;
      placed = λ fd k e.
          let (lt, here, _) = linked_placed w sockfd events data_word v absent fd k e in (lt, here);
      has_sock = λ fd k e. (linked_placed w sockfd events data_word v absent fd k e).2;
    } in
    let entry = entry_new w sockfd events data_word v absent in
    (
      linked w sockfd events data_word v absent,
      rw (ours, absent, udp_wait_add) refl,
      set,
      refl,
      ap (λ (x : WaitEntry). x.index) entry,
      ap (λ (x : WaitEntry). x.events) entry,
      entry_old w sockfd events data_word v absent,
    )

new-IsWaitSet : (garbage : ℕ → ℕ) → IsWaitSet (udp_wait_new garbage)
unfolding udp_wait_new
new-IsWaitSet garbage = record {
  entered = λ i lt. absurd (omega (arith, lt));
  placed = λ fd i e. absurd (ground (arith, e));
  has_sock = λ fd i e. absurd (ground (arith, e));
}
