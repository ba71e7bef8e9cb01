-- ===== src/Udp/App/Waiting.antt =====
-- A set of sockets to wait for stays one.
use chamelio.Common.{refl, none, some, inl, inr, ℕ, ◌<◌, ◌≡◌, Option, sym, ◌-◌, update, ◌≢◌, ◌∙◌}
use chamelio.Common.{arith, ap, update_ne, update_self, Bool-cases, ◌⊎◌, ◌==◌, ==→eq, ==→ne}
use chamelio.Common.{false, ◌+◌, leb}
use chamelio.Udp.App.State.{max_sockets}
use chamelio.Udp.App.Wait.{Wait, WaitEntry, taken_out, udp_wait_del}
use mathlib.Core.Path.{subst}

-- The places and the entries point at each other, and an entry with a place has its socket.
pub record IsWaitSet (w : Wait) : Type 0 where
  pub entered : (i : ℕ) → i < w.nfds → (w.entries (w.sockfds i)).index ≡ some i
  pub placed : (fd i : ℕ) → (w.entries fd).index ≡ some i → (i < w.nfds) × (w.sockfds i ≡ fd)
  pub has_sock : (fd i : ℕ) → (w.entries fd).index ≡ some i → (w.entries fd).sock ≡ some fd

-- What an entry asks for, and whether it is in the set.
abbrev pub SameWish : (e e' : WaitEntry) → Type 0
SameWish e e' =
    (e'.events ≡ e.events)
    × (e'.data_word ≡ e.data_word)
    × (e'.sock ≡ e.sock)
    × (e'.index ≡ none → e.index ≡ none)
    × (e.index ≡ none → e'.index ≡ none)

same_wish : (e : WaitEntry) → SameWish e e
same_wish e = (refl, refl, refl, λ x. x, λ x. x)

pub one_index : {i j : ℕ} {o : Option ℕ} → o ≡ some i → o ≡ some j → i ≡ j
one_index p q = ground (arith, p, q)

module _ (w : Wait) (sockfd i : ℕ) (v : IsWaitSet w) (at : (w.entries sockfd).index ≡ some i) where
  last_fd : ℕ
  last_fd = w.sockfds (w.nfds - 1)

  i_in : i < w.nfds
  i_in = (v.placed sockfd i at).0

  last_at : (w.entries last_fd).index ≡ some (w.nfds - 1)
  unfolding last_fd
  last_at = v.entered (w.nfds - 1) (omega (arith, i_in))

  -- The socket that goes is the last one exactly when its place is the last.
  goes_last : last_fd ≡ sockfd → i ≡ w.nfds - 1
  goes_last e = one_index at (ap (λ fd. (w.entries fd).index) (sym e) ∙ last_at)

  last_goes : i ≡ w.nfds - 1 → last_fd ≡ sockfd
  unfolding last_fd
  last_goes e = ap w.sockfds (sym e) ∙ (v.placed sockfd i at).1

  at_last : (k : ℕ) → k ≡ w.nfds - 1 → w.sockfds k ≡ last_fd
  unfolding last_fd
  at_last k e = ap w.sockfds e

  entry_gone : ((taken_out w sockfd i).entries sockfd).index ≡ none
  unfolding taken_out
  entry_gone =
      ap (λ (e : WaitEntry). e.index)
        (update_self
          (update w.entries (w.sockfds (w.nfds - 1))
            (record (w.entries (w.sockfds (w.nfds - 1))) { index = some i }))
          sockfd (record { events = 0; data_word = 0; index = none; sock = none }))

  abbrev moved_entries : ℕ → WaitEntry
  moved_entries = update w.entries last_fd (record (w.entries last_fd) { index = some i })

  entry_kept : (fd : ℕ) → fd ≢ sockfd → (taken_out w sockfd i).entries fd ≡ moved_entries fd
  unfolding taken_out last_fd
  entry_kept fd ne =
      update_ne moved_entries sockfd
        (record { events = 0; data_word = 0; index = none; sock = none }) fd ne

  entry_last :
      last_fd ≢ sockfd
      → (taken_out w sockfd i).entries last_fd ≡ record (w.entries last_fd) { index = some i }
  entry_last ne =
      entry_kept last_fd ne
      ∙ update_self w.entries last_fd (record (w.entries last_fd) { index = some i })

  entry_other :
      (fd : ℕ) → fd ≢ sockfd → fd ≢ last_fd → (taken_out w sockfd i).entries fd ≡ w.entries fd
  entry_other fd ne ne' =
      entry_kept fd ne
      ∙ update_ne w.entries last_fd (record (w.entries last_fd) { index = some i }) fd ne'

  place_taken : (taken_out w sockfd i).sockfds i ≡ last_fd
  unfolding taken_out last_fd
  place_taken = update_self w.sockfds i (w.sockfds (w.nfds - 1))

  place_kept : (k : ℕ) → k ≢ i → (taken_out w sockfd i).sockfds k ≡ w.sockfds k
  unfolding taken_out
  place_kept k ne = update_ne w.sockfds i (w.sockfds (w.nfds - 1)) k ne

  unlinked_entered :
      (k : ℕ)
      → k < w.nfds - 1
      → ((taken_out w sockfd i).entries ((taken_out w sockfd i).sockfds k)).index ≡ some k
  unlinked_entered k lt =
      let index_at = λ (fd : ℕ). ((taken_out w sockfd i).entries fd).index in
      elim (Bool-cases (k == i)) [
        | inl here ↦
            let k_is : k ≡ i = ==→eq k i here in
            let ne : last_fd ≢ sockfd = λ e. omega (arith, goes_last e, k_is, lt) in
            ap (λ m. index_at ((taken_out w sockfd i).sockfds m)) k_is
            ∙ ap index_at place_taken
            ∙ ap (λ (e : WaitEntry). e.index) (entry_last ne)
            ∙ ap some (sym k_is)
        | inr past ↦
            let k_ne = ==→ne k i past in
            let own = v.entered k (omega (arith, lt)) in
            let ne : w.sockfds k ≢ sockfd =
              λ e. k_ne (one_index (ap (λ fd. (w.entries fd).index) (sym e) ∙ own) at) in
            let ne' : w.sockfds k ≢ last_fd = λ e.
              omega
                (arith, one_index (ap (λ fd. (w.entries fd).index) (sym e) ∙ own) last_at, lt) in
            ap index_at (place_kept k k_ne)
            ∙ ap (λ (e : WaitEntry). e.index) (entry_other (w.sockfds k) ne ne')
            ∙ own
      ]

  -- What the entry of another socket has become.
  unlinked_entry :
      (fd : ℕ)
      → fd ≢ sockfd
      → ((fd ≡ last_fd)
          × ((taken_out w sockfd i).entries fd ≡ record (w.entries fd) { index = some i }))
        ⊎ ((fd ≢ last_fd) × ((taken_out w sockfd i).entries fd ≡ w.entries fd))
  unlinked_entry fd ne = elim (Bool-cases (fd == last_fd)) [
    | inl is_last ↦
        let e : fd ≡ last_fd = ==→eq fd last_fd is_last in
        let ne' : last_fd ≢ sockfd = λ x. ne (e ∙ x) in
        inl (
          e,
          ap (λ x. (taken_out w sockfd i).entries x) e
              ∙ entry_last ne'
              ∙ ap (λ x. record (w.entries x) { index = some i }) (sym e),
        )
    | inr other ↦ let ne' = ==→ne fd last_fd other in inr (ne', entry_other fd ne ne')
  ]

  unlinked_placed :
      (fd k : ℕ)
      → ((taken_out w sockfd i).entries fd).index ≡ some k
      → (k < w.nfds - 1) × ((taken_out w sockfd i).sockfds k ≡ fd)
  unlinked_placed fd k e = elim (Bool-cases (fd == sockfd)) [
    | inl gone ↦
        let same = ==→eq fd sockfd gone in
        absurd (
          ground
            (arith, sym e ∙ ap (λ x. ((taken_out w sockfd i).entries x).index) same ∙ entry_gone))
    | inr other ↦
        let ne = ==→ne fd sockfd other in
        elim (unlinked_entry fd ne) [
          | inl (is_last, entry) ↦
              let k_is : i ≡ k = one_index (ap (λ (x : WaitEntry). x.index) entry) e in
              let before : i ≢ w.nfds - 1 = λ q. ne (is_last ∙ last_goes q) in
              (
                omega (arith, i_in, before, k_is),
                ap (λ m. (taken_out w sockfd i).sockfds m) (sym k_is) ∙ place_taken ∙ sym is_last,
              )
          | inr (not_last, entry) ↦
              let own = ap (λ (x : WaitEntry). x.index) (sym entry) ∙ e in
              let (lt, here) = v.placed fd k own in
              let k_ne : k ≢ i = λ q. ne (sym here ∙ ap w.sockfds q ∙ (v.placed sockfd i at).1) in
              let before : k ≢ w.nfds - 1 = λ q. not_last (sym here ∙ at_last k q) in
              (omega (arith, lt, before), place_kept k k_ne ∙ here)
        ]
  ]

  unlinked_sock :
      (fd k : ℕ)
      → ((taken_out w sockfd i).entries fd).index ≡ some k
      → ((taken_out w sockfd i).entries fd).sock ≡ some fd
  unlinked_sock fd k e = elim (Bool-cases (fd == sockfd)) [
    | inl gone ↦
        let same = ==→eq fd sockfd gone in
        absurd (
          ground
            (arith, sym e ∙ ap (λ x. ((taken_out w sockfd i).entries x).index) same ∙ entry_gone))
    | inr other ↦ elim (unlinked_entry fd (==→ne fd sockfd other)) [
      | inl (is_last, entry) ↦
          ap (λ (x : WaitEntry). x.sock) entry
          ∙ v.has_sock fd (w.nfds - 1) (ap (λ x. (w.entries x).index) is_last ∙ last_at)
      | inr (not_last, entry) ↦
          ap (λ (x : WaitEntry). x.sock) entry
          ∙ v.has_sock fd k (ap (λ (x : WaitEntry). x.index) (sym entry) ∙ e)
    ]
  ]

  unlinked_wish :
      (fd : ℕ) → fd ≢ sockfd → SameWish (w.entries fd) ((taken_out w sockfd i).entries fd)
  unlinked_wish fd ne = elim (unlinked_entry fd ne) [
    | inl (is_last, entry) ↦
        let had = ap (λ x. (w.entries x).index) is_last ∙ last_at in
        subst (SameWish (w.entries fd)) (sym entry)
          (refl, refl, refl, λ x. absurd (ground (arith, x)), λ x. absurd (ground (arith, x, had)))
    | inr (not_last, entry) ↦ subst (SameWish (w.entries fd)) (sym entry) (same_wish (w.entries fd))
  ]

  unlinked_nfds : (taken_out w sockfd i).nfds ≡ w.nfds - 1
  unfolding taken_out
  unlinked_nfds = refl

  taken_out-IsWaitSet : IsWaitSet (taken_out w sockfd i)
  taken_out-IsWaitSet = record {
    entered = λ k lt. unlinked_entered k (omega (arith, lt, unlinked_nfds));
    placed = λ fd k e.
        let (lt, here) = unlinked_placed fd k e in (omega (arith, lt, unlinked_nfds), here);
    has_sock = unlinked_sock;
  }

-- Taking a socket out of a set succeeds: the set is a set again with one socket less, the socket is
-- no longer in it, and every other socket is in it as before with the events it waits for.
pub udp_wait_del-IsWaitSet :
    (w : Wait) (sockfd i : ℕ)
    → IsWaitSet w
    → sockfd < max_sockets
    → (w.entries sockfd).index ≡ some i
    → (w' : Wait) × (udp_wait_del w sockfd ≡ some w')
      × IsWaitSet w'
      × (w'.nfds + 1 ≡ w.nfds)
      × ((w'.entries sockfd).index ≡ none)
      × ((fd : ℕ) → fd ≢ sockfd → SameWish (w.entries fd) (w'.entries fd))
unfolding udp_wait_del
udp_wait_del-IsWaitSet w sockfd i v small at =
    let inside : leb max_sockets sockfd ≡ false = ground (arith, small) in
    let some_left = i_in w sockfd i v at in
    (
      taken_out w sockfd i,
      rw (inside, at, udp_wait_del) refl,
      taken_out-IsWaitSet w sockfd i v at,
      omega (arith, some_left, unlinked_nfds w sockfd i v at),
      entry_gone w sockfd i v at,
      unlinked_wish w sockfd i v at,
    )
