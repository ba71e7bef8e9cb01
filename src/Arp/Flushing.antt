-- ===== src/Arp/Flushing.antt =====
-- arp_buf_flush neither loses a packet nor sends it twice.
use chamelio.Arp.Buffer.{ArpBuf, BufEntry, ControlMsg, Flush, Channel, tx_msg, push}
use chamelio.Arp.Buffer.{queue_mbuf_tx, emptied}
use chamelio.Common.{zero, suc, [], none, some, true, false, ◌∷◌, ℕ, List, if◌then◌else◌, ◌++◌}
use chamelio.Common.{◌≡◌, ◌≤◌, ◌==◌, ◌+◌, Option, leb, ◌⊎◌, ◌&&◌, ◌<◌, ltb, update}
use chamelio.Common.{Bool}

-- The message of one entry, with its core, if it waits for the address.
abbrev pub waiting_msg : (ip : ℕ) → BufEntry → List (ℕ × ControlMsg)
waiting_msg ip e = if e.ip == ip then (e.core, tx_msg e) ∷ [] else []

-- The messages of the `n` entries from `i` on, in their order.
abbrev pub waiting_msgs : (buf : ArpBuf) (ip n i : ℕ) → List (ℕ × ControlMsg)
waiting_msgs buf ip zero i = []
waiting_msgs buf ip (suc n) i = waiting_msg ip (buf i) ++ waiting_msgs buf ip n (i + 1)

-- The messages are sent to the queues of their cores, one after the other.
abbrev pub push_all : List (ℕ × ControlMsg) → (ℕ → Channel) → Option (ℕ → Channel)
push_all [] qs = some qs
push_all ((core, msg) ∷ msgs) qs = elim (push (qs core) queue_mbuf_tx msg) [
  | none ↦ none
  | some q ↦ push_all msgs (update qs core q)
]

-- The entries from `i` on before `i + k` have been served: those for the address are emptied and
-- their messages sent; the others and those from `i + k` on are as they were.
pub record Served (ip i k : ℕ) (f f' : Flush) : Type 0 where
  pub sent : push_all (waiting_msgs f.buf ip k i) f.eqs ≡ some f'.eqs
  pub entries :
      (j : ℕ)
      → f'.buf j
        ≡ (if leb i j && ltb j (i + k) && (f.buf j).ip == ip then emptied (f.buf j) else f.buf j)

-- All `n` entries have been served, or the next one, `e`, has found its queue full.
abbrev pub Halts : (ip n k : ℕ) (e : BufEntry) → Flush → Type 0
Halts ip n k e f' =
    (f'.failed ≡ false) × (k ≡ n)
    ⊎ (f'.failed ≡ true)
      × (k < n)
      × (e.ip ≡ ip)
      × (push (f'.eqs e.core) queue_mbuf_tx (tx_msg e) ≡ none)

abbrev pub Stops : (ip n i : ℕ) → Flush → Flush → Type 0
Stops ip n i f f' = (k : ℕ) × (k ≤ n) × Served ip i k f f' × Halts ip n k (f.buf (i + k)) f'

abbrev after_push : Flush → (i : ℕ) → Channel → Flush
after_push f i q = record {
  buf = update f.buf i (emptied (f.buf i));
  eqs = update f.eqs (f.buf i).core q;
  flushed = true;
  failed = false;
}

-- The first `k` of `n` entries have been served, and all of them unless the next one has found its
-- queue full.
abbrev pub FlushedTo :
    (ip n : ℕ) (buf : ArpBuf) (eqs : ℕ → Channel) → ArpBuf × (ℕ → Channel) × Bool → Type 0
FlushedTo ip n buf eqs (buf', eqs', done) =
    (k : ℕ) × (k ≤ n)
    × (push_all (waiting_msgs buf ip k 0) eqs ≡ some eqs')
    × ((j : ℕ) → buf' j ≡ (if ltb j k && (buf j).ip == ip then emptied (buf j) else buf j))
    × ((k ≡ n)
        ⊎ ((done ≡ false)
            × ((buf k).ip ≡ ip)
            × (push (eqs' (buf k).core) queue_mbuf_tx (tx_msg (buf k)) ≡ none)))
