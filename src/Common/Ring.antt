-- ===== src/Common/Ring.antt =====
-- Positions in a ring of `n` places, and the elements from a position on.
use Prim.Native.Nat.{ℕ, zero, suc, ◌+◌, ◌-◌, ◌≤◌, ◌<◌}
use chamelio.Common.Arrays.{Bytes, length}
use chamelio.Common.Tests.{ltb, if◌then◌else◌}
use mathlib.Core.List.{List, [], ◌∷◌, ◌++◌}
use mathlib.Core.Logic.{◌≢◌}
use mathlib.Core.Path.{◌≡◌, refl, ap, ap₂, ◌∙◌}
use native.Mathlib.Nat.{add-zero}
use native.Mathlib.Omega.{arith}
use Prim.Native.Nat.add

-- The place `k` places after place `h`.
abbrev pub slot_at : ℕ → ℕ → ℕ → ℕ
slot_at n h k = if ltb (h + k) n then h + k else h + k - n

pub slot_at-lt : (n h k : ℕ) → h < n → k ≤ n → slot_at n h k < n
slot_at-lt n h k p q = ground arith

pub slot_at-zero : (n h : ℕ) → h < n → slot_at n h 0 ≡ h
slot_at-zero n h p = ground arith

pub slot_at-full : (n h : ℕ) → h < n → slot_at n h n ≡ h
slot_at-full n h p = ground arith

pub slot_at-suc : (n h k : ℕ) → h < n → k < n → slot_at n (slot_at n h 1) k ≡ slot_at n h (suc k)
slot_at-suc n h k p q = ground arith

pub slot_at-add :
    (n h j k : ℕ) → h < n → j + k ≤ n → slot_at n (slot_at n h j) k ≡ slot_at n h (j + k)
slot_at-add n h j k p q = ground arith

-- Fewer than `n` places apart are different places.
pub slot_at-ne : (n h j k : ℕ) → h < n → j < n → k < n → j ≢ k → slot_at n h j ≢ slot_at n h k
slot_at-ne n h j k p q r ne = ground arith

-- The `n` bytes from offset `k` on.
abbrev pub bytes_at : Bytes → ℕ → ℕ → List ℕ
bytes_at p k zero = []
bytes_at p k (suc n) = p k ∷ bytes_at p (k + 1) n

-- The `n` bytes from place `h` on of the ring of `len` bytes that begins at `off`.
abbrev pub ring_bytes : Bytes → (off len h n : ℕ) → List ℕ
ring_bytes m off len h zero = []
ring_bytes m off len h (suc n) = m (off + h) ∷ ring_bytes m off len (slot_at len h 1) n

pub length-ring_bytes : (m : Bytes) (off len h n : ℕ) → length (ring_bytes m off len h n) ≡ n
length-ring_bytes m off len h zero = refl
length-ring_bytes m off len h (suc n) = ap suc (length-ring_bytes m off len (slot_at len h 1) n)

pub ring_bytes-add :
    (m : Bytes) (off len h j k : ℕ)
    → h < len
    → j + k ≤ len
    → ring_bytes m off len h (j + k)
      ≡ ring_bytes m off len h j ++ ring_bytes m off len (slot_at len h j) k
ring_bytes-add m off len h zero k p q = rw (add.zero k, slot_at-zero len h p)
ring_bytes-add m off len h (suc j) k p q = rw (add.suc j k) (
    ap (◌∷◌ (m (off + h))) (
      ring_bytes-add m off len (slot_at len h 1) j k (slot_at-lt len h 1 p (omega arith))
        (omega arith)
      ∙ rw (slot_at-suc len h j p (omega arith))))

-- Two memories that agree on the places of a window have the same bytes there.
pub ring_bytes_ext :
    (m m' : Bytes) (off len h n : ℕ)
    → h < len
    → n ≤ len
    → ((k : ℕ) → k < n → m' (off + slot_at len h k) ≡ m (off + slot_at len h k))
    → ring_bytes m' off len h n ≡ ring_bytes m off len h n
ring_bytes_ext m m' off len h zero p q e = refl
ring_bytes_ext m m' off len h (suc n) p q e =
    ap₂ ◌∷◌ (rw (slot_at-zero len h p) at (e 0 (omega arith))) (
      ring_bytes_ext m m' off len (slot_at len h 1) n (slot_at-lt len h 1 p (omega arith))
        (omega arith) (λ k lt. rw (slot_at-suc len h k p (omega arith)) (e (suc k) (omega arith))))

-- A window that holds the bytes of a buffer, place by place.
pub ring_bytes-eq-bytes_at :
    (m : Bytes) (off len h n : ℕ) (p : Bytes) (at_k : ℕ)
    → h < len
    → n ≤ len
    → ((k : ℕ) → k < n → m (off + slot_at len h k) ≡ p (at_k + k))
    → ring_bytes m off len h n ≡ bytes_at p at_k n
ring_bytes-eq-bytes_at m off len h zero p at_k lt le e = refl
ring_bytes-eq-bytes_at m off len h (suc n) p at_k lt le e =
    ap₂ ◌∷◌ (rw (slot_at-zero len h lt, add-zero) at (e 0 (omega arith))) (
      ring_bytes-eq-bytes_at m off len (slot_at len h 1) n p (at_k + 1)
        (slot_at-lt len h 1 lt (omega arith)) (omega arith)
        (λ k b.
          rw (slot_at-suc len h k lt (omega arith)) (e (suc k) (omega arith) ∙ ap p (omega arith))))
