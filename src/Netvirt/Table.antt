-- ===== src/Netvirt/Table.antt =====
-- netvirt_table.c, with the structures of netvirt.h.
use Prim.Native.Nat.{bit_xor}
use chamelio.Common.{none, some, true, ℕ, if◌then◌else◌, Bool, ◌≡◌, ◌<◌, ◌^◌, ltb, u64, ◌==◌}
use chamelio.Common.{arith, Option, ◌-◌, ◌&&◌, update, ◌*◌, ◌%◌}
use chamelio.Probe.{Keyed, place, find}

-- NETVIRT_LEN and NETVIRT_INVALID, which is -1 as a `__u32`.
abbrev pub netvirt_len : ℕ
netvirt_len = 64

abbrev pub netvirt_invalid : ℕ
netvirt_invalid = 2 ^ 32 - 1

-- `struct netvirt_entry`
pub record NetvirtEntry : Type 0 where
  pub keya : ℕ
  pub keyb : ℕ
  pub gid : ℕ
  pub gre_key : ℕ
  pub inner_ip : ℕ
  pub outer_ip : ℕ

-- The two keys of an entry.
pub record Keys : Type 0 where
  pub a : ℕ
  pub b : ℕ

abbrev pub keys_of : NetvirtEntry → Keys
keys_of e = record { a = e.keya; b = e.keyb }

-- `struct netvirt_table`
abbrev pub NetvirtTable : Type 0
NetvirtTable = ℕ → NetvirtEntry

abbrev pub invalid_entry : NetvirtEntry
invalid_entry = record {
  keya = netvirt_invalid;
  keyb = netvirt_invalid;
  gid = netvirt_invalid;
  gre_key = netvirt_invalid;
  inner_ip = netvirt_invalid;
  outer_ip = netvirt_invalid;
}

unfoldable pub netvirt_table_init : NetvirtTable → NetvirtTable
netvirt_table_init vals i = if ltb i netvirt_len then invalid_entry else vals i

-- FNV over the two keys, in 64 bits.
unfoldable pub hash_ints : Keys → ℕ
hash_ints k =
    let h = u64 (bit_xor 14695981039346656037 k.a * 1099511628211) in
    u64 (bit_xor h k.b * 1099511628211) % netvirt_len

abbrev pub same_keys : Keys → Keys → Bool
same_keys k l = k.a == l.a && k.b == l.b

pub same_keys_eq : (k l : Keys) → same_keys k l ≡ true → k ≡ l
same_keys_eq k l e = ground (arith, e)

pub same_keys_refl : (k : Keys) → same_keys k k ≡ true
same_keys_refl k = ground arith

pub hash_ints_lt : (k : Keys) → hash_ints k < netvirt_len
unfolding hash_ints
hash_ints_lt k = omega arith

-- What the two loops ask of the keys.
abbrev pub netvirt_keyed : Keyed Keys
netvirt_keyed = record {
  size = netvirt_len;
  is_same = same_keys;
  is_free = λ k. k.a == netvirt_invalid;
  hash = hash_ints;
  hash_lt = hash_ints_lt;
  same_eq = same_keys_eq;
  same_refl = same_keys_refl;
}

unfoldable pub netvirt_table_set : NetvirtTable → NetvirtEntry → Option NetvirtTable
unfolding place
netvirt_table_set vals e =
    elim (place netvirt_keyed (λ i. keys_of (vals i)) (keys_of e) netvirt_len
      (hash_ints (keys_of e))) [ none ↦ none | some i ↦ some (update vals i e) ]

unfoldable pub netvirt_table_get : NetvirtTable → Keys → Option NetvirtEntry
unfolding find
netvirt_table_get vals k =
    elim (find netvirt_keyed (λ i. keys_of (vals i)) k netvirt_len (hash_ints k)) [
      | none ↦ none
      | some i ↦ some (vals i)
    ]
