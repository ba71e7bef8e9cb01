-- ===== src/Headers.antt =====
-- lib/utils/include/utils.h and lib/utils/pkt_hdrs/include/ip_hdr.h: fields of packet headers.
-- A field of type `beui16_t` or `beui32_t` is stored with its high byte first; the offsets count from
-- the start of the IP header.
use chamelio.Common.{ℕ, ◌+◌, ◌*◌, ◌/◌, ◌%◌, ◌^◌, u8, update, Bytes}

-- `f_beui16` and `f_beui32` of the field at an offset.
abbrev pub be16 : Bytes → ℕ → ℕ
be16 p k = p k * 2 ^ 8 + p (k + 1)

abbrev pub be32 : Bytes → ℕ → ℕ
be32 p k = be16 p k * 2 ^ 16 + be16 p (k + 2)

-- The field at an offset is set to `t_beui16 v` or `t_beui32 v`.
abbrev pub put8 : Bytes → ℕ → ℕ → Bytes
put8 p k v = update p k (u8 v)

abbrev pub put16 : Bytes → ℕ → ℕ → Bytes
put16 p k v = put8 (put8 p k (v / 2 ^ 8)) (k + 1) v

abbrev pub put32 : Bytes → ℕ → ℕ → Bytes
put32 p k v = put16 (put16 p k (v / 2 ^ 16)) (k + 2) v

-- `struct ip_hdr`
abbrev pub iph_v : Bytes → ℕ
iph_v p = p 0 / 2 ^ 4

abbrev pub iph_hl : Bytes → ℕ
iph_hl p = p 0 % 2 ^ 4

abbrev pub iph_ecn : Bytes → ℕ
iph_ecn p = p 1 % 2 ^ 2

abbrev pub ip_len : Bytes → ℕ
ip_len p = be16 p 2

abbrev pub ip_proto : Bytes → ℕ
ip_proto p = p 9

abbrev pub ip_src : Bytes → ℕ
ip_src p = be32 p 12

abbrev pub ip_dst : Bytes → ℕ
ip_dst p = be32 p 16
