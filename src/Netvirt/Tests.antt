-- ===== src/Netvirt/Tests.antt =====
-- Two entries for the same keys and one for others.
use chamelio.Common.{refl, [], none, some, ◌∷◌, ℕ, List, Option, ◌≡◌, arith}
use chamelio.Netvirt.History.{set_all, last_for, netvirt_table_get-set_all}
use chamelio.Netvirt.Table.{Keys, netvirt_table_get, NetvirtEntry, NetvirtTable}
use chamelio.Netvirt.Table.{netvirt_table_init, invalid_entry, hash_ints}

abbrev guest : ℕ → ℕ → NetvirtEntry
guest gre gid = record {
  keya = gre;
  keyb = 167772161;
  gid = gid;
  gre_key = gre;
  inner_ip = 167772161;
  outer_ip = 167772162;
}

abbrev three_entries : List NetvirtEntry
three_entries = guest 5 1 ∷ guest 6 2 ∷ guest 5 3 ∷ []

abbrev looked_up : Keys
looked_up = record { a = 5; b = 167772161 }

filled : Option NetvirtTable
unfolding set_all
filled = set_all (netvirt_table_init (λ i. invalid_entry)) three_entries

-- The table that the three entries make.
abbrev table_of : Option NetvirtTable → NetvirtTable
table_of none = λ i. invalid_entry
table_of (some t) = t

filled-some :
    set_all (netvirt_table_init (λ i. invalid_entry)) three_entries ≡ some (table_of filled)
unfolding filled netvirt_table_init hash_ints
filled-some = refl

netvirt_table_get-set_all_example :
    netvirt_table_get (table_of filled) looked_up ≡ last_for three_entries looked_up none
netvirt_table_get-set_all_example =
    netvirt_table_get-set_all (λ i. invalid_entry) three_entries (table_of filled) looked_up
      (ground arith) (omega arith) filled-some

newest : last_for three_entries looked_up none ≡ some (guest 5 3)
unfolding last_for
newest = refl
