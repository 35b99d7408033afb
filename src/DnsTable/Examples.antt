-- ===== src/DnsTable/Examples.antt =====
-- A DNS table with one address: runs, and the theorems at it.
use paws.Base.{◌≡◌, refl, none, some, [], ◌∷◌, arith, text, ℕ_discrete, eq_ignore_ascii_case}
use paws.Base.Assoc.{get, put}
use paws.DnsTable.Candidates.{DnsTableRecord, retain_live, has_host, refresh}
use paws.DnsTable.{IpAddr, v4, v6, Records, prune, insert, ttl_ms, lookup}
use paws.DnsTable.Invariant.{IsTable, insert-IsTable}
use paws.DnsTable.Lookup.{lookup-insert_fresh, two_hosts_are_ambiguous}

abbrev address : IpAddr
address = v4 0x01020304

abbrev known : DnsTableRecord
known = record { host = text "a.example"; expires_at_ms = 61000 }

abbrev table : Records
table = (address, known ∷ []) ∷ []

-- A new spelling of a known host replaces its record.
refreshed :
    insert 0 2000 address (text "A.example") 60 table
    ≡ (address, record { host = text "A.example"; expires_at_ms = 62000 } ∷ []) ∷ []
unfolding insert prune retain_live has_host refresh get put ttl_ms ℕ_discrete
refreshed = refl

empty-IsTable : IsTable []
empty-IsTable = record { distinct = tt; good = tt; bounded = omega arith }

table-IsTable : IsTable table
unfolding get has_host
table-IsTable = record {
  distinct = (refl, tt);
  good = ((omega arith, omega arith, (refl, tt)), tt);
  bounded = omega arith;
}

insert-IsTable_example : IsTable (insert 0 2000 address (text "b.example") 60 table)
insert-IsTable_example = insert-IsTable 0 2000 address (text "b.example") 60 table table-IsTable

lookup-insert_fresh_example :
    (lookup 3000 (v6 1) (insert 0 2000 (v6 1) (text "b.example") 60 table)).1
    ≡ some (text "b.example")
unfolding ttl_ms get ℕ_discrete
lookup-insert_fresh_example =
    lookup-insert_fresh 0 2000 3000 (v6 1) (text "b.example") 60 table table-IsTable refl

two_hosts_are_ambiguous_example :
    (lookup 3000 address (insert 0 2000 address (text "b.example") 60 table)).1 ≡ none
unfolding ttl_ms get eq_ignore_ascii_case ℕ_discrete
two_hosts_are_ambiguous_example =
    (two_hosts_are_ambiguous 0 2000 3000 address known (text "b.example") 60 table table-IsTable
      refl refl (omega arith) (omega arith) (omega arith)).0
