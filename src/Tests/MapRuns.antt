-- ===== src/Tests/MapRuns.antt =====
-- The theorems on src/common/collect_expiration_utils.cppm at small maps.
use fast_db.Prelude.{none, if◌then◌else◌, ℕ, [], ◌∷◌, some, nat_eq, ◌≡◌, refl, arith}
use fast_db.ExpiringMap.{
  ExpiringMap, with_buckets, push_node, insert, find, remove, expiration_round, clear, grows,
}
use fast_db.ExpiringMap.Chains.{occurrences, tail, nonempty}
use fast_db.ExpiringMap.Placement.{total, Placed, IsValid}
use fast_db.ExpiringMap.Validity.{operations-IsValid}
use fast_db.ExpiringMap.Histories.{history}
use fast_db.ExpiringMap.Expiry.{fresh_values, expiration_round-history}
use fast_db.ExpiringMap.Contents.{pushed, Single, insert-history, insert-find}
use fast_db.LockFreeMap
use fast_db.LockFreeMap.{missing}
use fast_db.LockFreeMap.Contents.{Reads, insert-Reads, new_map-Reads}
use fast_db.Prelude.{◌≤◌, ◌=?◌, nat_eq, if◌then◌else◌}

abbrev hasher : ℕ → ℕ
hasher n = n

-- One bucket, with two values of the key 1; the next insertion but one makes it grow.
abbrev two : ExpiringMap ℕ ℕ
two = record {
  table =
      (record { key = 1; value = 11; timestamp = 0 }
        ∷ record { key = 1; value = 10; timestamp = 0 }
        ∷ record { key = 2; value = 20; timestamp = 0 }
        ∷ [])
      ∷ [];
  num_elements = 3;
}

two-IsValid : IsValid hasher two
unfolding IsValid Placed total
two-IsValid = (omega arith, (((refl, (refl, (refl, tt)))), tt), refl)

-- One bucket, with one value of each of two keys.
abbrev single : ExpiringMap ℕ ℕ
single = record {
  table =
      (record { key = 1; value = 10; timestamp = 0 }
        ∷ record { key = 2; value = 20; timestamp = 0 }
        ∷ [])
      ∷ [];
  num_elements = 2;
}

single-IsValid : IsValid hasher single
unfolding IsValid Placed total
single-IsValid = (omega arith, ((refl, (refl, tt)), tt), refl)

single-Single : Single hasher single
unfolding Single history occurrences
single-Single k = ground arith

operations-IsValid_example :
    IsValid hasher (insert hasher 5 3 30 two)
    × IsValid hasher (remove hasher 3 two).0
    × IsValid hasher (expiration_round 5 two)
    × IsValid hasher (clear two)
operations-IsValid_example = operations-IsValid hasher 5 3 30 two two-IsValid

insert-history_example : history hasher 1 (insert hasher 5 3 30 two).table ≡ 10 ∷ 11 ∷ []
unfolding pushed history occurrences grows fast_db.ExpiringMap.Chains.reverse_onto
insert-history_example = insert-history hasher 5 3 1 30 two two-IsValid

insert-find_example :
    (find hasher 3 (insert hasher 5 3 30 single) ≡ some 30)
    × Single hasher (insert hasher 5 3 30 single)
unfolding find fast_db.ExpiringMap.find_chain
insert-find_example = insert-find hasher 5 3 3 30 single single-IsValid single-Single refl

expiration_round-history_example : history hasher 1 (expiration_round 2_000_000_000 two).table ≡ []
unfolding fresh_values
expiration_round-history_example = expiration_round-history hasher 2_000_000_000 1 two

abbrev two_empty_buckets : LockFreeMap.LockFreeMap ℕ ℕ
two_empty_buckets = LockFreeMap.new_map 2

insert-Reads_example :
    (bound : ℕ) × ((fuel : ℕ)
      → bound ≤ fuel
      → ((q : ℕ) → LockFreeMap.find (λ k. k) fuel q (two_empty_buckets) ≡ missing)
        × ((key : ℕ) (value : ℕ)
            → Reads
                (λ k. k)
                (LockFreeMap.insert (λ k. k) fuel key value two_empty_buckets)
                (λ q. if key =? q then some value else none)))
insert-Reads_example =
    insert-Reads (λ k. k) two_empty_buckets (λ q. none) (new_map-Reads (λ k. k) 2 (omega arith))
