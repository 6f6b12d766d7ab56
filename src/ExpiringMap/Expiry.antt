-- ===== src/ExpiringMap/Expiry.antt =====
-- What a round of `expiration_task` in src/common/collect_expiration_utils.cppm leaves of each key.
use fast_db.Prelude.{
  ℕ, zero, suc, ◌+◌, ◌%◌, List, [], ◌∷◌, if◌then◌else◌, length, get_or, Eq, ◌=?◌, ◌≡◌, refl, not,
  ◌&&◌, leb, ◌==◌, arith,
}
use fast_db.ExpiringMap.{
  Chain, ExpiringMap, expiration_round, expire_chain, expire_table, is_expired,
  expiration_check_interval,
}
use fast_db.ExpiringMap.Chains.{occurrences}
use fast_db.ExpiringMap.Histories.{history}
use fast_db.ExpiringMap.Validity.{length-expire_table}

module _ {K V : Type 0} ⦃e : Eq K⦄ (hasher : K → ℕ) where
  -- The values of a key whose nodes the round at `now` leaves.
  unfoldable pub fresh_values : ℕ → K → Chain K V → List V
  fresh_values now key [] = []
  fresh_values now key (node ∷ rest) =
      let old = fresh_values now key rest in
      if leb (node.timestamp + expiration_check_interval) now
        && not (node.timestamp + expiration_check_interval == now)
      then old
      else if node.key =? key
      then node.value ∷ old
      else old

  expire_chain-fresh :
      (now : ℕ) (key : K) (c : Chain K V)
      → occurrences key (expire_chain now c).0 ≡ fresh_values now key c
  unfolding occurrences expire_chain fresh_values is_expired
  expire_chain-fresh now key [] = refl
  expire_chain-fresh now key (node ∷ c) = ground (arith, expire_chain-fresh now key c)

  get_or-expire_table :
      (now i : ℕ) (table : List (Chain K V))
      → get_or (expire_table now table).0 i [] ≡ (expire_chain now (get_or table i [])).0
  unfolding expire_table expire_chain
  get_or-expire_table now i [] = refl
  get_or-expire_table now zero (c ∷ table) = refl
  get_or-expire_table now (suc i) (c ∷ table) = get_or-expire_table now i table

  -- A round of the expiration thread leaves of each key, in their order, exactly the values of the nodes that are not older
  -- than the interval.
  pub expiration_round-history :
      (now : ℕ) (key : K) (m : ExpiringMap K V)
      → history hasher key (expiration_round now m).table
        ≡ fresh_values now key (get_or m.table (hasher key % length m.table) [])
  unfolding expiration_round history
  expiration_round-history now key m =
      rw
        (
          length-expire_table now m.table,
          get_or-expire_table now (hasher key % length m.table) m.table,
        )
        (expire_chain-fresh now key (get_or m.table (hasher key % length m.table) []))
