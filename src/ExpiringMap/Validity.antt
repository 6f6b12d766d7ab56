-- ===== src/ExpiringMap/Validity.antt =====
-- That every operation of src/common/collect_expiration_utils.cppm keeps nodes in the buckets of their keys and counts them.
use fast_db.Prelude.{
  ℕ, suc, ◌+◌, ◌*◌, ◌%◌, ◌<◌, Bool, true, false, List, [], ◌∷◌, if◌then◌else◌, length, length-set,
  length-replicate, get_or, set, replicate, Eq, ◌≡◌, refl, sym, ap, ◌∙◌, inl, inr, Bool-cases,
  arith,
}
use fast_db.Prelude.Size.{size_sub, size_sub-exact}
use mathlib.Core.Path.{subst}
use native.Mathlib.Nat.{mod-lt}
use fast_db.ExpiringMap.{
  Node, Chain, ExpiringMap, expire_table, expiration_round, clear, push_node, resize, grows, insert,
  remove_chain, remove,
}
use fast_db.ExpiringMap.Chains.{
  remove_chain-length, remove_chain-All, expire_chain-length, expire_chain-All,
}
use fast_db.ExpiringMap.Placement.{
  total, Placed, IsValid, Placed-get, Placed-set, length-push_node, length-rehash, push_node-Placed,
  rehash-Placed, total-set, total-push_node, total-rehash, total-replicate, Placed-replicate,
}

module _ {K V : Type 0} (hasher : K → ℕ) where
  resize-Placed :
      (table : List (Chain K V)) → Placed hasher (length table * 2) 0 (resize hasher table)
  unfolding resize
  resize-Placed table =
      rehash-Placed hasher (length table * 2) table (replicate (length table * 2) [])
        (length-replicate (length table * 2) []) (Placed-replicate V hasher _ 0 _)

  pub length-resize : (table : List (Chain K V)) → length (resize hasher table) ≡ length table * 2
  unfolding resize
  length-resize table =
      length-rehash hasher table (replicate (length table * 2) [])
      ∙ length-replicate (length table * 2) []

  total-resize :
      (table : List (Chain K V)) → 0 < length table → total (resize hasher table) ≡ total table
  unfolding resize
  total-resize table h =
      let new_table : List (Chain K V) = replicate (length table * 2) [] in
      let none_yet : Chain K V = [] in
      let e = length-replicate (length table * 2) none_yet in
      omega (
        arith,
        total-rehash hasher table new_table (omega (arith, e, h)),
        total-replicate K V (length table * 2),
      )

  resize-IsValid :
      (table : List (Chain K V)) (n : ℕ)
      → 0 < length table
      → n ≡ total table
      → IsValid hasher (record { table = resize hasher table; num_elements = n })
  unfolding IsValid
  resize-IsValid table n h e = (
    omega (arith, length-resize table, h),
    subst (λ x. Placed hasher x 0 (resize hasher table)) (sym (length-resize table))
        (resize-Placed table),
    e ∙ sym (total-resize table h),
  )

  -- An insertion keeps the table valid, whether or not it grows.
  pub insert-IsValid :
      (now : ℕ) (key : K) (value : V) (m : ExpiringMap K V)
      → IsValid hasher m
      → IsValid hasher (insert hasher now key value m)
  unfolding IsValid insert
  insert-IsValid now key value m (h, p, e) =
      let node : Node K V = record { key = key; value = value; timestamp = now } in
      let table = push_node hasher node m.table in
      let n = m.num_elements + 1 in
      let longer : 0 < length table = omega (arith, length-push_node hasher node m.table, h) in
      let counted : n ≡ total table = omega (arith, total-push_node hasher node m.table h, e) in
      let placed : Placed hasher (length table) 0 table =
        subst (λ x. Placed hasher x 0 table) (sym (length-push_node hasher node m.table))
          (push_node-Placed hasher (length m.table) node m.table refl p) in
      elim (Bool-cases (grows n table)) [
        | inl t ↦ rw t (resize-IsValid table n longer counted)
        | inr t ↦ rw t (longer, placed, counted)
      ]

  expire_table-Placed :
      (n i now : ℕ) (table : List (Chain K V))
      → Placed hasher n i table
      → Placed hasher n i (expire_table now table).0
  unfolding Placed expire_table
  expire_table-Placed n i now [] h = tt
  expire_table-Placed n i now (c ∷ table) (h, t) = (
    expire_chain-All (λ node. hasher node.key % n ≡ i) now c h,
    expire_table-Placed n (i + 1) now table t,
  )

module _ {K V : Type 0} where
  pub length-expire_table :
      (now : ℕ) (table : List (Chain K V)) → length (expire_table now table).0 ≡ length table
  unfolding expire_table
  length-expire_table now [] = refl
  length-expire_table now (c ∷ table) = ap suc (length-expire_table now table)

  total-expire_table :
      (now : ℕ) (table : List (Chain K V))
      → total table ≡ total (expire_table now table).0 + (expire_table now table).1
  unfolding expire_table total
  total-expire_table now [] = refl
  total-expire_table now (c ∷ table) =
      omega (arith, total-expire_table now table, expire_chain-length now c)

module _ {K V : Type 0} (hasher : K → ℕ) where
  -- A round of the expiration thread keeps the table valid: the counter falls by the number of deleted nodes and never
  -- wraps.
  pub expiration_round-IsValid :
      (now : ℕ) (m : ExpiringMap K V) → IsValid hasher m → IsValid hasher (expiration_round now m)
  unfolding IsValid expiration_round
  expiration_round-IsValid now m (h, p, e) =
      let table = (expire_table now m.table).0 in
      let gone = (expire_table now m.table).1 in
      let same = length-expire_table now m.table in
      (
        omega (arith, same, h),
        subst (λ x. Placed hasher x 0 table) (sym same)
            (expire_table-Placed hasher (length m.table) 0 now m.table p),
        ap (λ n. size_sub n gone) (e ∙ total-expire_table now m.table)
            ∙ size_sub-exact (total table) gone,
      )

  pub clear-IsValid : (m : ExpiringMap K V) → 0 < length m.table → IsValid hasher (clear m)
  unfolding IsValid clear
  clear-IsValid m h =
      let none_yet : Chain K V = [] in
      (
        omega (arith, length-replicate (length m.table) none_yet, h),
        Placed-replicate V hasher _ 0 (length m.table),
        sym (total-replicate K V (length m.table)),
      )

-- The counter after a removal, where a chain and the table lose as many nodes.
count_down :
    (b : Bool) (n before after chain rest : ℕ)
    → chain ≡ rest + (if b then 1 else 0)
    → after + chain ≡ before + rest
    → n ≡ before
    → (if b then size_sub n 1 else n) ≡ after
count_down true n before after chain rest one balance c =
    let sum : n ≡ after + 1 = omega (arith, one, balance, c) in
    ap (λ x. size_sub x 1) sum ∙ size_sub-exact after 1
count_down false n before after chain rest one balance c = omega (arith, one, balance, c)

module _ {K V : Type 0} ⦃e : Eq K⦄ (hasher : K → ℕ) where
  remove_chain-count :
      (key : K) (table : List (Chain K V)) (j n : ℕ)
      → j < length table
      → n ≡ total table
      → (if (remove_chain key (get_or table j [])).1 then size_sub n 1 else n)
        ≡ total (set table j (remove_chain key (get_or table j [])).0)
  remove_chain-count key table j n h c =
      let chain = get_or table j [] in
      let rest = (remove_chain key chain).0 in
      count_down (remove_chain key chain).1 n (total table) (total (set table j rest))
        (length chain) (length rest) (remove_chain-length key chain) (total-set table j rest h) c

  -- Removing a key, present or not, keeps the table valid.
  pub remove-IsValid :
      (key : K) (m : ExpiringMap K V) → IsValid hasher m → IsValid hasher (remove hasher key m).0
  unfolding IsValid remove
  remove-IsValid key m (h, p, c) =
      let j = hasher key % length m.table in
      let chain = get_or m.table j [] in
      let rest = (remove_chain key chain).0 in
      let same = length-set m.table j rest in
      let here = Placed-get hasher (length m.table) 0 j m.table p in
      (
        omega (arith, same, h),
        subst (λ x. Placed hasher x 0 (set m.table j rest)) (sym same)
            (Placed-set hasher (length m.table) 0 j m.table rest p (
              remove_chain-All (λ (node : Node K V). hasher node.key % length m.table ≡ 0 + j) key
                chain here)),
        remove_chain-count key m.table j m.num_elements (mod-lt (hasher key) h) c,
      )

  -- Inserting, with or without growth, removing a key, present or not, an expiration round at any time and clearing keep the
  -- map valid: every node stands in the bucket of its key, and the counter is the number of nodes and never wraps.
  pub operations-IsValid :
      (now : ℕ) (key : K) (value : V) (m : ExpiringMap K V)
      → IsValid hasher m
      → IsValid hasher (insert hasher now key value m)
        × IsValid hasher (remove hasher key m).0
        × IsValid hasher (expiration_round now m)
        × IsValid hasher (clear m)
  unfolding IsValid
  operations-IsValid now key value m v = (
    insert-IsValid hasher now key value m v,
    remove-IsValid key m v,
    expiration_round-IsValid hasher now m v,
    clear-IsValid hasher m v.0,
  )
