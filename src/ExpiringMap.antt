-- ===== src/ExpiringMap.antt =====
-- `LockFreeMapExprise` of src/common/collect_expiration_utils.cppm. A chain of nodes is the list of them from its head;
-- each operation is one step. `insert`, `find`, `remove` and the expiration thread hold the mutex of the bucket that they work
-- on; `clear`, `traverse` and `resize` hold none, so that they are one step only where no other thread runs beside them.
-- `system_clock::now()` is an argument, in nanoseconds, and the hash is a parameter. A table without buckets, on which `% table.size()` divides by zero, is excluded by `IsValid`.
pub mod Chains
pub mod Placement
pub mod Histories
pub mod Contents
pub mod Expiry
pub mod Validity
use fast_db.Prelude.{
  ℕ, zero, suc, ◌*◌, ◌%◌, ◌-◌, ◌+◌, Bool, true, false, List, [], ◌∷◌, ◌++◌, Option, none, some,
  if◌then◌else◌, ltb, leb, length, get_or, set, replicate, Eq, ◌=?◌,
}
use fast_db.Prelude.Size.{size_sub}

pub record Node (K V : Type 0) : Type 0 where
  pub key : K
  pub value : V
  pub timestamp : ℕ

abbrev pub Chain : Type 0 → Type 0 → Type 0
Chain K V = List (Node K V)

pub record ExpiringMap (K V : Type 0) : Type 0 where
  pub table : List (Chain K V)
  pub num_elements : ℕ

abbrev pub default_buckets : ℕ
default_buckets = 10

abbrev pub grow_threshold : ℕ
grow_threshold = 4

abbrev pub expiration_check_interval : ℕ
expiration_check_interval = 1_000_000_000

module _ {K V : Type 0} where
  -- The constructor.
  unfoldable pub with_buckets : ℕ → ExpiringMap K V
  with_buckets num_buckets = record { table = replicate num_buckets []; num_elements = 0 }

  -- A node whose `timestamp` is more than the interval before `now`.
  unfoldable pub is_expired : ℕ → Node K V → Bool
  is_expired now node = ltb expiration_check_interval (now - node.timestamp)

  -- The loop of `expiration_task` over one chain: what stays, and how often `--num_elements` runs. `Node **current = &bucket.head`
  -- does not compile, since `head` is a `std::atomic`; this is the walk as it is on a plain pointer.
  unfoldable pub expire_chain : ℕ → Chain K V → Chain K V × ℕ
  expire_chain now [] = ([], 0)
  expire_chain now (node ∷ rest) =
      let (kept, gone) = expire_chain now rest in
      if is_expired now node then (kept, suc gone) else (node ∷ kept, gone)

  unfoldable pub expire_table : ℕ → List (Chain K V) → List (Chain K V) × ℕ
  expire_table now [] = ([], 0)
  expire_table now (chain ∷ table) =
      let (kept, gone) = expire_chain now chain in
      let (rest, more) = expire_table now table in (kept ∷ rest, gone + more)

  -- One round of `expiration_task`.
  unfoldable pub expiration_round : ℕ → ExpiringMap K V → ExpiringMap K V
  expiration_round now m =
      let (table, gone) = expire_table now m.table in
      record { table = table; num_elements = size_sub m.num_elements gone }

  -- Without the mutex of any bucket.
  unfoldable pub clear : ExpiringMap K V → ExpiringMap K V
  clear m = record { table = replicate (length m.table) []; num_elements = 0 }

  unfoldable pub size : ExpiringMap K V → ℕ
  size m = m.num_elements

  -- `traverse`, with the state that `func` changes.
  unfoldable pub traverse_chain : {S : Type 0} → (K → V → S → S) → Chain K V → S → S
  traverse_chain func [] s = s
  traverse_chain func (node ∷ chain) s = traverse_chain func chain (func node.key node.value s)

  unfoldable pub traverse : {S : Type 0} → (K → V → S → S) → List (Chain K V) → S → S
  unfolding traverse_chain
  traverse func [] s = s
  traverse func (chain ∷ table) s = traverse func table (traverse_chain func chain s)

  -- `num_elements.load() >= GROW_THRESHOLD * table.size()`
  unfoldable pub grows : ℕ → List (Chain K V) → Bool
  grows n table = leb (grow_threshold * length table) n

module _ {K V : Type 0} ⦃e : Eq K⦄ where
  -- The loop of `find`.
  unfoldable pub find_chain : K → Chain K V → Option V
  find_chain key [] = none
  find_chain key (node ∷ rest) =
      let found = find_chain key rest in if node.key =? key then some node.value else found

  -- The loop of `remove`: the first node of the key is taken out.
  unfoldable pub remove_chain : K → Chain K V → Chain K V × Bool
  remove_chain key [] = ([], false)
  remove_chain key (node ∷ rest) =
      let (kept, found) = remove_chain key rest in
      if node.key =? key then (rest, true) else (node ∷ kept, found)

module _ {K V : Type 0} (hasher : K → ℕ) where
  abbrev pub get_bucket_index : K → List (Chain K V) → ℕ
  get_bucket_index key table = hasher key % length table

  -- `current->next = head; head = current`
  unfoldable pub push_node : Node K V → List (Chain K V) → List (Chain K V)
  push_node node table =
      let index = get_bucket_index node.key table in set table index (node ∷ get_or table index [])

  unfoldable pub rehash_chain : Chain K V → List (Chain K V) → List (Chain K V)
  rehash_chain [] new_table = new_table
  rehash_chain (current ∷ next) new_table = rehash_chain next (push_node current new_table)

  unfoldable pub rehash : List (Chain K V) → List (Chain K V) → List (Chain K V)
  rehash [] new_table = new_table
  rehash (chain ∷ table) new_table = rehash table (rehash_chain chain new_table)

  unfoldable pub resize : List (Chain K V) → List (Chain K V)
  resize table = rehash table (replicate (length table * 2) [])

  -- Where the table grows, `resize` destroys the bucket whose mutex the `lock_guard` of this call holds, and the guard then unlocks
  -- freed memory, which is undefined; what is modelled is the table that `resize` leaves.
  unfoldable pub insert : ℕ → K → V → ExpiringMap K V → ExpiringMap K V
  insert now key value m =
      let node : Node K V = record { key = key; value = value; timestamp = now } in
      let table = push_node node m.table in
      let n = m.num_elements + 1 in
      record { table = if grows n table then resize table else table; num_elements = n }

module _ {K V : Type 0} ⦃e : Eq K⦄ (hasher : K → ℕ) where
  unfoldable pub find : K → ExpiringMap K V → Option V
  find key m = find_chain key (get_or m.table (get_bucket_index hasher key m.table) [])

  unfoldable pub remove : K → ExpiringMap K V → ExpiringMap K V × Bool
  remove key m =
      let index = get_bucket_index hasher key m.table in
      let (chain, found) = remove_chain key (get_or m.table index []) in
      (
        record {
          table = set m.table index chain;
          num_elements = if found then size_sub m.num_elements 1 else m.num_elements;
        },
        found,
      )
