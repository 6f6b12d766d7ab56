-- ===== src/LockFreeList.antt =====
-- `LockFreeList` of src/common/collect_utils.cppm: insertions by any number of threads at once, and removal, which the
-- source does without any protection, by one thread that is alone.
pub mod Insertions
use fast_db.Prelude.{
  ℕ, zero, suc, ◌+◌, ◌-◌, Bool, true, false, List, [], ◌∷◌, ◌++◌, Option, none, some, if◌then◌else◌,
  get_elem?, set, length, replicate, Eq, ◌=?◌, ◌≡◌,
}
use fast_db.Prelude.Size.{size_sub}

abbrev pub Ptr : Type 0
Ptr = Option ℕ

-- Where a thread stands in `insert`.
pub data Phase (T : Type 0) : Type 0 where
  idle : Phase T
  -- the new node's `data`, and its `next`, which is `expected`; before `compare_exchange_weak`
  linking : T → Ptr → Phase T
  -- before `listSize.fetch_add(1)`
  counting : Phase T

-- `nodes` are those that were made `head` once: a new node that no other thread can reach is still its thread's own.
pub record LockFreeList (T : Type 0) : Type 0 where
  pub nodes : List (T × Ptr)
  pub head : Ptr
  pub list_size : ℕ
  pub threads : List (Phase T)

pub data Step {T : Type 0} : LockFreeList T → LockFreeList T → Type 0 where
  load_head :
      {s : LockFreeList T} (i : ℕ) (val : T)
      → get_elem? s.threads i ≡ some idle
      → Step s (record s { threads = set s.threads i (linking val s.head) })
  exchanged :
      {s : LockFreeList T} (i : ℕ) (val : T) (expected : Ptr)
      → get_elem? s.threads i ≡ some (linking val expected)
      → s.head ≡ expected
      → Step s (record {
        nodes = s.nodes ++ (val, expected) ∷ [];
        head = some (length s.nodes);
        list_size = s.list_size;
        threads = set s.threads i counting;
      })
  -- The exchange failed, for another head or for no reason, and has loaded `head` into `expected`.
  failed :
      {s : LockFreeList T} (i : ℕ) (val : T) (expected : Ptr)
      → get_elem? s.threads i ≡ some (linking val expected)
      → Step s (record s { threads = set s.threads i (linking val s.head) })
  counted :
      {s : LockFreeList T} (i : ℕ)
      → get_elem? s.threads i ≡ some counting
      → Step s (record s { list_size = s.list_size + 1; threads = set s.threads i idle })

pub data Reaches {T : Type 0} : LockFreeList T → LockFreeList T → Type 0 where
  here : {s : LockFreeList T} → Reaches s s
  next : {s t u : LockFreeList T} → Reaches s t → Step t u → Reaches s u

unfoldable pub empty_list : {T : Type 0} → ℕ → LockFreeList T
empty_list k = record { nodes = []; head = none; list_size = 0; threads = replicate k idle }

-- The values from a pointer on, as `display` goes through them, at most `fuel` of them.
unfoldable pub follow : {T : Type 0} → ℕ → List (T × Ptr) → Ptr → List T
follow zero nodes p = []
follow (suc fuel) nodes none = []
follow (suc fuel) nodes (some a) = elim (get_elem? nodes a) [
  | none ↦ []
  | some node ↦ node.0 ∷ follow fuel nodes node.1
]

unfoldable pub display : {T : Type 0} → LockFreeList T → List T
unfolding follow
display s = follow (length s.nodes) s.nodes s.head

-- `size`
unfoldable pub size : {T : Type 0} → LockFreeList T → ℕ
size s = s.list_size

module _ {T : Type 0} ⦃e : Eq T⦄ where
  -- The loop of `remove` over the values from the head: the first equal one is unlinked.
  unfoldable pub unlink : T → List T → List T × Bool
  unlink val [] = ([], false)
  unlink val (x ∷ xs) =
      let (rest, found) = unlink val xs in if x =? val then (xs, true) else (x ∷ rest, found)

  unfoldable pub remove : T → List T × ℕ → (List T × ℕ) × Bool
  remove val (xs, list_size) =
      let (rest, found) = unlink val xs in
      ((rest, if found then size_sub list_size 1 else list_size), found)
