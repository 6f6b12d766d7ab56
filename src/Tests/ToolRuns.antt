-- ===== src/Tests/ToolRuns.antt =====
-- The theorems on src/common/ioc_container.cppm, queue_utils.cppm, collect_utils.cppm, range_utils.cppm and
-- small_utils.cppm at concrete inputs.
use fast_db.Prelude.{
  ℕ, bytes_eq, suc, ◌+◌, List, [], ◌∷◌, Bytes, codes, none, some, length, ◌≡◌, ◌≢◌, refl,
}
use fast_db.Prelude.Assoc.{find}
use fast_db.IocContainer.{CreatorMap, resolve, register_simple, made, threw_bad_cast, undefined}
use fast_db.IocContainer.Resolution.{IsSound, register-resolve}
use fast_db.Mutexes.Threads.{sum_of}
use fast_db.LockFreeList.{
  LockFreeList, counting, idle, Reaches, here, next, load_head, exchanged, empty_list, display,
  size,
}
use fast_db.LockFreeList.Insertions.{newest_first, counts, insertions_kept}
use fast_db.RangeUtils.{nat_less}

-- Functions from numbers to numbers, whatever their type's name.
abbrev NumberType : ℕ → Type 0
NumberType t = ℕ

abbrev no_creators : CreatorMap NumberType NumberType
no_creators = []

no_creators-IsSound : IsSound NumberType NumberType no_creators
unfolding find
no_creators-IsSound key a h = cc

no_creator : find (codes "k") no_creators ≡ none
unfolding find
no_creator = refl

register-resolve_example :
    (n : CreatorMap NumberType NumberType) × (register_simple NumberType NumberType
        (codes "k")
        1
        suc
        no_creators
      ≡ some n)
    × IsSound NumberType NumberType n
    × ((args : ℕ) → resolve NumberType NumberType (codes "k") 1 args n ≡ made (suc args))
    × ((u : ℕ) (args : ℕ)
        → 1 ≢ u
        → resolve NumberType NumberType (codes "k") u args n ≡ threw_bad_cast)
    × ((q : Bytes) (u : ℕ) (args : ℕ)
        → codes "k" ≢ q
        → resolve NumberType NumberType q u args n
          ≡ resolve NumberType NumberType q u args no_creators)
    × ((q : Bytes) (u : ℕ) (args : ℕ) → resolve NumberType NumberType q u args n ≢ undefined)
    × ((u : ℕ) (other : ℕ → ℕ) → register_simple NumberType NumberType (codes "k") u other n ≡ none)
register-resolve_example =
    register-resolve NumberType NumberType (codes "k") 1 suc no_creators no_creators-IsSound
      no_creator

abbrev one_node : LockFreeList ℕ
one_node = record {
  nodes = (7, none) ∷ [];
  head = some 0;
  list_size = 0;
  threads = counting ∷ idle ∷ [];
}

one_insertion : Reaches (empty_list 2) one_node
unfolding empty_list
one_insertion = next (next here (load_head 0 7 refl)) (exchanged 0 7 none refl refl)

insertions_kept_example :
    (display one_node ≡ newest_first one_node.nodes)
    × (size one_node + sum_of counts one_node.threads ≡ length one_node.nodes)
insertions_kept_example = insertions_kept 2 one_node one_insertion

abbrev numbers : List ℕ
numbers = 5 ∷ 2 ∷ 3 ∷ []
