-- ===== src/Values/Value/SetValue.antt =====
-- `SetValue` of src/db/values.h: the items of a `std::unordered_set`, each once.
use fast_db.Prelude.{
  suc, ◌≤◌, ◌&&◌, ◌||◌, Bool, false, List, [], ◌∷◌, ◌++◌, Bytes, if◌then◌else◌, ◌=?◌, not, bytes_eq,
  bytes_beq_iff, ◌≡◌, refl, arith,
}
use fast_db.Values.Value.ListValue.{count}

unfoldable pub contains : Bytes → List Bytes → Bool
contains item [] = false
contains item (x ∷ xs) = (x =? item) || contains item xs

-- `insert`: an item that is there already changes nothing.
unfoldable pub add : Bytes → List Bytes → List Bytes
add item items = if contains item items then items else items ++ item ∷ []

-- `erase`: the one element that is equal.
unfoldable pub remove : Bytes → List Bytes → List Bytes
remove item [] = []
remove item (x ∷ xs) = if x =? item then xs else x ∷ remove item xs

abbrev pub IsDistinct : List Bytes → Type 0
IsDistinct items = (q : Bytes) → count q items ≤ 1

contains-append :
    (q item : Bytes) (items : List Bytes)
    → contains q (items ++ item ∷ []) ≡ ((item =? q) || contains q items)
unfolding contains
contains-append q item [] = refl
contains-append q item (x ∷ xs) = ground (arith, contains-append q item xs)

contains-add :
    (q item : Bytes) (items : List Bytes)
    → contains q (add item items) ≡ ((item =? q) || contains q items)
unfolding add
contains-add q item items = ground (arith, contains-append q item items, bytes_beq_iff item q)

count-eq-zero : (q : Bytes) (items : List Bytes) → contains q items ≡ false → count q items ≡ 0
unfolding count contains
count-eq-zero q [] h = refl
count-eq-zero q (x ∷ xs) h = ground (arith, count-eq-zero q xs)

contains-eq-false : (q : Bytes) (items : List Bytes) → count q items ≡ 0 → contains q items ≡ false
unfolding count contains
contains-eq-false q [] h = refl
contains-eq-false q (x ∷ xs) h = ground (arith, contains-eq-false q xs)

contains-remove :
    (q item : Bytes) (items : List Bytes)
    → count q items ≤ 1
    → contains q (remove item items) ≡ (not (item =? q) && contains q items)
unfolding contains remove count
contains-remove q item [] h = ground arith
contains-remove q item (x ∷ xs) h = ground (
  arith,
  bytes_beq_iff x q,
  bytes_beq_iff x item,
  bytes_beq_iff item q,
  contains-remove q item xs,
  contains-eq-false q xs,
)

count-remove-le :
    (q item : Bytes) (items : List Bytes) → count q (remove item items) ≤ count q items
unfolding count remove
count-remove-le q item [] = omega arith
count-remove-le q item (x ∷ xs) = ground (arith, count-remove-le q item xs)

count-append :
    (q item : Bytes) (items : List Bytes)
    → count q (items ++ item ∷ []) ≡ (if item =? q then suc (count q items) else count q items)
unfolding count
count-append q item [] = refl
count-append q item (x ∷ xs) = ground (arith, count-append q item xs)

-- Adding and removing keep the items of a set distinct, and the set holds what it should afterwards: all it held
-- and the item that was added, or all it held but the item that was removed.
pub set_operations :
    (item : Bytes) (items : List Bytes)
    → IsDistinct items
    → IsDistinct (add item items)
      × IsDistinct (remove item items)
      × ((q : Bytes) → contains q (add item items) ≡ ((item =? q) || contains q items))
      × ((q : Bytes) → contains q (remove item items) ≡ (not (item =? q) && contains q items))
unfolding add
set_operations item items h = (
  (λ q.
      ground (arith, h q, count-append q item items, count-eq-zero q items, bytes_beq_iff item q)),
  (λ q. omega (arith, h q, count-remove-le q item items)),
  (λ q. contains-add q item items),
  (λ q. contains-remove q item items (h q)),
)
