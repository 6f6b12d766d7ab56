-- ===== src/Values/Value/ListValue.antt =====
-- `ListValue` of src/db/values.h: the items of a `std::list`.
use fast_db.Prelude.{
  ℕ, suc, List, [], ◌∷◌, ◌++◌, Bytes, if◌then◌else◌, ◌=?◌, bytes_eq, bytes_beq_iff, ◌≡◌, refl,
  arith,
}

unfoldable pub add : Bytes → List Bytes → List Bytes
add item items = items ++ item ∷ []

-- `std::list::remove`: every equal item goes.
unfoldable pub remove : Bytes → List Bytes → List Bytes
remove item [] = []
remove item (x ∷ xs) = let rest = remove item xs in if x =? item then rest else x ∷ rest

-- How often an item stands in a list.
unfoldable pub count : Bytes → List Bytes → ℕ
count item [] = 0
count item (x ∷ xs) = if x =? item then suc (count item xs) else count item xs

count-add :
    (q item : Bytes) (items : List Bytes)
    → count q (add item items) ≡ (if item =? q then suc (count q items) else count q items)
unfolding count add
count-add q item [] = refl
count-add q item (x ∷ xs) = ground (arith, count-add q item xs)

count-remove :
    (q item : Bytes) (items : List Bytes)
    → count q (remove item items) ≡ (if item =? q then 0 else count q items)
unfolding count remove
count-remove q item [] = ground arith
count-remove q item (x ∷ xs) =
    ground
      (arith, bytes_beq_iff x q, bytes_beq_iff x item, bytes_beq_iff item q, count-remove q item xs)

-- Adding an item raises how often it stands in the list by one, removing it makes that none, and neither changes how often
-- another item stands there.
pub list_operations :
    (q item : Bytes) (items : List Bytes)
    → (count q (add item items) ≡ (if item =? q then suc (count q items) else count q items))
      × (count q (remove item items) ≡ (if item =? q then 0 else count q items))
list_operations q item items = (count-add q item items, count-remove q item items)
