-- ===== src/Values/Value.antt =====
-- The class `Value` and its subclasses, in src/db/values.h. `D` is `double`. What `print` writes to standard
-- output is returned as bytes. An unordered container is the list of its elements in the order in which it
-- iterates over them; a new element stands last.
pub mod Doubles
pub mod ListValue
pub mod SetValue
pub mod MapValue
pub mod GeoValue
use fast_db.Prelude.{
  ℕ, ◌*◌, ◌%◌, ◌^◌, Bool, true, false, not, ◌&&◌, ◌||◌, List, [], ◌∷◌, ◌++◌, Bytes, codes, Option,
  none, some, if◌then◌else◌, ◌=?◌, bytes_eq, ◌≡◌, refl,
}
use fast_db.Values.Value.Doubles.{Double, Point}
use fast_db.Prelude.Assoc.{Assoc, find, insert}

pub data Value (D : Type 0) : Type 0 where
  list_value : List Bytes → Value D
  set_value : List Bytes → Value D
  map_value : Assoc Bytes Bytes → Value D
  geo_value : List (Point D) → Value D
  string_value : Bytes → Value D
  number_value : D → Value D

-- `type()`
unfoldable pub type_name : {D : Type 0} → Value D → Bytes
type_name (list_value items) = codes "List"
type_name (set_value items) = codes "Set"
type_name (map_value items) = codes "Map"
type_name (geo_value points) = codes "Geo"
type_name (string_value value) = codes "String"
type_name (number_value value) = codes "Number"

-- `for (item : items) std::cout << item << " "`
unfoldable pub print_items : List Bytes → Bytes
print_items [] = []
print_items (item ∷ items) = item ++ (codes " " ++ print_items items)

unfoldable pub print_pairs : Assoc Bytes Bytes → Bytes
print_pairs [] = []
print_pairs ((key, value) ∷ items) =
    key ++ (codes ":" ++ (value ++ (codes " " ++ print_pairs items)))

module _ (double : Double) where
  open double use {D}

  unfoldable pub print_points : List (Point D) → Bytes
  print_points [] = []
  print_points (point ∷ points) =
      codes "("
      ++ (double.print point.lat
          ++ (codes ", " ++ (double.print point.lon ++ (codes ") " ++ print_points points))))

  -- `print()`
  unfoldable pub print : Value D → Bytes
  unfolding print_items print_pairs
  print (list_value items) = codes "List: " ++ (print_items items ++ codes "\n")
  print (set_value []) = codes "Set: (empty)\n"
  print (set_value (item ∷ items)) = codes "Set: " ++ (print_items (item ∷ items) ++ codes "\n")
  print (map_value items) = codes "Map: " ++ (print_pairs items ++ codes "\n")
  print (geo_value points) = codes "Geo: " ++ (print_points points ++ codes "\n")
  print (string_value value) = codes "String: " ++ (value ++ codes "\n")
  print (number_value value) = codes "Number: " ++ (double.print value ++ codes "\n")
