-- ===== src/Values/Value/MapValue.antt =====
-- `MapValue` of src/db/values.h.
use fast_db.Prelude.{Bytes, Option, bytes_eq}
use fast_db.Prelude.Assoc.{Assoc, find, insert}

-- `items[key] = value`
unfoldable pub set : Bytes → Bytes → Assoc Bytes Bytes → Assoc Bytes Bytes
set key value items = insert key value items

-- `none` stands for the `std::out_of_range` that is thrown on a key that is missing.
unfoldable pub get : Bytes → Assoc Bytes Bytes → Option Bytes
get key items = find key items
