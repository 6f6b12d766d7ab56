-- ===== src/Redis/Command.antt =====
-- `SetOptions` and `generate_command` of src/redis/redis_asio.hpp. A `std::string` is its bytes, and
-- what the string stream collects is the list of bytes that it prints.
use fast_db.Prelude.{
  ℤ, negsuc, eqb_ℤ, Bool, false, not, List, [], ◌∷◌, ◌++◌, Bytes, codes, length, if◌then◌else◌, ◌≡◌,
  refl,
}
use fast_db.Prelude.Decimal.{to_string_nat, to_string}

pub record SetOptions : Type 0 where
  pub nx : Bool
  pub xx : Bool
  pub ex : ℤ
  pub px : ℤ

-- The defaults; -1 stands for an option that is not given.
abbrev pub no_options : SetOptions
no_options = record { nx = false; xx = false; ex = negsuc 0; px = negsuc 0 }

abbrev pub is_given : ℤ → Bool
is_given n = not (eqb_ℤ n (negsuc 0))

-- The four pushes behind `parts`.
unfoldable pub push_options : SetOptions → List Bytes → List Bytes
push_options o words =
    let words = (if o.nx then words ++ codes "NX" ∷ [] else words) in
    let words = (if o.xx then words ++ codes "XX" ∷ [] else words) in
    let words =
      (if is_given o.ex then (words ++ codes "EX" ∷ []) ++ to_string o.ex ∷ [] else words) in
    if is_given o.px then (words ++ codes "PX" ∷ []) ++ to_string o.px ∷ [] else words

abbrev pub crlf : Bytes
crlf = 13 ∷ 10 ∷ []

-- The loop over `all_parts`: a bulk string for each part.
unfoldable pub write_parts : List Bytes → Bytes
write_parts [] = []
write_parts (part ∷ parts) =
    b'$' ∷ (to_string_nat (length part) ++ (crlf ++ (part ++ (crlf ++ write_parts parts))))

unfoldable pub write_array : List Bytes → Bytes
write_array all_parts = b'*' ∷ (to_string_nat (length all_parts) ++ (crlf ++ write_parts all_parts))

unfoldable pub generate_command : Bytes → List Bytes → SetOptions → Bytes
generate_command command parts options = write_array (push_options options (command ∷ parts))

-- A call that leaves the options out.
unfoldable pub plain_command : Bytes → List Bytes → Bytes
unfolding generate_command
plain_command command parts = generate_command command parts no_options

ping_bytes : plain_command (codes "PING") [] ≡ codes "*1\r\n$4\r\nPING\r\n"
unfolding plain_command push_options write_array write_parts to_string_nat
ping_bytes = refl
