-- ===== src/Macros.antt =====
-- utils/macro_definition.hpp: what its macros are, as functions of the macros that the compiler defines.
pub mod Detection
use fast_db.Prelude.{
  ℕ, Bool, true, false, not, ◌&&◌, ◌||◌, Option, none, some, List, [], ◌∷◌, ◌++◌, Bytes, codes,
  if◌then◌else◌, ltb, leb, ◌==◌,
}
use fast_db.Prelude.Options.{◌>>=◌}
use fast_db.Prelude.Decimal.{to_string_nat}

-- The macros of the compiler that the header reads: the values of those that are printed or compared, and for the others
-- whether they are defined. `size_digits` is `std::numeric_limits<size_t>::digits`.
pub record Predefined : Type 0 where
  pub msvc_lang : Option ℕ
  pub cplusplus : Option ℕ
  pub gnuc : Option (ℕ × ℕ)
  pub clang : Option (ℕ × ℕ)
  pub win64 : Bool
  pub win32 : Bool
  pub linux : Bool
  pub apple : Bool
  pub unix : Bool
  pub posix_version : Bool
  pub msc_ver : Bool
  pub size_digits : ℕ

pub data Standard : Type 0 where
  cpp23_or_later cpp20_or_later cpp17 cpp14 cpp11 cpp98 : Standard

-- The standards before C++20, which both chains tell apart alike.
abbrev pub older_standard : ℕ → Standard
older_standard n =
    if leb 201703 n
    then cpp17
    else if leb 201402 n
    then cpp14
    else if leb 201103 n
    then cpp11
    else cpp98

unfoldable pub msvc_standard : ℕ → Standard
msvc_standard n =
    if leb 202302 n
    then cpp23_or_later
    else if leb 202002 n
    then cpp20_or_later
    else older_standard n

unfoldable pub other_standard : ℕ → Standard
other_standard n =
    if ltb 202002 n
    then cpp23_or_later
    else if leb 202002 n
    then cpp20_or_later
    else older_standard n

-- `IS_CPP23_OR_LATER` and its like: exactly one is defined.
unfoldable pub standard : Option ℕ → Option ℕ → Standard
unfolding msvc_standard other_standard
standard (some n) cplusplus = msvc_standard n
standard none (some n) = other_standard n
standard none none = cpp98

abbrev pub standard_line : Standard → Bytes
standard_line cpp23_or_later = codes "C++23 or later"
standard_line cpp20_or_later = codes "C++20"
standard_line cpp17 = codes "C++17"
standard_line cpp14 = codes "C++14"
standard_line cpp11 = codes "C++11"
standard_line cpp98 = codes "C++98/03 or unknown"

abbrev pub value_line : Bytes → Option ℕ → List Bytes
value_line name none = []
value_line name (some n) = (name ++ (codes ": " ++ to_string_nat n)) ∷ []

abbrev pub version_lines : Bytes → Bytes → Option (ℕ × ℕ) → List Bytes
version_lines major minor none = []
version_lines major minor (some (m, n)) = value_line major (some m) ++ value_line minor (some n)

-- The lines that are printed; without `__cplusplus` the function does not compile.
unfoldable pub fast_db_macro_version : Predefined → Option (List Bytes)
unfolding standard
fast_db_macro_version p = p.cplusplus >>= (λ n. some (
    standard_line (standard p.msvc_lang p.cplusplus)
    ∷ (value_line (codes "__cplusplus") (some n)
        ++ (value_line (codes "_MSVC_LANG") p.msvc_lang
            ++ (version_lines (codes "__GNUC__") (codes "__GNUC_MINOR__") p.gnuc
                ++ version_lines (codes "__clang_major__") (codes "__clang_minor__") p.clang)))))

-- `PLATFORM_IS_WIN` and its like.
pub record System : Type 0 where
  pub is_win : Bool
  pub is_win32 : Bool
  pub is_win64 : Bool
  pub is_linux : Bool
  pub is_apple : Bool
  pub is_unix : Bool
  pub is_posix : Bool

abbrev pub system_of : Bool → Bool → Bool → Bool → Bool → Bool → Bool → System
system_of win win32 win64 linux apple unix posix = record {
  is_win = win;
  is_win32 = win32;
  is_win64 = win64;
  is_linux = linux;
  is_apple = apple;
  is_unix = unix;
  is_posix = posix;
}

-- `none` is `#error UNKNOWN SYSTEM`.
unfoldable pub system : Predefined → Option System
system p =
    if p.win64
    then some (system_of true false true false false false false)
    else if p.win32
    then some (system_of true true false false false false false)
    else if p.linux
    then some (system_of false false false true false true false)
    else if p.apple
    then some (system_of false false false false true true false)
    else if p.unix
    then some (system_of false false false false false true false)
    else if p.posix_version
    then some (system_of false false false false false false true)
    else none

pub data Compiler : Type 0 where
  gcc clang_compiler msvc : Compiler

abbrev pub is_defined : Option (ℕ × ℕ) → Bool
is_defined none = false
is_defined (some v) = true

-- `PLATFORM_IS_GCC` and its like, of which one is true; `none` is `#error UNKNOWN_COMPILER`.
unfoldable pub compiler : Predefined → Option Compiler
compiler p =
    if is_defined p.gnuc
    then some gcc
    else if is_defined p.clang
    then some clang_compiler
    else if p.msc_ver
    then some msvc
    else none

abbrev pub is_gcc : Compiler → Bool
is_gcc gcc = true
is_gcc clang_compiler = false
is_gcc msvc = false

abbrev pub is_clang : Compiler → Bool
is_clang gcc = false
is_clang clang_compiler = true
is_clang msvc = false

abbrev pub is_msvc : Compiler → Bool
is_msvc gcc = false
is_msvc clang_compiler = false
is_msvc msvc = true

-- `namespace platform`, and the text of `COMMON_FORCE_INLINE`.
pub record Platform : Type 0 where
  pub bitness : ℕ
  pub is_x64 : Bool
  pub is_x32 : Bool
  pub system_flags : System
  pub compiler_flags : Compiler
  pub force_inline : Bytes

abbrev pub force_inline_text : Compiler → Bytes
force_inline_text c =
    if is_msvc c then codes "__forceinline" else codes "inline __attribute__((always_inline))"

unfoldable pub platform : Predefined → Option Platform
unfolding system compiler
platform p = system p >>= (λ s. compiler p >>= (λ c. some (record {
  bitness = p.size_digits;
  is_x64 = p.size_digits == 64;
  is_x32 = p.size_digits == 32;
  system_flags = s;
  compiler_flags = c;
  force_inline = force_inline_text c;
})))
