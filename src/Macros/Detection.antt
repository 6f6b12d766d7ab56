-- ===== src/Macros/Detection.antt =====
-- What the detection in utils/macro_definition.hpp tells apart.
use fast_db.Prelude.{ℕ, ◌≤◌, ◌<◌, true, false, not, ◌&&◌, ◌||◌, none, some, ◌≡◌, ◌≢◌, ◌↔◌, arith}
use fast_db.Macros.{
  Predefined, msvc_standard, other_standard, System, system, Compiler, is_clang, compiler,
  is_defined,
}

-- Both chains of version tests tell the same standards apart, except between C++20 and C++23: there MSVC's is C++20, and
-- the other compilers' is C++23.
pub msvc_standard-other_standard :
    (n : ℕ)
    → (n ≤ 202002 → msvc_standard n ≡ other_standard n)
      × ((202302 ≤ n → msvc_standard n ≡ other_standard n)
          × (202002 < n → n < 202302 → msvc_standard n ≢ other_standard n))
unfolding msvc_standard other_standard
msvc_standard-other_standard n =
    ((λ h. ground arith), ((λ h. ground arith), (λ low high. ground arith)))

-- The flags of a system agree with one another: Windows is of one width, Linux and Apple are Unix, and neither Windows nor a
-- POSIX system without `__unix__` is.
abbrev pub IsConsistent : System → Type 0
IsConsistent s =
    (s.is_win ≡ (s.is_win32 || s.is_win64))
    × (((s.is_win32 && s.is_win64) ≡ false)
        × (((s.is_linux && s.is_apple) ≡ false)
            × (((s.is_linux || s.is_apple) ≡ true → s.is_unix ≡ true)
                × (((s.is_win && s.is_unix) ≡ false)
                    × (((s.is_win || s.is_unix) ≡ not s.is_posix))))))

-- If the header accepts a system, its flags agree with one another. It accepts one if any of the macros that it tests is
-- defined; and it takes a compiler for Clang only if that defines `__clang__` without `__GNUC__`.
pub system-IsConsistent :
    (p : Predefined)
    → ((s : System) → system p ≡ some s → IsConsistent s)
      × ((system p ≡ none
            ↔ ((p.win64 || p.win32 || p.linux || p.apple || p.unix || p.posix_version) ≡ false))
          × ((c : Compiler)
              → compiler p ≡ some c
              → is_clang c ≡ (is_defined p.clang && not (is_defined p.gnuc))))
unfolding system compiler
system-IsConsistent p = ((λ s h. ground arith), (ground arith, (λ c h. ground arith)))
