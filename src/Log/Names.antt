-- ===== src/Log/Names.antt =====
-- For which names `Log::init` of utils/log.h is defined: what its two buffers of 256 bytes hold.
use fast_db.Prelude.{
  ℕ, zero, suc, ◌+◌, ◌/◌, ◌%◌, ◌≤◌, ◌<◌, Bool, true, false, none, some, [], ◌∷◌, ◌++◌, Bytes, codes,
  length, length-append, All, ltb, leb, ◌==◌, ◌≡◌, inl, inr, refl, arith, Bool-cases,
}
use native.Mathlib.Decide.{dec_lt}
use fast_db.Prelude.Decimal.{digits, to_string_nat}
use fast_db.Log.{
  c_string, strncpy, base_name, Tm, two_digits, log_file_name, sprintf, init_calls, log_name, init,
}

-- A text that a C string can hold.
abbrev pub NoZero : Bytes → Type 0
NoZero = All (λ c. (c == 0) ≡ false)

c_string-strncpy :
    (n : ℕ) (s : Bytes)
    → NoZero s
    → (length s < n → c_string (strncpy n s) ≡ some s)
      × (n ≤ length s → c_string (strncpy n s) ≡ none)
unfolding strncpy c_string
c_string-strncpy zero s all = ((λ h. absurd (omega arith)), (λ h. refl))
c_string-strncpy (suc n) [] all = ((λ h. refl), (λ h. absurd (omega arith)))
c_string-strncpy (suc n) (c ∷ s) (nonzero, all) =
    let (short, long) = c_string-strncpy n s all in
    ((λ h. rw (nonzero, short (omega arith)) refl), (λ h. rw (nonzero, long (omega arith)) refl))

length-digits_one : (f n : ℕ) (out : Bytes) → n < 10 → length (digits f n out) ≡ suc (length out)
unfolding digits
length-digits_one zero n out h = refl
length-digits_one (suc f) n out h = ground arith

-- One digit is split off.
length-digits_more :
    (k f n : ℕ) (out : Bytes)
    → 10 ≤ n
    → n ≤ f
    → ((g : ℕ) (rest : Bytes) → n / 10 ≤ g → length (digits g (n / 10) rest) ≡ k + length rest)
    → length (digits f n out) ≡ suc k + length out
unfolding digits
length-digits_more k zero n out big h one = absurd (omega arith)
length-digits_more k (suc f) n out big h one =
    let large : ltb n 10 ≡ false = ground arith in
    rw large (omega (arith, one f ((b'0' + n % 10) ∷ out) (omega arith)))

length-digits_two :
    (f n : ℕ) (out : Bytes) → 10 ≤ n → n < 100 → n ≤ f → length (digits f n out) ≡ 2 + length out
length-digits_two f n out big small h =
    length-digits_more 1 f n out big h
      (λ g rest enough. omega (arith, length-digits_one g (n / 10) rest (omega arith)))

length-digits_three :
    (f n : ℕ) (out : Bytes) → 100 ≤ n → n < 1000 → n ≤ f → length (digits f n out) ≡ 3 + length out
length-digits_three f n out big small h =
    length-digits_more 2 f n out (omega arith) h
      (λ g rest enough. length-digits_two g (n / 10) rest (omega arith) (omega arith) enough)

length-digits_four :
    (f n : ℕ) (out : Bytes)
    → 1000 ≤ n
    → n < 10000
    → n ≤ f
    → length (digits f n out) ≡ 4 + length out
length-digits_four f n out big small h =
    length-digits_more 3 f n out (omega arith) h
      (λ g rest enough. length-digits_three g (n / 10) rest (omega arith) (omega arith) enough)

length-two_digits : (n : ℕ) → n < 100 → length (two_digits n) ≡ 2
unfolding two_digits to_string_nat
length-two_digits n h = elim (Bool-cases (ltb n 10)) [
  | inl e ↦ rw e (omega (arith, length-digits_one n n [] (ground arith)))
  | inr e ↦ rw e (omega (arith, length-digits_two n n [] (ground arith) h (omega arith)))
]

-- A date with a year of four digits, as `localtime` fills it.
abbrev pub IsDate : Tm → Type 0
IsDate t = (t.tm_year < 8100) × ((t.tm_mon < 12) × (t.tm_mday < 32))

length-log_file_name :
    (base : Bytes) (t : Tm) → IsDate t → length (log_file_name base t) ≡ length base + 15
unfolding log_file_name to_string_nat
length-log_file_name base t (year, (month, day)) =
    let y : Bytes = to_string_nat (1900 + t.tm_year) in
    let m : Bytes = two_digits (1 + t.tm_mon) in
    let d : Bytes = two_digits t.tm_mday in
    omega (
      arith,
      length-append (codes "log_[") (base ++ (codes "]_" ++ (y ++ (m ++ d)))),
      length-append base (codes "]_" ++ (y ++ (m ++ d))),
      length-append (codes "]_") (y ++ (m ++ d)),
      length-append y (m ++ d),
      length-append m d,
      length-digits_four (1900 + t.tm_year) (1900 + t.tm_year) [] (omega arith) (omega arith)
          (omega arith),
      length-two_digits (1 + t.tm_mon) (omega arith),
      length-two_digits t.tm_mday (omega arith),
    )

sprintf-log_file_name :
    (base : Bytes) (t : Tm)
    → IsDate t
    → (length base ≤ 240 → sprintf 256 (log_file_name base t) ≡ some (log_file_name base t))
      × (240 < length base → sprintf 256 (log_file_name base t) ≡ none)
unfolding sprintf
sprintf-log_file_name base t date =
    let size = length-log_file_name base t date in
    (
      (λ h.
          let room : leb (suc (length (log_file_name base t))) 256 ≡ true = ground (arith, size) in
          rw room refl),
      (λ h.
          let full : leb (suc (length (log_file_name base t))) 256 ≡ false = ground (arith, size) in
          rw full refl),
    )

-- For a date with a year of four digits, `init` is defined for a name of up to 255 bytes whose part behind the last slash has
-- up to 240, and then makes all its calls with the name and the file name. For a longer name it reads behind `gLogName`, and
-- for a longer part behind the slash it writes behind `gLogFileName`; what the buffer held before does not matter.
pub init_lem :
    (win32 : Bool) (name old : Bytes) (t : Tm)
    → NoZero name
    → IsDate t
    → (length name ≤ 255
        → length (base_name win32 name) ≤ 240
        → init win32 (some name) old t
          ≡ some (init_calls win32 name (log_file_name (base_name win32 name) t)))
      × ((255 < length name → init win32 (some name) old t ≡ none)
          × (240 < length (base_name win32 name) → init win32 (some name) old t ≡ none))
unfolding init log_name
init_lem win32 name old t all date =
    let (short, long) = c_string-strncpy 256 name all in
    let (fits, over) = sprintf-log_file_name (base_name win32 name) t date in
    (
      (λ h k. rw (short (omega arith), fits k) refl),
      (
        (λ h. rw (long (omega arith)) refl),
        (λ k. elim (dec_lt (length name) 256) [
          | yes less ↦ rw (short less, over k) refl
          | no more ↦ rw (long (omega arith)) refl
        ]),
      ),
    )
