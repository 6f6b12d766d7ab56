-- ===== src/StringUtil/Case.antt =====
-- Letters and digits: `isInteger`, the four case conversions and the two comparisons that ignore case.
use fast_db.Prelude.{
  ℕ, ◌+◌, ◌-◌, ◌≤◌, Bool, true, false, not, ◌&&◌, ◌||◌, [], ◌∷◌, map, Bytes, if◌then◌else◌, ltb,
  leb, ◌==◌, bytes_beq, length, ◌≡◌, ◌↔◌, refl, arith, All, ap₂,
}

unfoldable pub is_integer : Bytes → Bool
is_integer [] = true
is_integer (c ∷ str) = if ltb b'9' c || ltb c b'0' then false else is_integer str

-- `str[i] += 0x20` for an upper-case letter
unfoldable pub lower : ℕ → ℕ
lower c = if leb b'A' c && leb c b'Z' then c + 0x20 else c

-- `str[i] -= 0x20` for a lower-case letter
unfoldable pub upper : ℕ → ℕ
upper c = if leb b'a' c && leb c b'z' then c - 0x20 else c

-- `toLower` changes its argument and returns a copy: what is returned, and the argument afterwards.
unfoldable pub to_lower_in_place : Bytes → Bytes × Bytes
unfolding lower
to_lower_in_place str = let t = map lower str in (t, t)

unfoldable pub to_upper_in_place : Bytes → Bytes × Bytes
unfolding upper
to_upper_in_place str = let t = map upper str in (t, t)

unfoldable pub char_is_letter : ℕ → Bool
char_is_letter c = (leb b'A' c && leb c b'Z') || (leb b'a' c && leb c b'z')

-- `::tolower` and `::toupper` in the "C" locale.
unfoldable pub tolower : ℕ → ℕ
tolower c = if ltb c b'A' || ltb b'Z' c then c else c - b'A' + b'a'

unfoldable pub toupper : ℕ → ℕ
toupper c = if ltb c b'a' || ltb b'z' c then c else c - b'a' + b'A'

unfoldable pub to_lower : Bytes → Bytes
to_lower str = map tolower str

unfoldable pub to_upper : Bytes → Bytes
to_upper str = map toupper str

unfoldable pub equals_ignore_case_sample : Bytes → Bytes → Bool
unfolding to_lower
equals_ignore_case_sample str1 str2 = bytes_beq (to_lower str1) (to_lower str2)

-- `abs(a - b)`, in `int`
unfoldable pub distance : ℕ → ℕ → ℕ
distance a b = if leb b a then a - b else b - a

-- The loop of `EqualsIgnoreCase`; the lengths are equal, so that both texts end at once.
unfoldable pub same_letters : Bytes → Bytes → Bool
unfolding distance char_is_letter
same_letters (a ∷ s1) (b ∷ s2) =
    let rest = same_letters s1 s2 in
    if a == b
    then rest
    else if not (char_is_letter a) || not (char_is_letter b)
    then false
    else if not (0x20 == distance a b)
    then false
    else rest
same_letters _ _ = true

unfoldable pub equals_ignore_case : Bytes → Bytes → Bool
unfolding same_letters
equals_ignore_case s1 s2 = if not (length s1 == length s2) then false else same_letters s1 s2

lower-tolower : (c : ℕ) → lower c ≡ tolower c
unfolding lower tolower
lower-tolower c = ground arith

upper-toupper : (c : ℕ) → upper c ≡ toupper c
unfolding upper toupper
upper-toupper c = ground arith

toupper-tolower : (c : ℕ) → toupper (tolower c) ≡ toupper c
unfolding toupper tolower
toupper-tolower c = ground arith

map_congr : (f g : ℕ → ℕ) → ((c : ℕ) → f c ≡ g c) → (s : Bytes) → map f s ≡ map g s
map_congr f g h [] = refl
map_congr f g h (c ∷ s) = ap₂ {A = ℕ} {B = Bytes} (λ a b. a ∷ b) (h c) (map_congr f g h s)

map_fold : (f g : ℕ → ℕ) → ((c : ℕ) → f (g c) ≡ f c) → (s : Bytes) → map f (map g s) ≡ map f s
map_fold f g h [] = refl
map_fold f g h (c ∷ s) = ap₂ {A = ℕ} {B = Bytes} (λ a b. a ∷ b) (h c) (map_fold f g h s)

-- The two ways to change case agree: the loops that change their argument leave in it, and return, what `ToLower` and
-- `ToUpper` compute; and raising after lowering is raising.
pub case_conversions :
    (s : Bytes)
    → (to_lower_in_place s ≡ (to_lower s, to_lower s))
      × (to_upper_in_place s ≡ (to_upper s, to_upper s))
      × (to_upper (to_lower s) ≡ to_upper s)
unfolding to_lower_in_place to_lower to_upper_in_place to_upper
case_conversions s = (
  rw (map_congr lower tolower lower-tolower s),
  rw (map_congr upper toupper upper-toupper s),
  map_fold toupper tolower toupper-tolower s,
)

-- What one round of the loop decides.
same_letter : ℕ → ℕ → Bool
same_letter a b =
    if a == b
    then true
    else if not (char_is_letter a) || not (char_is_letter b)
    then false
    else 0x20 == distance a b

same_letter-tolower : (a b : ℕ) → same_letter a b ≡ (tolower a == tolower b)
unfolding same_letter tolower char_is_letter distance
same_letter-tolower a b = ground arith

equals_ignore_case_step :
    (a b : ℕ) (s1 s2 : Bytes)
    → equals_ignore_case (a ∷ s1) (b ∷ s2) ≡ (same_letter a b && equals_ignore_case s1 s2)
unfolding equals_ignore_case same_letter
equals_ignore_case_step a b s1 s2 = ground arith

-- `EqualsIgnoreCase`, which compares letter by letter, says the same of any two texts as `EqualsIgnoreCaseSample`, which
-- compares the texts in lower case.
pub equals_ignore_case-sample :
    (s1 s2 : Bytes) → equals_ignore_case s1 s2 ≡ equals_ignore_case_sample s1 s2
unfolding equals_ignore_case equals_ignore_case_sample bytes_beq
equals_ignore_case-sample [] [] = refl
equals_ignore_case-sample [] (b ∷ s2) = ground arith
equals_ignore_case-sample (a ∷ s1) [] = ground arith
equals_ignore_case-sample (a ∷ s1) (b ∷ s2) =
    rw (equals_ignore_case_step a b s1 s2, same_letter-tolower a b, equals_ignore_case-sample s1 s2)

-- `isInteger` says true exactly if every byte is a digit, so also of the empty text.
pub is_integer_iff : (s : Bytes) → (is_integer s ≡ true) ↔ All (λ c. (b'0' ≤ c) × (c ≤ b'9')) s
unfolding is_integer
is_integer_iff [] = ((λ _. tt), (λ _. refl))
is_integer_iff (c ∷ s) = let ih = is_integer_iff s in ground (arith)
