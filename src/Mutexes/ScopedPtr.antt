-- ===== src/Mutexes/ScopedPtr.antt =====
-- `scoped_ptr` of src/common/mutex_utils.cppm over a heap that knows which objects are alive.
use fast_db.Prelude.{
  ℕ, zero, suc, ◌<◌, Bool, true, false, List, [], ◌∷◌, Option, none, some, get_elem?,
  get_elem?-set_self, get_elem?-set_ne, set, length, ◌≡◌, ◌≢◌, refl, arith,
}
use fast_db.Prelude.Options.{◌>>=◌}

-- Whether the object at each address is alive.
abbrev pub Heap : Type 0
Heap = List Bool

abbrev pub Ptr : Type 0
Ptr = Option ℕ

-- `delete p`; none stands for the undefined deletion of an object that is not alive.
unfoldable pub delete_at : ℕ → Heap → Option Bool → Option Heap
delete_at a heap none = none
delete_at a heap (some false) = none
delete_at a heap (some true) = some (set heap a false)

unfoldable pub delete : Ptr → Heap → Option Heap
delete none heap = some heap
delete (some a) heap = delete_at a heap (get_elem? heap a)

-- The pointer and the heap.
abbrev pub ScopedPtr : Type 0
ScopedPtr = Ptr × Heap

unfoldable pub scoped_ptr : Ptr → Heap → ScopedPtr
scoped_ptr p heap = (p, heap)

unfoldable pub get : ScopedPtr → Ptr
get (p, heap) = p

unfoldable pub reset : Ptr → ScopedPtr → Option ScopedPtr
reset p (old, heap) = delete old heap >>= λ heap'. some (p, heap')

unfoldable pub release : ScopedPtr → Ptr × ScopedPtr
release (p, heap) = (p, (none, heap))

-- The destructor.
unfoldable pub destroy : ScopedPtr → Option Heap
destroy (p, heap) = delete p heap

in_range : (heap : Heap) (a : ℕ) (b : Bool) → get_elem? heap a ≡ some b → a < length heap
in_range [] a b h = cc
in_range (x ∷ heap) zero b h = omega arith
in_range (x ∷ heap) (suc a) b h = omega (arith, in_range heap a b h)

-- Resetting a pointer to another object that is alive deletes the old one, and the destructor then deletes the new one;
-- resetting it to the object that it has already makes the destructor's deletion undefined.
pub reset-destroy :
    (a b : ℕ) (heap : Heap)
    → get_elem? heap a ≡ some true
    → get_elem? heap b ≡ some true
    → (a ≢ b → (reset (some b) (some a, heap) >>= destroy) ≡ some (set (set heap a false) b false))
      × ((reset (some a) (some a, heap) >>= destroy) ≡ none)
unfolding reset destroy delete delete_at
reset-destroy a b heap ha hb = (
  λ apart. rw (ha, get_elem?-set_ne heap a b false apart, hb) refl,
  rw (ha, get_elem?-set_self heap a false (in_range heap a true ha)) refl,
)
