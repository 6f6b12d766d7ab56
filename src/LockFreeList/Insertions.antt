-- ===== src/LockFreeList/Insertions.antt =====
-- That no insertion is lost in src/common/collect_utils.cppm's `LockFreeList`.
use fast_db.Prelude.{
  ℕ, zero, suc, ◌+◌, List, [], ◌∷◌, ◌++◌, append_assoc, none, some, get_elem?, get_elem?-append,
  length, length-append, replicate, ◌≡◌, refl, sym, ap, ◌∙◌, arith,
}
use fast_db.Mutexes.Threads.{sum_of, sum_of-set}
use fast_db.LockFreeList.{
  Ptr, Phase, idle, linking, counting, LockFreeList, Step, load_head, exchanged, failed, counted,
  Reaches, here, next, empty_list, follow, display, size,
}

-- A thread that has still to count its node.
abbrev pub counts : {T : Type 0} → Phase T → ℕ
counts counting = 1
counts _ = 0

sum_of-replicate : (T : Type 0) (k : ℕ) → sum_of (counts {T = T}) (replicate k idle) ≡ 0
unfolding sum_of
sum_of-replicate T zero = refl
sum_of-replicate T (suc k) = omega (arith, sum_of-replicate T k)

module _ {T : Type 0} where
  -- The values of the nodes, the newest first.
  unfoldable pub newest_first : List (T × Ptr) → List T
  newest_first [] = []
  newest_first (node ∷ nodes) = newest_first nodes ++ node.0 ∷ []

  newest_first-append :
      (nodes : List (T × Ptr)) (node : T × Ptr)
      → newest_first (nodes ++ node ∷ []) ≡ node.0 ∷ newest_first nodes
  unfolding newest_first
  newest_first-append [] node = refl
  newest_first-append (first ∷ nodes) node =
      ap (λ xs. xs ++ first.0 ∷ []) (newest_first-append nodes node)

  -- Each node points to the one before it, and the head to the last.
  data Linked : List (T × Ptr) → Ptr → Type 0 where
    start : Linked [] none
    push :
        {nodes : List (T × Ptr)} {p : Ptr} (val : T)
        → Linked nodes p
        → Linked (nodes ++ (val, p) ∷ []) (some (length nodes))

  at_end :
      (nodes : List (T × Ptr)) (node : T × Ptr)
      → get_elem? (nodes ++ node ∷ []) (length nodes) ≡ some node
  at_end [] node = refl
  at_end (first ∷ nodes) node = at_end nodes node

  follow_step :
      (fuel a : ℕ) (nodes : List (T × Ptr)) (node : T × Ptr)
      → get_elem? nodes a ≡ some node
      → follow (suc fuel) nodes (some a) ≡ node.0 ∷ follow fuel nodes node.1
  unfolding follow
  follow_step fuel a nodes node h = rw (h, follow) refl

  length-snoc :
      (nodes : List (T × Ptr)) (node : T × Ptr) → length (nodes ++ node ∷ []) ≡ suc (length nodes)
  length-snoc nodes node = omega (arith, length-append nodes (node ∷ []))

  at_end-append :
      (nodes more : List (T × Ptr)) (node : T × Ptr)
      → get_elem? ((nodes ++ node ∷ []) ++ more) (length nodes) ≡ some node
  at_end-append nodes more node =
      get_elem?-append (nodes ++ node ∷ []) more (length nodes)
        (omega (arith, length-snoc nodes node))
      ∙ at_end nodes node

  -- More nodes change nothing for a pointer into those that are there.
  follow-append :
      (fuel : ℕ) (nodes more : List (T × Ptr)) (p : Ptr)
      → Linked nodes p
      → follow fuel (nodes ++ more) p ≡ follow fuel nodes p
  unfolding follow
  follow-append zero nodes more p linked = refl
  follow-append (suc fuel) nodes more p start = refl
  follow-append (suc fuel) whole more end (push {nodes} {p} val linked) =
      let node : T × Ptr = (val, p) in
      let tail = ap (λ ns. follow fuel ns p) (append_assoc nodes (node ∷ []) more) in
      follow_step fuel (length nodes) ((nodes ++ node ∷ []) ++ more) node
        (at_end-append nodes more node)
      ∙ ap (λ xs. val ∷ xs)
          (tail
            ∙ follow-append fuel nodes (node ∷ more) p linked
            ∙ sym (follow-append fuel nodes (node ∷ []) p linked))
      ∙ sym (follow_step fuel (length nodes) (nodes ++ node ∷ []) node (at_end nodes node))

  follow-Linked :
      {nodes : List (T × Ptr)} {p : Ptr}
      → Linked nodes p
      → follow (length nodes) nodes p ≡ newest_first nodes
  unfolding follow
  follow-Linked start = unfold newest_first in refl
  follow-Linked (push {nodes} {p} val linked) =
      let node : T × Ptr = (val, p) in
      ap (λ fuel. follow fuel (nodes ++ node ∷ []) (some (length nodes))) (length-snoc nodes node)
      ∙ follow_step (length nodes) (length nodes) (nodes ++ node ∷ []) node (at_end nodes node)
      ∙ ap (λ xs. val ∷ xs)
          (follow-append (length nodes) nodes (node ∷ []) p linked ∙ follow-Linked linked)
      ∙ sym (newest_first-append nodes node)

  record IsValid (s : LockFreeList T) : Type 0 where
    linked : Linked s.nodes s.head
    sized : s.list_size + sum_of counts s.threads ≡ length s.nodes

  Step-IsValid : {s t : LockFreeList T} → Step s t → IsValid s → IsValid t
  Step-IsValid (load_head {s} i val e) v = record {
    linked = v.linked;
    sized = omega (arith, sum_of-set counts s.threads i idle (linking val s.head) e, v.sized);
  }
  Step-IsValid (exchanged {s} i val expected e same) v = record {
    linked = rw (sym same) (push val v.linked);
    sized = omega (
      arith,
      sum_of-set counts s.threads i (linking val expected) counting e,
      v.sized,
      length-append s.nodes ((val, expected) ∷ []),
    );
  }
  Step-IsValid (failed {s} i val expected e) v = record {
    linked = v.linked;
    sized = omega (
      arith,
      sum_of-set counts s.threads i (linking val expected) (linking val s.head) e,
      v.sized,
    );
  }
  Step-IsValid (counted {s} i e) v = record {
    linked = v.linked;
    sized = omega (arith, sum_of-set counts s.threads i counting idle e, v.sized);
  }

  Reaches-IsValid : {s t : LockFreeList T} → Reaches s t → IsValid s → IsValid t
  Reaches-IsValid here v = v
  Reaches-IsValid (next r step) v = Step-IsValid step (Reaches-IsValid r v)

  empty_list-IsValid : (k : ℕ) → IsValid (empty_list k)
  unfolding empty_list
  empty_list-IsValid k = record { linked = start; sized = omega (arith, sum_of-replicate T k) }

  -- In every run of any number of inserting threads, the list holds exactly the values whose exchange has succeeded, the
  -- newest first, and the size is their number but for those that their threads have still to count.
  pub insertions_kept :
      (k : ℕ) (s : LockFreeList T)
      → Reaches (empty_list k) s
      → (display s ≡ newest_first s.nodes) × (size s + sum_of counts s.threads ≡ length s.nodes)
  unfolding display size
  insertions_kept k s r =
      let v = Reaches-IsValid r (empty_list-IsValid k) in (follow-Linked v.linked, v.sized)
