-- ===== src/AsioCoro/Interleaving.antt =====
-- Several coroutines that each await one operation of deprecated/asio_coro_util.hpp on the same io_context: the events of the
-- loop, in any order, and what each coroutine gets.
use fast_db.Prelude.{
  ℕ, false, Option, none, some, List, [], ◌∷◌, if◌then◌else◌, get_elem?, get_elem?-set, set, ◌==◌,
  ==_iff, ◌≡◌, inl, inr, refl, arith, Bool-cases, Option-cases, ap, sym, ◌∙◌,
}
use fast_db.AsioCoro.{
  Completion, Value, Awaiter, set_resume_value, call_back, await_resume, await_ready,
}

-- Where a coroutine stands: before its `co_await`, suspended in it, or behind it with what `await_resume` gave.
pub data Coroutine : Type 0 where
  fresh suspended : Awaiter → Coroutine
  resumed : Option Value → Coroutine

-- The coroutine number `i` reaches its `co_await`, or its operation completes and the callback runs.
pub data Event : Type 0 where
  reach : ℕ → Event
  complete : ℕ → Completion → Event

-- `await_ready` is false, so that the coroutine is always suspended and `await_suspend` starts the operation.
unfoldable pub reached : Coroutine → Coroutine
reached (fresh aw) = if await_ready aw then resumed (await_resume aw) else suspended aw
reached (suspended aw) = suspended aw
reached (resumed v) = resumed v

-- The callback sets the result and resumes the coroutine. Only an operation that was started, and has not completed, completes.
unfoldable pub completed : Completion → Coroutine → Coroutine
unfolding call_back
completed c (fresh aw) = fresh aw
completed c (suspended aw) = resumed (await_resume (call_back c aw))
completed c (resumed v) = resumed v

abbrev pub event_target : Event → ℕ
event_target (reach i) = i
event_target (complete i c) = i

unfoldable pub handle_event : Event → Coroutine → Coroutine
unfolding reached completed
handle_event (reach i) co = reached co
handle_event (complete i c) co = completed c co

abbrev pub update : Option Coroutine → Event → List Coroutine → List Coroutine
update none e cos = cos
update (some co) e cos = set cos (event_target e) (handle_event e co)

-- The loop runs the events one after the other, each on the coroutine that it belongs to.
unfoldable pub run : List Event → List Coroutine → List Coroutine
unfolding handle_event
run [] cos = cos
run (e ∷ events) cos = run events (update (get_elem? cos (event_target e)) e cos)

-- The events of one coroutine, and what they do to it alone.
unfoldable pub own : ℕ → List Event → List Event
own i [] = []
own i (e ∷ events) = if event_target e == i then e ∷ own i events else own i events

unfoldable pub run_alone : List Event → Coroutine → Coroutine
run_alone [] co = co
run_alone (e ∷ events) co = run_alone events (handle_event e co)

update-own :
    (e : Event) (cos : List Coroutine) (i : ℕ) (co : Coroutine)
    → get_elem? cos i ≡ some co
    → get_elem? (update (get_elem? cos (event_target e)) e cos) i
      ≡ some (if event_target e == i then handle_event e co else co)
update-own e cos i co h = elim (Option-cases (get_elem? cos (event_target e))) [
  | inl f ↦
      let other : (event_target e == i) ≡ false = ground (arith, h, f, ==_iff (event_target e) i) in
      rw (f, other) h
  | inr (d, f) ↦ elim (Bool-cases (event_target e == i)) [
    | inl same ↦
        let here : event_target e ≡ i = (==_iff (event_target e) i).0 same in
        let equal : d ≡ co = ground (arith, f, rw (sym here) at h) in
        rw (f, get_elem?-set cos (event_target e) i (handle_event e d) d f, same, equal) refl
    | inr other ↦ rw (f, get_elem?-set cos (event_target e) i (handle_event e d) d f, other) h
  ]
]

run-own :
    (events : List Event) (cos : List Coroutine) (i : ℕ) (co : Coroutine)
    → get_elem? cos i ≡ some co
    → get_elem? (run events cos) i ≡ some (run_alone (own i events) co)
unfolding run own run_alone
run-own [] cos i co h = h
run-own (e ∷ events) cos i co h = elim (Bool-cases (event_target e == i)) [
  | inl same ↦
      rw same (run-own events _ i (handle_event e co) (rw same at (update-own e cos i co h)))
  | inr other ↦ rw other (run-own events _ i co (rw other at (update-own e cos i co h)))
]

run_alone-resumed :
    (events : List Event) (v : Option Value) → run_alone events (resumed v) ≡ resumed v
unfolding run_alone handle_event reached completed
run_alone-resumed [] v = refl
run_alone-resumed (reach i ∷ events) v = run_alone-resumed events v
run_alone-resumed (complete i c ∷ events) v = run_alone-resumed events v

-- In whatever order the events of several coroutines come, each coroutine ends as if it had been alone with its own events. If
-- it reaches its `co_await` and its operation then completes, it is resumed once, with the value that the callback made
-- of that completion, and no later event changes what it got.
pub run-interleaving :
    (events : List Event) (cos : List Coroutine) (i : ℕ) (co : Coroutine)
    → get_elem? cos i ≡ some co
    → (get_elem? (run events cos) i ≡ some (run_alone (own i events) co))
      × ((aw : Awaiter) (c : Completion) (more : List Event)
          → co ≡ fresh aw
          → own i events ≡ reach i ∷ (complete i c ∷ more)
          → get_elem? (run events cos) i ≡ some (resumed (some (aw.resume_value c))))
unfolding run_alone handle_event reached completed call_back set_resume_value
run-interleaving events cos i co h = (
  run-own events cos i co h,
  (λ aw c more start mine.
      run-own events cos i co h
      ∙ ap some (
          ap (λ (es : List Event). run_alone es co) mine
          ∙ (ap (run_alone (reach i ∷ (complete i c ∷ more))) start
              ∙ run_alone-resumed more (some (aw.resume_value c))))),
)
