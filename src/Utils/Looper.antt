-- ===== src/Utils/Looper.antt =====
-- krypton/utils/looper.cc: a thread that runs the closures posted to it. A closure is a value of a
-- type C; the thread's own code is a program counter and one step of it, so that the calls of other
-- threads, and of the closure that is running, come in between the steps in any order. A mutex makes
-- each of its blocks one step.
pub mod Order
pub mod Joined
pub mod Drain
use vpn_libraries.Prelude.{ℕ, suc, zero, Bool, true, false, List, [], ◌∷◌, ◌++◌, if◌then◌else◌}

-- Where the thread stands in LooperThread::Loop.
pub data Phase : Type 0 where
  entering dispatching cleaning stopping returned fatal : Phase

-- `ran` and `cleaned` hold the closures and the cleanup handlers that were run, oldest first.
pub record LooperThread {ℓ} (C : Type ℓ) : Type ℓ where
  pub queue : List C
  pub cleanup_queue : List C
  pub started : Bool
  pub lameduck : Bool
  pub cleaned_up : Bool
  pub stopped : Bool
  pub phase : Phase
  pub ran : List C
  pub cleaned : List C

-- What Dequeue does: it waits for the queue to change, it returns nothing, or it returns a closure.
pub data Dequeued {ℓ} (C : Type ℓ) : Type ℓ where
  waits nullopt : Dequeued C
  runnable : C → List C → Dequeued C

-- A call of another thread, or one step of the looper's own.
pub data Event {ℓ} (C : Type ℓ) : Type ℓ where
  posts adds_cleanup : C → Event C
  stops loops : Event C

module _ {ℓ} {C : Type ℓ} where
  unfoldable pub new_looper : LooperThread C
  new_looper = record {
    queue = [];
    cleanup_queue = [];
    started = false;
    lameduck = false;
    cleaned_up = false;
    stopped = false;
    phase = entering;
    ran = [];
    cleaned = [];
  }

  -- Post, with its answer.
  unfoldable pub post : C → LooperThread C → LooperThread C × Bool
  post c l = if l.lameduck then (l, false) else (record l { queue = l.queue ++ c ∷ [] }, true)

  unfoldable pub stop : LooperThread C → LooperThread C
  stop l = if l.lameduck then l else record l { lameduck = true }

  unfoldable pub add_cleanup_handler : C → LooperThread C → LooperThread C
  add_cleanup_handler c l =
      if l.cleaned_up then l else record l { cleanup_queue = l.cleanup_queue ++ c ∷ [] }

  dequeue_from : List C → Bool → Dequeued C
  dequeue_from [] lameduck = if lameduck then nullopt else waits
  dequeue_from (c ∷ queue) lameduck = runnable c queue

  unfoldable pub dequeue : LooperThread C → Dequeued C
  unfolding dequeue_from
  dequeue l = dequeue_from l.queue l.lameduck

  dispatch : Dequeued C → LooperThread C → LooperThread C
  dispatch waits l = l
  dispatch nullopt l = record l { phase = cleaning }
  dispatch (runnable c queue) l = record l { queue = queue; ran = l.ran ++ c ∷ [] }

  clean_from : List C → LooperThread C → LooperThread C
  clean_from [] l = record l { cleaned_up = true; phase = stopping }
  clean_from (c ∷ queue) l = record l { cleanup_queue = queue; cleaned = l.cleaned ++ c ∷ [] }

  -- One round of RunAllCleanupHandlers.
  unfoldable pub clean : LooperThread C → LooperThread C
  unfolding clean_from
  clean l = if l.lameduck then clean_from l.cleanup_queue l else record l { phase = fatal }

  -- The start of Loop.
  begin : LooperThread C → LooperThread C
  begin l =
      if l.started
      then record l { phase = returned }
      else record l { started = true; phase = dispatching }

  loop_at : Phase → LooperThread C → LooperThread C
  unfolding begin dispatch dequeue clean
  loop_at entering l = begin l
  loop_at dispatching l = dispatch (dequeue l) l
  loop_at cleaning l = clean l
  loop_at stopping l = record l { stopped = true; phase = returned }
  loop_at returned l = l
  loop_at fatal l = l

  -- One step of the looper's thread; a wait that goes on is a step that changes nothing.
  unfoldable pub loop : LooperThread C → LooperThread C
  unfolding loop_at
  loop l = loop_at l.phase l

  unfoldable pub handle : Event C → LooperThread C → LooperThread C
  unfolding post stop add_cleanup_handler loop
  handle (posts c) l = (post c l).0
  handle (adds_cleanup c) l = add_cleanup_handler c l
  handle stops l = stop l
  handle loops l = loop l

  -- A history of calls and steps, the first one first.
  unfoldable pub run : List (Event C) → LooperThread C → LooperThread C
  unfolding handle
  run [] l = l
  run (e ∷ es) l = run es (handle e l)

  -- The thread's own steps, a number of them.
  unfoldable pub loops_for : ℕ → List (Event C)
  loops_for zero = []
  loops_for (suc n) = loops ∷ loops_for n
