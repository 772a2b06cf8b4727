-- ===== src/TaskScheduler/Node.antt =====
-- The scheduler of one node: mcvirt/task_scheduler/scheduler.py and pointer.py. A `TaskPointer` stands
-- both in the queue and in the lookup table, so it is named by reference.
pub mod Queue
pub mod Copy
use mcvirt.Base.{
  ℕ, ◌+◌, String, Bool, true, false, not, ◌&&◌, ◌||◌, Option, none, some, List, [], ◌∷◌, ◌++◌, ◌==◌,
  nat_eq, if◌then◌else◌,
}
use mcvirt.Base.Dict.{Dict, lookup, insert, delete, has}
use mcvirt.Base.Exec.{Result, ok, err, and_then}
use mcvirt.Exceptions.{Exception, key_error, value_error, attribute_error}
use mcvirt.Rpc.State.{update}
use mcvirt.Base.Lists.{remove_ref, mem_ref}

pub record TaskPointer : Type 0 where
  pub task_id : String
  pub execution_node : String
  pub provisional : Bool
  pub cancelled : Bool

-- A local task; `execute` waits for its event.
pub record Task : Type 0 where
  pub started : Bool

-- The class attributes of `TaskScheduler` on one node: _TASK_QUEUE, _TASK_POINTERS, _TASKS.
pub record Scheduler : Type 0 where
  pub hostname : String
  pub heap : ℕ → TaskPointer
  pub next_ref : ℕ
  pub task_queue : List ℕ
  pub task_pointers : Dict ℕ
  pub tasks : Dict Task

unfoldable pub is_local : Scheduler → TaskPointer → Bool
is_local s p = p.execution_node == s.hostname

-- TaskPointer.set_status; an argument that is None leaves the field.
unfoldable pub set_status : Option Bool → Option Bool → TaskPointer → TaskPointer
set_status cancelled provisional p = record p {
  cancelled = elim cancelled [ none ↦ p.cancelled | some b ↦ b ];
  provisional = elim provisional [ none ↦ p.provisional | some b ↦ b ];
}

unfoldable pub confirm : TaskPointer → TaskPointer
confirm p = record p { provisional = false }

unfoldable pub cancel : TaskPointer → TaskPointer
cancel p = record p { cancelled = true }

-- The first pointer in the queue that is neither provisional nor cancelled, or may be so.
unfoldable pub find_running : (ℕ → TaskPointer) → Bool → Bool → List ℕ → Option ℕ
find_running heap provisional cancelled [] = none
find_running heap provisional cancelled (ref ∷ refs) =
    let rest = find_running heap provisional cancelled refs in
    if not provisional && (heap ref).provisional || not cancelled && (heap ref).cancelled
    then rest
    else some ref

unfoldable pub get_current_running_task_pointer : Bool → Bool → Scheduler → Option ℕ
unfolding find_running
get_current_running_task_pointer provisional cancelled s =
    find_running s.heap provisional cancelled s.task_queue

unfoldable pub get_latest_task_id : Scheduler → Option String
unfolding get_current_running_task_pointer
get_latest_task_id s = elim (get_current_running_task_pointer true true s) [
  | none ↦ none
  | some ref ↦ some (s.heap ref).task_id
]

abbrev pub same_id : Option String → Option String → Bool
same_id none none = true
same_id (some a) (some b) = a == b
same_id _ _ = false

-- A new pointer, at the end of the queue and in the lookup table.
unfoldable pub append_pointer : TaskPointer → Scheduler → Scheduler
append_pointer p s = record s {
  heap = update s.heap s.next_ref p;
  next_ref = s.next_ref + 1;
  task_queue = s.task_queue ++ s.next_ref ∷ [];
  task_pointers = insert p.task_id s.next_ref s.task_pointers;
}

-- TaskPointer.__init__
abbrev pub new_pointer : String → String → TaskPointer
new_pointer task_id execution_node = record {
  task_id = task_id;
  execution_node = execution_node;
  provisional = true;
  cancelled = false;
}

unfoldable pub receive_task : String → String → Option String → Scheduler → Bool × Scheduler
unfolding get_latest_task_id append_pointer
receive_task execution_node task_id latest_task_id s =
    if same_id (get_latest_task_id s) latest_task_id
    then (true, append_pointer (new_pointer task_id execution_node) s)
    else (false, s)

unfoldable pub remove_local : String → Scheduler → Scheduler
remove_local task_id s = record s { tasks = delete task_id s.tasks }

-- Removes a pointer that the lookup table has; ValueError if the queue does not have it.
unfoldable pub remove_pointer :
    Option ℕ → String → Scheduler → Result Exception (Unit {0}) × Scheduler
unfolding remove_ref mem_ref
remove_pointer none task_id s = (ok tt, s)
remove_pointer (some ref) task_id s =
    if mem_ref s.task_queue ref
    then (
      ok tt,
      record s {
        task_queue = remove_ref s.task_queue ref;
        task_pointers = delete task_id s.task_pointers;
      },
    )
    else (err value_error, s)

unfoldable pub remove_task : String → Scheduler → Result Exception (Unit {0}) × Scheduler
unfolding remove_local remove_pointer
remove_task task_id s =
    and_then (remove_pointer (lookup task_id s.task_pointers) task_id s)
      (λ _ t. (ok tt, remove_local task_id t))

-- A change of the pointer with the given id, by a caller that raises `missing` if there is none.
unfoldable pub change_pointer :
    Option ℕ
    → Exception
    → (TaskPointer → TaskPointer)
    → Scheduler
    → Result Exception (Unit {0}) × Scheduler
change_pointer none missing g s = (err missing, s)
change_pointer (some ref) missing g s =
    (ok tt, record s { heap = update s.heap ref (g (s.heap ref)) })

unfoldable pub confirm_task_pointer : String → Scheduler → Result Exception (Unit {0}) × Scheduler
unfolding change_pointer confirm
confirm_task_pointer task_id s = change_pointer (lookup task_id s.task_pointers) key_error confirm s

-- `cancel` on what `get_task_pointer_by_id` returns; None has no such attribute.
unfoldable pub cancel_task_pointer : String → Scheduler → Result Exception (Unit {0}) × Scheduler
unfolding change_pointer cancel
cancel_task_pointer task_id s =
    change_pointer (lookup task_id s.task_pointers) attribute_error cancel s

-- TaskPointer.dump of each entry of the queue
unfoldable pub dump_pointers : (ℕ → TaskPointer) → List ℕ → List TaskPointer
dump_pointers heap [] = []
dump_pointers heap (ref ∷ refs) = heap ref ∷ dump_pointers heap refs

unfoldable pub dump_task_pointer_queue : Scheduler → List TaskPointer
unfolding dump_pointers
dump_task_pointer_queue s = dump_pointers s.heap s.task_queue

-- The body of the loop of `import_tasks`.
unfoldable pub import_task : TaskPointer → Scheduler → Result Exception (Unit {0}) × Scheduler
unfolding append_pointer set_status is_local remove_task
import_task config s =
    let p =
      set_status (some config.cancelled) (some config.provisional)
        (new_pointer config.task_id config.execution_node) in
    let t = append_pointer p s in if is_local s p then remove_task config.task_id t else (ok tt, t)

unfoldable pub import_tasks : List TaskPointer → Scheduler → Result Exception (Unit {0}) × Scheduler
unfolding import_task
import_tasks [] s = (ok tt, s)
import_tasks (config ∷ configs) s = and_then (import_task config s) (λ _. import_tasks configs)

-- The loop over the other nodes, each with the dump of its queue, or none if it is not accessible:
-- the first accessible one is imported.
unfoldable pub initialise :
    List (Option (List TaskPointer)) → Scheduler → Result Exception (Unit {0}) × Scheduler
unfolding import_tasks
initialise [] s = (ok tt, s)
initialise (none ∷ nodes) s = initialise nodes s
initialise (some dump ∷ nodes) s = import_tasks dump s

-- Task.start on what `get_task_by_id` returns.
unfoldable pub start_found :
    Option Task → String → Scheduler → Result Exception (Unit {0}) × Scheduler
start_found none task_id s = (err attribute_error, s)
start_found (some task) task_id s =
    (ok tt, record s { tasks = insert task_id (record task { started = true }) s.tasks })

unfoldable pub start_task : String → Scheduler → Result Exception (Unit {0}) × Scheduler
unfolding start_found
start_task task_id s = start_found (lookup task_id s.tasks) task_id s
