-- ===== src/Client.antt =====
-- A process that drives the accelerator: read_exact, run_worker and main of
-- loongnix/qemu_dev/hwgc_driver/0_64_1_78.c, without the table of memory contents in main. What the
-- system calls return is an argument.
pub mod Returns
pub mod Work
pub mod Trace
pub mod Prepared
pub mod Exit
pub mod Single
use jvm_gc_acclelerator.Common.{
  ℕ, zero, suc, ◌+◌, ◌-◌, ◌%◌, ◌^◌, Bool, true, false, not, ◌&&◌, ◌||◌, Option, none, some, List,
  [], ◌∷◌, ◌++◌, length, ◌==◌, if◌then◌else◌,
}
use jvm_gc_acclelerator.Common.Int.{ℤ, pos, negsuc}
use jvm_gc_acclelerator.Hwgc.Regs.{event_done}
use jvm_gc_acclelerator.Hwgc.Types.{Event, zero_event}

-- The values of `errno`.
abbrev pub eintr_no : ℕ
eintr_no = 4

abbrev pub eio_no : ℕ
eio_no = 5

-- `errno ? errno : EIO`
abbrev pub errno_or_eio : ℕ → ℕ
errno_or_eio e = if e == 0 then eio_no else e

-- What one call of `read` gives: -1 with `errno`, or the bytes, none at the end of the file.
pub data ReadResult : Type 0 where
  read_failed : ℕ → ReadResult
  read_bytes : List ℕ → ReadResult

-- The end of `read_exact`: -1 with `errno`, or 0 with the buffer.
pub data Exact : Type 0 where
  short_read : ℕ → Exact
  filled : List ℕ → Exact

-- The loop, from call `k` on, with `length` bytes to come and `done` read; `none` is a loop that has
-- not ended within the fuel.
unfoldable pub read_exact : (ℕ → ℕ → ReadResult) → ℕ → ℕ → ℕ → List ℕ → Option Exact
read_exact read zero k left done = none
read_exact read (suc fuel) k left done =
    let again = read_exact read fuel (k + 1) in
    if left == 0 then some (filled done) else elim (read k left) [
      | read_failed e ↦ if e == eintr_no then again left done else some (short_read e)
      | read_bytes [] ↦ some (short_read eio_no)
      | read_bytes (b ∷ bs) ↦ again ((left + 2 ^ 64 - length (b ∷ bs)) % 2 ^ 64) (done ++ b ∷ bs)
    ]

-- What one wait for an event gives: -1 with `errno`, or the event.
pub data WaitResult : Type 0 where
  wait_failed : ℕ → WaitResult
  got : Event → WaitResult

-- The message that the worker ends with.
pub data Message : Type 0 where
  open_message start_message wait_message done_message : Message

-- `context->result` and the message, at the end of the worker.
pub record Ended : Type 0 where
  pub result : ℕ
  pub message : Message

-- A worker's device: `errno` of `open` and of the start ioctl, if they fail, and the waits.
pub record WorkerEnv : Type 0 where
  pub open_errno : Option ℕ
  pub start_errno : Option ℕ
  pub wait : ℕ → WaitResult

-- The `switch` on the event: `result` is still 0.
abbrev pub on_event : Event → Ended
on_event ev =
    if ev.type == event_done
    then record { result = 0; message = Message.done_message }
    else record { result = 0; message = Message.wait_message }

-- `while(1)` from wait `k` on.
unfoldable pub wait_loop : (ℕ → WaitResult) → ℕ → ℕ → Option Ended
wait_loop wait zero k = none
wait_loop wait (suc fuel) k =
    let again = wait_loop wait fuel (k + 1) in
    elim (wait k) [
      | wait_failed e ↦
          if e == eintr_no
          then again
          else some (record { result = errno_or_eio e; message = Message.wait_message })
      | got ev ↦ some (on_event ev)
    ]

unfoldable pub run_worker : WorkerEnv → ℕ → Option Ended
unfolding wait_loop
run_worker env fuel = elim env.open_errno [
  | some e ↦ some (record { result = errno_or_eio e; message = Message.open_message })
  | none ↦ elim env.start_errno [
    | some e ↦ some (record { result = errno_or_eio e; message = Message.start_message })
    | none ↦ wait_loop env.wait fuel 0
  ]
]

abbrev pub worker_count : ℕ
worker_count = 2

abbrev pub exit_success : ℕ
exit_success = 0

abbrev pub exit_failure : ℕ
exit_failure = 1

-- The results of `pthread_create` and `pthread_join`, and `contexts[i].result` after the join.
pub record ThreadEnv : Type 0 where
  pub create : ℕ → ℕ
  pub join : ℕ → ℕ
  pub result : ℕ → ℕ

-- The first loop, with the rounds left: `created`, and whether it failed.
unfoldable pub create_loop : ThreadEnv → ℕ → ℕ → ℕ × Bool
create_loop env zero i = (i, false)
create_loop env (suc left) i =
    let rest = create_loop env left (i + 1) in if env.create i == 0 then rest else (i, true)

-- The second loop: `failed`.
unfoldable pub join_loop : ThreadEnv → ℕ → ℕ → Bool → Bool
join_loop env zero i failed = failed
join_loop env (suc left) i failed =
    join_loop env left (i + 1) (failed || not (env.join i == 0) || not (env.result i == 0))

-- The arguments are neither none nor one device for each worker.
abbrev pub is_usage_error : ℕ → Bool
is_usage_error argc = not (argc == 1) && not (argc == worker_count + 1)

-- `main`, but for the memory and the parameters that it prepares.
unfoldable pub main : ThreadEnv → ℕ → ℕ
unfolding create_loop join_loop
main env argc =
    let (created, failed) = create_loop env worker_count 0 in
    if is_usage_error argc
    then exit_failure
    else if join_loop env created 0 failed
    then exit_failure
    else exit_success
