-- ===== src/Edu/Program.antt =====
-- The program loongnix/qemu_dev/edu_device/edu_test.c, on the edu driver. What `open` returns and how the
-- ioctl goes are arguments.
use jvm_gc_acclelerator.Common.{
  ℕ, ◌+◌, ◌≡◌, ◌≢◌, refl, true, false, Option, none, some, if◌then◌else◌,
}
use jvm_gc_acclelerator.Common.Int.{ℤ, is_neg}
use jvm_gc_acclelerator.Edu.{EduDev, Caller, edu_ioctl}
use jvm_gc_acclelerator.Edu.Outcome.{IsWait, count, last_fact, all_interrupts, edu_ioctl-outcome}

abbrev operand : ℕ
operand = 5

-- `call` is how the ioctl goes with an operand.
record ProgramEnv : Type 0 where
  opened : ℤ
  call : ℕ → Caller

-- `n` after the ioctl.
abbrev handed_over : ℕ → Option ℕ → ℕ
handed_over n none = n
handed_over n (some result) = result

-- From the return of the ioctl on.
unfoldable report : EduDev × ℤ × Option ℕ → EduDev × ℕ × Option ℕ
report (edu, ret, out) =
    if is_neg ret then (edu, 1, none) else (edu, 0, some (handed_over operand out))

-- The exit status, and the factorial that is printed.
unfoldable main : ProgramEnv → EduDev → EduDev × ℕ × Option ℕ
unfolding report
main env edu =
    if is_neg env.opened then (edu, 1, none) else report (edu_ioctl 0 (env.call operand) edu)

-- The program that opens the device, whose operand and result can be copied and whose wait is as
-- documented: if no interrupt came before the wait ended, then it exits with 1 and prints no factorial;
-- otherwise it exits with 0 and prints what the factorial register held at the last interrupt.
main-factorial :
    (env : ProgramEnv) (edu : EduDev)
    → is_neg env.opened ≡ false
    → let caller = env.call operand in
      caller.val ≡ some operand
      → caller.copied ≡ true
      → IsWait caller operand edu
      → let (edu', status, printed) = main env edu in
        ((count caller.early + count caller.computing ≡ 0) → (status ≡ 1) × (printed ≡ none))
        × ((count caller.early + count caller.computing ≢ 0)
            → (status ≡ 0) × (printed ≡ some (last_fact (all_interrupts caller) edu.fact_result)))
unfolding main report
main-factorial env edu opened has copied wait =
    let (late, early) = edu_ioctl-outcome (env.call operand) operand edu has copied wait in
    (
      λ none_came. let (ret, out) = late none_came in rw (opened, ret) (refl, refl),
      λ some_came. let (ret, out) = early some_came in rw (opened, ret, out) (refl, refl),
    )
