-- ===== src/Edu/Outcome.antt =====
-- What the edu driver's ioctl gives for the interrupts that come while it runs.
use jvm_gc_acclelerator.Common.{
  ℕ, suc, ◌+◌, ◌-◌, sym, ◌≡◌, ◌≢◌, ◌↔◌, refl, arith, true, not, none, some, List, [], ◌∷◌, ◌++◌,
  is_some,
}
use jvm_gc_acclelerator.Common.Int.{pos, is_nonzero}
use jvm_gc_acclelerator.Common.Errno.{etimedout}
use jvm_gc_acclelerator.Dma.Kernel.{Device}
use jvm_gc_acclelerator.Edu.{
  EduDev, Caller, reg_fact, reg_status, status_irqfact, write, irq_handler, interrupts, awaited,
  factorial, edu_ioctl,
}

-- The factorial that the register held at the last of some interrupts.
abbrev pub last_fact : List Device → ℕ → ℕ
last_fact [] before = before
last_fact (dev ∷ rest) before = last_fact rest (dev.read32 reg_fact)

abbrev pub count : List Device → ℕ
count [] = 0
count (dev ∷ rest) = suc (count rest)

interrupts-fact_result :
    (devs : List Device) (edu : EduDev)
    → (interrupts devs edu).fact_result ≡ last_fact devs edu.fact_result
unfolding interrupts irq_handler
interrupts-fact_result [] edu = refl
interrupts-fact_result (dev ∷ rest) edu = interrupts-fact_result rest (irq_handler dev edu)

interrupts-fact_done :
    (devs : List Device) (edu : EduDev)
    → (interrupts devs edu).fact_done ≡ edu.fact_done + count devs
unfolding interrupts irq_handler
interrupts-fact_done [] edu = omega arith
interrupts-fact_done (dev ∷ rest) edu =
    omega (arith, interrupts-fact_done rest (irq_handler dev edu))

last_fact-append :
    (xs ys : List Device) (before : ℕ)
    → last_fact (xs ++ ys) before ≡ last_fact ys (last_fact xs before)
last_fact-append [] ys before = refl
last_fact-append (x ∷ xs) ys before = last_fact-append xs ys (x.read32 reg_fact)

-- What the documentation of `wait_for_completion_timeout` says: 0 if the time was over, and otherwise
-- at least 1; and the time is over only without a completion.
abbrev pub IsWait : Caller → ℕ → EduDev → Type 0
IsWait caller val edu = (caller.waited ≡ 0) ↔ ((awaited caller val edu).fact_done ≡ 0)

awaited-fact_done :
    (caller : Caller) (val : ℕ) (edu : EduDev)
    → (awaited caller val edu).fact_done ≡ count caller.early + count caller.computing
unfolding awaited
awaited-fact_done caller val edu =
    let early = interrupts-fact_done caller.early (record edu { fact_done = 0 }) in
    let ready = interrupts caller.early (record edu { fact_done = 0 }) in
    let computing =
      interrupts-fact_done caller.computing
        (write val reg_fact (write status_irqfact reg_status ready)) in
    omega (arith, early, computing)

-- All interrupts of an ioctl, in their order.
abbrev pub all_interrupts : Caller → List Device
all_interrupts caller = caller.early ++ (caller.computing ++ caller.late)

-- The result that the structure holds when the ioctl copies it.
fact_result-all :
    (caller : Caller) (val : ℕ) (edu : EduDev)
    → let computed = awaited caller val edu in
      let woken = interrupts caller.late (record computed { fact_done = computed.fact_done - 1 }) in
      woken.fact_result ≡ last_fact (all_interrupts caller) edu.fact_result
unfolding awaited
fact_result-all caller val edu = simp (interrupts-fact_result, last_fact-append)

factorial-outcome :
    (caller : Caller) (val : ℕ) (edu : EduDev)
    → caller.copied ≡ true
    → IsWait caller val edu
    → let (edu', ret, out) = factorial caller val edu in
      (((awaited caller val edu).fact_done ≡ 0) → (ret ≡ etimedout) × (out ≡ none))
      × (((awaited caller val edu).fact_done ≢ 0)
          → (ret ≡ pos 0) × (out ≡ some (last_fact (all_interrupts caller) edu.fact_result)))
unfolding factorial
factorial-outcome caller val edu copied wait =
    rw (fact_result-all caller val edu) (ground (arith, copied, wait.0, wait.1))

-- The ioctl with command 0, whose operand and result can be copied and whose wait is as documented: if
-- no interrupt came before the wait ended, then it reports -ETIMEDOUT and gives nothing; otherwise it
-- reports 0 and gives what the factorial register held at the last interrupt, whether that came before
-- the operand was written or after.
pub edu_ioctl-outcome :
    (caller : Caller) (val : ℕ) (edu : EduDev)
    → caller.val ≡ some val
    → caller.copied ≡ true
    → IsWait caller val edu
    → let (edu', ret, out) = edu_ioctl 0 caller edu in
      ((count caller.early + count caller.computing ≡ 0) → (ret ≡ etimedout) × (out ≡ none))
      × ((count caller.early + count caller.computing ≢ 0)
          → (ret ≡ pos 0) × (out ≡ some (last_fact (all_interrupts caller) edu.fact_result)))
unfolding edu_ioctl
edu_ioctl-outcome caller val edu has copied wait =
    rw (has, sym (awaited-fact_done caller val edu)) (factorial-outcome caller val edu copied wait)

-- Whatever the command and the caller, the ioctl reports 0 exactly if it gives a result; and with another
-- command, or an operand that cannot be copied, it leaves the device as it was.
pub edu_ioctl-ret :
    (cmd : ℕ) (caller : Caller) (edu : EduDev)
    → let (edu', ret, out) = edu_ioctl cmd caller edu in
      (is_some out ≡ not (is_nonzero ret))
      × ((cmd ≢ 0) → edu' ≡ edu)
      × (caller.val ≡ none → edu' ≡ edu)
unfolding edu_ioctl factorial
edu_ioctl-ret cmd caller edu = ground arith
