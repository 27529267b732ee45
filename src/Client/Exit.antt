-- ===== src/Client/Exit.antt =====
-- The status that the program exits with.
use jvm_gc_acclelerator.Common.{ℕ, ◌≡◌, ◌↔◌, ◌⊎◌, arith}
use jvm_gc_acclelerator.Client.{ThreadEnv, create_loop, join_loop, exit_success, main}

-- Thread `i` was created and joined, and its worker has no error.
abbrev Succeeds : ThreadEnv → ℕ → Type 0
Succeeds env i = (env.create i ≡ 0) × (env.join i ≡ 0) × (env.result i ≡ 0)

-- The program succeeds exactly if its arguments are none or one for each worker, and both threads were
-- created and joined, and both workers have the result 0.
main-Succeeds :
    (env : ThreadEnv) (argc : ℕ)
    → main env argc ≡ exit_success ↔ ((argc ≡ 1) ⊎ (argc ≡ 3)) × Succeeds env 0 × Succeeds env 1
unfolding main create_loop join_loop
main-Succeeds env argc = (λ h. grind arith, λ h. grind arith)
