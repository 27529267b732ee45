-- ===== src/Tests/Shadow.antt =====
-- Accesses to the shadow memory.
use jvm_gc_acclelerator.Common.{ℕ, ◌≤◌, ◌≡◌, ◌≢◌, inr, refl, arith, true, some, List, [], ◌∷◌, ◌++◌}
use jvm_gc_acclelerator.Shadow.{Shadow, shadow_va_base, init_shadow_chunks, load, store, accessed}
use jvm_gc_acclelerator.Shadow.Access.{IsShadowed, init_shadow_chunks-elsewhere}
use jvm_gc_acclelerator.Shadow.Image.{Statement, put8, put32, translate, run_image}
use jvm_gc_acclelerator.Shadow.Image.Restored.{all_apart}
use jvm_gc_acclelerator.Shadow.Image.Loads.{run_image-load}

abbrev mapped : Shadow
mapped = record { base = shadow_va_base; bytes = λ _. 0 }

-- Three statements that test_44.c has: the value of the second one is cut to a byte.
abbrev before : List Statement
before = put32 0xfff0042fa0 0x44 ∷ []

abbrev cut : Statement
cut = put8 0xfff004ac41 0xffffffff

abbrev after : List Statement
after = translate 0xffe0539db8 ∷ []

run_image-load_example :
    let image = before ++ cut ∷ after in
    (s' : Shadow) × (run_image image mapped ≡ accessed s')
    × (load 1 s' 0xfff004ac41 ≡ accessed 0xff)
    × ((addr width : ℕ)
        → IsShadowed addr width
        → all_apart addr width image ≡ true
        → load width s' addr ≡ load width mapped addr)
run_image-load_example = run_image-load before after cut mapped refl refl (omega arith) refl

init_shadow_chunks-elsewhere_example :
    (s : Shadow) × (init_shadow_chunks (some 0x7f0000000000) ≡ some s)
    × ((width addr val : ℕ)
        → 1 ≤ width
        → ((v : ℕ) → load width s addr ≢ accessed v)
          × ((s' : Shadow) → store width s addr val ≢ accessed s'))
init_shadow_chunks-elsewhere_example =
    init_shadow_chunks-elsewhere 0x7f0000000000 (inr (omega arith))
