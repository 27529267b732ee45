-- ===== src/Shadow/Access.antt =====
-- What the stores and the loads of the shadow memory promise each other.
use jvm_gc_acclelerator.Common.{
  ℕ, ◌+◌, ◌^◌, ◌<◌, ◌≤◌, ◌≡◌, ◌≢◌, ◌⊎◌, refl, sym, ap, ◌∙◌, arith, true, some,
}
use jvm_gc_acclelerator.Shadow.{
  Shadow, shadow_size, shadow_va_base, init_shadow_chunks, shadow_addr, accessed, is_mapped,
  read_word, write_word, load, store,
}
use jvm_gc_acclelerator.Shadow.Bytes.{read_word-write_word, read_word-elsewhere}

-- Some bytes, at least one, lie in the range of the shadow memory.
pub record IsShadowed (addr width : ℕ) : Type 0 where
  pub some_byte : 1 ≤ width
  pub from_base : shadow_va_base ≤ addr
  pub to_end : addr + width ≤ shadow_va_base + shadow_size

pub shadow_addr-inside : (addr width : ℕ) → IsShadowed addr width → shadow_addr addr ≡ some addr
unfolding shadow_addr
shadow_addr-inside addr width h = ground (arith, h.some_byte, h.from_base, h.to_end)

is_mapped-inside :
    (s : Shadow) (addr width : ℕ)
    → s.base ≡ shadow_va_base
    → IsShadowed addr width
    → is_mapped s addr width ≡ true
is_mapped-inside s addr width at h = grind (arith, at, h.from_base, h.to_end)

pub load-inside :
    (width : ℕ) (s : Shadow) (addr : ℕ)
    → s.base ≡ shadow_va_base
    → IsShadowed addr width
    → load width s addr ≡ accessed (read_word s.bytes addr width)
unfolding load
load-inside width s addr at h =
    rw (load, shadow_addr-inside addr width h, is_mapped-inside s addr width at h) refl

pub store-inside :
    (width : ℕ) (s : Shadow) (addr val : ℕ)
    → s.base ≡ shadow_va_base
    → IsShadowed addr width
    → store width s addr val ≡ accessed (record s { bytes = write_word s.bytes addr width val })
unfolding store
store-inside width s addr val at h =
    rw (store, shadow_addr-inside addr width h, is_mapped-inside s addr width at h) refl

-- When the mapping lies where it was asked for, a store of a value that fits in its bytes, all in the
-- range, succeeds; a load of the same bytes then gives the value, and a load of bytes in the range that
-- the store did not write gives what it gave before.
store-load :
    (width : ℕ) (s : Shadow) (addr val : ℕ)
    → s.base ≡ shadow_va_base
    → IsShadowed addr width
    → val < 256 ^ width
    → (s' : Shadow) × (store width s addr val ≡ accessed s')
      × (load width s' addr ≡ accessed val)
      × ((at count : ℕ)
          → IsShadowed at count
          → (at + count ≤ addr) ⊎ (addr + width ≤ at)
          → load count s' at ≡ load count s at)
store-load width s addr val at h small =
    let s' : Shadow = record s { bytes = write_word s.bytes addr width val } in
    (
      s',
      store-inside width s addr val at h,
      load-inside width s' addr at h
          ∙ ap accessed (read_word-write_word s.bytes addr width val small),
      λ other count inside apart.
          load-inside count s' other at inside
          ∙ ap accessed (read_word-elsewhere s.bytes addr width val other count apart)
          ∙ sym (load-inside count s other at inside),
    )

-- If `mmap` succeeds at a range apart from the one it was asked for, the program goes on, and no load and
-- no store of at least one byte ever reaches the mapping.
pub init_shadow_chunks-elsewhere :
    (base : ℕ)
    → (base + shadow_size ≤ shadow_va_base) ⊎ (shadow_va_base + shadow_size ≤ base)
    → (s : Shadow) × (init_shadow_chunks (some base) ≡ some s)
      × ((width addr val : ℕ)
          → 1 ≤ width
          → ((v : ℕ) → load width s addr ≢ accessed v)
            × ((s' : Shadow) → store width s addr val ≢ accessed s'))
unfolding load store shadow_addr
init_shadow_chunks-elsewhere base apart = (
  record { base = base; bytes = λ _. 0 },
  refl,
  λ width addr val some_byte. (λ v reached. grind arith, λ s' reached. grind arith),
)
