-- ===== src/Dma/Ownership/Defs.antt =====
-- The balance of references of a device structure and its log.
use jvm_gc_acclelerator.Common.{ℕ, ◌+◌, ◌≤◌, ◌≡◌, is_ptr}
use jvm_gc_acclelerator.Dma.Kernel.{DmaContext}
use jvm_gc_acclelerator.Dma.Count.{
  one_if, count, is_get_page, is_put_page, is_get_task, is_put_task, is_get_mm, is_put_mm,
  slots_from, has_page,
}

-- `extra` counts the references to a page that a function in progress holds in a local variable.
pub record Holding (max : ℕ) (extra : ℕ → ℕ) (c : DmaContext) : Type 0 where
  pub bounded : c.nr_pinned ≤ max
  pub once : (p : ℕ) → slots_from (has_page p) c.pinned 0 c.nr_pinned ≤ 1
  pub pages :
      (p : ℕ)
      → count (is_get_page p) c.calls
        ≡ count (is_put_page p) c.calls + slots_from (has_page p) c.pinned 0 c.nr_pinned + extra p
  pub tasks :
      (t : ℕ)
      → count (is_get_task t) c.calls
        ≡ count (is_put_task t) c.calls + one_if (is_ptr c.active_task t)
  pub mms :
      (m : ℕ)
      → count (is_get_mm m) c.calls ≡ count (is_put_mm m) c.calls + one_if (is_ptr c.active_mm m)

-- Between two calls of the driver.
abbrev pub Owns : ℕ → DmaContext → Type 0
Owns max = Holding max (λ _. 0)
