-- ===== src/Dma/Count.antt =====
-- How often a call stands in the log, and how many slots of the table hold a page.
use jvm_gc_acclelerator.Common.{
  ℕ, zero, suc, ◌+◌, ◌≤◌, ◌<◌, ◌≡◌, refl, arith, Bool, true, false, ◌&&◌, List, [], ◌∷◌, ◌==◌,
  if◌then◌else◌, is_ptr,
}
use jvm_gc_acclelerator.Dma.Kernel.{PinnedPage, Call, set_slot}

abbrev pub one_if : Bool → ℕ
one_if b = if b then 1 else 0

abbrev pub count : (Call → Bool) → List Call → ℕ
count is [] = 0
count is (call ∷ calls) = one_if (is call) + count is calls

abbrev pub is_get_page : ℕ → Call → Bool
is_get_page p (Call.get_page q) = q == p
is_get_page p _ = false

abbrev pub is_put_page : ℕ → Call → Bool
is_put_page p (Call.put_page q) = q == p
is_put_page p _ = false

abbrev pub is_set_dirty : ℕ → Call → Bool
is_set_dirty p (Call.set_page_dirty_lock q) = q == p
is_set_dirty p _ = false

abbrev pub is_get_task : ℕ → Call → Bool
is_get_task t (Call.get_task_struct u) = u == t
is_get_task t _ = false

abbrev pub is_put_task : ℕ → Call → Bool
is_put_task t (Call.put_task_struct u) = u == t
is_put_task t _ = false

abbrev pub is_get_mm : ℕ → Call → Bool
is_get_mm m (Call.get_task_mm n) = n == m
is_get_mm m _ = false

abbrev pub is_put_mm : ℕ → Call → Bool
is_put_mm m (Call.mmput n) = n == m
is_put_mm m _ = false

-- The slots `i`, …, `i + left - 1` that a test selects.
unfoldable pub slots_from : (PinnedPage → Bool) → (ℕ → PinnedPage) → ℕ → ℕ → ℕ
slots_from sel f i zero = 0
slots_from sel f i (suc left) = one_if (sel (f i)) + slots_from sel f (suc i) left

abbrev pub has_page : ℕ → PinnedPage → Bool
has_page p slot = is_ptr slot.page p

abbrev pub has_written_page : ℕ → PinnedPage → Bool
has_written_page p slot = is_ptr slot.page p && slot.write

module _ (sel : PinnedPage → Bool) where
  -- A write below the range, or one that the test does not see, changes no count.
  pub slots_from-set_below :
      (f : ℕ → PinnedPage) (j : ℕ) (v : PinnedPage) (i left : ℕ)
      → j < i
      → slots_from sel (set_slot f j v) i left ≡ slots_from sel f i left
  unfolding slots_from
  slots_from-set_below f j v i zero h = refl
  slots_from-set_below f j v i (suc left) h =
      ground (arith, slots_from-set_below f j v (suc i) left)

  pub slots_from-set_above :
      (f : ℕ → PinnedPage) (j : ℕ) (v : PinnedPage) (i left : ℕ)
      → i + left ≤ j
      → slots_from sel (set_slot f j v) i left ≡ slots_from sel f i left
  unfolding slots_from
  slots_from-set_above f j v i zero h = refl
  slots_from-set_above f j v i (suc left) h =
      ground (arith, slots_from-set_above f j v (suc i) left)

  pub slots_from-set_same :
      (f : ℕ → PinnedPage) (j : ℕ) (v : PinnedPage) (i left : ℕ)
      → sel v ≡ sel (f j)
      → slots_from sel (set_slot f j v) i left ≡ slots_from sel f i left
  unfolding slots_from
  slots_from-set_same f j v i zero h = refl
  slots_from-set_same f j v i (suc left) h = ground (arith, slots_from-set_same f j v (suc i) left)

  pub slots_from-last :
      (f : ℕ → PinnedPage) (i left : ℕ)
      → slots_from sel f i (suc left) ≡ slots_from sel f i left + one_if (sel (f (i + left)))
  unfolding slots_from
  slots_from-last f i zero = ground arith
  slots_from-last f i (suc left) = ground (arith, slots_from-last f (suc i) left)

  -- The test selects slot `j` of the range, so the count is not 0.
  pub slots_from-pos :
      (f : ℕ → PinnedPage) (i left j : ℕ)
      → i ≤ j
      → j < i + left
      → sel (f j) ≡ true
      → 1 ≤ slots_from sel f i left
  unfolding slots_from
  slots_from-pos f i zero j lo hi h = absurd (omega arith)
  slots_from-pos f i (suc left) j lo hi h = ground (arith, slots_from-pos f (suc i) left j)
