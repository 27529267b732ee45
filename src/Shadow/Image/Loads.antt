-- ===== src/Shadow/Image/Loads.antt =====
-- The loads from a restored image.
use jvm_gc_acclelerator.Common.{
  ℕ, ◌%◌, ◌^◌, ◌<◌, ◌≤◌, ◌≡◌, sym, ap, ◌∙◌, arith, true, List, [], ◌∷◌, ◌++◌,
}
use native.Mathlib.Nat.{mod-lt}
use jvm_gc_acclelerator.Shadow.{Shadow, accessed, shadow_va_base, read_word, load}
use jvm_gc_acclelerator.Shadow.Access.{IsShadowed, load-inside}
use jvm_gc_acclelerator.Shadow.Bytes.{read_word-write_word}
use jvm_gc_acclelerator.Shadow.Image.{Statement, run_image}
use jvm_gc_acclelerator.Shadow.Image.Restored.{
  word_of, is_inside, is_good, all_good, all_apart, stored, restored, both, inside-IsShadowed,
  run_image-good, restored-base, restored-++, restored-apart,
}

-- A word that fits in its bytes, in the range.
record IsStored (addr width val : ℕ) : Type 0 where
  shadowed : IsShadowed addr width
  small : val < 256 ^ width

put-IsStored :
    (width p addr val : ℕ)
    → 1 ≤ width
    → 1 ≤ p
    → p ≤ 256 ^ width
    → is_inside addr width ≡ true
    → IsStored addr width (val % p)
put-IsStored width p addr val some_byte some_value fits inside =
    let below : val % p < p = mod-lt val some_value in
    record {
      shadowed = inside-IsShadowed addr width some_byte inside;
      small = omega (arith, below, fits);
    }

good-IsStored :
    (st : Statement)
    → let w = word_of st in is_good st ≡ true → 1 ≤ w.width → IsStored w.addr w.width w.val
good-IsStored (Statement.translate addr) good some_byte = absurd (omega arith)
good-IsStored (Statement.put8 addr val) good some_byte =
    put-IsStored 1 (2 ^ 8) addr val some_byte (omega arith) (omega arith) good
good-IsStored (Statement.put16 addr val) good some_byte =
    put-IsStored 2 (2 ^ 8) addr val some_byte (omega arith) (omega arith) good
good-IsStored (Statement.put32 addr val) good some_byte =
    put-IsStored 4 (2 ^ 32) addr val some_byte (omega arith) (omega arith) good
good-IsStored (Statement.put64 addr val) good some_byte =
    put-IsStored 8 (2 ^ 64) addr val some_byte (omega arith) (omega arith) good
good-IsStored (Statement.link addr target) good some_byte =
    let (inside, target_inside) = both (is_inside addr 8) (is_inside target 1) good in
    let to_end = (inside-IsShadowed target 1 (omega arith) target_inside).to_end in
    record { shadowed = inside-IsShadowed addr 8 some_byte inside; small = omega (arith, to_end) }

good-middle :
    (before after : List Statement) (st : Statement)
    → all_good (before ++ st ∷ after) ≡ true
    → is_good st ≡ true
good-middle [] after st good = (both (is_good st) (all_good after) good).0
good-middle (first ∷ before) after st good =
    good-middle before after st (both (is_good first) (all_good (before ++ st ∷ after)) good).1

read_word-restored :
    (before after : List Statement) (st : Statement) (s : Shadow)
    → let w = word_of st in
      w.val < 256 ^ w.width
      → all_apart w.addr w.width after ≡ true
      → read_word (restored (before ++ st ∷ after) s).bytes w.addr w.width ≡ w.val
read_word-restored before after st s small apart =
    let w = word_of st in
    ap (λ (t : Shadow). read_word t.bytes w.addr w.width) (restored-++ before (st ∷ after) s)
    ∙ restored-apart w.addr w.width after (stored st (restored before s)) apart
    ∙ read_word-write_word (restored before s).bytes w.addr w.width w.val small

-- When the mapping lies where it was asked for and the addresses of an image are in the range, the image
-- is restored without an abort. Afterwards, a word that some statement stored, and that no later statement
-- overlaps, is loaded as it was stored, cut to the parameter of the store; and bytes in the range that no
-- statement stored are loaded as before.
pub run_image-load :
    (before after : List Statement) (st : Statement) (s : Shadow)
    → let w = word_of st in
      let image = before ++ st ∷ after in
      s.base ≡ shadow_va_base
      → all_good image ≡ true
      → 1 ≤ w.width
      → all_apart w.addr w.width after ≡ true
      → (s' : Shadow) × (run_image image s ≡ accessed s')
        × (load w.width s' w.addr ≡ accessed w.val)
        × ((addr width : ℕ)
            → IsShadowed addr width
            → all_apart addr width image ≡ true
            → load width s' addr ≡ load width s addr)
run_image-load before after st s at good some_byte apart =
    let w = word_of st in
    let image = before ++ st ∷ after in
    let s' = restored image s in
    let at' = restored-base image s ∙ at in
    let word = good-IsStored st (good-middle before after st good) some_byte in
    (
      s',
      run_image-good image s at good,
      load-inside w.width s' w.addr at' word.shadowed
          ∙ ap accessed (read_word-restored before after st s word.small apart),
      λ addr width shadowed elsewhere.
          load-inside width s' addr at' shadowed
          ∙ ap accessed (restored-apart addr width image s elsewhere)
          ∙ sym (load-inside width s addr at shadowed),
    )
