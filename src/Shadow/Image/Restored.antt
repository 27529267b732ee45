-- ===== src/Shadow/Image/Restored.antt =====
-- What is in the memory when an image has been restored.
use jvm_gc_acclelerator.Common.{
  ℕ, ◌+◌, ◌%◌, ◌^◌, ◌<◌, ◌≤◌, ◌≡◌, refl, ◌∙◌, arith, Bool, true, ◌&&◌, ◌||◌, List, [], ◌∷◌, ◌++◌,
  ◌==◌, leb,
}
use native.Mathlib.Nat.{mod-eq_of_lt}
use jvm_gc_acclelerator.Shadow.{
  Shadow, accessed, shadow_size, shadow_va_base, read_word, write_word, store,
}
use jvm_gc_acclelerator.Shadow.Access.{IsShadowed, shadow_addr-inside, store-inside}
use jvm_gc_acclelerator.Shadow.Bytes.{read_word-elsewhere}
use jvm_gc_acclelerator.Shadow.Image.{Statement, run_statement, run_image}

-- What a statement stores: no byte, or a word of some bytes.
pub record Word : Type 0 where
  pub addr : ℕ
  pub width : ℕ
  pub val : ℕ

abbrev pub word_of : Statement → Word
word_of (Statement.translate addr) = record { addr = addr; width = 0; val = 0 }
word_of (Statement.put8 addr val) = record { addr = addr; width = 1; val = val % 2 ^ 8 }
word_of (Statement.put16 addr val) = record { addr = addr; width = 2; val = val % 2 ^ 8 }
word_of (Statement.put32 addr val) = record { addr = addr; width = 4; val = val % 2 ^ 32 }
word_of (Statement.put64 addr val) = record { addr = addr; width = 8; val = val % 2 ^ 64 }
word_of (Statement.link addr target) = record { addr = addr; width = 8; val = target }

-- Some bytes, at least one, in the range of the shadow memory.
abbrev pub is_inside : ℕ → ℕ → Bool
is_inside addr width = leb shadow_va_base addr && leb (addr + width) (shadow_va_base + shadow_size)

-- The addresses of a statement are in the range.
abbrev pub is_good : Statement → Bool
is_good (Statement.translate addr) = is_inside addr 1
is_good (Statement.put8 addr val) = is_inside addr 1
is_good (Statement.put16 addr val) = is_inside addr 2
is_good (Statement.put32 addr val) = is_inside addr 4
is_good (Statement.put64 addr val) = is_inside addr 8
is_good (Statement.link addr target) = is_inside addr 8 && is_inside target 1

abbrev pub all_good : List Statement → Bool
all_good [] = true
all_good (st ∷ image) = is_good st && all_good image

-- The memory after a statement.
abbrev pub stored : Statement → Shadow → Shadow
stored st s = let w = word_of st in record s { bytes = write_word s.bytes w.addr w.width w.val }

pub inside-IsShadowed :
    (addr width : ℕ) → 1 ≤ width → is_inside addr width ≡ true → IsShadowed addr width
inside-IsShadowed addr width some_byte inside = record {
  some_byte = some_byte;
  from_base = ground (arith, inside);
  to_end = ground (arith, inside);
}

put-good :
    (width addr val : ℕ) (s : Shadow)
    → 1 ≤ width
    → s.base ≡ shadow_va_base
    → is_inside addr width ≡ true
    → store width s addr val ≡ accessed (record s { bytes = write_word s.bytes addr width val })
put-good width addr val s some_byte at inside =
    store-inside width s addr val at (inside-IsShadowed addr width some_byte inside)

pub both : (a b : Bool) → (a && b) ≡ true → (a ≡ true) × (b ≡ true)
both a b h = (ground (arith, h), ground (arith, h))

target_small : (target : ℕ) → target + 1 ≤ shadow_va_base + shadow_size → target < 2 ^ 64
target_small target to_end = omega arith

run_statement-good :
    (st : Statement) (s : Shadow)
    → s.base ≡ shadow_va_base
    → is_good st ≡ true
    → run_statement st s ≡ accessed (stored st s)
unfolding run_statement write_word
run_statement-good (Statement.translate addr) s at good =
    rw (run_statement, shadow_addr-inside addr 1 (inside-IsShadowed addr 1 (omega arith) good)) refl
run_statement-good (Statement.put8 addr val) s at good =
    put-good 1 addr (val % 2 ^ 8) s (omega arith) at good
run_statement-good (Statement.put16 addr val) s at good =
    put-good 2 addr (val % 2 ^ 8) s (omega arith) at good
run_statement-good (Statement.put32 addr val) s at good =
    put-good 4 addr (val % 2 ^ 32) s (omega arith) at good
run_statement-good (Statement.put64 addr val) s at good =
    put-good 8 addr (val % 2 ^ 64) s (omega arith) at good
run_statement-good (Statement.link addr target) s at good =
    let (inside, target_inside) = both (is_inside addr 8) (is_inside target 1) good in
    let shadowed = inside-IsShadowed target 1 (omega arith) target_inside in
    let to_end = shadowed.to_end in
    rw
      (
        run_statement,
        shadow_addr-inside target 1 shadowed,
        mod-eq_of_lt (target_small target to_end),
      )
      (put-good 8 addr target s (omega arith) at inside)

-- The memory after an image.
abbrev pub restored : List Statement → Shadow → Shadow
restored [] s = s
restored (st ∷ image) s = restored image (stored st s)

pub run_image-good :
    (image : List Statement) (s : Shadow)
    → s.base ≡ shadow_va_base
    → all_good image ≡ true
    → run_image image s ≡ accessed (restored image s)
unfolding run_image
run_image-good [] s at good = refl
run_image-good (st ∷ image) s at good =
    let (first, rest) = both (is_good st) (all_good image) good in
    rw (run_image, run_statement-good st s at first) (run_image-good image (stored st s) at rest)

pub restored-base : (image : List Statement) (s : Shadow) → (restored image s).base ≡ s.base
restored-base [] s = refl
restored-base (st ∷ image) s = restored-base image (stored st s)

pub restored-++ :
    (before after : List Statement) (s : Shadow)
    → restored (before ++ after) s ≡ restored after (restored before s)
restored-++ [] after s = refl
restored-++ (st ∷ before) after s = restored-++ before after (stored st s)

-- The statement stores no byte of a word.
abbrev pub is_apart : ℕ → ℕ → Statement → Bool
is_apart addr width st =
    let w = word_of st in w.width == 0 || leb (addr + width) w.addr || leb (w.addr + w.width) addr

abbrev pub all_apart : ℕ → ℕ → List Statement → Bool
all_apart addr width [] = true
all_apart addr width (st ∷ image) = is_apart addr width st && all_apart addr width image

stored-apart :
    (addr width : ℕ) (st : Statement) (s : Shadow)
    → is_apart addr width st ≡ true
    → read_word (stored st s).bytes addr width ≡ read_word s.bytes addr width
unfolding write_word
stored-apart addr width (Statement.translate at) s apart = refl
stored-apart addr width (Statement.put8 at val) s apart =
    read_word-elsewhere s.bytes at 1 (val % 2 ^ 8) addr width (ground (arith, apart))
stored-apart addr width (Statement.put16 at val) s apart =
    read_word-elsewhere s.bytes at 2 (val % 2 ^ 8) addr width (ground (arith, apart))
stored-apart addr width (Statement.put32 at val) s apart =
    read_word-elsewhere s.bytes at 4 (val % 2 ^ 32) addr width (ground (arith, apart))
stored-apart addr width (Statement.put64 at val) s apart =
    read_word-elsewhere s.bytes at 8 (val % 2 ^ 64) addr width (ground (arith, apart))
stored-apart addr width (Statement.link at target) s apart =
    read_word-elsewhere s.bytes at 8 target addr width (ground (arith, apart))

pub restored-apart :
    (addr width : ℕ) (image : List Statement) (s : Shadow)
    → all_apart addr width image ≡ true
    → read_word (restored image s).bytes addr width ≡ read_word s.bytes addr width
restored-apart addr width [] s apart = refl
restored-apart addr width (st ∷ image) s apart =
    let (first, rest) = both (is_apart addr width st) (all_apart addr width image) apart in
    restored-apart addr width image (stored st s) rest ∙ stored-apart addr width st s first
