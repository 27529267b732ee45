-- ===== src/Shadow/Bytes.antt =====
-- Words in a memory of bytes.
use jvm_gc_acclelerator.Common.{
  ℕ, zero, suc, ◌+◌, ◌*◌, ◌/◌, ◌%◌, ◌^◌, ◌<◌, ◌≤◌, ◌≡◌, ◌∙◌, ◌⊎◌, refl, subst, arith,
}
use native.Mathlib.Nat.{pow-suc}
use jvm_gc_acclelerator.Shadow.{update, read_word, write_word}

read_word-same :
    (m m' : ℕ → ℕ) (addr width : ℕ)
    → ((at : ℕ) → addr ≤ at → at < addr + width → m at ≡ m' at)
    → read_word m addr width ≡ read_word m' addr width
unfolding read_word
read_word-same m m' addr zero same = refl
read_word-same m m' addr (suc width) same =
    let rest =
      read_word-same m m' (addr + 1) width (λ at from to. same at (omega arith) (omega arith)) in
    let first = same addr (omega arith) (omega arith) in omega (arith, rest, first)

update-other :
    (m : ℕ → ℕ) (addr byte at : ℕ) → (at < addr) ⊎ (addr < at) → update m addr byte at ≡ m at
update-other m addr byte at other = grind arith

update-same : (m : ℕ → ℕ) (addr byte : ℕ) → update m addr byte addr ≡ byte
update-same m addr byte = grind arith

write_word-outside :
    (m : ℕ → ℕ) (addr width val at : ℕ)
    → (at < addr) ⊎ (addr + width ≤ at)
    → write_word m addr width val at ≡ m at
unfolding write_word
write_word-outside m addr zero val at out = refl
write_word-outside m addr (suc width) val at out =
    let rest = write_word-outside m (addr + 1) width (val / 256) at (omega arith) in
    update-other (write_word m (addr + 1) width (val / 256)) addr (val % 256) at (omega arith)
    ∙ rest

div_small : (val p : ℕ) → val < p * 256 → val / 256 < p
div_small val p small = omega arith

-- A word that fits is read as it was written.
pub read_word-write_word :
    (m : ℕ → ℕ) (addr width val : ℕ)
    → val < 256 ^ width
    → read_word (write_word m addr width val) addr width ≡ val
unfolding read_word write_word
read_word-write_word m addr zero val small = omega arith
read_word-write_word m addr (suc width) val small =
    let rest =
      read_word-write_word m (addr + 1) width (val / 256)
        (div_small val (256 ^ width) (subst (λ p. val < p) (pow-suc 256 width) small)) in
    let inner = write_word m (addr + 1) width (val / 256) in
    let kept =
      read_word-same (update inner addr (val % 256)) inner (addr + 1) width
        (λ at from to. update-other inner addr (val % 256) at (omega arith)) in
    let first = update-same inner addr (val % 256) in omega (arith, rest, kept, first)

-- A word elsewhere stays.
pub read_word-elsewhere :
    (m : ℕ → ℕ) (addr width val at count : ℕ)
    → (at + count ≤ addr) ⊎ (addr + width ≤ at)
    → read_word (write_word m addr width val) at count ≡ read_word m at count
read_word-elsewhere m addr width val at count apart =
    read_word-same (write_word m addr width val) m at count
      (λ i from to. write_word-outside m addr width val i (omega arith))
