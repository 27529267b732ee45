-- ===== src/Client/Returns.antt =====
-- The ends of the loops around read and the wait ioctl in the program.
use jvm_gc_acclelerator.Common.{
  length, ℕ, zero, suc, ◌+◌, ◌-◌, ◌%◌, ◌^◌, ◌≤◌, ◌<◌, ◌≡◌, ◌≢◌, ◌⊎◌, subst, refl, ap, arith, Bool,
  true, false, Option, some, List, [], ◌∷◌, ◌++◌, inl, inr, Bool-cases, ◌==◌, if◌then◌else◌,
}
use jvm_gc_acclelerator.Client.{
  ReadResult, read_failed, read_bytes, Exact, short_read, filled, read_exact, eintr_no, eio_no,
  WaitResult, wait_failed, got, Message, Ended, errno_or_eio, on_event, wait_loop,
}

-- The wait is to be made again.
abbrev is_interrupted : WaitResult → Bool
is_interrupted (wait_failed e) = e == eintr_no
is_interrupted (got ev) = false

-- What the worker makes of a wait that is not interrupted.
abbrev pub outcome : WaitResult → Ended
outcome (wait_failed e) = record { result = errno_or_eio e; message = Message.wait_message }
outcome (got ev) = on_event ev

wait_loop-next :
    (wait : ℕ → WaitResult) (fuel k : ℕ)
    → wait_loop wait (suc fuel) k
      ≡ (if is_interrupted (wait k) then wait_loop wait fuel (k + 1) else some (outcome (wait k)))
unfolding wait_loop
wait_loop-next wait fuel k = ground arith

wait_loop-outcome_from :
    (wait : ℕ → WaitResult) (n k m fuel : ℕ)
    → k + n ≡ m
    → ((j : ℕ) → j < m → is_interrupted (wait j) ≡ true)
    → is_interrupted (wait m) ≡ false
    → n < fuel
    → wait_loop wait fuel k ≡ some (outcome (wait m))
wait_loop-outcome_from wait n k m zero at before last enough = absurd (omega arith)
wait_loop-outcome_from wait zero k m (suc fuel) at before last enough =
    let same : k ≡ m = omega arith in rw (wait_loop-next wait fuel k, same, last) refl
wait_loop-outcome_from wait (suc n) k m (suc fuel) at before last enough =
    rw (wait_loop-next wait fuel k, before k (omega arith))
      (wait_loop-outcome_from wait n (k + 1) m fuel (omega arith) before last (omega arith))

-- The worker's loop ends at the first wait that is not interrupted, with any fuel above the number of
-- waits before it, and with what that wait makes of the worker.
wait_loop-outcome :
    (wait : ℕ → WaitResult) (m fuel : ℕ)
    → ((j : ℕ) → j < m → is_interrupted (wait j) ≡ true)
    → is_interrupted (wait m) ≡ false
    → m < fuel
    → wait_loop wait fuel 0 ≡ some (outcome (wait m))
wait_loop-outcome wait m fuel before last enough =
    wait_loop-outcome_from wait m 0 m fuel (omega arith) before last enough

-- What the documentation of `read` says: at most as many bytes as were asked for.
abbrev pub IsRead : (ℕ → ℕ → ReadResult) → Type 0
IsRead read = (k count : ℕ) (bs : List ℕ) → read k count ≡ read_bytes bs → length bs ≤ count

length-append : (xs ys : List ℕ) → length (xs ++ ys) ≡ length xs + length ys
length-append [] ys = omega arith
length-append (x ∷ xs) ys = omega (arith, length-append xs ys)

-- The buffer has the length that was asked for, if the loop fills it.
abbrev pub HasLength : ℕ → Exact → Type 0
HasLength n (short_read e) = Unit
HasLength n (filled bs) = length bs ≡ n

-- What the loop makes of one call of `read`, with the loop on the next call as an argument.
abbrev pub after_read : (ℕ → List ℕ → Option Exact) → ReadResult → ℕ → List ℕ → Option Exact
after_read again (read_failed e) left done =
    if e == eintr_no then again left done else some (short_read e)
after_read again (read_bytes []) left done = some (short_read eio_no)
after_read again (read_bytes (b ∷ bs)) left done =
    again ((left + 2 ^ 64 - length (b ∷ bs)) % 2 ^ 64) (done ++ b ∷ bs)

suc_test : (n : ℕ) → (suc n == 0) ≡ false
suc_test n = grind arith

read_exact-next_of :
    (read : ℕ → ℕ → ReadResult) (fuel k left : ℕ) (done : List ℕ) (r : ReadResult)
    → read k (suc left) ≡ r
    → read_exact read (suc fuel) k (suc left) done
      ≡ after_read (read_exact read fuel (k + 1)) r (suc left) done
unfolding read_exact
read_exact-next_of read fuel k left done (read_failed e) call = rw (suc_test left, call) refl
read_exact-next_of read fuel k left done (read_bytes []) call = rw (suc_test left, call) refl
read_exact-next_of read fuel k left done (read_bytes (b ∷ bs)) call = rw (suc_test left, call) refl

le_cases : (a b : ℕ) → (a ≤ b) ⊎ (b < a)
le_cases a b = omega arith

-- What the loop is to give from a state with `n` bytes in all.
abbrev pub Returns : ℕ → Option Exact → Type 0
Returns n r = (e : Exact) × (r ≡ some e) × HasLength n e

left_after :
    (left read : ℕ) → read ≤ left → left < 2 ^ 64 → (left + 2 ^ 64 - read) % 2 ^ 64 ≡ left - read
left_after left read fits small = omega arith

same_number : (a b : ℕ) → (a == b) ≡ true → a ≡ b
same_number a b test = grind arith

-- One call keeps the promise, if the loop on the next call does for what the call may leave.
after_read-Returns :
    (again : ℕ → List ℕ → Option Exact) (r : ReadResult) (left : ℕ) (done : List ℕ)
    → left < 2 ^ 64
    → ((bs : List ℕ) → r ≡ read_bytes bs → length bs ≤ left)
    → (r ≡ read_failed eintr_no → Returns (length done + left) (again left done))
    → ((left_next : ℕ) (done_next : List ℕ)
        → left_next < left
        → length done_next + left_next ≡ length done + left
        → Returns (length done + left) (again left_next done_next))
    → Returns (length done + left) (after_read again r left done)
after_read-Returns again (read_failed e) left done small fits interrupted shorter =
    elim (Bool-cases (e == eintr_no)) [
      | inl test ↦ rw (test) (interrupted (ap read_failed (same_number e eintr_no test)))
      | inr test ↦ rw (test) (short_read e, refl, tt)
    ]
after_read-Returns again (read_bytes []) left done small fits interrupted shorter =
    (short_read eio_no, refl, tt)
after_read-Returns again (read_bytes (b ∷ bs)) left done small fits interrupted shorter =
    rw (left_after left (suc (length bs)) (fits (b ∷ bs) refl) small) (
      shorter (left - suc (length bs)) (done ++ b ∷ bs)
        (let some_read : suc (length bs) ≤ left = fits (b ∷ bs) refl in omega arith)
        (rw (length-append done (b ∷ bs))
          (let some_read : suc (length bs) ≤ left = fits (b ∷ bs) refl in omega arith)))

-- A call that is not interrupted reads, fails or ends, so the loop ends with any fuel above the number
-- of calls that may be interrupted and of bytes to come.
read_exact-Returns_from :
    (read : ℕ → ℕ → ReadResult) (quiet fuel k left : ℕ) (done : List ℕ)
    → IsRead read
    → ((j count : ℕ) → quiet ≤ j → read j count ≢ read_failed eintr_no)
    → left < 2 ^ 64
    → (quiet - k) + left < fuel
    → Returns (length done + left) (read_exact read fuel k left done)
unfolding read_exact
read_exact-Returns_from read quiet zero k left done sound later small enough = absurd (omega arith)
read_exact-Returns_from read quiet (suc fuel) k zero done sound later small enough =
    (filled done, refl, omega arith)
read_exact-Returns_from read quiet (suc fuel) k (suc left) done sound later small enough =
    rw (read_exact-next_of read fuel k left done (read k (suc left)) refl) (
      after_read-Returns (read_exact read fuel (k + 1)) (read k (suc left)) (suc left) done small
        (λ bs call. sound k (suc left) bs call)
        (λ call. elim (le_cases quiet k) [
          | inl quiet_now ↦ absurd (later k (suc left) quiet_now call)
          | inr early ↦
              read_exact-Returns_from read quiet fuel (k + 1) (suc left) done sound later small
                (omega arith)
        ])
        (λ left_next done_next less total.
          subst (λ n. Returns n (read_exact read fuel (k + 1) left_next done_next)) total
            (read_exact-Returns_from read quiet fuel (k + 1) left_next done_next sound later
              (omega arith) (omega arith))))

-- `read_exact` ends with any fuel above the number of calls that may be interrupted and of bytes that
-- were asked for, when `read` gives at most as many bytes as it is asked for and call `quiet` and those
-- after it are not interrupted; if it fills the buffer, it has read exactly the bytes asked for.
pub read_exact-Returns :
    (read : ℕ → ℕ → ReadResult) (quiet fuel count : ℕ)
    → IsRead read
    → ((j n : ℕ) → quiet ≤ j → read j n ≢ read_failed eintr_no)
    → count < 2 ^ 64
    → quiet + count < fuel
    → (e : Exact) × (read_exact read fuel 0 count [] ≡ some e) × HasLength count e
read_exact-Returns read quiet fuel count sound later small enough =
    let zero_count : 0 + count ≡ count = omega arith in
    subst (λ n. Returns n (read_exact read fuel 0 count [])) zero_count
      (read_exact-Returns_from read quiet fuel 0 count [] sound later small (omega arith))
