-- ===== src/Prelude/Texts/Numerals.antt =====
-- Decimal numbers are read back from their print.
use Prim.Native.Nat.{ℕ, zero, suc, ◌+◌, ◌*◌, ◌/◌, ◌%◌, ◌^◌, ◌<◌, ◌≤◌, ◌-◌}
use Prim.Native.Char.{code}
use Prim.Native.String.{String, [], ◌∷◌}
use mathlib.Core.Logic.{inl, inr}
use mathlib.Core.Option.{some, none}
use mathlib.Core.Path.{◌≡◌, refl, ◌∙◌, ap}
use native.Mathlib.Omega.{arith}
use ofcir.Prelude.Tests.{Bool-cases, ◌==◌}
use ofcir.Prelude.Int.{pos}
use ofcir.Prelude.Texts.{
  digit, digits, decimal, concat, size, zeros, format_04d, scan, atoi, after_last,
}

code-digit : (n : ℕ) → n < 10 → code (digit n) ≡ b'0' + n
unfolding digit
code-digit zero h = refl
code-digit (suc zero) h = refl
code-digit (suc (suc zero)) h = refl
code-digit (suc (suc (suc zero))) h = refl
code-digit (suc (suc (suc (suc zero)))) h = refl
code-digit (suc (suc (suc (suc (suc zero))))) h = refl
code-digit (suc (suc (suc (suc (suc (suc zero)))))) h = refl
code-digit (suc (suc (suc (suc (suc (suc (suc zero))))))) h = refl
code-digit (suc (suc (suc (suc (suc (suc (suc (suc zero)))))))) h = refl
code-digit (suc (suc (suc (suc (suc (suc (suc (suc (suc zero))))))))) h = refl
code-digit (suc (suc (suc (suc (suc (suc (suc (suc (suc (suc n)))))))))) h = absurd (omega arith)

scan-digit : (d n : ℕ) (s : String) → d < 10 → scan (digit d ∷ s) n ≡ scan s (n * 10 + d)
unfolding scan
scan-digit d n s h = ground (arith, code-digit d h)

scan_last : (n : ℕ) (out : String) → scan (digit (n % 10) ∷ out) (n / 10) ≡ scan out n
scan_last n out =
    scan-digit (n % 10) (n / 10) out (omega arith)
    ∙ ap (scan out) (let e : n / 10 * 10 + n % 10 ≡ n = omega arith in e)

scan-digits : (fuel n : ℕ) (out : String) → n < fuel → scan (digits fuel n out) 0 ≡ scan out n
unfolding digits
scan-digits zero n out h = absurd (omega arith)
scan-digits (suc fuel) n out h = elim (Bool-cases (n == 0)) [
  | inl e ↦ rw e (ap (scan out) (let z : 0 ≡ n = ground arith in z))
  | inr e ↦ rw e (scan-digits fuel (n / 10) (digit (n % 10) ∷ out) (ground arith) ∙ scan_last n out)
]

scan-zeros : (k : ℕ) (s : String) → scan (zeros k s) 0 ≡ scan s 0
unfolding scan
scan-zeros zero s = refl
scan-zeros (suc k) s = scan-zeros k s

scan-decimal : (n : ℕ) → scan (decimal n) 0 ≡ some n
unfolding decimal
scan-decimal n = elim (Bool-cases (n == 0)) [
  | inl e ↦ rw e (unfold scan in ap some (let z : 0 ≡ n = ground arith in z))
  | inr e ↦ rw e (scan-digits (suc n) n [] (omega arith) ∙ unfold scan in refl)
]

size-digits : (fuel n : ℕ) (out : String) → size out ≤ size (digits fuel n out)
unfolding digits
size-digits zero n out = omega arith
size-digits (suc fuel) n out = elim (Bool-cases (n == 0)) [
  | inl e ↦ rw e (omega arith)
  | inr e ↦ rw e (omega (arith, size-digits fuel (n / 10) (digit (n % 10) ∷ out)))
]

size-digits_pos : (fuel n : ℕ) → 0 < n → 0 < size (digits (suc fuel) n [])
unfolding digits
size-digits_pos fuel n h = elim (Bool-cases (n == 0)) [
  | inl e ↦ absurd (ground arith)
  | inr e ↦ rw e (omega (arith, size-digits fuel (n / 10) (digit (n % 10) ∷ [])))
]

size-decimal_pos : (n : ℕ) → 0 < size (decimal n)
unfolding decimal
size-decimal_pos n = elim (Bool-cases (n == 0)) [
  | inl e ↦ rw e (omega arith)
  | inr e ↦ rw e (size-digits_pos n n (ground arith))
]

size-zeros : (k : ℕ) (s : String) → size (zeros k s) ≡ k + size s
size-zeros zero s = omega arith
size-zeros (suc k) s = omega (arith, size-zeros k s)

-- a text of digits alone holds no dash
after_last_of_scan : (s : String) (k n : ℕ) → scan s k ≡ some n → after_last b'-' s ≡ none
unfolding scan after_last
after_last_of_scan [] k n h = refl
after_last_of_scan (c ∷ s) k n h = ground (arith, after_last_of_scan s (k * 10 + (code c - b'0')) n)

-- a text of digits alone is read as the number that they make
atoi_of_scan :
    (s : String) (n : ℕ) → 0 < size s → scan s 0 ≡ some n → n < 2 ^ 63 → atoi s ≡ some (pos n)
unfolding atoi scan
atoi_of_scan [] n p h b = absurd (omega arith)
atoi_of_scan (c ∷ s) n p h b = ground arith

-- every number below 2^63 is read back from its `%04d` print
pub atoi-format_04d : (n : ℕ) → n < 2 ^ 63 → atoi (format_04d (pos n)) ≡ some (pos n)
unfolding format_04d
atoi-format_04d n h =
    let s = decimal n in
    let k = 4 - size s in
    atoi_of_scan (zeros k s) n (omega (arith, size-zeros k s, size-decimal_pos n))
      (scan-zeros k s ∙ scan-decimal n) h

-- behind the last dash of `<prefix>-%04d` stands the print
pub after_last-format_04d :
    (n : ℕ) → after_last b'-' (concat "cir-" (format_04d (pos n))) ≡ some (format_04d (pos n))
unfolding after_last format_04d
after_last-format_04d n =
    let s = decimal n in
    let k = 4 - size s in
    let e : after_last b'-' (zeros k s) ≡ none =
      after_last_of_scan (zeros k s) 0 n (scan-zeros k s ∙ scan-decimal n) in
    ground (arith, e)
