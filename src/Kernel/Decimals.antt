-- ===== src/Kernel/Decimals.antt =====
-- The numbers that `str` writes are read back, alone or as the two sides of a colon (the ports of
-- deployer/ir_common.py).
use Prim.Native.Char.{code}
use text.Mathlib.TextLemmas.{nil-append, cons-append}
use ovn_fabric.Prelude.{
  ℕ, zero, suc, ◌+◌, ◌-◌, ◌*◌, ◌/◌, ◌%◌, ◌<◌, String, ◌<>◌, ◌≡◌, refl, ap, ◌∙◌, Option, some, ◌==◌,
  ltb, str, digit, show_digits, arith, Bool-cases, inl, inr, if◌then◌else◌,
}

-- The number before the colon, if one was read, and the number that is being read.
abbrev pub Reading : Type 0
Reading = Option ℕ × ℕ

abbrev next : Reading → ℕ → Reading
next (o, n) c = if c == b':' then (some n, 0) else (o, n * 10 + (c - b'0'))

unfoldable pub read : Reading → String → Reading
read r String.[] = r
read r (String.◌∷◌ c s) = read (next r (code c)) s

pub read-append : (r : Reading) (s t : String) → read r (s <> t) ≡ read (read r s) t
unfolding read
read-append r String.[] t = ap (read r) (nil-append t)
read-append r (String.◌∷◌ c s) t =
    ap (read r) (cons-append c s t) ∙ read-append (next r (code c)) s t

read-digit : (o : Option ℕ) (a n : ℕ) → n < 10 → read (o, a) (digit n) ≡ (o, a * 10 + n)
unfolding read digit
read-digit o a zero h = refl
read-digit o a (suc zero) h = refl
read-digit o a (suc (suc zero)) h = refl
read-digit o a (suc (suc (suc zero))) h = refl
read-digit o a (suc (suc (suc (suc zero)))) h = refl
read-digit o a (suc (suc (suc (suc (suc zero))))) h = refl
read-digit o a (suc (suc (suc (suc (suc (suc zero)))))) h = refl
read-digit o a (suc (suc (suc (suc (suc (suc (suc zero))))))) h = refl
read-digit o a (suc (suc (suc (suc (suc (suc (suc (suc zero)))))))) h = refl
read-digit o a (suc (suc (suc (suc (suc (suc (suc (suc (suc zero))))))))) h = refl
read-digit o a (suc (suc (suc (suc (suc (suc (suc (suc (suc (suc n)))))))))) h = ground arith

read-show_digits :
    (o : Option ℕ) (fuel n : ℕ) → n < fuel → read (o, 0) (show_digits fuel n) ≡ (o, n)
unfolding show_digits
read-show_digits o zero n h = ground arith
read-show_digits o (suc fuel) n h = elim (Bool-cases (ltb n 10)) [
  | inl small ↦ rw small (read-digit o 0 n (ground arith) ∙ ap (λ m. (o, m)) (omega arith))
  | inr big ↦ rw big (
      read-append (o, 0) (show_digits fuel (n / 10)) (digit (n % 10))
      ∙ ap (λ r. read r (digit (n % 10))) (read-show_digits o fuel (n / 10) (ground arith))
      ∙ read-digit o (n / 10) (n % 10) (omega arith)
      ∙ ap (λ m. (o, m)) (omega arith))
]

-- The number is read back from its digits.
pub read-str : (o : Option ℕ) (n : ℕ) → read (o, 0) (str n) ≡ (o, n)
unfolding str
read-str o n = read-show_digits o (n + 1) n (omega arith)
