-- ===== src/Go/Decimal.antt =====
-- strconv.Atoi of a text of digits, and strconv.Itoa of a number that is not negative.
use kruise_agents_nfs_csi.Prelude.{
  ℕ, zero, suc, ◌+◌, ◌*◌, ◌-◌, ◌/◌, ◌%◌, ◌^◌, ◌<◌, ◌≡◌, [], ◌∷◌, arith, ltb, ap, Bool-cases, inl,
  inr, if◌then◌else◌,
}
use kruise_agents_nfs_csi.Go.Text.{Str}
use kruise_agents_nfs_csi.Go.Errors.{Result, ok, err, text}

-- The number that digits stand for, behind the one of the digits before them.
unfoldable pub digits_value : ℕ → Str → ℕ
digits_value n [] = n
digits_value n (c ∷ s) = digits_value (n * 10 + (c - 48)) s

-- strconv.Atoi, on a text of one digit or more: an int has 64 bits
unfoldable pub atoi : Str → Result ℕ
unfolding digits_value
atoi s =
    if ltb (digits_value 0 s) (2 ^ 63)
    then ok (digits_value 0 s)
    else err (text "value out of range")

-- The digits of a number in front of others. The fuel is their greatest count.
unfoldable pub decimal : ℕ → ℕ → Str → Str
decimal zero n s = s
decimal (suc fuel) n s =
    let rest = decimal fuel (n / 10) ((48 + n % 10) ∷ s) in if ltb n 10 then (48 + n) ∷ s else rest

-- strconv.Itoa: 2^63 has 19 digits
unfoldable pub itoa : ℕ → Str
unfolding decimal
itoa n = decimal 19 n []

div_mod : (n : ℕ) → n / 10 * 10 + (48 + n % 10 - 48) ≡ n
div_mod n = omega arith

value-decimal :
    (fuel n : ℕ) (s : Str) → n < 10 ^ fuel → digits_value 0 (decimal fuel n s) ≡ digits_value n s
unfolding decimal digits_value
value-decimal zero n s h = ap (λ k. digits_value k s) (omega arith)
value-decimal (suc fuel) n s h = elim (Bool-cases (ltb n 10)) [
  | inl small ↦ ground arith
  | inr large ↦
      let again = value-decimal fuel (n / 10) ((48 + n % 10) ∷ s) (omega (arith, h)) in
      let same = ap (λ k. digits_value k s) (div_mod n) in ground (arith, again, same)
]

-- A number that fits is read back from its digits.
pub atoi-itoa : (n : ℕ) → n < 2 ^ 63 → atoi (itoa n) ≡ ok n
unfolding atoi itoa
atoi-itoa n h = ground (arith, h, value-decimal 19 n [] (omega (arith, h)))
