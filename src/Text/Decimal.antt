-- ===== src/Text/Decimal.antt =====
-- What `std::to_string` prints, `std::stoi` reads back.
use ahk_unix.Base.{
  ℕ, zero, suc, ◌+◌, ◌-◌, ◌*◌, ◌/◌, ◌%◌, ◌<◌, Bool, true, false, [], ◌∷◌, ◌≡◌, refl, ap, ◌∙◌, arith,
  ltb, Bytes, is_empty, ok, inl, inr, Bool-cases, ltb→lt,
}
use ahk_unix.Base.Int.{ℤ, pos, negsuc, sub_ℕ, ◌≤ℤ◌, int_min, int_max, IsInt}
use ahk_unix.Text.Chars.{is_space, is_digit}
use ahk_unix.Text.Trim.{drop_while}
use ahk_unix.Text.Number.{
  span, digits_value, signed, read_digits, read_signed, convert, sto, stoi, digits_onto, decimal,
  to_string,
}

-- Digits only.
abbrev pub AllDigits : Bytes → Type 0
AllDigits [] = Unit
AllDigits (c ∷ s) = (is_digit c ≡ true) × AllDigits s

digits_value-digit :
    (acc c : ℕ) (s : Bytes) → digits_value acc (c ∷ s) ≡ digits_value (acc * 10 + (c - b'0')) s
unfolding digits_value
digits_value-digit acc c s = refl

span-AllDigits : (s : Bytes) → AllDigits s → span is_digit s ≡ (s, [])
unfolding span
span-AllDigits [] h = refl
span-AllDigits (c ∷ s) h = ground (arith, h.0, span-AllDigits s h.1)

is_digit_add : (d : ℕ) → d < 10 → is_digit (b'0' + d) ≡ true
unfolding is_digit
is_digit_add d h = ground arith

digits_onto-AllDigits : (f n : ℕ) (acc : Bytes) → AllDigits acc → AllDigits (digits_onto f n acc)
unfolding digits_onto
digits_onto-AllDigits zero n acc h = h
digits_onto-AllDigits (suc f) n acc h = elim (Bool-cases (ltb n 10)) [
  | inl e ↦ rw e (is_digit_add (n % 10) (omega arith), h)
  | inr e ↦ rw e (digits_onto-AllDigits f (n / 10) _ (is_digit_add (n % 10) (omega arith), h))
]

-- The digits of `n` take a value of 0 to `n`, whatever stands behind them.
digits_onto-digits_value :
    (f n : ℕ) (acc : Bytes) → n < f → digits_value 0 (digits_onto f n acc) ≡ digits_value n acc
unfolding digits_onto
digits_onto-digits_value zero n acc h = elim h [ ]
digits_onto-digits_value (suc f) n acc h = elim (Bool-cases (ltb n 10)) [
  | inl e ↦ rw e (
      digits_value-digit 0 _ acc
      ∙ ap (λ k. digits_value k acc) (let small : n < 10 = ltb→lt n 10 e in omega arith))
  | inr e ↦ rw e (
      digits_onto-digits_value f (n / 10) _ (ground arith)
      ∙ digits_value-digit (n / 10) _ acc
      ∙ ap (λ k. digits_value k acc) (omega arith))
]

-- The first digit.
digits_onto-head :
    (f n : ℕ) (acc : Bytes) → (c : ℕ) × (s : Bytes) × (digits_onto (suc f) n acc ≡ c ∷ s)
unfolding digits_onto
digits_onto-head zero n acc = elim (Bool-cases (ltb n 10)) [
  | inl e ↦ (b'0' + n % 10, acc, rw e)
  | inr e ↦ (b'0' + n % 10, acc, rw e)
]
digits_onto-head (suc f) n acc = elim (Bool-cases (ltb n 10)) [
  | inl e ↦ (b'0' + n % 10, acc, rw e)
  | inr e ↦
      let (c, s, later) = digits_onto-head f (n / 10) ((b'0' + n % 10) ∷ acc) in (c, s, rw e later)
]

pub decimal-AllDigits : (n : ℕ) → AllDigits (decimal n)
unfolding decimal
decimal-AllDigits n = digits_onto-AllDigits (suc n) n [] tt

digits_value-decimal : (n : ℕ) → digits_value 0 (decimal n) ≡ n
unfolding decimal digits_value
digits_value-decimal n = digits_onto-digits_value (suc n) n [] (omega arith)

read_digits-decimal : (b : Bool) (n : ℕ) → read_digits b (decimal n) ≡ (decimal n, signed b n)
unfolding read_digits
read_digits-decimal b n =
    rw (span-AllDigits (decimal n) (decimal-AllDigits n), digits_value-decimal n)

-- A text that begins with a digit has no space to skip and no sign.
read_signed-digits :
    (c : ℕ) (s : Bytes)
    → is_digit c ≡ true
    → read_signed (drop_while is_space (c ∷ s)) ≡ read_digits false (c ∷ s)
unfolding read_signed drop_while is_space is_digit
read_signed-digits c s h = ground arith

read_signed-decimal : (n : ℕ) → read_signed (drop_while is_space (decimal n)) ≡ (decimal n, pos n)
read_signed-decimal n =
    let (c, s, e) = digits_onto-head n n [] in
    let head : decimal n ≡ c ∷ s = unfold decimal in e in
    rw head (
      read_signed-digits c s (rw head at (decimal-AllDigits n)).0
      ∙ rw head at (read_digits-decimal false n))

read_signed-minus :
    (n : ℕ) → read_signed (drop_while is_space (b'-' ∷ decimal n)) ≡ (decimal n, sub_ℕ 0 n)
unfolding read_signed drop_while is_space
read_signed-minus n = read_digits-decimal true n

pub is_empty-decimal : (n : ℕ) → is_empty (decimal n) ≡ false
unfolding decimal
is_empty-decimal n = let (c, s, e) = digits_onto-head n n [] in rw e

convert-decimal :
    (lo hi : ℤ) (n : ℕ) (v : ℤ) → lo ≤ℤ v → v ≤ℤ hi → convert lo hi (decimal n, v) ≡ ok v
unfolding convert
convert-decimal lo hi n v h k = rw (is_empty-decimal n) (ground arith)

-- `std::stoi` and `std::stoll` read back what `std::to_string` prints of a number in their range.
pub sto-to_string : (lo hi v : ℤ) → lo ≤ℤ v → v ≤ℤ hi → sto lo hi (to_string v) ≡ ok v
unfolding to_string sto
sto-to_string lo hi (pos n) h k =
    ap (convert lo hi) (read_signed-decimal n) ∙ convert-decimal lo hi n (pos n) h k
sto-to_string lo hi (negsuc n) h k =
    ap (convert lo hi) (read_signed-minus (suc n))
    ∙ ap (λ v. convert lo hi (decimal (suc n), v)) (sub_zero n)
    ∙ convert-decimal lo hi (suc n) (negsuc n) h k
  where
    sub_zero : (n : ℕ) → sub_ℕ 0 (suc n) ≡ negsuc n
    sub_zero n = ground arith

pub stoi-to_string : (v : ℤ) → IsInt v → stoi (to_string v) ≡ ok v
stoi-to_string v h = sto-to_string int_min int_max v h.0 h.1
