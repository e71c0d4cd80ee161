-- ===== src/Text/Number.antt =====
-- Numbers in texts: `std::stoi`, `std::stoll`, `istream >> int` and `std::to_string`.
use ahk_unix.Base.{
  ℕ, zero, suc, ◌+◌, ◌-◌, ◌*◌, ◌/◌, ◌%◌, Bool, true, false, [], ◌∷◌, ltb, ◌==◌, if◌then◌else◌,
  Bytes, is_empty, Result, ok, err, invalid_argument, out_of_range,
}
use ahk_unix.Base.Int.{ℤ, pos, negsuc, sub_ℕ, int_min, int_max, long_min, long_max, ltb_ℤ}
use ahk_unix.Text.Chars.{is_space, is_digit}
use ahk_unix.Text.Trim.{drop_while}

-- The digits at the front of a text, and the rest.
unfoldable pub span : (ℕ → Bool) → Bytes → Bytes × Bytes
span p [] = ([], [])
span p (c ∷ s) = let found = span p s in if p c then (c ∷ found.0, found.1) else ([], c ∷ s)

unfoldable pub digits_value : ℕ → Bytes → ℕ
digits_value acc [] = acc
digits_value acc (c ∷ s) = digits_value (acc * 10 + (c - b'0')) s

abbrev pub signed : Bool → ℕ → ℤ
signed true n = sub_ℕ 0 n
signed false n = pos n

-- A sign and the digits behind it: the digits read, and the number.
unfoldable pub read_digits : Bool → Bytes → Bytes × ℤ
unfolding span digits_value is_digit
read_digits negative s =
    let digits = (span is_digit s).0 in (digits, signed negative (digits_value 0 digits))

unfoldable pub read_signed : Bytes → Bytes × ℤ
unfolding read_digits
read_signed [] = ([], pos 0)
read_signed (c ∷ s) =
    if c == b'-'
    then read_digits true s
    else if c == b'+'
    then read_digits false s
    else read_digits false (c ∷ s)

-- The two exceptions of `stoi` and `stoll`, on what strtol has read.
unfoldable pub convert : ℤ → ℤ → Bytes × ℤ → Result ℤ
convert lo hi (digits, v) =
    if is_empty digits
    then err invalid_argument
    else if ltb_ℤ v lo
    then err out_of_range
    else if ltb_ℤ hi v
    then err out_of_range
    else ok v

unfoldable pub sto : ℤ → ℤ → Bytes → Result ℤ
sto lo hi s = convert lo hi (read_signed (drop_while is_space s))

abbrev pub stoi : Bytes → Result ℤ
stoi = sto int_min int_max

abbrev pub stoll : Bytes → Result ℤ
stoll = sto long_min long_max

-- `in >> v` for `int v`, with `old` in `v` before: at the end of the input `v` keeps its value,
-- with no digits it becomes 0, and out of range it becomes the nearest bound.
unfoldable pub extract_int : ℤ → Bytes → ℤ
unfolding read_signed drop_while is_space
extract_int old s =
    let rest = drop_while is_space s in
    let (digits, v) = read_signed rest in
    if is_empty rest
    then old
    else if is_empty digits
    then pos 0
    else if ltb_ℤ v int_min
    then int_min
    else if ltb_ℤ int_max v
    then int_max
    else v

-- `in >> word`: the word, and what follows it.
unfoldable pub extract_word : Bytes → Bytes × Bytes
unfolding span drop_while is_space
extract_word s = span (λ c. if is_space c then false else true) (drop_while is_space s)

-- The decimal digits of a number, in front of `acc`. The number itself is fuel enough.
unfoldable pub digits_onto : ℕ → ℕ → Bytes → Bytes
digits_onto zero n acc = acc
digits_onto (suc f) n acc =
    let digit = b'0' + n % 10 in
    let more = digits_onto f (n / 10) (digit ∷ acc) in if ltb n 10 then digit ∷ acc else more

unfoldable pub decimal : ℕ → Bytes
unfolding digits_onto
decimal n = digits_onto (suc n) n []

unfoldable pub to_string : ℤ → Bytes
unfolding decimal
to_string (pos n) = decimal n
to_string (negsuc n) = b'-' ∷ decimal (suc n)
