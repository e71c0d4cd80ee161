-- ===== src/Base/Throws.antt =====
-- Exceptions as values: a call either returns or throws.
use Prim.Native.Nat.{ℕ}
use Prim.Native.Char.{code}
use Prim.Native.String.{String}
use mathlib.Core.Path.{◌≡◌, refl}
use mathlib.Core.Logic.{◌⊎◌, inl, inr}
use mathlib.Core.List.{List, [], ◌∷◌, ◌++◌}

-- A `std::string`: its bytes.
abbrev pub Bytes : Type 0
Bytes = List ℕ

-- The bytes of an ASCII literal.
abbrev pub codes : String → Bytes
codes String.[] = []
codes (String.◌∷◌ c s) = code c ∷ codes s

-- What is thrown. `at_line path n e` is the runtime_error whose text is `path:n: ` and the text of `e`. `undefined` is no exception: the program has no defined behaviour there.
-- `out_of_fuel` is none either: no call returns it, as the theorems on fuel show.
pub data Error : Type 0 where
  runtime_error : Bytes → Error
  invalid_argument : Error
  out_of_range : Error
  sys_error : Bytes → Error
  at_line : Bytes → ℕ → Error → Error
  undefined : Error
  out_of_fuel : Error

pub data Result {ℓ} (A : Type ℓ) : Type ℓ where
  ok : A → Result A
  err : Error → Result A

-- `throw std::runtime_error(text + argument)`
abbrev pub throw {ℓ} : {A : Type ℓ} → String → Bytes → Result A
throw text argument = err (runtime_error (codes text ++ argument))

infixl 5 ◌>>=◌
abbrev pub ◌>>=◌ {ℓ κ} : {A : Type ℓ} {B : Type κ} → Result A → (A → Result B) → Result B
err thrown >>= next = err thrown
ok value >>= next = next value

-- `try { return m; } catch (...) { h }`
abbrev pub catch {ℓ} : {A : Type ℓ} → Result A → Result A → Result A
catch (ok a) h = ok a
catch (err undefined) h = err undefined
catch (err out_of_fuel) h = err out_of_fuel
catch (err _) h = h

-- What a chain that returns has returned at its first step.
pub >>=-eq-ok {ℓ κ} :
    {A : Type ℓ} {B : Type κ} (m : Result A) (next : A → Result B) {b : B}
    → (m >>= next) ≡ ok b
    → (value : A) × (m ≡ ok value) × (next value ≡ ok b)
>>=-eq-ok (err thrown) next e = cc
>>=-eq-ok (ok value) next e = (value, refl, e)

pub Result-cases {ℓ} :
    {A : Type ℓ} (r : Result A) → ((a : A) × (r ≡ ok a)) ⊎ ((e : Error) × (r ≡ err e))
Result-cases (ok a) = inl (a, refl)
Result-cases (err e) = inr (e, refl)
