-- ===== src/Context.antt =====
-- `Context` of include/ahkunix/commands/IfCommand.hpp: the integer variables and the texts.
pub mod Time
pub mod Condition
pub mod Matchers
pub mod Replace
pub mod Interpolate
pub mod Effects
pub mod Run
mod Numbers
mod Bounds
mod Written
mod Plain
mod Math
mod Branch
mod Compared
mod Exact
mod Tests
use ahk_unix.Base.{
  ℕ, Bool, true, false, List, [], ◌∷◌, ◌≡◌, refl, inl, inr, arith, Option, none, some,
  if◌then◌else◌, Bytes, Bool-cases,
}
use ahk_unix.Base.Int.{ℤ, pos}
use ahk_unix.Text.Chars.{equal, equal_iff}

-- A std::unordered_map by its entries, each name once.
unfoldable pub lookup {ℓ} : {A : Type ℓ} → Bytes → List (Bytes × A) → Option A
unfolding equal
lookup name [] = none
lookup name ((key, value) ∷ entries) = elim (equal name key) [
  | true ↦ some value
  | false ↦ lookup name entries
]

-- `entries[name] = value`
unfoldable pub assign {ℓ} : {A : Type ℓ} → Bytes → A → List (Bytes × A) → List (Bytes × A)
unfolding equal
assign name value [] = (name, value) ∷ []
assign name value ((key, old) ∷ entries) = elim (equal name key) [
  | true ↦ (key, value) ∷ entries
  | false ↦ (key, old) ∷ assign name value entries
]

pub record Context : Type 0 where
  pub variables : List (Bytes × ℤ)
  pub variables_str : List (Bytes × Bytes)

abbrev pub empty_context : Context
empty_context = record { variables = []; variables_str = [] }

abbrev pub or_zero : Option ℤ → ℤ
or_zero (some value) = value
or_zero none = pos 0

unfoldable pub get_variable : Context → Bytes → ℤ
unfolding lookup
get_variable ctx name = or_zero (lookup name ctx.variables)

unfoldable pub set_variable : Bytes → ℤ → Context → Context
unfolding assign
set_variable name value ctx = record ctx { variables = assign name value ctx.variables }

unfoldable pub set_variable_str : Bytes → Bytes → Context → Context
unfolding assign
set_variable_str name value ctx = record ctx { variables_str = assign name value ctx.variables_str }
