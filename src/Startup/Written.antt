-- ===== src/Startup/Written.antt =====
-- Options written as arguments, and what `parse_options` of src/daemon/main.cpp reads back.
use ahk_unix.Base.{
  Bool, true, false, List, [], ◌∷◌, ◌++◌, ◌≡◌, refl, ap, ◌∙◌, inl, inr, arith, some, if◌then◌else◌,
  Bytes, codes, ok, Bool-cases,
}
use ahk_unix.Text.Chars.{equal, equal_iff, starts_with}
use ahk_unix.Startup.{Options}
use ahk_unix.Startup.Arguments.{read_argument, options_loop, parse_options}

-- A word that is no option.
abbrev pub IsPath : Bytes → Type 0
IsPath arg = (starts_with arg (codes "--") ≡ false) × (equal arg (codes "-h") ≡ false)

abbrev flag_argument : Bool → Bytes → List Bytes
flag_argument b word = if b then word ∷ [] else []

abbrev device_argument : Bytes → List Bytes
device_argument [] = []
device_argument (c ∷ device) = codes "--device" ∷ (c ∷ device) ∷ []

abbrev script_argument : Bytes → List Bytes
script_argument [] = []
script_argument (c ∷ script) = (c ∷ script) ∷ []

abbrev pub arguments_of : Options → List Bytes
arguments_of options =
    flag_argument options.foreground (codes "--foreground")
    ++ (flag_argument options.strict_mode (codes "--strict")
        ++ (device_argument options.device ++ script_argument options.script))

-- An argument that is read alone.
options_loop-step :
    (arg : Bytes) (args : List Bytes) (options read : Options)
    → equal arg (codes "--device") ≡ false
    → read_argument arg options ≡ ok (some read)
    → options_loop (arg ∷ args) options ≡ options_loop args read
unfolding options_loop
options_loop-step arg [] options read d e = e
options_loop-step arg (next ∷ args) options read d e = rw (d, e, options_loop)

-- An option word begins with two dashes.
not_option :
    (arg word : Bytes)
    → starts_with arg (codes "--") ≡ false
    → starts_with word (codes "--") ≡ true
    → equal arg word ≡ false
not_option arg word h k = elim (Bool-cases (equal arg word)) [
  | inr e ↦ e
  | inl e ↦
      let same = ap (λ a. starts_with a (codes "--")) ((equal_iff arg word).0 e) in
      absurd (ground (arith, same, h, k))
]

abbrev options_with : Bytes → Bytes → Bool → Bool → Options
options_with device script foreground strict_mode = record {
  device = device;
  script = script;
  foreground = foreground;
  strict_mode = strict_mode;
}

read_argument-path :
    (arg device : Bytes) (foreground strict_mode : Bool)
    → IsPath arg
    → read_argument arg (options_with device [] foreground strict_mode)
      ≡ ok (some (options_with device arg foreground strict_mode))
unfolding read_argument starts_with
read_argument-path arg device foreground strict_mode h = rw (
  not_option arg (codes "--foreground") h.0 refl,
  not_option arg (codes "--no-daemon") h.0 refl,
  not_option arg (codes "--strict") h.0 refl,
  not_option arg (codes "--device") h.0 refl,
  not_option arg (codes "--help") h.0 refl,
  h.1,
  h.0,
  read_argument,
)

read-foreground :
    (b : Bool) (args : List Bytes)
    → options_loop (flag_argument b (codes "--foreground") ++ args) (options_with [] [] false false)
      ≡ options_loop args (options_with [] [] b false)
unfolding read_argument equal
read-foreground false args = refl
read-foreground true args = options_loop-step (codes "--foreground") args _ _ refl refl

read-strict :
    (b foreground : Bool) (args : List Bytes)
    → options_loop
        (flag_argument b (codes "--strict") ++ args)
        (options_with [] [] foreground false)
      ≡ options_loop args (options_with [] [] foreground b)
unfolding read_argument equal
read-strict false foreground args = refl
read-strict true foreground args = options_loop-step (codes "--strict") args _ _ refl refl

read-device :
    (device : Bytes) (foreground strict_mode : Bool) (args : List Bytes)
    → options_loop (device_argument device ++ args) (options_with [] [] foreground strict_mode)
      ≡ options_loop args (options_with device [] foreground strict_mode)
unfolding options_loop equal
read-device [] foreground strict_mode args = refl
read-device (c ∷ device) foreground strict_mode args = refl

read-script :
    (script device : Bytes) (foreground strict_mode : Bool)
    → IsPath script
    → options_loop (script_argument script) (options_with device [] foreground strict_mode)
      ≡ ok (some (options_with device script foreground strict_mode))
unfolding options_loop
read-script [] device foreground strict_mode h = refl
read-script (c ∷ script) device foreground strict_mode h =
    read_argument-path (c ∷ script) device foreground strict_mode h

-- Options are read back from the arguments that they are written as, if the script is no option.
pub parse_options-arguments_of :
    (options : Options)
    → IsPath options.script
    → parse_options (arguments_of options) ≡ ok (some options)
unfolding parse_options
parse_options-arguments_of options h =
    read-foreground options.foreground _
    ∙ read-strict options.strict_mode options.foreground _
    ∙ read-device options.device options.foreground options.strict_mode _
    ∙ read-script options.script options.device options.foreground options.strict_mode h
