-- ===== src/Cli/Settings.antt =====
-- controller/src/cli.rs: the loop over the arguments, as a list of flags with their values.
use vldb_controller.Base.{
  String, Option, none, some, List, [], ◌∷◌, false, ◌≡◌, refl, ap, ◌||◌, Bool-cases, inl, inr,
}
use vldb_controller.Base.Order.{eqb, eqb→eq, str_ord, str_cmp}
use vldb_controller.Base.Text.{is_blank}
use vldb_controller.Base.Except.{Except, success, failure, ◌>>=◌}
use vldb_controller.Types.{ControllerServerConfig}
use vldb_controller.DataPlane.Names.{match_text}
use vldb_controller.Cli.Parse.{
  Flag, bind, mode, minimum_uptime_secs, idle_timeout_secs, default_lease_ttl_secs, flag_name,
  flag_of, set_flag, next_value, parse_argument, parse_arguments,
}

-- The arguments of a list of flags with their values.
unfoldable pub arguments : List (Flag × String) → List String
arguments [] = []
arguments ((flag, value) ∷ settings) = flag_name flag ∷ value ∷ arguments settings

-- The configuration that comes from another one by settings in their order, each with a value that is not blank
-- and that its flag can read.
unfoldable pub IsSettled :
    List (Flag × String) → ControllerServerConfig → ControllerServerConfig → Type 0
IsSettled [] config settled = config ≡ settled
IsSettled ((flag, value) ∷ settings) config settled =
    (next : ControllerServerConfig) × (is_blank value ≡ false)
    × (set_flag flag value config ≡ success next)
    × IsSettled settings next settled

flag_of-flag_name : (flag : Flag) → flag_of (flag_name flag) ≡ some flag
unfolding match_text str_cmp
flag_of-flag_name bind = refl
flag_of-flag_name mode = refl
flag_of-flag_name minimum_uptime_secs = refl
flag_of-flag_name idle_timeout_secs = refl
flag_of-flag_name default_lease_ttl_secs = refl

abbrev IsNamed : List (String × Flag) → Type 0
IsNamed [] = Unit
IsNamed ((name, flag) ∷ arms) = (name ≡ flag_name flag) × IsNamed arms

match_text-name :
    (arms : List (String × Flag))
    → IsNamed arms
    → (text : String) (flag : Flag) → match_text arms text ≡ some flag
    → text ≡ flag_name flag
unfolding match_text
match_text-name [] h text flag e = absurd cc
match_text-name ((name, f) ∷ arms) (n, h) text flag e = elim (Bool-cases (eqb text name)) [
  | inl t ↦ let u = eqb→eq text name t in let w : some f ≡ some flag = rw t at e in cc
  | inr t ↦ match_text-name arms h text flag (rw t at e)
]

flag_of-name : (text : String) (flag : Flag) → flag_of text ≡ some flag → text ≡ flag_name flag
unfolding match_text
flag_of-name text flag e =
    match_text-name
      (("--bind", bind)
        ∷ ("--mode", mode)
        ∷ ("--minimum-uptime-secs", minimum_uptime_secs)
        ∷ ("--idle-timeout-secs", idle_timeout_secs)
        ∷ ("--default-lease-ttl-secs", default_lease_ttl_secs)
        ∷ [])
      (refl, (refl, (refl, (refl, (refl, tt))))) text flag e

pub bind-success :
    {A B : Type 0} (m : Except String A) (f : A → Except String B) (b : B)
    → (m >>= f) ≡ success b
    → (a : A) × (m ≡ success a) × (f a ≡ success b)
bind-success (success a) f b e = (a, refl, e)
bind-success (failure x) f b e = absurd cc

-- The parser goes on after an argument only if it is a flag, and its value is not blank and can be read.
parse_argument-flag :
    (argument : String) (o : Option Flag) (next : Option String)
    (config settled : ControllerServerConfig)
    → parse_argument argument o next config ≡ success settled
    → (flag : Flag) × (value : String) × (o ≡ some flag)
      × (next ≡ some value)
      × (is_blank value ≡ false)
      × (set_flag flag value config ≡ success settled)
unfolding parse_argument next_value
parse_argument-flag argument none next config settled e =
    elim (Bool-cases (eqb argument "--help" || eqb argument "-h")) [
      | inl h ↦ let w = rw h at e in absurd cc
      | inr h ↦ let w = rw h at e in absurd cc
    ]
parse_argument-flag argument (some flag) none config settled e = absurd cc
parse_argument-flag argument (some flag) (some value) config settled e =
    elim (Bool-cases (is_blank value)) [
      | inl h ↦ let w = rw h at e in absurd cc
      | inr h ↦ (flag, value, refl, refl, h, rw h at e)
    ]

same :
    {a b v x : String} {r s : List String}
    → a ≡ b
    → some v ≡ some x
    → r ≡ s
    → (a ∷ v ∷ r) ≡ b ∷ x ∷ s
same e f g = cc

pub parse_arguments-settings :
    (args : List String) (config settled : ControllerServerConfig)
    → parse_arguments args config ≡ success settled
    → (settings : List (Flag × String)) × (args ≡ arguments settings)
      × IsSettled settings config settled
unfolding parse_arguments arguments IsSettled
parse_arguments-settings [] config settled e = ([], refl, cc)
parse_arguments-settings (argument ∷ []) config settled e =
    let (flag, value, o, n, v, s) =
      parse_argument-flag argument (flag_of argument) none config settled e in
    absurd cc
parse_arguments-settings (argument ∷ value ∷ rest) config settled e =
    let (next, f, g) =
      bind-success (parse_argument argument (flag_of argument) (some value) config)
        (λ c. parse_arguments rest c) settled e in
    let (flag, x, o, n, v, s) =
      parse_argument-flag argument (flag_of argument) (some value) config next f in
    let (settings, a, h) = parse_arguments-settings rest next settled g in
    ((flag, x) ∷ settings, same (flag_of-name argument flag o) n a, (next, v, s, h))

pub settings-parse_arguments :
    (settings : List (Flag × String)) (config settled : ControllerServerConfig)
    → IsSettled settings config settled
    → parse_arguments (arguments settings) config ≡ success settled
unfolding parse_arguments arguments IsSettled parse_argument next_value match_text
settings-parse_arguments [] config settled e = ap success e
settings-parse_arguments ((flag, value) ∷ settings) config settled (next, v, e, h) =
    rw (flag_of-flag_name flag, v, e) (settings-parse_arguments settings next settled h)
