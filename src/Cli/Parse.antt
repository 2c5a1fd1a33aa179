-- ===== src/Cli/Parse.antt =====
-- controller/src/cli.rs: the parser of the command line. An error is the text that `invalid_input` is called with.
-- The warning that `validate_server_config` may print is left out.
use Prim.Native.Char.{code}
use Prim.Native.String.{String, ◌++◌}
use vldb_controller.Base.{
  ℕ, ◌+◌, ◌-◌, ◌*◌, ◌^◌, Option, none, some, List, [], ◌∷◌, Bool, false, ◌&&◌, ◌||◌, ltb, leb, ◌==◌,
  if◌then◌else◌,
}
use vldb_controller.Base.Order.{eqb, str_ord}
use vldb_controller.Base.Text.{trim, is_blank}
use vldb_controller.Base.Format.{decimal}
use vldb_controller.Base.Except.{Except, success, failure, ◌>>=◌, map_except}
use vldb_controller.Types.{
  ControllerProcessMode, service, managed, ControllerServerConfig, default_server_config,
}
use vldb_controller.DataPlane.Names.{to_ascii_lowercase, match_text}

-- The flags that take a value.
pub data Flag : Type 0 where
  bind mode minimum_uptime_secs idle_timeout_secs default_lease_ttl_secs : Flag

abbrev pub flag_name : Flag → String
flag_name bind = "--bind"
flag_name mode = "--mode"
flag_name minimum_uptime_secs = "--minimum-uptime-secs"
flag_name idle_timeout_secs = "--idle-timeout-secs"
flag_name default_lease_ttl_secs = "--default-lease-ttl-secs"

unfoldable pub help_text : String
help_text =
    "vldb-controller\n\nSupported arguments:\n  --bind <HOST:PORT|PORT|:PORT>\n  --mode <service|managed>\n  --minimum-uptime-secs <SECONDS>\n  --idle-timeout-secs <SECONDS>\n  --default-lease-ttl-secs <SECONDS>\n"

abbrev or_unsupported_mode :
    String → Option ControllerProcessMode → Except String ControllerProcessMode
or_unsupported_mode value (some m) = success m
or_unsupported_mode value none =
    failure ("unsupported process mode `" ++ value ++ "`; expected `service` or `managed`")

unfoldable pub parse_process_mode : String → Except String ControllerProcessMode
unfolding to_ascii_lowercase match_text
parse_process_mode value = or_unsupported_mode value (
    match_text (("service", service) ∷ ("managed", managed) ∷ []) (to_ascii_lowercase (trim value)))

-- `str::parse::<u64>`: an optional plus and digits, read from the left, with the text of its error.
unfoldable pub parse_digits : ℕ → String → Except String ℕ
parse_digits n String.[] = success n
parse_digits n (String.◌∷◌ c s) =
    let next = n * 10 + (code c - 48) in
    let rest = parse_digits next s in
    if leb 48 (code c) && leb (code c) 57
    then if ltb next (2 ^ 64) then rest else failure "number too large to fit in target type"
    else failure "invalid digit found in string"

abbrev parse_unsigned : String → Except String ℕ
unfolding parse_digits
parse_unsigned String.[] = failure "cannot parse integer from empty string"
parse_unsigned (String.◌∷◌ c String.[]) =
    if code c == 43
    then failure "invalid digit found in string"
    else parse_digits 0 (String.◌∷◌ c String.[])
parse_unsigned (String.◌∷◌ c (String.◌∷◌ d s)) =
    if code c == 43
    then parse_digits 0 (String.◌∷◌ d s)
    else parse_digits 0 (String.◌∷◌ c (String.◌∷◌ d s))

abbrev expecting_number : String → String → Except String ℕ → Except String ℕ
expecting_number value flag (success n) = success n
expecting_number value flag (failure error) =
    failure
      (flag ++ " expects an unsigned integer value, but received `" ++ value ++ "`: " ++ error)

unfoldable pub parse_u64 : String → String → Except String ℕ
unfolding parse_digits
parse_u64 value flag = expecting_number value flag (parse_unsigned value)

-- `args.next()` is the next argument, if there is one.
unfoldable pub next_value : Option String → String → Except String String
next_value none flag = failure (flag ++ " requires one non-empty value")
next_value (some value) flag =
    if is_blank value then failure (flag ++ " requires one non-empty value") else success value

-- The arms of the loop: what a flag's value does to the configuration.
unfoldable pub set_flag :
    Flag → String → ControllerServerConfig → Except String ControllerServerConfig
unfolding parse_process_mode parse_u64
set_flag bind value config = success (record config { bind_addr = value })
set_flag mode value config =
    map_except (λ m. record config { runtime = record config.runtime { process_mode = m } })
      (parse_process_mode value)
set_flag minimum_uptime_secs value config =
    map_except (λ n. record config { runtime = record config.runtime { minimum_uptime_secs = n } })
      (parse_u64 value "--minimum-uptime-secs")
set_flag idle_timeout_secs value config =
    map_except (λ n. record config { runtime = record config.runtime { idle_timeout_secs = n } })
      (parse_u64 value "--idle-timeout-secs")
set_flag default_lease_ttl_secs value config =
    map_except
      (λ n. record config { runtime = record config.runtime { default_lease_ttl_secs = n } })
      (parse_u64 value "--default-lease-ttl-secs")

abbrev pub flag_of : String → Option Flag
unfolding match_text
flag_of argument =
    match_text
      (("--bind", bind)
        ∷ ("--mode", mode)
        ∷ ("--minimum-uptime-secs", minimum_uptime_secs)
        ∷ ("--idle-timeout-secs", idle_timeout_secs)
        ∷ ("--default-lease-ttl-secs", default_lease_ttl_secs)
        ∷ [])
      argument

-- One round of the loop, with the next argument.
unfoldable pub parse_argument :
    String
    → Option Flag
    → Option String
    → ControllerServerConfig
    → Except String ControllerServerConfig
unfolding next_value set_flag help_text
parse_argument argument (some flag) next config =
    next_value next (flag_name flag) >>= λ value. set_flag flag value config
parse_argument argument none next config =
    if eqb argument "--help" || eqb argument "-h"
    then failure help_text
    else failure (
        "unsupported argument `" ++ argument
        ++ "`; use --help to inspect the supported startup parameters")

unfoldable pub parse_arguments :
    List String → ControllerServerConfig → Except String ControllerServerConfig
unfolding parse_argument match_text
parse_arguments [] config = success config
parse_arguments (argument ∷ []) config = parse_argument argument (flag_of argument) none config
parse_arguments (argument ∷ value ∷ rest) config =
    parse_argument argument (flag_of argument) (some value) config >>= λ config.
    parse_arguments rest config

unfoldable pub contains_colon : String → Bool
contains_colon String.[] = false
contains_colon (String.◌∷◌ c s) = code c == 58 || contains_colon s

unfoldable pub starts_with_colon : String → Bool
starts_with_colon String.[] = false
starts_with_colon (String.◌∷◌ c s) = code c == 58

unfoldable pub validate_server_config :
    ControllerServerConfig → Except String ControllerServerConfig
validate_server_config config =
    if is_blank config.bind_addr
    then failure "bind address must not be empty"
    else if ltb config.runtime.idle_timeout_secs config.runtime.minimum_uptime_secs
    then failure (
        "idle_timeout_secs ("
        ++ decimal config.runtime.idle_timeout_secs
        ++ ") must be >= minimum_uptime_secs ("
        ++ decimal config.runtime.minimum_uptime_secs
        ++ "); the controller cannot shutdown before meeting minimum uptime")
    else if config.runtime.default_lease_ttl_secs == 0
    then failure "default_lease_ttl_secs must be greater than zero"
    else success config

-- The address that a trimmed text stands for.
unfoldable pub complete_addr : String → String
unfolding starts_with_colon contains_colon
complete_addr trimmed =
    if starts_with_colon trimmed
    then "0.0.0.0" ++ trimmed
    else if contains_colon trimmed
    then trimmed
    else "127.0.0.1:" ++ trimmed

abbrev pub check_port : String → String → Except String ℕ → Except String String
check_port bind_addr normalized (failure error) =
    failure ("invalid bind address `" ++ bind_addr ++ "`: " ++ error)
check_port bind_addr normalized (success port) =
    if port == 0
    then failure (
        "port number must be between 1 and 65535, but got `0` in bind address `" ++ bind_addr
        ++ "`")
    else success normalized

-- `socket_port` is the port of a text that parses as a `SocketAddr`, or the error of the parser.
module _ (socket_port : String → Except String ℕ) where
  unfoldable pub normalize_bind_addr : String → Except String String
  unfolding complete_addr
  normalize_bind_addr bind_addr =
      if is_blank bind_addr
      then failure "bind address must not be empty"
      else check_port bind_addr (complete_addr (trim bind_addr))
          (socket_port (complete_addr (trim bind_addr)))

  unfoldable pub parse_server_config : List String → Except String ControllerServerConfig
  unfolding parse_arguments normalize_bind_addr validate_server_config
  parse_server_config raw_args = parse_arguments raw_args default_server_config >>= λ config.
      normalize_bind_addr config.bind_addr >>= λ bind_addr.
      validate_server_config (record config { bind_addr = bind_addr })
