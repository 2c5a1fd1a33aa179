-- ===== src/Tests/Cli.antt =====
-- The command line at concrete inputs, some of them those of the tests in controller/src/cli.rs.
use vldb_controller.Base.{ℕ, String, List, [], ◌∷◌, ◌≡◌, refl, ◌↔◌}
use vldb_controller.Base.Order.{str_cmp}
use vldb_controller.Base.Text.{is_blank}
use vldb_controller.Base.Except.{Except, success, failure}
use vldb_controller.Types.{ControllerServerConfig, service, default_runtime_config}
use vldb_controller.Cli.Parse.{parse_server_config}
use vldb_controller.Cli.Accepted.{IsAccepted, parse-IsAccepted}

abbrev socket_port : String → Except String ℕ
socket_port addr = success 19_811

abbrev command_line : List String
command_line = "--bind" ∷ "19811" ∷ "--mode" ∷ " Service" ∷ "--idle-timeout-secs" ∷ "+1200" ∷ []

abbrev configured : ControllerServerConfig
configured = record {
  bind_addr = "127.0.0.1:19811";
  runtime = record default_runtime_config { process_mode = service; idle_timeout_secs = 1_200 };
}

command_line-configured : parse_server_config socket_port command_line ≡ success configured
unfolding parse_server_config str_cmp is_blank
command_line-configured = refl

parse-IsAccepted_example :
    (parse_server_config socket_port command_line ≡ success configured)
    ↔ IsAccepted socket_port command_line configured
parse-IsAccepted_example = parse-IsAccepted socket_port command_line configured

blank_value-refused :
    parse_server_config socket_port ("--bind" ∷ " " ∷ [])
    ≡ failure "--bind requires one non-empty value"
unfolding parse_server_config str_cmp is_blank
blank_value-refused = refl

lease_zero-refused :
    parse_server_config socket_port ("--default-lease-ttl-secs" ∷ "0" ∷ [])
    ≡ failure "default_lease_ttl_secs must be greater than zero"
unfolding parse_server_config str_cmp is_blank
lease_zero-refused = refl
