-- ===== src/Cli/Accepted.antt =====
-- controller/src/cli.rs: which command lines start a controller, and with what configuration.
use vldb_controller.Base.{
  ℕ, ◌≤◌, ◌<◌, String, List, Bool, true, false, ◌≡◌, refl, sym, subst, ap, ◌↔◌, ltb, ◌==◌,
  if◌then◌else◌, arith,
}
use vldb_controller.Base.Order.{str_ord}
use vldb_controller.Base.Text.{trim, is_blank}
use vldb_controller.Base.Except.{Except, success, failure}
use vldb_controller.Types.{ControllerServerConfig, default_server_config}
use vldb_controller.Cli.Parse.{
  Flag, parse_arguments, complete_addr, check_port, normalize_bind_addr, validate_server_config,
  parse_server_config,
}
use vldb_controller.Cli.Settings.{
  arguments, IsSettled, bind-success, parse_arguments-settings, settings-parse_arguments,
}

-- Limits that the controller can run with.
abbrev pub IsValid : ControllerServerConfig → Type 0
IsValid config =
    (is_blank config.bind_addr ≡ false)
    × (config.runtime.minimum_uptime_secs ≤ config.runtime.idle_timeout_secs)
    × (0 < config.runtime.default_lease_ttl_secs)

unless :
    {A : Type 0} (b : Bool) (x : String) (r : Except String A) (a : A)
    → (if b then failure x else r) ≡ success a
    → (b ≡ false) × (r ≡ success a)
unless true x r a e = absurd cc
unless false x r a e = (refl, e)

ltb-false→le : (a b : ℕ) → ltb a b ≡ false → b ≤ a
ltb-false→le a b h = ground arith

le→ltb-false : (a b : ℕ) → b ≤ a → ltb a b ≡ false
le→ltb-false a b h = ground arith

nonzero : (n : ℕ) → (n == 0) ≡ false → 0 < n
nonzero n h = ground arith

positive : (n : ℕ) → 0 < n → (n == 0) ≡ false
positive n h = ground arith

abbrev result : {A : Type 0} → A → Except String A → A
result d (success a) = a
result d (failure x) = d

success-injective :
    {A : Type 0} {a b : A} → ◌≡◌ {A = Except String A} (success a) (success b) → a ≡ b
success-injective {a = a} e = ap (result a) e

validate-IsValid :
    (config validated : ControllerServerConfig)
    → (validate_server_config config ≡ success validated) ↔ ((config ≡ validated) × IsValid config)
unfolding validate_server_config
validate-IsValid config validated = (
  λ e.
      let (b, e1) = unless (is_blank config.bind_addr) _ _ validated e in
      let (l, e2) =
        unless (ltb config.runtime.idle_timeout_secs config.runtime.minimum_uptime_secs) _ _
          validated e1 in
      let (z, e3) = unless (config.runtime.default_lease_ttl_secs == 0) _ _ validated e2 in
      (success-injective e3, (b, ltb-false→le _ _ l, nonzero _ z)),
  λ (c, (b, l, z)). rw (b, le→ltb-false _ _ l, positive _ z) (ap success c),
)

module _ (socket_port : String → Except String ℕ) where
  -- `addr` is the address that the text of `--bind` stands for, with a port that is not zero.
  abbrev pub IsListening : String → String → Type 0
  IsListening bind_addr addr =
      (is_blank bind_addr ≡ false)
      × (complete_addr (trim bind_addr) ≡ addr)
      × ((port : ℕ) × (socket_port addr ≡ success port) × (0 < port))

  normalize-IsListening :
      (bind_addr addr : String)
      → (normalize_bind_addr socket_port bind_addr ≡ success addr) ↔ IsListening bind_addr addr
  unfolding normalize_bind_addr
  normalize-IsListening bind_addr addr = (
    λ e.
        let (b, f) = unless (is_blank bind_addr) _ _ addr e in
        go (socket_port (complete_addr (trim bind_addr))) refl b f,
    λ (b, c, (port, p, z)). rw (b, c, p, positive port z) refl,
  )
    where
      go :
          (r : Except String ℕ)
          → socket_port (complete_addr (trim bind_addr)) ≡ r
          → is_blank bind_addr ≡ false
          → check_port bind_addr (complete_addr (trim bind_addr)) r ≡ success addr
          → IsListening bind_addr addr
      go (failure x) r b e = absurd cc
      go (success port) r b e =
          let (z, c) = unless (port == 0) _ _ addr e in
          (
            b,
            success-injective c,
            (
              port,
              (let q : complete_addr (trim bind_addr) ≡ addr = success-injective c in rw (← q) r),
              nonzero port z,
            ),
          )

  abbrev pub IsAccepted : List String → ControllerServerConfig → Type 0
  IsAccepted args config =
      (settings : List (Flag × String)) × (settled : ControllerServerConfig) × (args
        ≡ arguments settings)
      × IsSettled settings default_server_config settled
      × IsListening settled.bind_addr config.bind_addr
      × (settled.runtime ≡ config.runtime)
      × IsValid config

  -- A command line is accepted exactly when it is a list of flags, each with a value that is not blank and that
  -- the flag can read, and the configuration that they make of the default one, taken in their order, has an
  -- address with a port, an idle time of at least the minimum uptime, and a lease that is not zero. The answer is
  -- that configuration, with the address written out.
  pub parse-IsAccepted :
      (args : List String) (config : ControllerServerConfig)
      → (parse_server_config socket_port args ≡ success config) ↔ IsAccepted args config
  unfolding parse_server_config
  parse-IsAccepted args config = (
    λ e.
        let (settled, p, f) =
          bind-success (parse_arguments args default_server_config) _ config e in
        let (addr, n, v) =
          bind-success (normalize_bind_addr socket_port settled.bind_addr) _ config f in
        let (settings, a, h) = parse_arguments-settings args default_server_config settled p in
        let (c, valid) = (validate-IsValid (record settled { bind_addr = addr }) config).0 v in
        let listening = (normalize-IsListening settled.bind_addr addr).0 n in
        (
          settings,
          settled,
          a,
          h,
          subst (λ c. IsListening settled.bind_addr c.bind_addr) c listening,
          ap (λ c. c.runtime) c,
          subst IsValid c valid,
        ),
    λ (settings, settled, a, h, listening, r, valid).
        let c : record config { runtime = settled.runtime } ≡ config =
          ap (λ r. record config { runtime = r }) r in
        rw
          (
            a,
            settings-parse_arguments settings default_server_config settled h,
            (normalize-IsListening settled.bind_addr config.bind_addr).1 listening,
          )
          ((validate-IsValid (record config { runtime = settled.runtime }) config).1
            (c, subst IsValid (sym c) valid)),
  )
