-- ===== src/Registry/Lease.antt =====
-- controller/src/core/runtime.rs: how long a lease lasts, and what registering and renewing return.
use vldb_controller.Base.{
  ℕ, ◌<◌, ◌≤◌, ◌+◌, ◌*◌, ◌-◌, String, none, some, ◌≡◌, refl, arith, leb, if◌then◌else◌, unwrap_or,
  ap, ◌%◌, min, Bool, true, false, ◌||◌, ◌⊎◌, inl, inr, Bool-cases, [],
}
use vldb_controller.Base.Order.{eqb, eqb_refl, str_ord}
use vldb_controller.Base.Word.{wrapping_add, saturating_mul, u64_mod, u64_max}
use vldb_controller.Base.Text.{is_blank}
use vldb_controller.BTreeMap
use vldb_controller.BTreeSet
use vldb_controller.Types.{ClientRegistration, ClientLeaseSnapshot}
use vldb_controller.Runtime.Fault.{BackendKind, Result, ok, is_ok}
use vldb_controller.Runtime.Key.{BindingKey, key_ord}
use vldb_controller.Runtime.State.{ClientState, ControllerState, VldbControllerRuntime}
use vldb_controller.Runtime.Keys.{lease_expiry, seconds_to_ms}
use vldb_controller.Runtime.Clients.{is_expired}
use vldb_controller.Runtime.Validate.{validate_client_registration}
use vldb_controller.Runtime.Sessions.{
  default_ttl, new_client, register_client, renew_client, renew_lease, snapshot_client_state,
}
use vldb_controller.Registry.Methods.{pruned}

-- While the end of the lease is below 2^64, it comes exactly `ttl` seconds after
-- its start: a client that registers with that TTL is not expired before, and is expired from then on.
pub lease-exact :
    (runtime : VldbControllerRuntime) (now ttl t : ℕ) (sid : String)
    (registration : ClientRegistration)
    → unwrap_or registration.lease_ttl_secs (default_ttl runtime) ≡ ttl
    → now + ttl * 1_000 < u64_mod
    → is_expired t (new_client runtime now sid registration) ≡ leb (now + ttl * 1_000) t
unfolding new_client lease_expiry seconds_to_ms wrapping_add saturating_mul
lease-exact runtime now ttl t sid registration e small = rw e (ap (λ x. leb x t) go)
  where
    go : lease_expiry now ttl ≡ now + ttl * 1_000
    go = omega arith

-- A TTL whose milliseconds are 2^64 - 1 or more makes the end of a lease that starts after time 0 wrap
-- around, so that the client is expired from the moment at which it registers.
pub lease-wraps :
    (runtime : VldbControllerRuntime) (now ttl t : ℕ) (sid : String)
    (registration : ClientRegistration)
    → unwrap_or registration.lease_ttl_secs (default_ttl runtime) ≡ ttl
    → u64_max ≤ ttl * 1_000
    → 0 < now
    → now < u64_mod
    → now ≤ t
    → is_expired t (new_client runtime now sid registration) ≡ true
unfolding new_client lease_expiry seconds_to_ms wrapping_add saturating_mul
lease-wraps runtime now ttl t sid registration e big p small later = rw e (rw go (ground arith))
  where
    go : lease_expiry now ttl ≡ now - 1
    go = omega arith

-- What is stored of a session that begins at `now`. The end of its lease is computed with 64 bits.
pub record IsNewSession (runtime : VldbControllerRuntime) (now : ℕ) (sid : String)
    (registration : ClientRegistration) (client : ClientState) : Type 0 where
  pub named : client.client_session_id ≡ sid
  pub as_registered : client.registration ≡ registration
  pub seen : client.last_seen_unix_ms ≡ now
  pub expires :
      client.expires_at_unix_ms
      ≡ (now
          + min
              (unwrap_or registration.lease_ttl_secs
                  runtime.server_config.runtime.default_lease_ttl_secs
                * 1_000)
              u64_max)
        % u64_mod
  pub nowhere : (s : String) → BTreeSet.contains s client.attached_space_ids ≡ false
  pub owns_nothing :
      (k : BackendKind) (j : BindingKey) → BTreeSet.contains j (client.owned_binding_keys k) ≡ false

module _ (runtime : VldbControllerRuntime) (now : ℕ) (sid : String)
    (registration : ClientRegistration) (state : ControllerState) where
  -- Whether a name that a registration must have is blank.
  abbrev pub has_blank : Bool
  has_blank =
      is_blank registration.client_name
      || is_blank registration.host_kind
      || is_blank registration.process_name

  new_client-IsNewSession :
      IsNewSession runtime now sid registration (new_client runtime now sid registration)
  unfolding new_client lease_expiry seconds_to_ms wrapping_add saturating_mul
  new_client-IsNewSession = record {
    named = refl;
    as_registered = refl;
    seen = refl;
    expires = refl;
    nowhere = λ s. BTreeSet.contains-new s;
    owns_nothing = λ k j. BTreeSet.contains-new j;
  }

  -- What `register_client` answers and leaves.
  abbrev pub IsRegistered : Result ClientLeaseSnapshot × ControllerState → Type 0
  IsRegistered r =
      (client : ClientState) × IsNewSession runtime now sid registration client
      × (r.0
          ≡ ok (record {
            client_session_id = sid;
            client_name = registration.client_name;
            host_kind = registration.host_kind;
            process_id = registration.process_id;
            process_name = registration.process_name;
            last_seen_unix_ms = now;
            expires_at_unix_ms = client.expires_at_unix_ms;
            attached_space_ids = [];
          }))
      × ((c : String)
          → BTreeMap.get c r.1.clients
            ≡ (if eqb c sid then some client else BTreeMap.get c (pruned now state).clients))

  -- A registration with a blank name is refused and changes nothing. Any other one is answered with the snapshot
  -- of a new session, seen now and attached to nothing, whose lease ends after the TTL of the registration or the
  -- controller's own, computed with 64 bits; that session is stored under its identifier, and every other session is as the removal of
  -- the expired ones left it.
  pub register-stored :
      ((has_blank ≡ true)
        × (is_ok (register_client runtime now sid registration state).0 ≡ false)
        × ((register_client runtime now sid registration state).1 ≡ state))
      ⊎ ((has_blank ≡ false) × IsRegistered (register_client runtime now sid registration state))
  unfolding register_client validate_client_registration snapshot_client_state new_client
      BTreeSet.to_list BTreeSet.new
  register-stored = elim (Bool-cases has_blank) [
    | inl b ↦ inl (b, ground arith, ground arith)
    | inr b ↦
        let valid : validate_client_registration registration ≡ ok tt = ground arith in
        inr (
          b,
          (
            new_client runtime now sid registration,
            new_client-IsNewSession,
            rw (valid, register_client)
                (rw
                  (
                    BTreeMap.get-insert sid sid (new_client runtime now sid registration)
                        (pruned now state).clients,
                    eqb_refl sid,
                  )
                  refl),
            rw (valid, register_client)
                (λ c.
                  BTreeMap.get-insert c sid (new_client runtime now sid registration)
                    (pruned now state).clients),
          ),
        )
  ]

-- A client that has a session and renews it with a TTL is answered with the snapshot of the lease that is
-- now stored, and a later renewal without a TTL uses the same TTL again.
pub renew-stored :
    (runtime : VldbControllerRuntime) (now later : ℕ) (sid : String) (ttl : ℕ)
    (client : ClientState) (state : ControllerState)
    → BTreeMap.get sid (pruned now state).clients ≡ some client
    → ((renew_client runtime now sid (some ttl) state).0
        ≡ ok (snapshot_client_state (renew_lease runtime now (some ttl) client)))
      × (BTreeMap.get sid (renew_client runtime now sid (some ttl) state).1.clients
          ≡ some (renew_lease runtime now (some ttl) client))
      × ((renew_lease runtime later none
            (renew_lease runtime now (some ttl) client)).expires_at_unix_ms
          ≡ lease_expiry later ttl)
unfolding renew_client renew_lease
renew-stored runtime now later sid ttl client state e =
    rw (e, renew_client)
      (
        refl,
        rw
            (
              BTreeMap.get-modify sid sid (renew_lease runtime now (some ttl))
                  (pruned now state).clients,
              eqb_refl sid,
              e,
            )
            refl,
        refl,
      )
