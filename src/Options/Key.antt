-- ===== src/Options/Key.antt =====
-- The options are ready for a session: the loop that draws the key of the client ends.
use rmw_microxrcedds.Base.{
  ℕ, zero, suc, ◌+◌, ◌%◌, ◌^◌, ◌<◌, ◌≡◌, refl, sym, subst, Bool-cases, inl, inr, true, false, some,
  none, arith, ◌==◌, length, [], ◌∷◌,
}
use rmw_microxrcedds.Names.Truncation.{take-short}
use rmw_microxrcedds.Handles.{ok, eprosima_microxrcedds_identifier}
use rmw_microxrcedds.Options.Address.{set_agent_address-short, set_agent_port-short}
use rmw_microxrcedds.Options.{
  max_ip_len, max_port_len, TransportParams, RmwInitOptions, Platform, draw_client_key, configure,
  rmw_init_options_init,
}

below : (n : ℕ) → n % 2 ^ 32 < 2 ^ 32
below n = omega arith

draw_client_key-nonzero :
    (rand : ℕ → ℕ) (k i fuel : ℕ)
    → 0 < rand (k + i) % 2 ^ 32
    → k < fuel
    → (key : ℕ) × (draw_client_key fuel rand i ≡ some key) × (0 < key) × (key < 2 ^ 32)
unfolding draw_client_key
draw_client_key-nonzero rand k i zero pos lt = absurd (omega arith)
draw_client_key-nonzero rand zero i (suc fuel) pos lt =
    let pos' : 0 < rand i % 2 ^ 32 = subst (λ n. 0 < rand n % 2 ^ 32) (omega arith) pos in
    let e : (rand i % 2 ^ 32 == 0) ≡ false = ground arith in
    (rand i % 2 ^ 32, rw e refl, pos', below (rand i))
draw_client_key-nonzero rand (suc k) i (suc fuel) pos lt =
    elim (Bool-cases (rand i % 2 ^ 32 == 0)) [
      | inl again ↦
          let pos' = subst (λ n. 0 < rand n % 2 ^ 32) (omega arith) pos in
          let (key, e, p, q) = draw_client_key-nonzero rand k (i + 1) fuel pos' (omega arith) in
          (key, rw again e, p, q)
      | inr found ↦ (rand i % 2 ^ 32, rw found refl, ground arith, omega arith)
    ]

-- The options that the initialisation leaves.
abbrev initialised : Platform → (client_key : ℕ) → RmwInitOptions
initialised platform client_key = record {
  instance_id = 0;
  implementation_identifier = some eprosima_microxrcedds_identifier;
  allocator_is_valid = true;
  enclave = 47 ∷ [];
  domain_id = 0;
  impl = some (record {
    agent_address = platform.default_udp_ip;
    agent_port = platform.default_udp_port;
    client_key = client_key;
  });
}

configure-key :
    (fuel : ℕ) (platform : Platform) (options : RmwInitOptions) (params : TransportParams) (key : ℕ)
    → length platform.default_udp_ip < max_ip_len
    → length platform.default_udp_port < max_port_len
    → draw_client_key fuel platform.rand 0 ≡ some key
    → configure fuel platform options params
      ≡ some (ok, record options { impl = (initialised platform key).impl })
unfolding configure
configure-key fuel platform options params key ip port drawn =
    rw
      (
        configure,
        set_agent_address-short params platform.default_udp_ip (omega arith),
        take-short 15 platform.default_udp_ip (omega arith),
      )
      (rw
        (
          set_agent_port-short (record params { agent_address = platform.default_udp_ip })
              platform.default_udp_port (omega arith),
          take-short 4 platform.default_udp_port (omega arith),
        )
        (rw drawn refl))

init-impl :
    (fuel : ℕ) (platform : Platform) (options : RmwInitOptions) (params : TransportParams) (key : ℕ)
    → length platform.default_udp_ip < max_ip_len
    → length platform.default_udp_port < max_port_len
    → draw_client_key fuel platform.rand 0 ≡ some key
    → rmw_init_options_init fuel
        (record platform { allocated = some params })
        true
        (some (record options { implementation_identifier = none }))
      ≡ some (ok, some (initialised platform key))
unfolding rmw_init_options_init
init-impl fuel platform options params key ip port drawn =
    rw (configure-key fuel (record platform { allocated = some params }) _ params key ip port drawn)
      refl

-- For zero-initialised options, a valid allocator with memory, a default address and a default
-- port that are shorter than their buffers, and a `rand` that returns, before the fuel runs out,
-- a number whose low 32 bits are not 0: rmw_init_options_init ends with RMW_RET_OK, the
-- identifier of this implementation, the whole address and port, and a key that is a uint32_t
-- other than 0.
pub rmw_init_options_init-ends :
    (fuel : ℕ) (platform : Platform) (options : RmwInitOptions) (params : TransportParams) (k : ℕ)
    → options.implementation_identifier ≡ none
    → platform.allocated ≡ some params
    → length platform.default_udp_ip < max_ip_len
    → length platform.default_udp_port < max_port_len
    → 0 < platform.rand k % 2 ^ 32
    → k < fuel
    → (done : RmwInitOptions) × (key : ℕ) × (rmw_init_options_init fuel platform true (some options)
        ≡ some (ok, some done))
      × (done.implementation_identifier ≡ some eprosima_microxrcedds_identifier)
      × (done.impl
          ≡ some (record {
            agent_address = platform.default_udp_ip;
            agent_port = platform.default_udp_port;
            client_key = key;
          }))
      × (0 < key)
      × (key < 2 ^ 32)
rmw_init_options_init-ends fuel platform options params k zeroed memory ip port pos lt =
    let (key, drawn, p, q) =
      draw_client_key-nonzero platform.rand k 0 fuel
        (subst (λ n. 0 < platform.rand n % 2 ^ 32) (omega arith) pos) lt in
    (
      initialised platform key,
      key,
      subst
          (λ o.
            rmw_init_options_init fuel platform true
              (some (record options { implementation_identifier = o }))
            ≡ some (ok, some (initialised platform key)))
          (sym zeroed)
          (subst
            (λ o.
              rmw_init_options_init fuel (record platform { allocated = o }) true
                (some (record options { implementation_identifier = none }))
              ≡ some (ok, some (initialised platform key)))
            (sym memory) (init-impl fuel platform options params key ip port drawn)),
      refl,
      refl,
      p,
      q,
    )
