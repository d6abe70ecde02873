-- ===== src/Options.antt =====
-- The options of a context: `rmw_init_options_…` of src/rmw_init.c, src/rmw_microros/init_options.c
-- and src/rmw_microros/discovery.c, in a build with RMW_UXRCE_TRANSPORT_UDP and
-- RMW_UXRCE_TRANSPORT_IPV4.
pub mod Address
pub mod Key
use Prim.Native.String.{String}
use rmw_microxrcedds.Base.{
  ℕ, zero, suc, ◌+◌, ◌%◌, ◌^◌, Bool, true, false, not, Option, none, some, List, [], ◌∷◌, leb, ltb,
  ◌==◌, length, if◌then◌else◌,
}
use rmw_microxrcedds.Types.{Bytes}
use rmw_microxrcedds.Names.{snprintf}
use rmw_microxrcedds.Receive.{◌>>=◌}
use rmw_microxrcedds.Handles.{
  Ret, ok, timeout, invalid_argument, incorrect_rmw_implementation,
  eprosima_microxrcedds_identifier,
}

abbrev pub max_ip_len : ℕ
max_ip_len = 16

abbrev pub max_port_len : ℕ
max_port_len = 5

-- `rmw_uxrce_transport_params_t`
pub record TransportParams : Type 0 where
  pub agent_address : Bytes
  pub agent_port : Bytes
  pub client_key : ℕ

-- `rmw_init_options_t`; `impl` is none where the pointer is NULL.
pub record RmwInitOptions : Type 0 where
  pub instance_id : ℕ
  pub implementation_identifier : Option String
  pub allocator_is_valid : Bool
  pub enclave : Bytes
  pub domain_id : ℕ
  pub impl : Option TransportParams

-- `rmw_get_zero_initialized_init_options`
abbrev pub zero_options : RmwInitOptions
zero_options = record {
  instance_id = 0;
  implementation_identifier = none;
  allocator_is_valid = false;
  enclave = [];
  domain_id = 0;
  impl = none;
}

-- What the build and the platform give: the default address and port, the numbers that `rand`
-- returns after `srand`, the memory that an allocation returns, and the test of
-- RMW_CHECK_TYPE_IDENTIFIERS_MATCH.
pub record Platform : Type 0 where
  pub default_udp_ip : Bytes
  pub default_udp_port : Bytes
  pub rand : ℕ → ℕ
  pub allocated : Option TransportParams
  pub identifiers_match : Option String → Option String → Bool

abbrev pub is_null {ℓ} : {A : Type ℓ} → Option A → Bool
is_null none = true
is_null (some a) = false

-- `if (strlen(ip) <= MAX_IP_LEN) { snprintf(agent_address, MAX_IP_LEN, "%s", ip); }`, none where
-- the text is refused.
unfoldable pub set_agent_address : TransportParams → Bytes → Option TransportParams
set_agent_address params ip =
    if leb (length ip) max_ip_len
    then some (record params { agent_address = (snprintf max_ip_len ip).0 })
    else none

unfoldable pub set_agent_port : TransportParams → Bytes → Option TransportParams
set_agent_port params port =
    if leb (length port) max_port_len
    then some (record params { agent_port = (snprintf max_port_len port).0 })
    else none

-- The loop that draws the key, from draw `i` on; `none` means that the fuel ran out.
unfoldable pub draw_client_key : (fuel : ℕ) → (rand : ℕ → ℕ) → (i : ℕ) → Option ℕ
draw_client_key zero rand i = none
draw_client_key (suc fuel) rand i =
    let rest = draw_client_key fuel rand (i + 1) in
    let client_key = rand i % 2 ^ 32 in if client_key == 0 then rest else some client_key

-- The part behind the checks of the arguments, on the new options and the memory behind `impl`.
unfoldable pub configure :
    (fuel : ℕ) → Platform → RmwInitOptions → TransportParams → Option (Ret × RmwInitOptions)
unfolding set_agent_address set_agent_port draw_client_key
configure fuel platform options params = elim (set_agent_address params platform.default_udp_ip) [
  | none ↦ some (invalid_argument, record options { impl = some params })
  | some params1 ↦ elim (set_agent_port params1 platform.default_udp_port) [
    | none ↦ some (invalid_argument, record options { impl = some params1 })
    | some params2 ↦ do
      client_key ← draw_client_key fuel platform.rand 0
      some (ok, record options { impl = some (record params2 { client_key = client_key }) })
  ]
]

-- `none` is a loop that does not end within the fuel, or a write through NULL.
unfoldable pub rmw_init_options_init :
    (fuel : ℕ)
    → Platform
    → (allocator_is_valid : Bool) → Option RmwInitOptions
    → Option (Ret × Option RmwInitOptions)
unfolding configure
rmw_init_options_init fuel platform valid none = some (invalid_argument, none)
rmw_init_options_init fuel platform valid (some options) =
    if not valid
    then some (invalid_argument, some options)
    else if not (is_null options.implementation_identifier)
    then some (invalid_argument, some options)
    else (do
      params ← platform.allocated
      (ret, done) ←
          configure fuel platform
            (record {
              instance_id = 0;
              implementation_identifier = some eprosima_microxrcedds_identifier;
              allocator_is_valid = valid;
              enclave = 47 ∷ [];
              domain_id = 0;
              impl = some params;
            })
            params
      some (ret, some done))

-- The result and `*dst`. The two copied structures do not share memory.
unfoldable pub rmw_init_options_copy :
    Platform → (src dst : Option RmwInitOptions) → Option (Ret × Option RmwInitOptions)
rmw_init_options_copy platform none dst = some (invalid_argument, dst)
rmw_init_options_copy platform (some src) none = some (invalid_argument, none)
rmw_init_options_copy platform (some src) (some dst) =
    if not (
      platform.identifiers_match src.implementation_identifier
        (some eprosima_microxrcedds_identifier))
    then some (incorrect_rmw_implementation, some dst)
    else if not (is_null dst.implementation_identifier)
    then some (invalid_argument, some dst)
    else (do
      memory ← platform.allocated
      params ← src.impl
      some (ok, some (record src { impl = some params })))

unfoldable pub rmw_init_options_fini :
    Platform → Option RmwInitOptions → Ret × Option RmwInitOptions
rmw_init_options_fini platform none = (invalid_argument, none)
rmw_init_options_fini platform (some options) =
    if not options.allocator_is_valid
    then (invalid_argument, some options)
    else if not (
        platform.identifiers_match options.implementation_identifier
          (some eprosima_microxrcedds_identifier))
    then (incorrect_rmw_implementation, some options)
    else (ok, some zero_options)

-- The program's name, the address and the port stand in `argv`.
unfoldable pub rmw_uros_init_options :
    (argv : List Bytes) → Option RmwInitOptions → Option (Ret × Option RmwInitOptions)
rmw_uros_init_options argv none = some (invalid_argument, none)
rmw_uros_init_options (program ∷ ip ∷ port ∷ more) (some options) = do
  params ← options.impl
  some (
    ok,
    some (record options {
      impl = some (record params {
        agent_address = (snprintf max_ip_len ip).0;
        agent_port = (snprintf max_port_len port).0;
      });
    }),
  )
rmw_uros_init_options _ (some options) = some (invalid_argument, some options)

-- An address that is not refused is written before the port is looked at.
unfoldable pub set_udp_port :
    RmwInitOptions → TransportParams → (port : Option Bytes) → Ret × RmwInitOptions
unfolding set_agent_port
set_udp_port options params none = (invalid_argument, record options { impl = some params })
set_udp_port options params (some port) = elim (set_agent_port params port) [
  | none ↦ (invalid_argument, record options { impl = some params })
  | some params1 ↦ (ok, record options { impl = some params1 })
]

unfoldable pub rmw_uros_options_set_udp_address :
    (ip port : Option Bytes) → Option RmwInitOptions → Option (Ret × Option RmwInitOptions)
unfolding set_agent_address set_udp_port
rmw_uros_options_set_udp_address ip port none = some (invalid_argument, none)
rmw_uros_options_set_udp_address none port (some options) = some (invalid_argument, some options)
rmw_uros_options_set_udp_address (some ip) port (some options) =
    if leb (length ip) max_ip_len
    then (do
      params ← options.impl
      params1 ← set_agent_address params ip
      let (ret, done) = set_udp_port options params1 port
      some (ret, some done))
    else some (invalid_argument, some options)

unfoldable pub rmw_uros_options_set_client_key :
    (client_key : ℕ) → Option RmwInitOptions → Option (Ret × Option RmwInitOptions)
rmw_uros_options_set_client_key client_key none = some (invalid_argument, none)
rmw_uros_options_set_client_key client_key (some options) = do
  params ← options.impl
  some (ok, some (record options { impl = some (record params { client_key = client_key }) }))
