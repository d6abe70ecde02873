-- ===== src/Options/Address.antt =====
-- What the fixed buffers do to an address and a port.
use rmw_microxrcedds.Base.{
  ℕ, zero, suc, ◌≤◌, ◌≡◌, ◌↔◌, refl, ap, sym, subst, true, some, arith, leb, length, [], ◌∷◌,
}
use rmw_microxrcedds.Types.{Bytes}
use rmw_microxrcedds.RequestIds.{take}
use rmw_microxrcedds.Names.Truncation.{take-short}
use rmw_microxrcedds.Handles.{ok}
use rmw_microxrcedds.Options.{
  max_ip_len, max_port_len, TransportParams, RmwInitOptions, set_agent_address, set_agent_port,
  set_udp_port, rmw_uros_options_set_udp_address,
}

pub length-take : (n : ℕ) (xs : Bytes) → length (take n xs) ≤ n
length-take zero xs = omega arith
length-take (suc n) [] = omega arith
length-take (suc n) (x ∷ xs) = omega (arith, length-take n xs)

pub take_iff : (n : ℕ) (xs : Bytes) → (take n xs ≡ xs) ↔ (length xs ≤ n)
take_iff n xs = (
  λ e. let l : length (take n xs) ≡ length xs = ap length e in omega (arith, length-take n xs),
  take-short n xs,
)

module _ (params : TransportParams) where
  pub set_agent_address-short :
      (ip : Bytes)
      → length ip ≤ max_ip_len
      → set_agent_address params ip ≡ some (record params { agent_address = take 15 ip })
  unfolding set_agent_address
  set_agent_address-short ip h =
      let e : leb (length ip) max_ip_len ≡ true = ground arith in rw e refl

  pub set_agent_port-short :
      (port : Bytes)
      → length port ≤ max_port_len
      → set_agent_port params port ≡ some (record params { agent_port = take 4 port })
  unfolding set_agent_port
  set_agent_port-short port h =
      let e : leb (length port) max_port_len ≡ true = ground arith in rw e refl

set_udp_address-impl :
    (ip port : Bytes) (options : RmwInitOptions) (params : TransportParams)
    → length ip ≤ max_ip_len
    → length port ≤ max_port_len
    → rmw_uros_options_set_udp_address
        (some ip)
        (some port)
        (some (record options { impl = some params }))
      ≡ some (
        ok,
        some (record options {
          impl = some (record params { agent_address = take 15 ip; agent_port = take 4 port });
        }),
      )
unfolding rmw_uros_options_set_udp_address set_agent_address set_agent_port set_udp_port
set_udp_address-impl ip port options params short_ip short_port =
    let e : leb (length ip) max_ip_len ≡ true = ground arith in
    let f : leb (length port) max_port_len ≡ true = ground arith in
    rw e (rw (set_udp_port, set_agent_port, f) refl)

-- For options with memory and an address of at most 16 and a port of at most 5 bytes:
-- rmw_uros_options_set_udp_address returns RMW_RET_OK and keeps the key; the address is stored
-- whole exactly if it has at most 15 bytes, and the port exactly if it has at most 4, so that an
-- accepted port of five digits loses the last one.
pub rmw_uros_options_set_udp_address-cut :
    (ip port : Bytes) (options : RmwInitOptions) (params : TransportParams)
    → options.impl ≡ some params
    → length ip ≤ max_ip_len
    → length port ≤ max_port_len
    → (stored : TransportParams) × (rmw_uros_options_set_udp_address
          (some ip)
          (some port)
          (some options)
        ≡ some (ok, some (record options { impl = some stored })))
      × (stored.client_key ≡ params.client_key)
      × ((stored.agent_address ≡ ip) ↔ (length ip ≤ 15))
      × ((stored.agent_port ≡ port) ↔ (length port ≤ 4))
rmw_uros_options_set_udp_address-cut ip port options params memory short_ip short_port =
    let whole = set_udp_address-impl ip port options params short_ip short_port in
    let stored = record params { agent_address = take 15 ip; agent_port = take 4 port } in
    (
      stored,
      subst
          (λ o.
            rmw_uros_options_set_udp_address (some ip) (some port)
              (some (record options { impl = o }))
            ≡ some (ok, some (record options { impl = some stored })))
          (sym memory) whole,
      refl,
      take_iff 15 ip,
      take_iff 4 port,
    )
