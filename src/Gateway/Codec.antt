-- ===== src/Gateway/Codec.antt =====
-- server/gateway/packet.go: what is packed can be unpacked.
use minotaur.Base.{
  ℕ, ◌+◌, ◌*◌, ◌/◌, ◌%◌, ◌^◌, ◌<◌, ◌≤◌, List, [], ◌∷◌, ◌++◌, some, length, ◌≡◌, refl, ap, ap₂,
  arith, le→ltb,
}
use minotaur.Base.Int.{ℤ, pos, negsuc}
use minotaur.Gateway.{
  Net, ok, ◌>>=◌, packet_identifier, compare_bytes, bytes_agree, to_uint32, port_bytes, port_at,
  put_uint32, get_uint32, checked_port, checked_ip, checked_split, address_bytes,
  marshal_gateway_out_packet, unmarshal_gateway_out_packet, marshal_gateway_in_packet,
  unmarshal_gateway_in_packet,
}

port_round : (n : ℕ) → n ≤ 65535 → n / 256 % 256 * 256 + n % 256 ≡ n
port_round n h = omega arith

uint32_round :
    (n : ℕ)
    → n < 2 ^ 32
    → n / 2 ^ 24 % 256 * 2 ^ 24 + n / 2 ^ 16 % 256 * 2 ^ 16 + n / 2 ^ 8 % 256 * 2 ^ 8 + n % 256 ≡ n
uint32_round n h = omega arith

to_uint32_lt : (i : ℤ) → to_uint32 i < 2 ^ 32
unfolding to_uint32
to_uint32_lt (pos n) = omega arith
to_uint32_lt (negsuc n) = omega arith

abbrev pub AreBytes : List ℕ → Type 0
AreBytes [] = Unit {0}
AreBytes (x ∷ xs) = (x < 256) × AreBytes xs

-- What package net promises of addresses of version 4: an address and a port that are printed are
-- found again.
pub record IsNet {Text : Type 0} (net : Net Text) : Type 0 where
  pub host_port :
      (ip : List ℕ) (port : ℕ)
      → length ip ≡ 4
      → AreBytes ip
      → port ≤ 65535
      → (host : Text) × (port_str : Text) × (net.split_host_port
            (net.join_port (net.ip_string ip) port)
          ≡ some (host, port_str))
        × (net.parse_ip_v4 host ≡ some ip)
        × (net.atoi port_str ≡ some (pos port))

checked_port_lem : (port : ℕ) → port ≤ 65535 → checked_port (some (pos port)) ≡ ok port
unfolding checked_port
checked_port_lem port h = ground arith

module _ {Text : Type 0} (net : Net Text) (ok_net : IsNet net) where
  pub address_bytes_lem :
      (ip : List ℕ) (port : ℕ)
      → length ip ≡ 4
      → AreBytes ip
      → port ≤ 65535
      → address_bytes net (net.join_port (net.ip_string ip) port) ≡ ok (ip, port)
  unfolding address_bytes checked_split checked_ip
  address_bytes_lem ip port four bytes small =
      let (host, port_str, split, parsed, number) = ok_net.host_port ip port four bytes small in
      rw (split, parsed, number, checked_port_lem port small) refl

  unmarshal_out :
      (ip : List ℕ) (port : ℕ) (packet : List ℕ)
      → length ip ≡ 4
      → port ≤ 65535
      → unmarshal_gateway_out_packet net (((packet_identifier ++ ip) ++ port_bytes port) ++ packet)
        ≡ ok (net.join_port (net.ip_string ip) port, packet)
  unfolding unmarshal_gateway_out_packet compare_bytes bytes_agree port_bytes port_at
  unmarshal_out (a ∷ b ∷ c ∷ d ∷ []) port packet four small =
      rw
        (le→ltb (length (((packet_identifier ++ a ∷ b ∷ c ∷ d ∷ []) ++ port_bytes port) ++ packet))
          10 (omega arith))
        (ap (λ n. ok (net.join_port (net.ip_string (a ∷ b ∷ c ∷ d ∷ [])) n, packet))
          (port_round port small))
  unmarshal_out [] port packet four small = absurd (omega arith)
  unmarshal_out (a ∷ []) port packet four small = absurd (omega arith)
  unmarshal_out (a ∷ b ∷ []) port packet four small = absurd (omega arith)
  unmarshal_out (a ∷ b ∷ c ∷ []) port packet four small = absurd (omega arith)
  unmarshal_out (a ∷ b ∷ c ∷ d ∷ e ∷ ip) port packet four small = absurd (omega arith)

  -- An address of version 4 with a port: what is packed for the way out is unpacked to the address
  -- and the packet.
  pub marshal-unmarshal_out :
      (ip : List ℕ) (port : ℕ) (packet : List ℕ)
      → length ip ≡ 4
      → AreBytes ip
      → port ≤ 65535
      → (marshal_gateway_out_packet net (net.join_port (net.ip_string ip) port) packet
          >>= unmarshal_gateway_out_packet net)
        ≡ ok (net.join_port (net.ip_string ip) port, packet)
  unfolding marshal_gateway_out_packet
  marshal-unmarshal_out ip port packet four bytes small =
      rw (address_bytes_lem ip port four bytes small) (unmarshal_out ip port packet four small)

  unmarshal_in :
      (ip : List ℕ) (port n : ℕ) (packet : List ℕ)
      → length ip ≡ 4
      → port ≤ 65535
      → n < 2 ^ 32
      → unmarshal_gateway_in_packet net (((ip ++ port_bytes port) ++ put_uint32 n) ++ packet)
        ≡ ok (net.join_port (net.ip_string ip) port, n, packet)
  unfolding unmarshal_gateway_in_packet port_bytes port_at put_uint32 get_uint32
  unmarshal_in (a ∷ b ∷ c ∷ d ∷ []) port n packet four small time =
      rw
        (le→ltb (length (((a ∷ b ∷ c ∷ d ∷ [] ++ port_bytes port) ++ put_uint32 n) ++ packet)) 10
          (omega arith))
        (ap₂ (λ p t. ok (net.join_port (net.ip_string (a ∷ b ∷ c ∷ d ∷ [])) p, t, packet))
          (port_round port small) (uint32_round n time))
  unmarshal_in [] port n packet four small time = absurd (omega arith)
  unmarshal_in (a ∷ []) port n packet four small time = absurd (omega arith)
  unmarshal_in (a ∷ b ∷ []) port n packet four small time = absurd (omega arith)
  unmarshal_in (a ∷ b ∷ c ∷ []) port n packet four small time = absurd (omega arith)
  unmarshal_in (a ∷ b ∷ c ∷ d ∷ e ∷ ip) port n packet four small time = absurd (omega arith)

  -- An address of version 4 with a port: what is packed for the way in is unpacked to the address,
  -- the last 32 bits of the time, and the packet.
  pub marshal-unmarshal_in :
      (ip : List ℕ) (port : ℕ) (current_time : ℤ) (packet : List ℕ)
      → length ip ≡ 4
      → AreBytes ip
      → port ≤ 65535
      → (marshal_gateway_in_packet net (net.join_port (net.ip_string ip) port) current_time packet
          >>= unmarshal_gateway_in_packet net)
        ≡ ok (net.join_port (net.ip_string ip) port, to_uint32 current_time, packet)
  unfolding marshal_gateway_in_packet
  marshal-unmarshal_in ip port current_time packet four bytes small =
      rw (address_bytes_lem ip port four bytes small) (
        unmarshal_in ip port (to_uint32 current_time) packet four small (to_uint32_lt current_time))
