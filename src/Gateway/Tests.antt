-- ===== src/Gateway/Tests.antt =====
-- The theorems on the gateway at concrete packets and endpoints.
use minotaur.Base.{
  ℕ, List, [], ◌∷◌, true, false, Option, some, none, ◌≡◌, refl, arith, ℕ_discrete, ltb, inl,
}
use minotaur.Base.Int.{ℤ, pos}
use minotaur.Gateway.{
  Net, ok, ◌>>=◌, marshal_gateway_out_packet, unmarshal_gateway_out_packet, compare_bytes,
  bytes_agree, port_at,
}
use minotaur.Gateway.Codec.{AreBytes, IsNet, marshal-unmarshal_out}
use minotaur.Gateway.Accepted.{unmarshal-marshal_out}
use minotaur.Gateway.Routes.{Gateway, get_conn_endpoint, new_gateway}
use minotaur.Gateway.Bound.{
  Picks, IsAvailable, conn_endpoint-IsAvailable, closing, running_at, calls, IsOpen, calls-IsOpen,
}

-- Addresses in parts: a text is a host, with a port or without, or a port.
data Address : Type 0 where
  host : List ℕ → Address
  host_port : List ℕ → ℕ → Address
  port_text : ℕ → Address

split : Address → Option (Address × Address)
split (host_port ip port) = some (host ip, port_text port)
split (host ip) = none
split (port_text n) = none

ip_of : Address → Option (List ℕ)
ip_of (host ip) = some ip
ip_of (host_port ip port) = none
ip_of (port_text n) = none

number : Address → Option ℤ
number (port_text n) = some (pos n)
number (host ip) = none
number (host_port ip port) = none

join : Address → ℕ → Address
join (host ip) port = host_port ip port
join (host_port ip p) port = host_port ip p
join (port_text n) port = port_text n

abbrev parts : Net Address
parts = record {
  split_host_port = split;
  parse_ip_v4 = ip_of;
  atoi = number;
  ip_string = host;
  join_port = join;
}

parts-IsNet : IsNet parts
unfolding split ip_of number join
parts-IsNet = record {
  host_port = λ ip port four bytes small. (host ip, port_text port, refl, refl, refl);
}

abbrev local : List ℕ
local = 127 ∷ 0 ∷ 0 ∷ 1 ∷ []

local_bytes : AreBytes local
local_bytes = (omega arith, (omega arith, (omega arith, (omega arith, tt))))

marshal-unmarshal_out_example :
    (marshal_gateway_out_packet parts (join (host local) 8888) (1 ∷ 2 ∷ [])
      >>= unmarshal_gateway_out_packet parts)
    ≡ ok (join (host local) 8888, 1 ∷ 2 ∷ [])
marshal-unmarshal_out_example =
    marshal-unmarshal_out parts parts-IsNet local 8888 (1 ∷ 2 ∷ []) refl local_bytes (omega arith)

abbrev received : List ℕ
received = 222 ∷ 173 ∷ 190 ∷ 239 ∷ 127 ∷ 0 ∷ 0 ∷ 1 ∷ 34 ∷ 184 ∷ 7 ∷ []

received_bytes : AreBytes received
received_bytes = (
  omega arith,
  (
    omega arith,
    (
      omega arith,
      (
        omega arith,
        (
          omega arith,
          (
            omega arith,
            (omega arith, (omega arith, (omega arith, (omega arith, (omega arith, tt))))),
          ),
        ),
      ),
    ),
  ),
)

unmarshal-marshal_out_example :
    marshal_gateway_out_packet parts (join (host local) 8888) (7 ∷ []) ≡ ok received
unfolding unmarshal_gateway_out_packet compare_bytes bytes_agree port_at
unmarshal-marshal_out_example =
    unmarshal-marshal_out parts parts-IsNet received (join (host local) 8888, 7 ∷ []) received_bytes
      refl

abbrev first_of : List ℕ → Option ℕ
first_of [] = none
first_of (e ∷ es) = some e

first_of-Picks : Picks first_of
first_of-Picks [] e h = absurd (cc)
first_of-Picks (x ∷ es) e h = inl (ground arith)

-- The connection 9 is bound to the endpoint 2, which is not available; 5 is.
abbrev bound : Gateway ℕ
bound = record {
  es = (4, (1, 2) ∷ (3, 5) ∷ []) ∷ [];
  closed = false;
  running = true;
  cce = (9, 2) ∷ [];
  shut = 0;
}

conn_endpoint-IsAvailable_example :
    IsAvailable (ltb 3) (get_conn_endpoint ℕ_discrete (ltb 3) first_of 4 9 bound).1
conn_endpoint-IsAvailable_example =
    conn_endpoint-IsAvailable ℕ_discrete (ltb 3) first_of first_of-Picks 4 9 bound

calls-IsOpen_example :
    IsOpen (calls ℕ_discrete (ltb 3) first_of new_gateway (running_at ∷ closing ∷ []))
calls-IsOpen_example = calls-IsOpen ℕ_discrete (ltb 3) first_of (running_at ∷ closing ∷ [])
