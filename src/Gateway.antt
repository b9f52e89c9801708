-- ===== src/Gateway.antt =====
-- server/gateway/packet.go: the packets that a gateway sends to an endpoint, and those it receives.
-- A byte is a number below 256. What the code takes from the packages net and strconv is the record
-- `Net`.
pub mod Codec
pub mod Routes
pub mod Bound
mod Tests
pub mod Accepted
use minotaur.Base.{
  ℕ, ◌+◌, ◌-◌, ◌*◌, ◌/◌, ◌%◌, ◌^◌, List, [], ◌∷◌, ◌++◌, Bool, true, false, not, ◌&&◌, ◌||◌, Option,
  some, none, if◌then◌else◌, ltb, ◌==◌, length, take, drop, get_or,
}
use minotaur.Base.Int.{ℤ, pos, negsuc}

-- `net.SplitHostPort`, `net.ParseIP(host).To4()`, `strconv.Atoi`, `net.IP.String` and the format
-- "%s:%d". The messages of errors are left out.
pub record Net (Text : Type 0) : Type 0 where
  pub split_host_port : Text → Option (Text × Text)
  pub parse_ip_v4 : Text → Option (List ℕ)
  pub atoi : Text → Option ℤ
  pub ip_string : List ℕ → Text
  pub join_port : Text → ℕ → Text

-- `marshal_split` is the error of `net.SplitHostPort`.
pub data PacketError : Type 0 where
  marshal_split invalid_ip_v4 invalid_port : PacketError
  data_too_short invalid_identifier : PacketError

-- What a function with an error as its last result returns.
pub data Result (A : Type 0) : Type 0 where
  ok : A → Result A
  failed : PacketError → Result A

infixl 5 ◌>>=◌
abbrev pub ◌>>=◌ : {A B : Type 0} → Result A → (A → Result B) → Result B
ok a >>= f = f a
failed e >>= f = failed e

abbrev pub packet_identifier : List ℕ
packet_identifier = 222 ∷ 173 ∷ 190 ∷ 239 ∷ []

-- The loop of `compareBytes`, over slices of one length.
unfoldable pub bytes_agree : List ℕ → List ℕ → Bool
bytes_agree [] b = true
bytes_agree (x ∷ a) [] = true
bytes_agree (x ∷ a) (y ∷ b) = let rest = bytes_agree a b in if not (x == y) then false else rest

unfoldable pub compare_bytes : List ℕ → List ℕ → Bool
unfolding bytes_agree
compare_bytes a b = if not (length a == length b) then false else bytes_agree a b

-- `uint32(n)` of an `int64`
unfoldable pub to_uint32 : ℤ → ℕ
to_uint32 (pos n) = n % 2 ^ 32
to_uint32 (negsuc n) = 2 ^ 32 - 1 - n % 2 ^ 32

-- `[]byte{byte(port >> 8), byte(port & 0xFF)}`
unfoldable pub port_bytes : ℕ → List ℕ
port_bytes port = port / 256 % 256 ∷ port % 256 ∷ []

-- `uint16(data[i])<<8 | uint16(data[i+1])`, whose operands share no bit.
unfoldable pub port_at : ℕ → List ℕ → ℕ
port_at i data' = get_or data' i 0 * 256 + get_or data' (i + 1) 0

-- `binary.BigEndian.PutUint32`
unfoldable pub put_uint32 : ℕ → List ℕ
put_uint32 n = n / 2 ^ 24 % 256 ∷ n / 2 ^ 16 % 256 ∷ n / 2 ^ 8 % 256 ∷ n % 256 ∷ []

-- `binary.BigEndian.Uint32`
unfoldable pub get_uint32 : List ℕ → ℕ
get_uint32 b = get_or b 0 0 * 2 ^ 24 + get_or b 1 0 * 2 ^ 16 + get_or b 2 0 * 2 ^ 8 + get_or b 3 0

unfoldable pub checked_port : Option ℤ → Result ℕ
checked_port none = failed invalid_port
checked_port (some (negsuc n)) = failed invalid_port
checked_port (some (pos n)) = if ltb 65535 n then failed invalid_port else ok n

unfoldable pub checked_ip : Option (List ℕ) → Result (List ℕ)
checked_ip none = failed invalid_ip_v4
checked_ip (some ip) = ok ip

unfoldable pub checked_split : {Text : Type 0} → Option (Text × Text) → Result (Text × Text)
checked_split none = failed marshal_split
checked_split (some s) = ok s

module _ {Text : Type 0} (net : Net Text) where
  -- The bytes of the address and the port, which both kinds of packet begin by reading.
  unfoldable pub address_bytes : Text → Result (List ℕ × ℕ)
  unfolding checked_port checked_ip checked_split
  address_bytes addr = do
    (host, port_str) ← checked_split (net.split_host_port addr)
    ip ← checked_ip (net.parse_ip_v4 host)
    port ← checked_port (net.atoi port_str)
    ok (ip, port)

  unfoldable pub marshal_gateway_out_packet : Text → List ℕ → Result (List ℕ)
  unfolding address_bytes port_bytes
  marshal_gateway_out_packet addr packet = do
    (ip, port) ← address_bytes addr
    ok (((packet_identifier ++ ip) ++ port_bytes port) ++ packet)

  unfoldable pub unmarshal_gateway_out_packet : List ℕ → Result (Text × List ℕ)
  unfolding compare_bytes port_at
  unmarshal_gateway_out_packet data' =
      if ltb (length data') 10
      then failed data_too_short
      else if not (compare_bytes (take 4 data') packet_identifier)
      then failed invalid_identifier
      else ok
          (net.join_port (net.ip_string (drop 4 (take 8 data'))) (port_at 8 data'), drop 10 data')

  unfoldable pub marshal_gateway_in_packet : Text → ℤ → List ℕ → Result (List ℕ)
  unfolding address_bytes port_bytes put_uint32 to_uint32
  marshal_gateway_in_packet addr current_time packet = do
    (ip, port) ← address_bytes addr
    ok (((ip ++ port_bytes port) ++ put_uint32 (to_uint32 current_time)) ++ packet)

  unfoldable pub unmarshal_gateway_in_packet : List ℕ → Result (Text × ℕ × List ℕ)
  unfolding port_at get_uint32
  unmarshal_gateway_in_packet data' =
      if ltb (length data') 10
      then failed data_too_short
      else ok (
        net.join_port (net.ip_string (take 4 data')) (port_at 4 data'),
        get_uint32 (drop 6 (take 10 data')),
        drop 10 data',
      )
