-- ===== src/Core/ProxyProtocol.antt =====
-- src/core/connection/proxy_protocol.rs: PROXY protocol metadata of a connection, its bounds, and
-- the lookup of its TLVs. The `nginx1_23_2` branches are the ones modelled. A byte is a number.
pub mod Tlv
pub mod Limit
pub mod Text
pub mod Attach
mod Tests
use ngx_rust.Prelude.{
  ℕ, zero, suc, ◌+◌, ◌-◌, ◌*◌, ◌/◌, ◌%◌, ◌^◌, ◌≤◌, Bool, true, false, not, Option, none, some, List,
  [], ◌∷◌, ◌++◌, ltb, ◌==◌, if◌then◌else◌, Result, ok, err, ◌>>=◌, ◌>>◌, fail_if, map_err, ok_or,
  length, take, drop,
}
use Prim.Native.Nat.{min}

-- `SocketType` of src/core/connection.rs.
pub data SocketType : Type 0 where
  stream datagram : SocketType

pub data SocketAddressFamily : Type 0 where
  ipv4 ipv6 : SocketAddressFamily

pub data ConnectionError : Type 0 where
  missing_pool misaligned_pool : ConnectionError
  unsupported_socket_type : ℕ → ConnectionError

pub data ProxyProtocolError : Type 0 where
  misaligned_metadata invalid_address_text missing_data data_too_long : ProxyProtocolError
  tlvs_too_long endpoint_family_mismatch canonical_text allocation : ProxyProtocolError
  transport_mismatch : SocketType → SocketType → ProxyProtocolError
  connection : ConnectionError → ProxyProtocolError

-- `SocketPort` of src/core/connection/address.rs: the two bytes in network order.
pub record SocketPort : Type 0 where
  pub high : ℕ
  pub low : ℕ

unfoldable pub from_host_order : ℕ → SocketPort
from_host_order port = record { high = port / 256 % 256; low = port % 256 }

unfoldable pub host_order : SocketPort → ℕ
host_order p = p.high * 256 + p.low

-- `ProxyProtocolAddress`.
pub data Address : Type 0 where
  ipv4_address : List ℕ → SocketPort → Address
  ipv6_address : List ℕ → SocketPort → Address

unfoldable pub family : Address → SocketAddressFamily
family (ipv4_address octets port) = ipv4
family (ipv6_address octets port) = ipv6

unfoldable pub port : Address → SocketPort
port (ipv4_address octets p) = p
port (ipv6_address octets p) = p

unfoldable pub wire_len : Address → ℕ
wire_len (ipv4_address octets p) = 12
wire_len (ipv6_address octets p) = 36

abbrev pub same_family : SocketAddressFamily → SocketAddressFamily → Bool
same_family ipv4 ipv4 = true
same_family ipv4 ipv6 = false
same_family ipv6 ipv4 = false
same_family ipv6 ipv6 = true

abbrev pub same_type : SocketType → SocketType → Bool
same_type stream stream = true
same_type stream datagram = false
same_type datagram stream = false
same_type datagram datagram = true

-- `proxy_protocol_tlv_limit`. The maximal header length is nginx's; subtraction saturates, and the
-- first one cannot wrap, since an address has at most 36 bytes.
unfoldable pub tlv_limit : ℕ → Address → SocketType → ℕ
unfolding wire_len
tlv_limit max_header address stream =
    min (2 ^ 16 - 1 - wire_len address) (max_header - (16 + wire_len address))
tlv_limit max_header address datagram = 2 ^ 16 - 1 - wire_len address

-- `ProxyProtocolBuilder`.
pub record Builder : Type 0 where
  pub source : Address
  pub destination : Address
  pub transport : SocketType
  pub tlvs : List ℕ

unfoldable pub builder_new : Address → Address → SocketType → Result ProxyProtocolError Builder
unfolding family
builder_new source destination transport =
    if not (same_family (family source) (family destination))
    then err endpoint_family_mismatch
    else ok
        (record { source = source; destination = destination; transport = transport; tlvs = [] })

unfoldable pub builder_tlvs : ℕ → Builder → List ℕ → Result ProxyProtocolError Builder
builder_tlvs max_header b tlvs =
    if ltb (tlv_limit max_header b.source b.transport) (length tlvs)
    then err tlvs_too_long
    else ok (record b { tlvs = tlvs })

-- `ProxyProtocolTlvLookup`.
pub data TlvLookup : Type 0 where
  found : List ℕ → TlvLookup
  declined malformed : TlvLookup

-- The loop of `lookup_proxy_protocol_tlv`, with fuel; `none` is fuel that ran out.
unfoldable pub lookup_from : ℕ → List ℕ → ℕ → Option TlvLookup
lookup_from zero remaining type = none
lookup_from (suc fuel) [] type = some declined
lookup_from (suc fuel) (entry_type ∷ high ∷ low ∷ rest) type =
    let value_len = high * 256 + low in
    let next = lookup_from fuel (drop value_len rest) type in
    if ltb (length rest) value_len
    then some malformed
    else (if entry_type == type then some (found (take value_len rest)) else next)
lookup_from (suc fuel) remaining type = some malformed

unfoldable pub lookup_tlv : List ℕ → ℕ → Option TlvLookup
lookup_tlv tlvs type = lookup_from (suc (length tlvs)) tlvs type
