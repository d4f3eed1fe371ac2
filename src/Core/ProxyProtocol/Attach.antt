-- ===== src/Core/ProxyProtocol/Attach.antt =====
-- src/core/connection/proxy_protocol.rs: attaching built metadata to a connection, and reading the
-- metadata of a connection.
pub mod RoundTrip
use ngx_rust.Prelude.{
  ℕ, ◌+◌, ◌-◌, ◌*◌, ◌/◌, ◌%◌, ◌^◌, ◌≤◌, ◌<◌, ◌≡◌, ◌≢◌, refl, sym, ap, ◌∙◌, Bool, true, false, not,
  Option, none, some, List, [], ◌∷◌, ◌++◌, arith, ltb, ◌==◌, if◌then◌else◌, Result, ok, err, ◌>>=◌,
  ◌>>◌, fail_if, map_err, ok_or, length,
}
use ngx_rust.Core.ProxyProtocol.{
  SocketType, stream, datagram, ConnectionError, missing_pool, misaligned_pool,
  unsupported_socket_type, ProxyProtocolError, misaligned_metadata, missing_data, data_too_long,
  tlvs_too_long, allocation, transport_mismatch, connection, Address, ipv4_address, ipv6_address,
  SocketPort, from_host_order, host_order, port, same_type, tlv_limit, Builder, builder_new,
  builder_tlvs,
}
use ngx_rust.Core.ProxyProtocol.Text.{
  Codec, ProxyProtocolText, canonical_proxy_protocol_text, written, proxy_protocol_address, concat,
  empty_text, write_all, write_all_lem, empty_text-IsText, text_capacity, IsText,
}

-- `ngx_str_t`: the bytes that stand at its data pointer, unless that is null.
pub record NgxStr : Type 0 where
  pub len : ℕ
  pub data_bytes : Option (List ℕ)

-- `ngx_proxy_protocol_t`.
pub record Metadata : Type 0 where
  pub src_addr : NgxStr
  pub dst_addr : NgxStr
  pub src_port : ℕ
  pub dst_port : ℕ
  pub tlvs : NgxStr

-- The fields of `ngx_connection_t` in use here, with what stands at the metadata pointer.
pub record Connection : Type 0 where
  pub type : ℕ
  pub pool : ℕ
  pub proxy_protocol : ℕ
  pub metadata : Metadata

-- nginx's and libc's constants.
pub record Constants : Type 0 where
  pub sock_stream : ℕ
  pub sock_dgram : ℕ
  pub pool_align : ℕ
  pub metadata_align : ℕ
  pub max_header : ℕ

-- What the connection's pool answers to the allocations of one attachment, in their order: the
-- address of the metadata, or zero, and whether each string is allocated.
pub record Allocations : Type 0 where
  pub metadata_at : ℕ
  pub source_text : Bool
  pub destination_text : Bool
  pub tlv_bytes : Bool

-- `ngx_str_t::from_bytes`.
unfoldable pub str_from_bytes : Bool → List ℕ → Option NgxStr
str_from_bytes allocated src =
    if allocated then some (record { len = length src; data_bytes = some src }) else none

-- `ngx_str_t::empty`.
abbrev pub empty_str : NgxStr
empty_str = record { len = 0; data_bytes = none }

-- `isize::MAX` is 2 ^ 63 - 1.
unfoldable pub checked_proxy_protocol_bytes : NgxStr → Result ProxyProtocolError (List ℕ)
checked_proxy_protocol_bytes value =
    if value.len == 0
    then ok []
    else (if ltb (2 ^ 63 - 1) value.len
        then err data_too_long
        else ok_or value.data_bytes missing_data)

-- `ProxyProtocolRef`.
pub record ProxyProtocolRef : Type 0 where
  pub source : Address
  pub destination : Address
  pub transport : SocketType
  pub source_text : List ℕ
  pub destination_text : List ℕ
  pub tlvs : List ℕ

module _ (const : Constants) where
  unfoldable pub socket_type : ℕ → Result ConnectionError SocketType
  socket_type raw =
      if raw == const.sock_stream
      then ok stream
      else (if raw == const.sock_dgram then ok datagram else err (unsupported_socket_type raw))

  unfoldable pub connection_pool : Connection → Result ConnectionError ℕ
  connection_pool c =
      if c.pool == 0
      then err missing_pool
      else (if not (c.pool % const.pool_align == 0) then err misaligned_pool else ok c.pool)

  module _ (codec : Codec) where
    -- `ProxyProtocolBuilder::attach`. Nothing is written to the connection before the last step.
    unfoldable pub attach :
        Allocations → Builder → Connection → Result ProxyProtocolError Connection
    attach alloc b c = do
      carrier ← map_err connection (socket_type c.type)
      fail_if (not (same_type carrier b.transport)) (transport_mismatch carrier b.transport)
      source_text ← canonical_proxy_protocol_text codec b.source
      destination_text ← canonical_proxy_protocol_text codec b.destination
      pool ← map_err connection (connection_pool c)
      fail_if (alloc.metadata_at == 0) allocation
      source ← ok_or (str_from_bytes alloc.source_text (written source_text)) allocation
      destination ←
          ok_or (str_from_bytes alloc.destination_text (written destination_text)) allocation
      tlvs ←
          if length b.tlvs == 0
          then ok empty_str
          else ok_or (str_from_bytes alloc.tlv_bytes b.tlvs) allocation
      ok (record c {
        proxy_protocol = alloc.metadata_at;
        metadata = record {
          src_addr = source;
          dst_addr = destination;
          src_port = host_order (port b.source);
          dst_port = host_order (port b.destination);
          tlvs = tlvs;
        };
      })

    unfoldable pub connection_proxy_protocol :
        Connection → Result ProxyProtocolError (Option ProxyProtocolRef)
    connection_proxy_protocol c = if c.proxy_protocol == 0 then ok none else (do
      fail_if (not (c.proxy_protocol % const.metadata_align == 0)) misaligned_metadata
      source_text ← checked_proxy_protocol_bytes c.metadata.src_addr
      destination_text ← checked_proxy_protocol_bytes c.metadata.dst_addr
      source ← proxy_protocol_address codec source_text c.metadata.src_port
      destination ← proxy_protocol_address codec destination_text c.metadata.dst_port
      transport ← map_err connection (socket_type c.type)
      tlvs ← checked_proxy_protocol_bytes c.metadata.tlvs
      fail_if (ltb (tlv_limit const.max_header source transport) (length tlvs)) tlvs_too_long
      ok (
          some (record {
            source = source;
            destination = destination;
            transport = transport;
            source_text = source_text;
            destination_text = destination_text;
            tlvs = tlvs;
          })))
