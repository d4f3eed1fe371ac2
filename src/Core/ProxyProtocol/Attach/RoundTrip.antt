-- ===== src/Core/ProxyProtocol/Attach/RoundTrip.antt =====
-- src/core/connection/proxy_protocol.rs: metadata that is attached to a connection is read back.
use ngx_rust.Prelude.{
  ℕ, ◌%◌, ◌^◌, ◌≤◌, ◌<◌, ◌≡◌, ◌≢◌, ◌⊎◌, refl, true, none, some, List, [], ◌∷◌, arith, Result, ok,
  err, ◌>>=◌, length, inl, inr,
}
use ngx_rust.Core.ProxyProtocol.{
  SocketType, ProxyProtocolError, Address, ipv4_address, ipv6_address, SocketPort, from_host_order,
  host_order, port, tlv_limit, Builder, builder_new, builder_tlvs,
}
use ngx_rust.Core.ProxyProtocol.Tlv.{IsBytes}
use ngx_rust.Core.ProxyProtocol.Limit.{builder_bounds}
use ngx_rust.Core.ProxyProtocol.Text.{
  Codec, ProxyProtocolText, canonical_proxy_protocol_text, written, proxy_protocol_address, concat,
  write_all-empty, text_capacity,
}
use ngx_rust.Core.ProxyProtocol.Attach.{
  Connection, Constants, Allocations, str_from_bytes, empty_str, checked_proxy_protocol_bytes,
  socket_type, attach, connection_proxy_protocol,
}

pub record IsOctets (n : ℕ) (octets : List ℕ) : Type 0 where
  pub count : length octets ≡ n
  pub bytes : IsBytes octets

-- What core documents of the address texts: they are UTF-8, parse back to the address that they
-- were formatted from, and the text of an IPv6 address is not that of an IPv4 address.
pub record IsCodec (codec : Codec) : Type 0 where
  pub ipv4_utf8 :
      (o : List ℕ) → IsOctets 4 o → codec.from_utf8 (concat (codec.format_ipv4 o)) ≡ true
  pub ipv6_utf8 :
      (o : List ℕ) → IsOctets 16 o → codec.from_utf8 (concat (codec.format_ipv6 o)) ≡ true
  pub ipv4_returns :
      (o : List ℕ) → IsOctets 4 o → codec.parse_ipv4 (concat (codec.format_ipv4 o)) ≡ some o
  pub ipv6_apart :
      (o : List ℕ) → IsOctets 16 o → codec.parse_ipv4 (concat (codec.format_ipv6 o)) ≡ none
  pub ipv6_returns :
      (o : List ℕ) → IsOctets 16 o → codec.parse_ipv6 (concat (codec.format_ipv6 o)) ≡ some o

pub record IsPort (p : SocketPort) : Type 0 where
  pub high_byte : p.high < 256
  pub low_byte : p.low < 256

-- The octets that the Rust types `[u8; 4]`, `[u8; 16]` and `u8` allow.
abbrev pub IsAddress : Address → Type 0
IsAddress (ipv4_address o p) = IsOctets 4 o × IsPort p
IsAddress (ipv6_address o p) = IsOctets 16 o × IsPort p

from_host_order-host_order : (p : SocketPort) → IsPort p → from_host_order (host_order p) ≡ p
unfolding from_host_order host_order
from_host_order-host_order p i = ground arith

empty_list : (xs : List ℕ) → length xs ≡ 0 → xs ≡ []
empty_list [] e = refl
empty_list (x ∷ xs) e = absurd (omega arith)

checked_bytes_lem :
    (x : List ℕ)
    → length x < 2 ^ 63
    → checked_proxy_protocol_bytes (record { len = length x; data_bytes = some x }) ≡ ok x
unfolding checked_proxy_protocol_bytes
checked_bytes_lem [] h = refl
checked_bytes_lem (y ∷ x) h = ground arith

module _ (codec : Codec) where
  abbrev pub text_of : Address → List ℕ
  text_of (ipv4_address o p) = concat (codec.format_ipv4 o)
  text_of (ipv6_address o p) = concat (codec.format_ipv6 o)

  -- The text of an address is its formatted pieces, and lies in the buffer.
  canonical_text_lem :
      (a : Address) (t : ProxyProtocolText)
      → canonical_proxy_protocol_text codec a ≡ ok t
      → (written t ≡ text_of a) × (length (text_of a) ≤ text_capacity)
  unfolding canonical_proxy_protocol_text
  canonical_text_lem (ipv4_address o p) t e = write_all-empty t (codec.format_ipv4 o) (ground arith)
  canonical_text_lem (ipv6_address o p) t e = write_all-empty t (codec.format_ipv6 o) (ground arith)

  address_returns :
      (a : Address)
      → IsCodec codec
      → IsAddress a
      → proxy_protocol_address codec (text_of a) (host_order (port a)) ≡ ok a
  unfolding proxy_protocol_address port
  address_returns (ipv4_address o p) k (i, j) =
      ground (arith, k.ipv4_utf8 o i, k.ipv4_returns o i, from_host_order-host_order p j)
  address_returns (ipv6_address o p) k (i, j) =
      ground (
        arith,
        k.ipv6_utf8 o i,
        k.ipv6_apart o i,
        k.ipv6_returns o i,
        from_host_order-host_order p j,
      )

  built-within :
      (max_header : ℕ) (source destination : Address) (transport : SocketType) (tlvs : List ℕ)
      (b : Builder)
      → (builder_new source destination transport >>= λ b₀. builder_tlvs max_header b₀ tlvs) ≡ ok b
      → length tlvs ≤ tlv_limit max_header source transport
  unfolding builder_new builder_tlvs
  built-within max_header source destination transport tlvs b e = ground arith

  module _ (const : Constants) where
    -- What a successful attachment leaves: the string of each endpoint and of the TLVs.
    pub record IsAttached (alloc : Allocations) (b : Builder) (c c' : Connection) : Type 0 where
      pub carrier : socket_type const c.type ≡ ok b.transport
      pub published : c'.proxy_protocol ≡ alloc.metadata_at
      pub nonzero : alloc.metadata_at ≢ 0
      pub same_socket : c'.type ≡ c.type
      pub src_addr :
          c'.metadata.src_addr
          ≡ record { len = length (text_of b.source); data_bytes = some (text_of b.source) }
      pub dst_addr : c'.metadata.dst_addr ≡ record {
        len = length (text_of b.destination);
        data_bytes = some (text_of b.destination);
      }
      pub src_port : c'.metadata.src_port ≡ host_order (port b.source)
      pub dst_port : c'.metadata.dst_port ≡ host_order (port b.destination)
      pub tlv_bytes :
          (length b.tlvs < 2 ^ 63) → checked_proxy_protocol_bytes c'.metadata.tlvs ≡ ok b.tlvs

    stored_tlvs :
        (alloc : Allocations) (b : Builder) (c c' : Connection)
        → attach const codec alloc b c ≡ ok c'
        → ((c'.metadata.tlvs ≡ empty_str) × (length b.tlvs ≡ 0))
          ⊎ (c'.metadata.tlvs ≡ record { len = length b.tlvs; data_bytes = some b.tlvs })
    unfolding attach str_from_bytes
    stored_tlvs alloc b c c' e = ground arith

    attach-IsAttached :
        (alloc : Allocations) (b : Builder) (c c' : Connection) (s d : ProxyProtocolText)
        → canonical_proxy_protocol_text codec b.source ≡ ok s
        → canonical_proxy_protocol_text codec b.destination ≡ ok d
        → attach const codec alloc b c ≡ ok c'
        → IsAttached alloc b c c'
    unfolding attach str_from_bytes
    attach-IsAttached alloc b c c' s d es ed e =
        let (ws, _) = canonical_text_lem b.source s es in
        let (wd, _) = canonical_text_lem b.destination d ed in
        record {
          carrier = ground arith;
          published = ground arith;
          nonzero = ground arith;
          same_socket = ground arith;
          src_addr = ground (arith, ws);
          dst_addr = ground (arith, wd);
          src_port = ground arith;
          dst_port = ground arith;
          tlv_bytes = λ small. elim (stored_tlvs alloc b c c' e) [
            | inl (k, z) ↦ rw (k, empty_list b.tlvs z) (unfold checked_proxy_protocol_bytes in refl)
            | inr k ↦ rw k (checked_bytes_lem b.tlvs small)
          ];
        }

    attach-texts :
        (alloc : Allocations) (b : Builder) (c c' : Connection)
        → attach const codec alloc b c ≡ ok c'
        → ((s : ProxyProtocolText) × (canonical_proxy_protocol_text codec b.source ≡ ok s))
          × ((d : ProxyProtocolText) × (canonical_proxy_protocol_text codec b.destination ≡ ok d))
    unfolding attach
    attach-texts alloc b c c' e = (
      source (canonical_proxy_protocol_text codec b.source) refl,
      destination (canonical_proxy_protocol_text codec b.destination) refl,
    )
      where
        source :
            (r : Result ProxyProtocolError ProxyProtocolText)
            → canonical_proxy_protocol_text codec b.source ≡ r
            → (s : ProxyProtocolText) × (canonical_proxy_protocol_text codec b.source ≡ ok s)
        source (ok s) k = (s, k)
        source (err x) k = absurd (ground (arith, k))

        destination :
            (r : Result ProxyProtocolError ProxyProtocolText)
            → canonical_proxy_protocol_text codec b.destination ≡ r
            → (s : ProxyProtocolText) × (canonical_proxy_protocol_text codec b.destination ≡ ok s)
        destination (ok s) k = (s, k)
        destination (err x) k = absurd (ground (arith, k))

    -- Metadata that a builder holds within its TLV bound and that `attach` puts on a connection is
    -- what reading the connection returns: the same endpoints, transport and TLVs, with the texts
    -- that core formats for the endpoints. The pool returns aligned storage.
    pub proxy_protocol-attach :
        (alloc : Allocations) (source destination : Address) (transport : SocketType)
        (tlvs : List ℕ) (b : Builder) (c c' : Connection)
        → IsCodec codec
        → IsAddress source
        → IsAddress destination
        → alloc.metadata_at % const.metadata_align ≡ 0
        → (builder_new source destination transport >>= λ b₀. builder_tlvs const.max_header b₀ tlvs)
          ≡ ok b
        → attach const codec alloc b c ≡ ok c'
        → connection_proxy_protocol const codec c'
          ≡ ok (
              some (record {
                source = source;
                destination = destination;
                transport = transport;
                source_text = text_of source;
                destination_text = text_of destination;
                tlvs = tlvs;
              }))
    unfolding connection_proxy_protocol
    proxy_protocol-attach alloc source destination transport tlvs b c c' k is id al built e =
        let (_, bs, bd, bt, bv, short, _) =
          builder_bounds const.max_header source destination transport tlvs b built in
        let within = built-within const.max_header source destination transport tlvs b built in
        let (s, es) = (attach-texts alloc b c c' e).0 in
        let (d, ed) = (attach-texts alloc b c c' e).1 in
        let a = attach-IsAttached alloc b c c' s d es ed e in
        let text_len : (x : Address)
            → length (text_of x) ≤ text_capacity
            → length (text_of x) < 2 ^ 63 =
          λ x l. omega arith in
        let (_, ls) = canonical_text_lem b.source s es in
        let (_, ld) = canonical_text_lem b.destination d ed in
        let cs : checked_proxy_protocol_bytes c'.metadata.src_addr ≡ ok (text_of source) =
          rw (a.src_addr, bs)
            (checked_bytes_lem (text_of source) (text_len source (rw bs at ls))) in
        let cd : checked_proxy_protocol_bytes c'.metadata.dst_addr ≡ ok (text_of destination) =
          rw (a.dst_addr, bd)
            (checked_bytes_lem (text_of destination) (text_len destination (rw bd at ld))) in
        let ct : checked_proxy_protocol_bytes c'.metadata.tlvs ≡ ok tlvs =
          rw bv at (a.tlv_bytes (rw bv (omega (arith, short)))) in
        let rs : proxy_protocol_address codec (text_of source) c'.metadata.src_port ≡ ok source =
          rw (a.src_port, bs) (address_returns source k is) in
        let rd : proxy_protocol_address codec (text_of destination) c'.metadata.dst_port
            ≡ ok destination =
          rw (a.dst_port, bd) (address_returns destination k id) in
        let carrier : socket_type const c'.type ≡ ok transport =
          rw (a.same_socket, ← bt) a.carrier in
        ground (arith, a.published, a.nonzero, al, cs, cd, ct, rs, rd, carrier, within)
