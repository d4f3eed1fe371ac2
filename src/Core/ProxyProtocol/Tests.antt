-- ===== src/Core/ProxyProtocol/Tests.antt =====
-- An attachment to a stream connection and some TLVs: runs, and the theorems at them.
use mathlib.Core.List.{append-nil}
use ngx_rust.Prelude.{
  ℕ, ◌≡◌, refl, true, Option, none, some, List, [], ◌∷◌, arith, ok, ◌>>=◌, ◌==◌, if◌then◌else◌,
}
use ngx_rust.Core.ProxyProtocol.{
  Address, ipv4_address, stream, Builder, builder_new, builder_tlvs, family, tlv_limit, found,
  TlvLookup, lookup_tlv, lookup_from, malformed, port, host_order,
}
use ngx_rust.Core.ProxyProtocol.Tlv.{
  encode_tlv, encode_tlvs, Describes, lookup_tlv-Describes, lookup_tlv-encode,
}
use ngx_rust.Core.ProxyProtocol.Text.{
  Codec, canonical_proxy_protocol_text, write_all, write_str, empty_text,
}
use ngx_rust.Core.ProxyProtocol.Attach.{
  Connection, Constants, Allocations, Metadata, empty_str, attach, connection_proxy_protocol,
  socket_type, connection_pool, str_from_bytes,
}
use ngx_rust.Core.ProxyProtocol.Attach.RoundTrip.{IsCodec, IsAddress, proxy_protocol-attach}

abbrev after_tag : ℕ → List ℕ → Option (List ℕ)
after_tag tag [] = none
after_tag tag (x ∷ xs) = if x == tag then some xs else none

-- Texts of one byte for the family and the octets behind it.
abbrev tagged : Codec
tagged = record {
  from_utf8 = λ text. true;
  parse_ipv4 = after_tag 4;
  parse_ipv6 = after_tag 6;
  format_ipv4 = λ octets. (4 ∷ octets) ∷ [];
  format_ipv6 = λ octets. (6 ∷ []) ∷ octets ∷ [];
}

tagged-IsCodec : IsCodec tagged
tagged-IsCodec = record {
  ipv4_utf8 = λ o i. refl;
  ipv6_utf8 = λ o i. refl;
  ipv4_returns = λ o i. rw (append-nil o);
  ipv6_apart = λ o i. refl;
  ipv6_returns = λ o i. rw (append-nil o);
}

abbrev constants : Constants
constants = record {
  sock_stream = 1;
  sock_dgram = 2;
  pool_align = 16;
  metadata_align = 8;
  max_header = 4096;
}

abbrev loopback : Address
loopback = ipv4_address (127 ∷ 0 ∷ 0 ∷ 1 ∷ []) (record { high = 31; low = 144 })

abbrev peer : Address
peer = ipv4_address (10 ∷ 0 ∷ 0 ∷ 7 ∷ []) (record { high = 0; low = 80 })

loopback-IsAddress : IsAddress loopback
loopback-IsAddress = omega arith

peer-IsAddress : IsAddress peer
peer-IsAddress = omega arith

abbrev built : Builder
built = record {
  source = peer;
  destination = loopback;
  transport = stream;
  tlvs = 5 ∷ 0 ∷ 1 ∷ 9 ∷ [];
}

building :
    (builder_new peer loopback stream >>= λ b. builder_tlvs 4096 b (5 ∷ 0 ∷ 1 ∷ 9 ∷ [])) ≡ ok built
unfolding builder_new builder_tlvs family tlv_limit
building = refl

abbrev blank : Metadata
blank = record {
  src_addr = empty_str;
  dst_addr = empty_str;
  src_port = 0;
  dst_port = 0;
  tlvs = empty_str;
}

abbrev carrier : Connection
carrier = record { type = 1; pool = 4096; proxy_protocol = 0; metadata = blank }

abbrev granted : Allocations
granted = record {
  metadata_at = 8192;
  source_text = true;
  destination_text = true;
  tlv_bytes = true;
}

abbrev attached : Connection
attached = record carrier {
  proxy_protocol = 8192;
  metadata = record {
    src_addr = record { len = 5; data_bytes = some (4 ∷ 10 ∷ 0 ∷ 0 ∷ 7 ∷ []) };
    dst_addr = record { len = 5; data_bytes = some (4 ∷ 127 ∷ 0 ∷ 0 ∷ 1 ∷ []) };
    src_port = 80;
    dst_port = 8080;
    tlvs = record { len = 4; data_bytes = some (5 ∷ 0 ∷ 1 ∷ 9 ∷ []) };
  };
}

attaching : attach constants tagged granted built carrier ≡ ok attached
unfolding attach socket_type canonical_proxy_protocol_text write_all write_str empty_text
    connection_pool str_from_bytes port host_order
attaching = refl

proxy_protocol-attach_example :
    connection_proxy_protocol constants tagged attached
    ≡ ok (
        some (record {
          source = peer;
          destination = loopback;
          transport = stream;
          source_text = 4 ∷ 10 ∷ 0 ∷ 0 ∷ 7 ∷ [];
          destination_text = 4 ∷ 127 ∷ 0 ∷ 0 ∷ 1 ∷ [];
          tlvs = 5 ∷ 0 ∷ 1 ∷ 9 ∷ [];
        }))
proxy_protocol-attach_example =
    proxy_protocol-attach tagged constants granted peer loopback stream (5 ∷ 0 ∷ 1 ∷ 9 ∷ []) built
      carrier attached tagged-IsCodec peer-IsAddress loopback-IsAddress (omega arith) building
      attaching

-- An entry of type 1 with two bytes, then a header that declares more than there is.
truncated_lookup : lookup_tlv (1 ∷ 0 ∷ 2 ∷ 7 ∷ 8 ∷ 3 ∷ 0 ∷ 9 ∷ []) 3 ≡ some malformed
unfolding lookup_tlv lookup_from
truncated_lookup = refl

lookup_tlv-Describes_example :
    (r : TlvLookup) × (lookup_tlv (1 ∷ 0 ∷ 2 ∷ 7 ∷ 8 ∷ 3 ∷ 0 ∷ 9 ∷ []) 3 ≡ some r)
    × Describes 3 (1 ∷ 0 ∷ 2 ∷ 7 ∷ 8 ∷ 3 ∷ 0 ∷ 9 ∷ []) r
lookup_tlv-Describes_example =
    lookup_tlv-Describes (1 ∷ 0 ∷ 2 ∷ 7 ∷ 8 ∷ 3 ∷ 0 ∷ 9 ∷ []) 3 (omega arith)

lookup_tlv-encode_example :
    lookup_tlv (1 ∷ 0 ∷ 2 ∷ 7 ∷ 8 ∷ 3 ∷ 0 ∷ 1 ∷ 9 ∷ 4 ∷ []) 3 ≡ some (found (9 ∷ []))
unfolding encode_tlvs encode_tlv
lookup_tlv-encode_example =
    lookup_tlv-encode (record { type = 1; value = 7 ∷ 8 ∷ [] } ∷ []) 3 (9 ∷ []) (4 ∷ [])
      (omega arith) (omega arith) (omega arith)
