-- ===== src/Core/ProxyProtocol/Limit.antt =====
-- src/core/connection/proxy_protocol.rs: the bounds that a builder enforces.
use ngx_rust.Prelude.{ℕ, ◌+◌, ◌^◌, ◌≤◌, ◌<◌, ◌≡◌, ◌⊎◌, List, arith, ok, length, ◌>>=◌}
use ngx_rust.Core.ProxyProtocol.{
  Address, SocketType, stream, datagram, Builder, family, wire_len, tlv_limit, builder_new,
  builder_tlvs,
}

module _ (max_header : ℕ) where
  -- A header of a built message: 16 bytes, both endpoints, and the TLVs.
  abbrev pub header_len : Builder → ℕ
  header_len b = 16 + wire_len b.source + length b.tlvs

  -- A builder that `new` and `tlvs` return keeps its four arguments, and its endpoints have one
  -- wire length. The length that a header declares for the addresses and TLVs fits in 16 bits, and
  -- over a stream carrier nonempty TLVs leave the whole header within nginx's maximum.
  pub builder_bounds :
      (source destination : Address) (transport : SocketType) (tlvs : List ℕ) (b : Builder)
      → (builder_new source destination transport >>= λ b₀. builder_tlvs max_header b₀ tlvs) ≡ ok b
      → (wire_len source ≡ wire_len destination)
        × (b.source ≡ source)
        × (b.destination ≡ destination)
        × (b.transport ≡ transport)
        × (b.tlvs ≡ tlvs)
        × (wire_len source + length tlvs < 2 ^ 16)
        × (transport ≡ stream → (length tlvs ≡ 0) ⊎ (header_len b ≤ max_header))
  unfolding builder_new builder_tlvs tlv_limit family
  builder_bounds source destination stream tlvs b e = ground arith
  builder_bounds source destination datagram tlvs b e = ground arith
