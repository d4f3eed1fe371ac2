-- ===== src/Core/ProxyProtocol/Text.antt =====
-- src/core/connection/proxy_protocol.rs: the fixed buffer into which an address is formatted, and
-- the address texts. Formatting and parsing of addresses are those of core::net.
use mathlib.Core.List.{append-nil, append_assoc}
use native.Mathlib.Nat.{zero-add}
use ngx_rust.Prelude.{
  ℕ, zero, suc, ◌+◌, ◌^◌, ◌≤◌, ◌≡◌, refl, sym, ap, ◌∙◌, Bool, Option, none, some, List, [], ◌∷◌,
  ◌++◌, arith, ltb, leb, if◌then◌else◌, Result, ok, err, length, take, drop, length-append,
  length-drop, take-append_length, Option-cases, inl, inr, subst,
}
use ngx_rust.Core.ProxyProtocol.{
  Address, ipv4_address, ipv6_address, ProxyProtocolError, canonical_text, invalid_address_text,
  from_host_order,
}

-- `core::str::from_utf8`, the `FromStr` implementations of `Ipv4Addr` and `Ipv6Addr`, and the
-- pieces that their `Display` implementations write, in order.
pub record Codec : Type 0 where
  pub from_utf8 : List ℕ → Bool
  pub parse_ipv4 : List ℕ → Option (List ℕ)
  pub parse_ipv6 : List ℕ → Option (List ℕ)
  pub format_ipv4 : List ℕ → List (List ℕ)
  pub format_ipv6 : List ℕ → List (List ℕ)

abbrev pub text_capacity : ℕ
text_capacity = 45

-- `ProxyProtocolText`.
pub record ProxyProtocolText : Type 0 where
  pub bytes : List ℕ
  pub len : ℕ

abbrev pub zeros : ℕ → List ℕ
zeros zero = []
zeros (suc n) = 0 ∷ zeros n

unfoldable pub empty_text : ProxyProtocolText
empty_text = record { bytes = zeros text_capacity; len = 0 }

-- `write_str`; `none` is `fmt::Error`. The sum overflows `usize` at 2 ^ 64.
unfoldable pub write_str : ProxyProtocolText → List ℕ → Option ProxyProtocolText
write_str t value =
    let end = t.len + length value in
    if leb (2 ^ 64) end
    then none
    else (if ltb (length t.bytes) end
        then none
        else some (record { bytes = take t.len t.bytes ++ (value ++ drop end t.bytes); len = end }))

-- `write!`: the pieces in order, up to the first failure.
unfoldable pub write_all : ProxyProtocolText → List (List ℕ) → Option ProxyProtocolText
write_all t [] = some t
write_all t (piece ∷ pieces) = elim (write_str t piece) [
  | none ↦ none
  | some t' ↦ write_all t' pieces
]

unfoldable pub canonical_proxy_protocol_text :
    Codec → Address → Result ProxyProtocolError ProxyProtocolText
canonical_proxy_protocol_text codec (ipv4_address octets port) =
    elim (write_all empty_text (codec.format_ipv4 octets)) [
      | none ↦ err canonical_text
      | some t ↦ ok t
    ]
canonical_proxy_protocol_text codec (ipv6_address octets port) =
    elim (write_all empty_text (codec.format_ipv6 octets)) [
      | none ↦ err canonical_text
      | some t ↦ ok t
    ]

-- `&text[..len]`.
abbrev pub written : ProxyProtocolText → List ℕ
written t = take t.len t.bytes

-- `proxy_protocol_address`.
unfoldable pub proxy_protocol_address : Codec → List ℕ → ℕ → Result ProxyProtocolError Address
proxy_protocol_address codec text port =
    if codec.from_utf8 text
    then elim (codec.parse_ipv4 text) [
      | some octets ↦ ok (ipv4_address octets (from_host_order port))
      | none ↦ elim (codec.parse_ipv6 text) [
        | some octets ↦ ok (ipv6_address octets (from_host_order port))
        | none ↦ err invalid_address_text
      ]
    ]
    else err invalid_address_text

abbrev pub concat : List (List ℕ) → List ℕ
concat [] = []
concat (x ∷ xs) = x ++ concat xs

take-take_append :
    (n : ℕ) (xs v rest : List ℕ)
    → n ≤ length xs
    → take (n + length v) (take n xs ++ (v ++ rest)) ≡ take n xs ++ v
take-take_append zero xs v rest h = rw (zero-add (length v)) (take-append_length v rest)
take-take_append (suc n) [] v rest h = absurd (omega arith)
take-take_append (suc n) (x ∷ xs) v rest h =
    let e : suc n + length v ≡ suc (n + length v) = omega arith in
    rw e (ap (λ l. x ∷ l) (take-take_append n xs v rest (omega arith)))

length-take_le : (n : ℕ) (xs : List ℕ) → n ≤ length xs → length (take n xs) ≡ n
length-take_le zero xs h = refl
length-take_le (suc n) [] h = absurd (omega arith)
length-take_le (suc n) (x ∷ xs) h = ap suc (length-take_le n xs (omega arith))

-- The buffer has its capacity, and the text lies in it.
pub record IsText (t : ProxyProtocolText) : Type 0 where
  pub full : length t.bytes ≡ text_capacity
  pub within : t.len ≤ text_capacity

pub empty_text-IsText : IsText empty_text
unfolding empty_text
empty_text-IsText = record { full = refl; within = omega arith }

write_str_lem :
    (t t' : ProxyProtocolText) (v : List ℕ)
    → IsText t
    → write_str t v ≡ some t'
    → IsText t' × (written t' ≡ written t ++ v)
unfolding write_str
write_str_lem t t' v i e =
    let end = t.len + length v in
    let fits : end ≤ text_capacity = ground arith in
    let r : record { bytes = take t.len t.bytes ++ (v ++ drop end t.bytes); len = end } ≡ t' =
      ground arith in
    let len : length (take t.len t.bytes) ≡ t.len =
      length-take_le t.len t.bytes (omega (arith, i.full, i.within)) in
    let rest = length-append (take t.len t.bytes) (v ++ drop end t.bytes) in
    let all : length (take t.len t.bytes ++ (v ++ drop end t.bytes)) ≡ text_capacity =
      omega
        (arith, rest, len, length-append v (drop end t.bytes), length-drop end t.bytes, i.full) in
    subst (λ k. IsText k × (written k ≡ written t ++ v)) r
      (
        record { full = all; within = fits },
        take-take_append t.len t.bytes v (drop end t.bytes) (omega (arith, i.full, i.within)),
      )

pub write_all_lem :
    (t t' : ProxyProtocolText) (pieces : List (List ℕ))
    → IsText t
    → write_all t pieces ≡ some t'
    → IsText t' × (written t' ≡ written t ++ concat pieces)
unfolding write_all
write_all_lem t t' [] i e =
    let k : t ≡ t' = cc in (subst IsText k i, rw (← k) (sym (append-nil (written t))))
write_all_lem t t' (p ∷ ps) i e = elim (Option-cases (write_str t p)) [
  | inl n ↦ absurd (ground (arith, n))
  | inr (t₁, k) ↦
      let (i₁, w) = write_str_lem t t₁ p i k in
      let (i₂, w₂) = write_all_lem t₁ t' ps i₁ (rw (k, write_all) at e) in
      (i₂, w₂ ∙ ap (λ l. l ++ concat ps) w ∙ append_assoc (written t) p (concat ps))
]

pub length-written : (t : ProxyProtocolText) → IsText t → length (written t) ≤ text_capacity
length-written t i =
    omega (arith, length-take_le t.len t.bytes (omega (arith, i.full, i.within)), i.within)

-- Formatting into the empty buffer, if it succeeds, leaves the pieces as the text.
pub write_all-empty :
    (t : ProxyProtocolText) (pieces : List (List ℕ))
    → write_all empty_text pieces ≡ some t
    → (written t ≡ concat pieces) × (length (concat pieces) ≤ text_capacity)
unfolding empty_text
write_all-empty t pieces e =
    let (i, w) = write_all_lem empty_text t pieces empty_text-IsText e in
    (w, rw w at (length-written t i))
