-- ===== src/Core/ProxyProtocol/Tlv.antt =====
-- src/core/connection/proxy_protocol.rs: the TLV lookup against the encoding of TLVs. A TLV is a
-- type byte, two bytes of length in network order, and the value.
use mathlib.Core.List.{append_assoc}
use ngx_rust.Prelude.{
  ℕ, zero, suc, ◌+◌, ◌*◌, ◌/◌, ◌%◌, ◌^◌, ◌≤◌, ◌<◌, ◌≡◌, ◌≢◌, refl, sym, ap, ◌∙◌, inl, inr, some,
  List, [], ◌∷◌, ◌++◌, arith, ltb, ◌==◌, if◌then◌else◌, Bool-cases, length, take, drop,
  length-append, length-drop, take-append_length, drop-append_length, ==_iff,
}
use ngx_rust.Core.ProxyProtocol.{TlvLookup, found, declined, malformed, lookup_from, lookup_tlv}

pub record Tlv : Type 0 where
  pub type : ℕ
  pub value : List ℕ

unfoldable pub encode_tlv : Tlv → List ℕ
encode_tlv t = t.type ∷ length t.value / 256 ∷ length t.value % 256 ∷ t.value

unfoldable pub encode_tlvs : List Tlv → List ℕ
encode_tlvs [] = []
encode_tlvs (t ∷ ts) = encode_tlv t ++ encode_tlvs ts

abbrev pub IsBytes : List ℕ → Type 0
IsBytes [] = Unit
IsBytes (x ∷ xs) = (x < 256) × IsBytes xs

-- None of the entries has the type.
abbrev pub Lacks : ℕ → List Tlv → Type 0
Lacks type [] = Unit
Lacks type (t ∷ ts) = (t.type ≢ type) × Lacks type ts

-- Bytes that are too few for a header, or for the value that their header declares.
pub data IsTruncated : List ℕ → Type 0 where
  one : (a : ℕ) → IsTruncated (a ∷ [])
  two : (a b : ℕ) → IsTruncated (a ∷ b ∷ [])
  short :
      (a high low : ℕ) (rest : List ℕ)
      → length rest < high * 256 + low
      → IsTruncated (a ∷ high ∷ low ∷ rest)

-- What a result says of the bytes: entries of other types, and behind them nothing, the entry with
-- the returned value and any bytes, or a truncated entry.
pub data Describes (type : ℕ) (bytes : List ℕ) : TlvLookup → Type 0 where
  absent : (ts : List Tlv) → Lacks type ts → bytes ≡ encode_tlvs ts → Describes type bytes declined
  present :
      (ts : List Tlv) (value rest : List ℕ)
      → Lacks type ts
      → bytes ≡ encode_tlvs ts ++ (encode_tlv (record { type = type; value = value }) ++ rest)
      → Describes type bytes (found value)
  broken :
      (ts : List Tlv) (rest : List ℕ)
      → Lacks type ts
      → IsTruncated rest
      → bytes ≡ encode_tlvs ts ++ rest
      → Describes type bytes malformed

IsBytes-drop : (n : ℕ) (xs : List ℕ) → IsBytes xs → IsBytes (drop n xs)
IsBytes-drop zero xs h = h
IsBytes-drop (suc n) [] h = tt
IsBytes-drop (suc n) (x ∷ xs) h = IsBytes-drop n xs h.1

take-append-drop : (n : ℕ) (xs : List ℕ) → take n xs ++ drop n xs ≡ xs
take-append-drop zero xs = refl
take-append-drop (suc n) [] = refl
take-append-drop (suc n) (x ∷ xs) = ap (λ l. x ∷ l) (take-append-drop n xs)

length-take_le : (n : ℕ) (xs : List ℕ) → n ≤ length xs → length (take n xs) ≡ n
length-take_le zero xs h = refl
length-take_le (suc n) [] h = absurd (omega arith)
length-take_le (suc n) (x ∷ xs) h = ap suc (length-take_le n xs (omega arith))

-- A complete entry at the front of the bytes, as its encoding and the bytes behind it.
split_entry :
    (a high low : ℕ) (rest : List ℕ)
    → high < 256
    → low < 256
    → high * 256 + low ≤ length rest
    → a ∷ high ∷ low ∷ rest
      ≡ encode_tlv (record { type = a; value = take (high * 256 + low) rest })
        ++ drop (high * 256 + low) rest
unfolding encode_tlv
split_entry a high low rest h l fits =
    let n = high * 256 + low in
    let k = length-take_le n rest fits in
    let d : length (take n rest) / 256 ≡ high = rw k (omega arith) in
    let m : length (take n rest) % 256 ≡ low = rw k (omega arith) in
    rw (d, m) (ap (λ l. a ∷ high ∷ low ∷ l) (sym (take-append-drop n rest)))

-- An entry of another type in front of described bytes.
Describes-cons :
    (type : ℕ) (t : Tlv) (bytes all : List ℕ) {r : TlvLookup}
    → t.type ≢ type
    → all ≡ encode_tlv t ++ bytes
    → Describes type bytes r
    → Describes type all r
unfolding encode_tlvs
Describes-cons type t bytes all ne e (absent ts l k) = absent (t ∷ ts) (ne, l) (rw (← k) e)
Describes-cons type t bytes all ne e (present ts v rest l k) =
    present (t ∷ ts) v rest (ne, l) (e ∙ rw (k, append_assoc (encode_tlv t) (encode_tlvs ts)))
Describes-cons type t bytes all ne e (broken ts rest l b k) =
    broken (t ∷ ts) rest (ne, l) b (e ∙ rw (k, append_assoc (encode_tlv t) (encode_tlvs ts)))

lookup_from-Describes :
    (fuel : ℕ) (bytes : List ℕ) (type : ℕ)
    → length bytes < fuel
    → IsBytes bytes
    → (r : TlvLookup) × (lookup_from fuel bytes type ≡ some r) × Describes type bytes r
unfolding lookup_from
lookup_from-Describes zero bytes type h b = absurd (omega arith)
lookup_from-Describes (suc fuel) [] type h b =
    (declined, refl, absent [] tt (unfold encode_tlvs in refl))
lookup_from-Describes (suc fuel) (x ∷ []) type h b =
    (malformed, refl, broken [] (x ∷ []) tt (one x) (unfold encode_tlvs in refl))
lookup_from-Describes (suc fuel) (x ∷ y ∷ []) type h b =
    (malformed, refl, broken [] (x ∷ y ∷ []) tt (two x y) (unfold encode_tlvs in refl))
lookup_from-Describes (suc fuel) (x ∷ high ∷ low ∷ rest) type h b =
    let n = high * 256 + low in
    elim (Bool-cases (ltb (length rest) n)) [
      | inl cut ↦ (
        malformed,
        rw cut,
        broken [] (x ∷ high ∷ low ∷ rest) tt (short x high low rest (ground arith))
            (unfold encode_tlvs in refl),
      )
      | inr fits ↦
          let le : n ≤ length rest = ground arith in
          let e = split_entry x high low rest b.1.0 b.1.1.0 le in
          elim (Bool-cases (x == type)) [
            | inl hit ↦ (
              found (take n rest),
              rw (fits, hit),
              present [] (take n rest) (drop n rest) tt
                  (rw (← (==_iff x type).0 hit) (unfold encode_tlvs in e)),
            )
            | inr miss ↦
                let (r, k, d) =
                  lookup_from-Describes fuel (drop n rest) type (omega (arith, length-drop n rest))
                    (IsBytes-drop n rest b.1.1.1) in
                (
                  r,
                  rw (fits, miss) k,
                  Describes-cons type (record { type = x; value = take n rest }) (drop n rest)
                      (x ∷ high ∷ low ∷ rest) (λ q. ground (arith, miss, q)) e d,
                )
          ]
    ]

-- The lookup always ends, and its result describes the bytes: `Ok` is the value of the first TLV
-- of the type, behind complete TLVs of other types; `Declined` means that the bytes are complete
-- TLVs of other types only; `Error` means that such TLVs are followed by a truncated one.
pub lookup_tlv-Describes :
    (bytes : List ℕ) (type : ℕ)
    → IsBytes bytes
    → (r : TlvLookup) × (lookup_tlv bytes type ≡ some r) × Describes type bytes r
unfolding lookup_tlv
lookup_tlv-Describes bytes type b =
    lookup_from-Describes (suc (length bytes)) bytes type (omega arith) b

abbrev pub IsShort : Tlv → Type 0
IsShort t = length t.value < 2 ^ 16

abbrev pub AllShort : List Tlv → Type 0
AllShort [] = Unit
AllShort (t ∷ ts) = IsShort t × AllShort ts

length-encode_tlv : (t : Tlv) → length (encode_tlv t) ≡ length t.value + 3
unfolding encode_tlv
length-encode_tlv t = omega arith

-- One round over a complete entry.
lookup_from-encode_tlv :
    (fuel : ℕ) (t : Tlv) (rest : List ℕ) (type : ℕ)
    → IsShort t
    → lookup_from (suc fuel) (encode_tlv t ++ rest) type
      ≡ (if t.type == type then some (found t.value) else lookup_from fuel rest type)
unfolding lookup_from encode_tlv
lookup_from-encode_tlv fuel t rest type s =
    let e : length t.value / 256 * 256 + length t.value % 256 ≡ length t.value = omega arith in
    rw (e, take-append_length t.value rest, drop-append_length t.value rest)
      (ground (arith, length-append t.value rest))

lookup_from-encode :
    (fuel : ℕ) (ts : List Tlv) (type : ℕ) (value rest : List ℕ)
    → length (encode_tlvs ts) < fuel
    → AllShort ts
    → Lacks type ts
    → length value < 2 ^ 16
    → lookup_from fuel
        (encode_tlvs ts ++ (encode_tlv (record { type = type; value = value }) ++ rest))
        type
      ≡ some (found value)
unfolding encode_tlvs
lookup_from-encode zero ts type value rest f a l s = absurd (omega arith)
lookup_from-encode (suc fuel) [] type value rest f a l s =
    rw (lookup_from-encode_tlv fuel (record { type = type; value = value }) rest type s)
      (ground arith)
lookup_from-encode (suc fuel) (t ∷ ts) type value rest f a l s =
    let tail = encode_tlvs ts ++ (encode_tlv (record { type = type; value = value }) ++ rest) in
    let ih =
      lookup_from-encode fuel ts type value rest
        (omega (arith, length-append (encode_tlv t) (encode_tlvs ts), length-encode_tlv t)) a.1 l.1
        s in
    rw (append_assoc (encode_tlv t) (encode_tlvs ts), lookup_from-encode_tlv fuel t tail type a.0)
      (ground (arith, l.0, ih))

-- Looking up a type in encoded TLVs returns the value of the first TLV that has the type, whatever
-- bytes follow it, for values that their two length bytes can hold.
pub lookup_tlv-encode :
    (ts : List Tlv) (type : ℕ) (value rest : List ℕ)
    → AllShort ts
    → Lacks type ts
    → length value < 2 ^ 16
    → lookup_tlv
        (encode_tlvs ts ++ (encode_tlv (record { type = type; value = value }) ++ rest))
        type
      ≡ some (found value)
unfolding lookup_tlv
lookup_tlv-encode ts type value rest a l s =
    let tail = encode_tlv (record { type = type; value = value }) ++ rest in
    lookup_from-encode (suc (length (encode_tlvs ts ++ tail))) ts type value rest
      (omega (arith, length-append (encode_tlvs ts) tail)) a l s
