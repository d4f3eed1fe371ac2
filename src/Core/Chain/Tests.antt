-- ===== src/Core/Chain/Tests.antt =====
-- src/core/chain.rs: a chain of two links at 16 and 32, another of the link at 48, and a new link at 64.
use ngx_rust.Prelude.{ℕ, ◌≡◌, refl, true, some, [], ◌∷◌, inr, ok, if◌then◌else◌, ◌==◌, arith}
use ngx_rust.Core.Buffer.{
  Buf, Platform, size, validate_native_buffer, in_memory, check_memory, file_range, len,
}
use ngx_rust.Core.Buffer.Slice.{zeroed}
use ngx_rust.Core.Chain.{
  Link, Links, Alignment, PoolChain, append, append_chain, append_for_output_filter, overflow,
}
use ngx_rust.Core.Chain
use ngx_rust.Core.Chain.Append.{Holds, append_chain-Holds}
use ngx_rust.Core.Chain.Traversal.{len-bounded}

abbrev alignment : Alignment
alignment = record { link_align = 8; buf_align = 8 }

abbrev platform : Platform
platform = record { isize_max = 9000; usize_max = 9000; off_max = 9000; file_align = 8 }

abbrev links : Links
links = λ at. if at == 16 then record { buf = 800; next = 32 } else record { buf = 808; next = 0 }

abbrev bufs : ℕ → Buf
bufs = λ at. record zeroed { start = 100; pos_at = 100; last = 104; end = 110; memory = true }

abbrev two : PoolChain
two = record { head = some 16; tail = some 32; pool = 5 }

abbrev one : PoolChain
one = record { head = some 48; tail = some 48; pool = 5 }

abbrev two-Holds : Holds links two (16 ∷ 32 ∷ [])
two-Holds =
    inr
      (16, 32, 16 ∷ [], refl, refl, refl, (refl, refl, refl), ((λ e. omega arith), tt), refl, refl)

abbrev one-Holds : Holds links one (48 ∷ [])
one-Holds = inr (48, 48, [], refl, refl, refl, refl, tt, refl, refl)

append_chain-Holds_example :
    (h' : Links) × (c' : PoolChain) × (d' : PoolChain) × (append_chain links two one
      ≡ ok (h', c', d'))
    × Holds h' c' (16 ∷ 32 ∷ 48 ∷ [])
    × Holds h' d' []
    × ((j : ℕ) → (h' j).buf ≡ (links j).buf)
append_chain-Holds_example =
    append_chain-Holds links two one (16 ∷ 32 ∷ []) (48 ∷ []) refl two-Holds one-Holds
      ((λ e. omega arith), tt) ((λ e. omega arith), ((λ e. omega arith), tt))

len-bounded_example : Chain.len alignment platform bufs 3 links 16 ≡ some (ok 8)
unfolding size validate_native_buffer in_memory check_memory file_range len
len-bounded_example =
    len-bounded alignment platform bufs 3 links 16 (4 ∷ 4 ∷ []) (omega arith)
      (refl, refl, refl, refl, refl, (refl, refl, refl, refl, refl, refl))
