-- ===== src/Collections/NgxQueue.antt =====
-- nginx-sys/src/core/queue.rs: the intrusive doubly linked list on a heap of links. A pointer is
-- an address; zero is null. Each write of the source is one update, in the source's order, and
-- reads what the earlier writes left. The `debug` feature of `ngx_queue_remove` is off.
pub mod Segment
pub mod Update
use ngx_rust.Prelude.{ℕ, Bool, ◌==◌, if◌then◌else◌}

-- `ngx_queue_t` at every address.
pub record Links : Type 0 where
  pub next : ℕ → ℕ
  pub prev : ℕ → ℕ

abbrev pub update : (ℕ → ℕ) → ℕ → ℕ → ℕ → ℕ
update f p v a = if a == p then v else f a

abbrev pub set_next : Links → ℕ → ℕ → Links
set_next h p v = record h { next = update h.next p v }

abbrev pub set_prev : Links → ℕ → ℕ → Links
set_prev h p v = record h { prev = update h.prev p v }

unfoldable pub ngx_queue_init : Links → ℕ → Links
ngx_queue_init h q = set_next (set_prev h q q) q q

unfoldable pub ngx_queue_insert_after : Links → ℕ → ℕ → Links
ngx_queue_insert_after h q x =
    let h₁ = set_next h x (h.next q) in
    let h₂ = set_prev h₁ (h₁.next x) x in let h₃ = set_prev h₂ x q in set_next h₃ q x

unfoldable pub ngx_queue_insert_before : Links → ℕ → ℕ → Links
ngx_queue_insert_before h q x =
    let h₁ = set_prev h x (h.prev q) in
    let h₂ = set_next h₁ (h₁.prev x) x in let h₃ = set_next h₂ x q in set_prev h₃ q x

unfoldable pub ngx_queue_remove : Links → ℕ → Links
ngx_queue_remove h q =
    let h₁ = set_prev h (h.next q) (h.prev q) in set_next h₁ (h₁.prev q) (h₁.next q)

unfoldable pub ngx_queue_empty : Links → ℕ → Bool
ngx_queue_empty h q = q == h.prev q
