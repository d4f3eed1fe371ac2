-- ===== src/Core/Buffer/Bytes.antt =====
-- src/core/buffer.rs: the bytes of the buffers that a pool builds.
use ngx_rust.Prelude.{
  ℕ, zero, suc, ◌+◌, ◌^◌, ◌≤◌, ◌<◌, ◌≡◌, refl, sym, ap, ◌∙◌, subst, Option, none, some, List, [],
  ◌∷◌, length, take, arith, ltb, if◌then◌else◌, Result, ok, err, ◌>>=◌, ok_or, put, put-same,
  put-other,
}
use ngx_rust.Core.Buffer.{
  Buf, BufferFlags, Failure, fails, allocation, Memory, read_bytes, write_bytes, len, as_bytes,
  set_flags, append, capacity,
}
use ngx_rust.Core.Buffer.Consume.{as_bytes-len}
use ngx_rust.Core.Buffer.Slice.{Pool, copied, copy_buffer}

-- What nginx's `ngx_create_temp_buf` documents: an empty buffer at the start of its storage.
pub record IsFresh (n : ℕ) (b : Buf) : Type 0 where
  pub at_start : b.pos_at ≡ b.start
  pub is_empty : b.last ≡ b.start
  pub holds : b.end ≡ b.start + n
  pub addressed : b.end < 2 ^ 64

abbrev pub CreatesBuffers : Pool → Type 0
CreatesBuffers pool = (n : ℕ) (b : Buf) → pool.create_buffer n ≡ some b → IsFresh n b

write_bytes-below : (at j : ℕ) (bs : List ℕ) (m : Memory) → j < at → write_bytes at bs m j ≡ m j
write_bytes-below at j [] m h = refl
write_bytes-below at j (b ∷ bs) m h =
    write_bytes-below (at + 1) j bs (put at b m) (omega arith)
    ∙ put-other at b m j (λ e. omega arith)

-- What was written is read.
pub read_bytes-write_bytes :
    (at : ℕ) (bs : List ℕ) (m : Memory) → read_bytes (write_bytes at bs m) at (length bs) ≡ bs
read_bytes-write_bytes at [] m = refl
read_bytes-write_bytes at (b ∷ bs) m = λ i.
    (write_bytes-below (at + 1) at bs (put at b m) (omega arith) ∙ put-same at b m) i
    ∷ read_bytes-write_bytes (at + 1) bs (put at b m) i

pub take_all {ℓ} : {A : Type ℓ} (n : ℕ) (xs : List A) → length xs ≤ n → take n xs ≡ xs
take_all zero [] h = refl
take_all zero (x ∷ xs) h = absurd (omega arith)
take_all (suc n) [] h = refl
take_all (suc n) (x ∷ xs) h = ap (λ r. x ∷ r) (take_all n xs (omega arith))

-- A fresh buffer of the size of some bytes takes all of them.
append-fresh :
    (bs : List ℕ) (m : Memory) (b : Buf)
    → IsFresh (length bs) b
    → append bs m b ≡ (length bs, write_bytes b.start bs m, record b { last = b.start + length bs })
unfolding append
append-fresh bs m b h =
    whole (if ltb (length bs) (capacity b) then length bs else capacity b) b.last
      (ground (arith, room)) h.is_empty
  where
    room : capacity b ≡ length bs
    room = unfold capacity in omega (arith, h.at_start, h.is_empty, h.holds, h.addressed)

    whole :
        (k l : ℕ)
        → k ≡ length bs
        → l ≡ b.start
        → ◌≡◌ {A = ℕ × Memory × Buf}
            (k, write_bytes l (take k bs) m, record b { last = l + k })
            (length bs, write_bytes b.start bs m, record b { last = b.start + length bs })
    whole k l e f =
        (λ i. (e i, write_bytes (f i) (take (e i) bs) m, record b { last = f i + e i }))
        ∙ ap
            (λ (xs : List ℕ).
              (length bs, write_bytes b.start xs m, record b { last = b.start + length bs }))
            (take_all (length bs) bs (omega arith))

written-as_bytes :
    (bs : List ℕ) (m : Memory) (b : Buf)
    → b.pos_at ≡ b.start
    → as_bytes (write_bytes b.start bs m) (record b { last = b.start + length bs }) ≡ ok bs
written-as_bytes bs m b e =
    as_bytes-len (write_bytes b.start bs m) (record b { last = b.start + length bs }) (length bs)
      (unfold len in ground (arith, e))
    ∙ ap (λ at. ok (read_bytes (write_bytes b.start bs m) at (length bs))) e
    ∙ ap ok (read_bytes-write_bytes b.start bs m)

copied-as_bytes :
    (bs : List ℕ) (m m' : Memory) (b r : Buf)
    → IsFresh (length bs) b
    → copied bs m b ≡ ok (m', r)
    → (as_bytes m' r ≡ ok bs) × (r.flags ≡ b.flags)
copied-as_bytes bs m m' b r h k =
    let result : copied bs m b
        ≡ ok (write_bytes b.start bs m, record b { last = b.start + length bs }) =
      unfold copied in rw (append-fresh bs m b h) (ground arith) in
    let same = ok_injective (sym result ∙ k) in
    subst (λ (o : Memory × Buf). (as_bytes o.0 o.1 ≡ ok bs) × (o.1.flags ≡ b.flags)) same
      (written-as_bytes bs m b h.at_start, refl)
  where
    ok_injective : {A : Type 0} {x y : A} → ◌≡◌ {A = Result Failure A} (ok x) (ok y) → x ≡ y
    ok_injective {A} {x} e = ap (λ (r : Result Failure A). elim r [ ok z ↦ z | err f ↦ x ]) e

pub copy_buffer-as_bytes :
    (pool : Pool) (bs : List ℕ) (flags : BufferFlags) (m m' : Memory) (r : Buf)
    → CreatesBuffers pool
    → copy_buffer pool bs flags m ≡ ok (m', r)
    → (as_bytes m' r ≡ ok bs) × (r.flags ≡ flags)
unfolding copy_buffer set_flags
copy_buffer-as_bytes pool bs flags m m' r fresh h =
    by_buffer (pool.create_buffer (length bs)) refl h
  where
    by_buffer :
        (o : Option Buf)
        → pool.create_buffer (length bs) ≡ o
        → (ok_or o (fails allocation) >>= λ b. copied bs m (set_flags flags b)) ≡ ok (m', r)
        → (as_bytes m' r ≡ ok bs) × (r.flags ≡ flags)
    by_buffer none e k = absurd (cc)
    by_buffer (some b) e k =
        let f = fresh (length bs) b e in
        copied-as_bytes bs m m' (record b { flags = flags }) r
          (record {
            at_start = f.at_start;
            is_empty = f.is_empty;
            holds = f.holds;
            addressed = f.addressed;
          })
          k
