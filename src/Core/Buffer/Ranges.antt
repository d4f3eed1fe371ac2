-- ===== src/Core/Buffer/Ranges.antt =====
-- src/core/buffer.rs: what a slice of a buffer shows, of memory and of a file.
use ngx_rust.Prelude.{
  ℕ, ◌+◌, ◌-◌, ◌≤◌, ◌≡◌, refl, sym, ap, ◌∙◌, subst, Bool, true, false, ◌&&◌, ◌||◌, not, List, [],
  ◌∷◌, length, take, drop, arith, ltb, ◌==◌, if◌then◌else◌, Result, ok, ◌>>=◌, ◌>>◌, fail_if,
  bind-ok, guard-ok, ok_injective,
}
use ngx_rust.Core.Buffer.{
  Buf, BufferFlags, Platform, Failure, fails, panics, allocation, invalid_memory_range, Memory,
  read_bytes, in_memory, len, as_bytes, size, set_flags, out_of_range,
}
use ngx_rust.Core.Buffer.Consume.{as_bytes-len, in_memory-len}
use ngx_rust.Core.Buffer.Kind.{length-read_bytes}
use ngx_rust.Core.Buffer.Slice.{
  Pool, zeroed, empty_buffer, control_buffer, reference_memory, copy_buffer, range_of, buffer_slice,
}
use ngx_rust.Core.Buffer.Bytes.{CreatesBuffers, copy_buffer-as_bytes, take_all}

-- What a slice promises of the buffer that it makes.
abbrev pub Shows : List ℕ → BufferFlags → Memory × Buf → Type 0
Shows bs flags o = (as_bytes o.0 o.1 ≡ ok bs) × (o.1.flags ≡ flags)

abbrev based : Buf
based = record zeroed { pos_at = 1; last = 1 }

empty_buffer-ok : (pool : Pool) (b : Buf) → empty_buffer pool ≡ ok b → based ≡ b
unfolding empty_buffer
empty_buffer-ok pool b h =
    ok_injective based b (guard-ok (not pool.can_calloc) (fails allocation) (ok based) b h).1

control_buffer-ok :
    (pool : Pool) (flags : BufferFlags) (r : Buf)
    → control_buffer pool flags ≡ ok r
    → set_flags flags based ≡ r
unfolding control_buffer
control_buffer-ok pool flags r h =
    let (b, empty, flagged) = bind-ok (empty_buffer pool) (λ b. ok (set_flags flags b)) r h in
    ap (set_flags flags) (empty_buffer-ok pool b empty) ∙ ok_injective (set_flags flags b) r flagged

abbrev referencing : ℕ → ℕ → BufferFlags → Buf → Buf
referencing at n flags b =
    set_flags flags
      (record b { start = at; pos_at = at; last = at + n; end = at + n; memory = true })

reference_memory-ok :
    (pool : Pool) (at n : ℕ) (flags : BufferFlags) (r : Buf)
    → reference_memory pool at n flags ≡ ok r
    → referencing at n flags based ≡ r
unfolding reference_memory
reference_memory-ok pool at n flags r h =
    let rest =
      guard-ok (at == 0 || (n == 0)) (fails invalid_memory_range)
        (do b ← empty_buffer pool; ok (referencing at n flags b)) r h in
    let (b, empty, built) =
      bind-ok (empty_buffer pool) (λ b. ok (referencing at n flags b)) r rest.1 in
    ap (referencing at n flags) (empty_buffer-ok pool b empty)
    ∙ ok_injective (referencing at n flags b) r built

control-Shows : (flags : BufferFlags) (m : Memory) → Shows [] flags (m, set_flags flags based)
unfolding set_flags as_bytes len
control-Shows flags m = (refl, refl)

reference-Shows :
    (at n : ℕ) (flags : BufferFlags) (m : Memory)
    → Shows (read_bytes m at n) flags (m, referencing at n flags based)
unfolding set_flags len
reference-Shows at n flags m =
    (as_bytes-len m (referencing at n flags based) n (ground arith), refl)

drop_none {ℓ} : {A : Type ℓ} (xs : List A) → drop 0 xs ≡ xs
drop_none [] = refl
drop_none (x ∷ xs) = refl

-- The part of a memory buffer that is not empty.
abbrev part_of :
    Pool → ℕ → ℕ → ℕ → ℕ → BufferFlags → Memory → List ℕ → Result Failure (Memory × Buf)
part_of pool at start end n flags m bs =
    if (start == 0) && (end == n)
    then (do r ← reference_memory pool at (length bs) flags; ok (m, r))
    else (do part ← range_of bs start end; copy_buffer pool part flags m)

made-Shows :
    (bs : List ℕ) (flags : BufferFlags) (m : Memory) (o : Memory × Buf) (q : Result Failure Buf)
    (made : Buf)
    → ((r : Buf) → q ≡ ok r → made ≡ r)
    → Shows bs flags (m, made)
    → (do r ← q; ok (m, r)) ≡ ok o
    → Shows bs flags o
made-Shows bs flags m o q made same shown h =
    let (r, run, out) = bind-ok q (λ r. ok (m, r)) o h in
    subst (Shows bs flags) (ap (λ (r : Buf). (m, r)) (same r run) ∙ ok_injective (m, r) o out) shown

whole_lem :
    (at start end n : ℕ) (m : Memory)
    → ((start == 0) && (end == n)) ≡ true
    → read_bytes m at (length (read_bytes m at n))
      ≡ take (end - start) (drop start (read_bytes m at n))
whole_lem at start end n m e =
    ap (read_bytes m at) (length-read_bytes m at n)
    ∙ sym (take_all end (read_bytes m at n) (ground (arith, length-read_bytes m at n)))
    ∙ ap (take end) (sym (drop_none (read_bytes m at n)))
    ∙ λ i. take (same i) (drop (from i) (read_bytes m at n))
  where
    from : 0 ≡ start
    from = ground arith

    same : end ≡ end - start
    same = ground arith

part-Shows :
    (pool : Pool) (at start end n : ℕ) (flags : BufferFlags) (m : Memory) (o : Memory × Buf)
    → CreatesBuffers pool
    → part_of pool at start end n flags m (read_bytes m at n) ≡ ok o
    → Shows (take (end - start) (drop start (read_bytes m at n))) flags o
part-Shows pool at start end n flags m o fresh h = by_test ((start == 0) && (end == n)) refl h
  where
    by_test :
        (t : Bool)
        → ((start == 0) && (end == n)) ≡ t
        → (if t
            then (do r ← reference_memory pool at (length (read_bytes m at n)) flags; ok (m, r))
            else (do part ← range_of (read_bytes m at n) start end; copy_buffer pool part flags m))
          ≡ ok o
        → Shows (take (end - start) (drop start (read_bytes m at n))) flags o
    by_test true e k =
        subst (λ bs. Shows bs flags o) (whole_lem at start end n m e)
          (made-Shows _ flags m o (reference_memory pool at (length (read_bytes m at n)) flags)
            (referencing at (length (read_bytes m at n)) flags based)
            (reference_memory-ok pool at (length (read_bytes m at n)) flags)
            (reference-Shows at (length (read_bytes m at n)) flags m) k)
    by_test false e k =
        let bs = read_bytes m at n in
        let (part, ranged, made) =
          bind-ok (range_of bs start end) (λ part. copy_buffer pool part flags m) o k in
        let within =
          guard-ok (ltb end start || ltb (length bs) end) panics
            (ok (take (end - start) (drop start bs))) part ranged in
        let same = ok_injective (take (end - start) (drop start bs)) part within.1 in
        subst (λ (x : List ℕ). Shows x flags o) (sym same)
          (copy_buffer-as_bytes pool part flags m o.0 o.1 fresh made)

empty_lem :
    (start end : ℕ) (bs : List ℕ) → (start == end) ≡ true → [] ≡ take (end - start) (drop start bs)
empty_lem start end bs e = ap (λ k. take k (drop start bs)) none_left
  where
    none_left : 0 ≡ end - start
    none_left = ground arith

sliced-Shows :
    (pool : Pool) (at start end n : ℕ) (flags : BufferFlags) (m : Memory) (o : Memory × Buf)
    → CreatesBuffers pool
    → (if start == end
        then (do r ← control_buffer pool flags; ok (m, r))
        else part_of pool at start end n flags m (read_bytes m at n))
      ≡ ok o
    → Shows (take (end - start) (drop start (read_bytes m at n))) flags o
sliced-Shows pool at start end n flags m o fresh h = by_test (start == end) refl h
  where
    by_test :
        (t : Bool)
        → (start == end) ≡ t
        → (if t
            then (do r ← control_buffer pool flags; ok (m, r))
            else part_of pool at start end n flags m (read_bytes m at n))
          ≡ ok o
        → Shows (take (end - start) (drop start (read_bytes m at n))) flags o
    by_test true e k =
        subst (λ bs. Shows bs flags o) (empty_lem start end (read_bytes m at n) e)
          (made-Shows _ flags m o (control_buffer pool flags) (set_flags flags based)
            (control_buffer-ok pool flags) (control-Shows flags m) k)
    by_test false e k = part-Shows pool at start end n flags m o fresh k

module _ (p : Platform) where
  buffer_slice-part :
      (pool : Pool) (b : Buf) (start end n : ℕ) (flags : BufferFlags) (m : Memory)
      → in_memory b ≡ true
      → size p b ≡ ok n
      → buffer_slice p pool b start end flags m ≡ (
          fail_if (ltb end start || ltb n end) (fails out_of_range)
          >> (if start == end
              then (do r ← control_buffer pool flags; ok (m, r))
              else part_of pool b.pos_at start end n flags m (read_bytes m b.pos_at n)))
  unfolding buffer_slice
  buffer_slice-part pool b start end n flags m mem s =
      rw (s, mem, as_bytes-len m b n (in_memory-len p b n mem s)) refl

  -- A slice of a memory buffer, where one is made, has its range within the buffer and shows the
  -- bytes of this range, under the flags that were asked for, whether it is empty, the whole buffer
  -- or a copied part.
  pub buffer_slice-as_bytes :
      (pool : Pool) (b : Buf) (start end n : ℕ) (flags : BufferFlags) (m m' : Memory) (r : Buf)
      → CreatesBuffers pool
      → in_memory b ≡ true
      → size p b ≡ ok n
      → buffer_slice p pool b start end flags m ≡ ok (m', r)
      → (start ≤ end)
        × (end ≤ n)
        × (as_bytes m b ≡ ok (read_bytes m b.pos_at n))
        × (as_bytes m' r ≡ ok (take (end - start) (drop start (read_bytes m b.pos_at n))))
        × (r.flags ≡ flags)
  buffer_slice-as_bytes pool b start end n flags m m' r fresh mem s h =
      let part =
        if start == end
        then (do r ← control_buffer pool flags; ok (m, r))
        else part_of pool b.pos_at start end n flags m (read_bytes m b.pos_at n) in
      let within =
        guard-ok (ltb end start || ltb n end) (fails out_of_range) part (m', r)
          (sym (buffer_slice-part pool b start end n flags m mem s) ∙ h) in
      let shown = sliced-Shows pool b.pos_at start end n flags m (m', r) fresh within.1 in
      (
        ground (arith, within.0),
        ground (arith, within.0),
        as_bytes-len m b n (in_memory-len p b n mem s),
        shown.0,
        shown.1,
      )
