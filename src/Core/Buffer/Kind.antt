-- ===== src/Core/Buffer/Kind.antt =====
-- src/core/buffer.rs: the classification of a buffer beside its size.
use ngx_rust.Prelude.{
  ℕ, zero, suc, ◌+◌, ◌-◌, ◌≡◌, ◌≢◌, refl, sym, ap, subst, Bool, true, false, Option, none, some,
  length, arith, ◌==◌, if◌then◌else◌, Result, ok, err, ◌>>=◌, ◌>>◌, Bool-cases, inl, inr,
}
use ngx_rust.Core.Buffer.{
  Buf, FileView, Platform, Failure, Memory, read_bytes, in_memory, len, as_bytes, file_range,
  check_memory, validate_native_buffer, nonempty, file_of, size, kind, BufferView, bytes, in_file,
  control,
}

-- What a view shows.
abbrev pub viewed_len : BufferView → ℕ
viewed_len (bytes bs) = length bs
viewed_len (in_file f) = f.len
viewed_len (control flags) = 0

abbrev pub is_control : BufferView → Bool
is_control (control flags) = true
is_control v = false

pub length-read_bytes : (m : Memory) (at n : ℕ) → length (read_bytes m at n) ≡ n
length-read_bytes m at zero = refl
length-read_bytes m at (suc n) = omega (arith, length-read_bytes m (at + 1) n)

module _ (p : Platform) where
  check-len : (b : Buf) → check_memory p b ≡ ok tt → len b ≡ ok (b.last - b.pos_at)
  unfolding check_memory len
  check-len b h = ground arith

  checked :
      (b : Buf) → in_memory b ≡ true → validate_native_buffer p b ≡ ok tt → check_memory p b ≡ ok tt
  unfolding validate_native_buffer
  checked b e h = by_check (check_memory p b) (
      subst (λ t. (do (if t then check_memory p b else ok tt); f ← file_range p b; ok tt) ≡ ok tt) e
        h)
    where
      by_check :
          (c : Result Failure (Unit {0})) → (do c; f ← file_range p b; ok tt) ≡ ok tt → c ≡ ok tt
      by_check (ok u) k = refl
      by_check (err x) k = cc

  ranged :
      (b : Buf)
      → validate_native_buffer p b ≡ ok tt
      → (g : Option FileView) × (file_range p b ≡ ok g)
  unfolding validate_native_buffer
  ranged b h = by_range (if in_memory b then check_memory p b else ok tt) (file_range p b) h
    where
      by_range :
          (c : Result Failure (Unit {0})) (r : Result Failure (Option FileView))
          → (do c; f ← r; ok tt) ≡ ok tt
          → (g : Option FileView) × (r ≡ ok g)
      by_range (ok u) (ok g) k = (g, refl)
      by_range (ok u) (err x) k = absurd (cc)
      by_range (err x) r k = absurd (cc)

  abbrev Agree : Memory → Buf → Type 0
  Agree m b =
      (k : BufferView) × (kind p m b ≡ ok k)
      × (size p b ≡ ok (viewed_len k))
      × (is_control k ≡ (viewed_len k == 0))

  memory-Agree :
      (m : Memory) (b : Buf) → in_memory b ≡ true → validate_native_buffer p b ≡ ok tt → Agree m b
  unfolding kind size as_bytes
  memory-Agree m b e h = by_len (b.last - b.pos_at) (check-len b (checked b e h))
    where
      by_len : (n : ℕ) → len b ≡ ok n → Agree m b
      by_len zero k = (control b.flags, rw (h, e, k) refl, rw (h, e, k) refl, refl)
      by_len (suc n) k = (
        bytes (read_bytes m b.pos_at (suc n)),
        rw (h, e, k) (ground arith),
        rw (h, e, k) (ap ok (sym (length-read_bytes m b.pos_at (suc n)))),
        ground arith,
      )

  file_of-nonempty : (b : Buf) (f : FileView) → file_of p b ≡ ok (some f) → f.len ≢ 0
  unfolding file_of
  file_of-nonempty b f h = by_range (file_range p b) h
    where
      by_range :
          (r : Result Failure (Option FileView))
          → (do g ← r; ok (nonempty g)) ≡ ok (some f)
          → f.len ≢ 0
      by_range (ok none) k = absurd (cc)
      by_range (ok (some g)) k = ground arith
      by_range (err x) k = absurd (cc)

  file-Agree :
      (m : Memory) (b : Buf) (g : Option FileView)
      → in_memory b ≡ false
      → validate_native_buffer p b ≡ ok tt
      → file_of p b ≡ ok g
      → Agree m b
  unfolding kind size
  file-Agree m b none e h k = (control b.flags, rw (h, e, k) refl, rw (h, e, k) refl, refl)
  file-Agree m b (some f) e h k =
      (in_file f, rw (h, e, k) refl, rw (h, e, k) refl, ground (arith, file_of-nonempty b f k))

  -- A buffer that the checks accept has a view and a size, and none of the assertions fails: the
  -- view shows as many bytes as the size says, and it is a control view exactly where that is zero.
  pub kind-size :
      (m : Memory) (b : Buf)
      → validate_native_buffer p b ≡ ok tt
      → (k : BufferView) × (kind p m b ≡ ok k)
        × (size p b ≡ ok (viewed_len k))
        × (is_control k ≡ (viewed_len k == 0))
  kind-size m b h = elim (Bool-cases (in_memory b)) [
    | inl e ↦ memory-Agree m b e h
    | inr e ↦
        let (g, r) = ranged b h in file-Agree m b (nonempty g) e h (unfold file_of in rw r refl)
  ]
