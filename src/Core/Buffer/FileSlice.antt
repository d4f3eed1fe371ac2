-- ===== src/Core/Buffer/FileSlice.antt =====
-- src/core/buffer.rs: what a slice of a file buffer refers to.
use ngx_rust.Prelude.{
  ℕ, ◌-◌, ◌%◌, ◌≤◌, ◌<◌, ◌≡◌, refl, sym, subst, true, false, some, arith, ltb, ◌==◌, ok,
}
use ngx_rust.Prelude.Int.{ℤ, pos, negsuc, is_negative, lt_ℤ, add_ℕ, sub_ℤ}
use ngx_rust.Core.Buffer.{
  Buf, BufferFlags, FileView, Platform, in_memory, set_flags, file_of, file_range,
}
use ngx_rust.Core.Buffer.Consume.{advance_range}
use ngx_rust.Core.Buffer.Slice.{Pool, zeroed, empty_buffer, file_buffer_slice, build_file_buffer}

-- The offsets that a slice of a file's range has lie in that range, in order.
slice_range :
    (a b : ℤ) (start end : ℕ)
    → is_negative a ≡ false
    → lt_ℤ b a ≡ false
    → start < end
    → end ≤ sub_ℤ b a
    → (is_negative (add_ℕ a start) ≡ false)
      × (lt_ℤ (add_ℕ a end) (add_ℕ a start) ≡ false)
      × (lt_ℤ b (add_ℕ a end) ≡ false)
      × (sub_ℤ (add_ℕ a end) (add_ℕ a start) ≡ end - start)
slice_range (pos a) (pos b) start end h k lt le = ground arith
slice_range (pos a) (negsuc b) start end h k lt le = absurd (cc)
slice_range (negsuc a) b start end h k lt le = absurd (cc)

-- The buffer that a slice makes.
abbrev pub referring : FileView → ℕ → ℕ → BufferFlags → Buf
referring f start end flags = set_flags flags (record zeroed {
  pos_at = 1;
  last = 1;
  file = f.file;
  file_pos = add_ℕ f.start start;
  file_last = add_ℕ f.start end;
  in_file = true;
})

module _ (p : Platform) where
  file_of-checked :
      (b : Buf) (f : FileView)
      → file_of p b ≡ ok (some f)
      → ((f.file == 0) ≡ false)
        × ((f.file % p.file_align == 0) ≡ true)
        × (ltb p.usize_max f.len ≡ false)
        × (f.len ≡ sub_ℤ f.end f.start)
        × (is_negative f.start ≡ false)
        × (lt_ℤ f.end f.start ≡ false)
        × (f.end ≡ b.file_last)
  unfolding file_of file_range
  file_of-checked b f h = ground arith

  build-referring :
      (pool : Pool) (f : FileView) (start end : ℕ) (flags : BufferFlags)
      → pool.can_calloc ≡ true
      → start < end
      → end ≤ f.len
      → f.len ≡ sub_ℤ f.end f.start
      → is_negative f.start ≡ false
      → lt_ℤ f.end f.start ≡ false
      → lt_ℤ (pos p.off_max) f.end ≡ false
      → build_file_buffer p pool f start end flags ≡ ok (referring f start end flags)
  unfolding build_file_buffer empty_buffer
  build-referring pool f start end flags calloc lt le e neg order fits =
      let from =
        advance_range f.start f.end start p.off_max neg order fits (omega (arith, lt, le, e)) in
      let to =
        advance_range f.start f.end end p.off_max neg order fits (omega (arith, lt, le, e)) in
      ground (arith, from.0, from.1, to.0, to.1)

  referring-file_of :
      (f : FileView) (start end : ℕ) (flags : BufferFlags)
      → (f.file == 0) ≡ false
      → (f.file % p.file_align == 0) ≡ true
      → ltb p.usize_max f.len ≡ false
      → f.len ≡ sub_ℤ f.end f.start
      → is_negative f.start ≡ false
      → lt_ℤ f.end f.start ≡ false
      → start < end
      → end ≤ f.len
      → file_of p (referring f start end flags)
        ≡ ok (
            some (record {
              file = f.file;
              start = add_ℕ f.start start;
              end = add_ℕ f.start end;
              len = end - start;
            }))
  unfolding file_of file_range set_flags
  referring-file_of f start end flags there aligned most e neg order lt le =
      let range = slice_range f.start f.end start end neg order lt (omega (arith, e, le)) in
      ground (arith, range)

  -- A slice of a file buffer is again a file buffer, on the same file, that views exactly the range
  -- that was asked for, within the source's. The additions do not overflow.
  pub file_buffer_slice-file_of :
      (pool : Pool) (b : Buf) (f : FileView) (start end : ℕ) (flags : BufferFlags)
      → pool.can_calloc ≡ true
      → file_of p b ≡ ok (some f)
      → lt_ℤ (pos p.off_max) b.file_last ≡ false
      → start < end
      → end ≤ f.len
      → (r : Buf) × (file_buffer_slice p pool b start end flags ≡ ok r)
        × (file_of p r
            ≡ ok (
                some (record {
                  file = f.file;
                  start = add_ℕ f.start start;
                  end = add_ℕ f.start end;
                  len = end - start;
                })))
        × (lt_ℤ f.end (add_ℕ f.start end) ≡ false)
        × (r.flags ≡ flags)
        × (in_memory r ≡ false)
  unfolding file_buffer_slice
  file_buffer_slice-file_of pool b f start end flags calloc h fits lt le =
      let seen = file_of-checked b f h in
      let range =
        slice_range f.start f.end start end seen.4 seen.5 lt (omega (arith, seen.3, le)) in
      (
        referring f start end flags,
        rw h (
            build-referring pool f start end flags calloc lt le seen.3 seen.4 seen.5
              (subst (λ l. lt_ℤ (pos p.off_max) l ≡ false) (sym seen.6) fits)),
        referring-file_of f start end flags seen.0 seen.1 seen.2 seen.3 seen.4 seen.5 lt le,
        range.2,
        unfold set_flags in refl,
        unfold set_flags in_memory in refl,
      )
