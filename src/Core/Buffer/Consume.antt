-- ===== src/Core/Buffer/Consume.antt =====
-- src/core/buffer.rs: `consume`, and what it leaves.
use ngx_rust.Prelude.{
  ℕ, zero, suc, ◌+◌, ◌-◌, ◌≤◌, ◌≡◌, refl, sym, ap, ◌∙◌, subst, true, false, ◌||◌, Option, none,
  some, drop, arith, ltb, if◌then◌else◌, Result, ok, err, ◌>>=◌, ◌>>◌, Bool-cases, inl, inr,
}
use ngx_rust.Prelude.Int.{ℤ, pos, negsuc, is_negative, lt_ℤ, add_ℕ, sub_ℤ}
use ngx_rust.Core.Buffer.{
  Buf, FileView, Platform, Failure, fails, out_of_range, Memory, read_bytes, in_memory, len,
  as_bytes, file_range, validate_native_buffer, file_of, file_len, size, attempt, advance_memory,
  advance_file, exceeds, file_amount, consume,
}

-- What a file position within a range of representable offsets may be advanced by.
pub advance_range :
    (at last : ℤ) (n most : ℕ)
    → is_negative at ≡ false
    → lt_ℤ last at ≡ false
    → lt_ℤ (pos most) last ≡ false
    → n ≤ sub_ℤ last at
    → (ltb most n ≡ false)
      × (lt_ℤ (pos most) (add_ℕ at n) ≡ false)
      × (is_negative (add_ℕ at n) ≡ false)
      × (lt_ℤ last (add_ℕ at n) ≡ false)
      × (sub_ℤ last (add_ℕ at n) ≡ sub_ℤ last at - n)
advance_range (pos a) (pos b) n most neg lt fits h = ground arith
advance_range (pos a) (negsuc b) n most neg lt fits h = cc
advance_range (negsuc a) last n most neg lt fits h = cc

-- The buffer after `n` of its bytes are consumed.
abbrev pub advanced : ℕ → Option FileView → Buf → Buf
advanced n none b = advance_memory n b
advanced n (some f) b = let b' = advance_memory n b in record b' { file_pos = add_ℕ b.file_pos n }

module _ (p : Platform) where
  -- The range of a file that is viewed.
  pub file_of-some :
      (b : Buf) (f : FileView)
      → file_of p b ≡ ok (some f)
      → (b.in_file ≡ true)
        × (f.len ≡ sub_ℤ b.file_last b.file_pos)
        × (f.start ≡ b.file_pos)
        × (f.end ≡ b.file_last)
        × (f.file ≡ b.file)
        × (is_negative b.file_pos ≡ false)
        × (lt_ℤ b.file_last b.file_pos ≡ false)
  unfolding file_of file_range
  file_of-some b f h = ground arith

  advance_memory-file_pos : (n : ℕ) (b : Buf) → (advance_memory n b).file_pos ≡ b.file_pos
  advance_memory-file_pos n b = elim (Bool-cases (in_memory b)) [
    | inl e ↦ rw e refl
    | inr e ↦ rw e refl
  ]

  advance-advanced :
      (n : ℕ) (b : Buf) (f : Option FileView)
      → file_of p b ≡ ok f
      → lt_ℤ (pos p.off_max) b.file_last ≡ false
      → exceeds n f ≡ false
      → attempt (file_amount p n f) b (λ k. advance_file p k f (advance_memory n b))
        ≡ (none, advanced n f b)
  advance-advanced n b none h fits e = refl
  advance-advanced n b (some f) h fits e =
      let view = file_of-some b f h in
      let range =
        advance_range b.file_pos b.file_last n p.off_max view.5 view.6 fits
          (ground (arith, view.1)) in
      ground (arith, range.0, range.1, advance_memory-file_pos n b)

  -- A buffer whose sizes are known, with a file offset that the platform can represent, is consumed
  -- exactly where the amount exceeds neither what is visible nor the file's range: its positions
  -- advance by the amount. In the other cases it is refused and left as it was. No case overflows.
  pub consume_lem :
      (n v : ℕ) (b : Buf) (f : Option FileView)
      → size p b ≡ ok v
      → file_of p b ≡ ok f
      → lt_ℤ (pos p.off_max) b.file_last ≡ false
      → consume p n b ≡ (
          if ltb v n || exceeds n f then (some (fails out_of_range), b) else (none, advanced n f b))
  unfolding consume
  consume_lem n v b f s h fits =
      rw (s, h)
        (elim (Bool-cases (ltb v n || exceeds n f)) [
          | inl e ↦ rw e refl
          | inr e ↦ rw e (advance-advanced n b f h fits (ground arith))
        ])

pub drop-read_bytes :
    (m : Memory) (at k n : ℕ) → k ≤ n → drop k (read_bytes m at n) ≡ read_bytes m (at + k) (n - k)
drop-read_bytes m at zero n h = ap2_lem (omega arith) (omega arith)
  where
    ap2_lem : at ≡ at + 0 → n ≡ n - 0 → read_bytes m at n ≡ read_bytes m (at + 0) (n - 0)
    ap2_lem e f = λ i. read_bytes m (e i) (f i)
drop-read_bytes m at (suc k) zero h = absurd (omega arith)
drop-read_bytes m at (suc k) (suc n) h =
    drop-read_bytes m (at + 1) k n (omega arith) ∙ joined (omega arith) (omega arith)
  where
    joined :
        at + 1 + k ≡ at + suc k
        → n - k ≡ suc n - suc k
        → read_bytes m (at + 1 + k) (n - k) ≡ read_bytes m (at + suc k) (suc n - suc k)
    joined e f = λ i. read_bytes m (e i) (f i)

pub as_bytes-len :
    (m : Memory) (b : Buf) (v : ℕ) → len b ≡ ok v → as_bytes m b ≡ ok (read_bytes m b.pos_at v)
unfolding as_bytes
as_bytes-len m b v h = rw h refl

module _ (p : Platform) where
  pub in_memory-len : (b : Buf) (v : ℕ) → in_memory b ≡ true → size p b ≡ ok v → len b ≡ ok v
  unfolding size
  in_memory-len b v e h = by_check (validate_native_buffer p b) (
      subst
        (λ t.
          (do
            validate_native_buffer p b
            (if t then len b else (do f ← file_of p b; ok (file_len f))))
          ≡ ok v)
        e h)
    where
      by_check : (c : Result Failure (Unit {0})) → (do c; len b) ≡ ok v → len b ≡ ok v
      by_check (ok u) k = k
      by_check (err x) k = cc

  advanced-pos :
      (n : ℕ) (f : Option FileView) (b : Buf)
      → in_memory b ≡ true
      → ((advanced n f b).pos_at ≡ b.pos_at + n) × ((advanced n f b).last ≡ b.last)
  advanced-pos n none b e = rw e (refl, refl)
  advanced-pos n (some f) b e = rw e (refl, refl)

  advanced-len :
      (n v : ℕ) (f : Option FileView) (b : Buf)
      → in_memory b ≡ true
      → len b ≡ ok v
      → n ≤ v
      → len (advanced n f b) ≡ ok (v - n)
  unfolding len
  advanced-len n v f b e h le = ground (arith, advanced-pos n f b e)

  -- A memory buffer that is consumed by no more than it holds keeps the rest of its bytes.
  pub consume-as_bytes :
      (m : Memory) (n v : ℕ) (b : Buf) (f : Option FileView)
      → size p b ≡ ok v
      → file_of p b ≡ ok f
      → lt_ℤ (pos p.off_max) b.file_last ≡ false
      → in_memory b ≡ true
      → n ≤ v
      → exceeds n f ≡ false
      → ((consume p n b).0 ≡ none)
        × (as_bytes m b ≡ ok (read_bytes m b.pos_at v))
        × (as_bytes m (consume p n b).1 ≡ ok (drop n (read_bytes m b.pos_at v)))
  consume-as_bytes m n v b f s h fits mem le e =
      let done : consume p n b ≡ (none, advanced n f b) =
        ground (arith, consume_lem p n v b f s h fits) in
      let held = in_memory-len b v mem s in
      (
        ap (λ o. o.0) done,
        as_bytes-len m b v held,
        ap (λ o. as_bytes m o.1) done
            ∙ as_bytes-len m (advanced n f b) (v - n) (advanced-len n v f b mem held le)
            ∙ ap (λ at. ok (read_bytes m at (v - n))) (advanced-pos n f b mem).0
            ∙ ap ok (sym (drop-read_bytes m b.pos_at n v le)),
      )
