-- ===== src/Http/Filter/Install/Sequence.antt =====
-- src/http/filter.rs: a configuration of several modules leaves their filters stacked, the last
-- installed on top.
use ngx_rust.Prelude.{
  ℕ, ◌%◌, ◌≡◌, ◌≢◌, refl, sym, subst, ◌∙◌, false, ◌||◌, not, none, some, List, [], ◌∷◌, ok, ◌==◌,
  put, arith, ◌<◌, length,
}
use ngx_rust.Http.Filter.{
  FilterState, Tops, World, Conf, Host, prepare, filter_preconfiguration, filter_postconfiguration,
  begin_installation, validate_installation, install, is_refused, cancel_preparation, report,
}
use ngx_rust.Http.Filter.Run.{Part, header_part, body_part, saved_next, Filters, invoke, stacked}
use ngx_rust.Http.Filter.Run.Stack.{top_of, Linked, Returns, invoke-Returns}
use ngx_rust.Http.Filter.Install.{configure_each}

abbrev pub NotIn : ℕ → List ℕ → Type 0
NotIn m [] = Unit {0}
NotIn m (k ∷ ks) = (m ≢ k) × NotIn m ks

abbrev pub Distinct : List ℕ → Type 0
Distinct [] = Unit {0}
Distinct (m ∷ ms) = NotIn m ms × Distinct ms

abbrev pub Apart : List ℕ → List ℕ → Type 0
Apart [] done = Unit {0}
Apart (m ∷ ms) done = NotIn m done × Apart ms done

abbrev pub rev_onto : List ℕ → List ℕ → List ℕ
rev_onto [] done = done
rev_onto (m ∷ ms) done = rev_onto ms (m ∷ done)

-- The hooks succeed and leave the chains to the callbacks, and a cleanup's memory is there.
pub record IsQuiet (host : Host) : Type 0 where
  pub before : (m : ℕ) (t : Tops) → host.preconfigure m t ≡ (t, host.ok_status)
  pub after : (m : ℕ) (t : Tops) → host.postconfigure m t ≡ (t, host.ok_status)
  pub memory : (w : World) (pool : ℕ) → (at : ℕ) × (host.cleanup_add w pool ≡ some at)

abbrev pub All : (ℕ → Type 0) → List ℕ → Type 0
All P [] = Unit {0}
All P (m ∷ ms) = P m × All P ms

abbrev pub Unprepared : World → ℕ → Type 0
Unprepared w m = (w.slots m).preparation ≡ none

abbrev pub Prepared : World → ℕ → Type 0
Prepared w m = (w.slots m).preparation ≢ none

abbrev pub tops_of : List ℕ → ℕ → ℕ → Tops
tops_of ms h b = record { top_header = some (top_of ms h); top_body = some (top_of ms b) }

-- An invocation returns, with what the stack of filters answers.
abbrev pub Answers :
    {R : Type 0} → Filters R → ℕ → Part → (ℕ → FilterState) → List ℕ → ℕ → R → Type 0
Answers fs fuel part slots ms n r =
    Returns (invoke fs fuel part slots (top_of ms n) r)
    × (invoke fs fuel part slots (top_of ms n) r ≡ stacked fs part ms n r)

-- The filters of the modules `done` are in place, over nginx's own.
abbrev pub Stands : List ℕ → ℕ → ℕ → World → Type 0
Stands done h b w =
    (w.tops ≡ tops_of done h b)
    × Linked header_part w.slots done h
    × Linked body_part w.slots done b

-- Both rounds of callbacks succeed, and either chain answers as the modules' filters stacked.
abbrev pub Configured :
    Host → Conf → {R : Type 0} → Filters R → List ℕ → ℕ → ℕ → ℕ → R → World → Type 0
Configured host cf fs ms h b fuel r w =
    (w1 w2 : World) × (configure_each host.ok_status (λ m. filter_preconfiguration host m cf) ms w
      ≡ (w1, host.ok_status))
    × (configure_each host.ok_status (λ m. filter_postconfiguration host m cf) ms w1
        ≡ (w2, host.ok_status))
    × (w2.tops ≡ tops_of (rev_onto ms []) h b)
    × Answers fs fuel header_part w2.slots (rev_onto ms []) h r
    × Answers fs fuel body_part w2.slots (rev_onto ms []) b r

-- What a callback of `m` leaves alone: every other slot.
abbrev Elsewhere : ℕ → World → World → Type 0
Elsewhere m w w' = (k : ℕ) → k ≢ m → w'.slots k ≡ w.slots k

Linked-slots :
    (part : Part) (m : ℕ) (w w' : World) (ms : List ℕ) (n : ℕ)
    → NotIn m ms
    → Elsewhere m w w'
    → Linked part w.slots ms n
    → Linked part w'.slots ms n
Linked-slots part m w w' [] n apart same h = tt
Linked-slots part m w w' (k ∷ ks) n apart same h = (
  subst (λ (s : FilterState). saved_next part s ≡ ok (top_of ks n))
      (sym (same k (λ e. apart.0 (sym e)))) h.0,
  Linked-slots part m w w' ks n apart.1 same h.1,
)

All-slots :
    (P : FilterState → Type 0) (m : ℕ) (w w' : World) (ms : List ℕ)
    → NotIn m ms
    → Elsewhere m w w'
    → All (λ k. P (w.slots k)) ms
    → All (λ k. P (w'.slots k)) ms
All-slots P m w w' [] apart same h = tt
All-slots P m w w' (k ∷ ks) apart same h =
    (subst P (sym (same k (λ e. apart.0 (sym e)))) h.0, All-slots P m w w' ks apart.1 same h.1)

Apart-cons : (m : ℕ) (ms done : List ℕ) → NotIn m ms → Apart ms done → Apart ms (m ∷ done)
Apart-cons m [] done h a = tt
Apart-cons m (k ∷ ks) done h a = ((λ e. h.0 (sym e), a.0), Apart-cons m ks done h.1 a.1)

configure_each-cons :
    (good : ℕ) (f : ℕ → World → World × ℕ) (m : ℕ) (ms : List ℕ) (w w' : World)
    → f m w ≡ (w', good)
    → configure_each good f (m ∷ ms) w ≡ configure_each good f ms w'
unfolding configure_each
configure_each-cons good f m ms w w' e = rw e (ground arith)

module _ (host : Host) (quiet : IsQuiet host) (cf : Conf) (open_conf : is_refused host cf ≡ false)
    (open_pool : (cf.pool == 0 || not (cf.pool % host.pool_align == 0)) ≡ false) where
  -- A prepared module's pair goes on top of the modules that stand.
  postconfiguration_step :
      (m : ℕ) (done : List ℕ) (h b : ℕ) (w w' : World)
      → Prepared w m
      → w.tops ≡ tops_of done h b
      → w' ≡ (filter_postconfiguration host m cf w).0
      → (filter_postconfiguration host m cf w ≡ (w', host.ok_status))
        × (w'.tops ≡ tops_of (m ∷ done) h b)
        × (saved_next header_part (w'.slots m) ≡ ok (top_of done h))
        × (saved_next body_part (w'.slots m) ≡ ok (top_of done b))
  unfolding filter_postconfiguration begin_installation validate_installation install put saved_next
  postconfiguration_step m done h b w w' ready e d =
      ground (arith, open_conf, quiet.after m (tops_of done h b), quiet.after m w.tops)

  postconfiguration-Elsewhere :
      (m : ℕ) (w : World) → Elsewhere m w (filter_postconfiguration host m cf w).0
  unfolding filter_postconfiguration begin_installation validate_installation install put report
  postconfiguration-Elsewhere m w k n = ground arith

  preconfiguration_step :
      (m : ℕ) (w w' : World)
      → Unprepared w m
      → w' ≡ (filter_preconfiguration host m cf w).0
      → (filter_preconfiguration host m cf w ≡ (w', host.ok_status))
        × (w'.tops ≡ w.tops)
        × Prepared w' m
  unfolding filter_preconfiguration prepare put
  preconfiguration_step m w w' fresh d =
      ground (arith, open_conf, quiet.before m w.tops, quiet.memory w cf.pool)

  preconfiguration-Elsewhere :
      (m : ℕ) (w : World) → Elsewhere m w (filter_preconfiguration host m cf w).0
  unfolding filter_preconfiguration prepare put report cancel_preparation
  preconfiguration-Elsewhere m w k n = ground arith

  preconfigure-Prepared :
      (ms : List ℕ) (w : World)
      → Distinct ms
      → All (Unprepared w) ms
      → (w' : World) × (configure_each host.ok_status (λ m. filter_preconfiguration host m cf) ms w
          ≡ (w', host.ok_status))
        × (w'.tops ≡ w.tops)
        × All (Prepared w') ms
        × ((k : ℕ) → NotIn k ms → w'.slots k ≡ w.slots k)
  unfolding configure_each
  preconfigure-Prepared [] w apart fresh = (w, refl, refl, tt, λ k n. refl)
  preconfigure-Prepared (m ∷ ms) w apart fresh =
      let w1 = (filter_preconfiguration host m cf w).0 in
      let (e, same_tops, ready) = preconfiguration_step m w w1 fresh.0 refl in
      let same : Elsewhere m w w1 = preconfiguration-Elsewhere m w in
      let (w2, run, kept, all, others) =
        preconfigure-Prepared ms w1 apart.1
          (All-slots (λ s. s.preparation ≡ none) m w w1 ms apart.0 same fresh.1) in
      (
        w2,
        configure_each-cons host.ok_status (λ k. filter_preconfiguration host k cf) m ms w w1 e
            ∙ run,
        kept ∙ same_tops,
        (subst (λ (s : FilterState). s.preparation ≢ none) (sym (others m apart.0)) ready, all),
        λ k n. others k n.1 ∙ same k n.0,
      )

  postconfigure-Stands :
      (ms done : List ℕ) (h b : ℕ) (w : World)
      → Distinct ms
      → Apart ms done
      → All (Prepared w) ms
      → Stands done h b w
      → (w' : World) × (configure_each host.ok_status (λ m. filter_postconfiguration host m cf) ms w
          ≡ (w', host.ok_status))
        × Stands (rev_onto ms done) h b w'
  unfolding configure_each
  postconfigure-Stands [] done h b w apart new ready st = (w, refl, st)
  postconfigure-Stands (m ∷ ms) done h b w apart new ready st =
      let w1 = (filter_postconfiguration host m cf w).0 in
      let (e, above, header, body) = postconfiguration_step m done h b w w1 ready.0 st.0 refl in
      let same : Elsewhere m w w1 = postconfiguration-Elsewhere m w in
      let (w2, run, stands) =
        postconfigure-Stands ms (m ∷ done) h b w1 apart.1 (Apart-cons m ms done apart.0 new.1)
          (All-slots (λ s. s.preparation ≢ none) m w w1 ms apart.0 same ready.1)
          (
            above,
            (header, Linked-slots header_part m w w1 done h new.0 same st.1),
            (body, Linked-slots body_part m w w1 done b new.0 same st.2),
          ) in
      (
        w2,
        configure_each-cons host.ok_status (λ k. filter_postconfiguration host k cf) m ms w w1 e
            ∙ run,
        stands,
      )

  Apart-nil : (ms : List ℕ) → Apart ms []
  Apart-nil [] = tt
  Apart-nil (m ∷ ms) = (tt, Apart-nil ms)

  -- Where the hooks succeed and leave the chains alone, the configuration's address and pool are
  -- valid and the pool has memory, a configuration of distinct modules, none of them prepared,
  -- succeeds over nginx's own filters; and an invocation of either top, with more fuel than modules,
  -- returns what the filters of the modules do stacked in the reverse of their order.
  pub configure-invoke :
      {R : Type 0} (fs : Filters R) (ms : List ℕ) (h b fuel : ℕ) (r : R) (w : World)
      → Distinct ms
      → All (Unprepared w) ms
      → w.tops ≡ tops_of [] h b
      → length (rev_onto ms []) < fuel
      → Configured host cf fs ms h b fuel r w
  configure-invoke fs ms h b fuel r w apart fresh own enough =
      let (w1, before, same_tops, ready, _) = preconfigure-Prepared ms w apart fresh in
      let (w2, after, stands) =
        postconfigure-Stands ms [] h b w1 apart (Apart-nil ms) ready (same_tops ∙ own, tt, tt) in
      (
        w1,
        w2,
        before,
        after,
        stands.0,
        invoke-Returns fs fuel header_part w2.slots (rev_onto ms []) h r stands.1 enough,
        invoke-Returns fs fuel body_part w2.slots (rev_onto ms []) b r stands.2 enough,
      )
