-- ===== src/Http/Request/Root.antt =====
-- src/http/request/view.rs: `main_raw` accepts exactly the requests that a chain of parents leads
-- to their root.
use ngx_rust.Prelude.{ℕ, zero, suc, ◌∙◌, ◌+◌, ◌%◌, ◌≡◌, ◌≢◌, ◌⊎◌, inl, inr, ◌↔◌, arith, ok, refl}
use ngx_rust.Http.Request.{Native, Requests, find_parent, main_raw}

module _ (ngx : Native) (w : Requests) where
  -- A request of the main request `main`: not null, aligned, and signed.
  pub record IsMember (main p : ℕ) : Type 0 where
    pub nonzero : p ≢ 0
    pub aligned : p % ngx.request_align ≡ 0
    pub signed : (w p).signature ≡ ngx.http_module
    pub owned : (w p).main ≡ main

  -- From `p` at most so many parent edges lead to `main`, through its members, none a loop.
  pub data Ancestor (main : ℕ) : ℕ → ℕ → Type 0 where
    root : {p n : ℕ} → (w p).parent ≡ main → main ≢ p → IsMember main main → Ancestor main (suc n) p
    up :
        {p n : ℕ} (q : ℕ)
        → (w p).parent ≡ q
        → q ≢ p
        → q ≢ main
        → IsMember main q
        → Ancestor main n q
        → Ancestor main (suc n) p

  -- One round of the loop that does not fail.
  find_parent-step :
      (main n p : ℕ) {m : ℕ}
      → find_parent ngx w main (suc n) p ≡ ok m
      → IsMember main (w p).parent
        × ((w p).parent ≢ p)
        × ((((w p).parent ≡ main) × (m ≡ main))
            ⊎ (((w p).parent ≢ main) × (find_parent ngx w main n (w p).parent ≡ ok m)))
  unfolding find_parent
  find_parent-step main n p h = ground arith

  find_parent_sound :
      (main n p : ℕ) {m : ℕ} → find_parent ngx w main n p ≡ ok m → (m ≡ main) × Ancestor main n p
  find_parent_sound main zero p h = unfold find_parent in cc
  find_parent_sound main (suc n) p h =
      let (member, apart, next) = find_parent-step main n p h in
      elim next [
        | inl (e, k) ↦ (k, root e (λ q. apart (e ∙ q)) (rw e at member))
        | inr (ne, more) ↦
            let (k, a) = find_parent_sound main n (w p).parent more in
            (k, up (w p).parent refl apart ne member a)
      ]

  find_parent_complete : (main n p : ℕ) → Ancestor main n p → find_parent ngx w main n p ≡ ok main
  unfolding find_parent
  find_parent_complete main zero p a = elim a [ ]
  find_parent_complete main (suc n) p (root e ne m) =
      ground (arith, m.nonzero, m.aligned, m.signed, m.owned)
  find_parent_complete main (suc n) p (up q e nq nm m a) =
      ground (arith, m.nonzero, m.aligned, m.signed, m.owned, find_parent_complete main n q a)

  -- `main` is a root: a member of its own request, and either `raw` itself or an ancestor of it.
  pub record IsRootOf (raw main : ℕ) : Type 0 where
    pub named : (w raw).main ≡ main
    pub root_member : IsMember main main
    pub reached : (main ≡ raw) ⊎ Ancestor main (ngx.max_subrequests + 1) raw

  main_raw-step :
      (raw : ℕ) {m : ℕ}
      → main_raw ngx w raw ≡ ok m
      → IsMember (w raw).main (w raw).main
        × ((((w raw).main ≡ raw) × (m ≡ (w raw).main))
            ⊎ (find_parent ngx w (w raw).main (ngx.max_subrequests + 1) raw ≡ ok m))
  unfolding main_raw
  main_raw-step raw h = ground arith

  main_raw_sound : (raw m : ℕ) → main_raw ngx w raw ≡ ok m → IsRootOf raw m
  main_raw_sound raw m h =
      let (member, next) = main_raw-step raw h in
      elim next [
        | inl (e, k) ↦ rw k (record { named = refl; root_member = member; reached = inl e })
        | inr more ↦
            let (k, a) = find_parent_sound (w raw).main (ngx.max_subrequests + 1) raw more in
            rw k (record { named = refl; root_member = member; reached = inr a })
      ]

  main_raw_complete : (raw m : ℕ) → IsRootOf raw m → main_raw ngx w raw ≡ ok m
  unfolding main_raw
  main_raw_complete raw m r = finish r.root_member r.reached
    where
      finish :
          IsMember m m
          → (m ≡ raw) ⊎ Ancestor m (ngx.max_subrequests + 1) raw
          → main_raw ngx w raw ≡ ok m
      finish k (inl e) = ground (arith, r.named, k.nonzero, k.aligned, k.signed, k.owned, e)
      finish k (inr a) =
          let found : find_parent ngx w (w raw).main (ngx.max_subrequests + 1) raw ≡ ok m =
            rw r.named (find_parent_complete m (ngx.max_subrequests + 1) raw a) in
          ground (arith, r.named, k.nonzero, k.aligned, k.signed, k.owned, found)

  -- `main_raw` returns `m` exactly when the request names `m` as its main request, `m` is an
  -- aligned, signed request that is its own main request, and `m` is the request itself or is
  -- reached from it by at most `NGX_HTTP_MAX_SUBREQUESTS + 1` parent edges, through aligned,
  -- signed requests of the same main request, none of them its own parent.
  pub main_raw_iff : (raw m : ℕ) → (main_raw ngx w raw ≡ ok m) ↔ IsRootOf raw m
  main_raw_iff raw m = (main_raw_sound raw m, main_raw_complete raw m)
