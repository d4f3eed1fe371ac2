-- ===== src/Async/Spawn/Notification/Preserved.antt =====
-- src/async_/spawn/scheduler.rs, notification.rs: what an access of one thread leaves of the others'.
use ngx_rust.Prelude.{
  ℕ, ◌≡◌, ◌<◌, refl, sym, ap, ◌∙◌, subst, ◌⊎◌, inl, inr, Bool, true, false, arith, put, put-same,
  put-other,
}
use ngx_rust.Async.Spawn.Scheduler.{is_running}
use ngx_rust.Async.Spawn.Notification.{Sender, Worker, System, has_returned}
use ngx_rust.Async.Spawn.Notification.Steps.{
  sends, hurries, drains, attends, is_processing, SenderStep, WorkerStep, IsSound,
}

-- A thread that is at a point keeps being there while another moves.
put-other-thread :
    (P : Sender → Bool) (i : ℕ) (t : Sender) (senders : ℕ → Sender)
    → P (senders i) ≡ false
    → (j : ℕ) × (P (senders j) ≡ true)
    → (j : ℕ) × (P (put i t senders j) ≡ true)
put-other-thread P i t senders h (j, k) = (
  j,
  subst (λ x. P x ≡ true) (sym (put-other i t senders j (λ e. cc (ap (λ x. P (senders x)) e)))) k,
)

put-this-thread :
    (P : Sender → Bool) (i : ℕ) (t : Sender) (senders : ℕ → Sender)
    → P t ≡ true
    → (j : ℕ) × (P (put i t senders j) ≡ true)
put-this-thread P i t senders h = (i, subst (λ x. P x ≡ true) (sym (put-same i t senders)) h)

pub WorkerStep-IsSound : (s o : System) → IsSound s → WorkerStep s o → IsSound o
WorkerStep-IsSound s o sound step = record {
  processes = step.2;
  foreign = still_foreign;
  closed = step.3;
  heard = λ p. elim (step.4 p) [
    | inl d ↦ inr (inl d)
    | inr (before, more, still) ↦ elim (sound.heard before) [
      | inl n ↦ inl (omega arith)
      | inr (inl d) ↦ absurd (cc)
      | inr (inr (j, k)) ↦ inr (inr (j, subst (λ f. sends (f j) ≡ true) (sym step.1) k))
    ]
  ];
  attended = λ a. elim (step.5 a) [
    | inl p ↦ inl p
    | inr (inl w) ↦ inr (inr (inl w))
    | inr (inr (before, quiet, more, still)) ↦ elim (sound.attended before) [
      | inl p ↦ absurd (cc)
      | inr (inl n) ↦ inr (inl (omega arith))
      | inr (inr (inl w)) ↦ absurd (cc)
      | inr (inr (inr (j, k))) ↦
          inr (inr (inr (j, subst (λ f. hurries (f j) ≡ true) (sym step.1) k)))
    ]
  ];
}
  where
    still_foreign : has_returned (o.senders o.scheduler.owner) ≡ true
    still_foreign = (λ i. has_returned (step.1 i (step.0 i))) ∙ sound.foreign

heard-moved :
    (i : ℕ) (s : System) (o : Sender × System)
    → IsSound s
    → SenderStep (s.senders i) s o
    → o.1.pending ≡ true
    → (0 < o.1.datagrams)
      ⊎ ((drains o.1.worker ≡ true) ⊎ ((j : ℕ) × (sends (put i o.0 s.senders j) ≡ true)))
heard-moved i s o sound step p = elim (step.6 p) [
  | inl t ↦ inr (inr (put-this-thread sends i o.0 s.senders t))
  | inr (inl n) ↦ inl n
  | inr (inr (before, silent)) ↦ elim (sound.heard before) [
    | inl n ↦ inl (omega (arith, step.2))
    | inr (inl d) ↦ inr (inl (cc (d, step.0)))
    | inr (inr k) ↦ inr (inr (put-other-thread sends i o.0 s.senders silent k))
  ]
]

-- What sets the flag is about to wake the worker, so it attends to the work as well.
heard-attended :
    (i : ℕ) (s : System) (o : Sender × System)
    → IsSound s
    → SenderStep (s.senders i) s o
    → s.pending ≡ true
    → sends (s.senders i) ≡ false
    → is_running o.1.scheduler.phase ≡ true
    → (0 < o.1.datagrams)
      ⊎ ((attends o.1.worker ≡ true) ⊎ ((j : ℕ) × (hurries (put i o.0 s.senders j) ≡ true)))
heard-attended i s o sound step before silent runs = elim (sound.heard before) [
  | inl n ↦ inl (omega (arith, step.2))
  | inr (inl d) ↦ inr (inl (by_worker s.worker d refl))
  | inr (inr k) ↦ inr (inr (hurrying (put-other-thread sends i o.0 s.senders silent k)))
]
  where
    hurrying :
        (j : ℕ) × (sends (put i o.0 s.senders j) ≡ true)
        → (j : ℕ) × (hurries (put i o.0 s.senders j) ≡ true)
    hurrying (j, k) = (j, by_sender (put i o.0 s.senders j) k)
      where
        by_sender : (t : Sender) → sends t ≡ true → hurries t ≡ true
        by_sender t h = ground arith

    by_worker : (w : Worker) → drains w ≡ true → s.worker ≡ w → attends o.1.worker ≡ true
    by_worker w h e = ground (arith, step.0, step.5, sound.closed)

pub sender-IsSound :
    (i : ℕ) (s : System) (o : Sender × System)
    → has_returned (put i o.0 s.senders s.scheduler.owner) ≡ true
    → IsSound s
    → SenderStep (s.senders i) s o
    → IsSound (let s' = o.1 in record s' { senders = put i o.0 s.senders })
sender-IsSound i s o other sound step = record {
  processes = step.4 ∙ sound.processes ∙ ap is_processing (sym step.0);
  foreign = (λ k. has_returned (put i o.0 s.senders (step.3 k))) ∙ other;
  closed = λ c. step.5 (sound.closed (cc (c, step.0)));
  heard = heard-moved i s o sound step;
  attended = λ a. elim (step.7 a) [
    | inl t ↦ inr (inr (inr (put-this-thread hurries i o.0 s.senders t)))
    | inr (inl n) ↦ inr (inl n)
    | inr (inr (inl (before, silent))) ↦ elim (sound.attended before) [
      | inl p ↦ inl (step.1 ∙ p)
      | inr (inl n) ↦ inr (inl (omega (arith, step.2)))
      | inr (inr (inl w)) ↦ inr (inr (inl (cc (w, step.0))))
      | inr (inr (inr k)) ↦ inr (inr (inr (put-other-thread hurries i o.0 s.senders silent k)))
    ]
    | inr (inr (inr (before, silent))) ↦
        inr (heard-attended i s o sound step before silent (ground arith))
  ];
}
