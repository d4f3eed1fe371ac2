-- ===== src/Async/Spawn/Control/Terminal.antt =====
-- src/async_/spawn/scheduler.rs: any number of threads on one `TaskControl`, in any order.
use ngx_rust.Prelude.{
  ◌||◌, subst, sym, ℕ, ◌≡◌, refl, ap, Bool, true, false, arith, Option, none, some, ◌==◌,
}
use ngx_rust.Async.Spawn.Control.{
  TaskStatus, active, cancel_requested, ready, canceled, scheduler_failed, TaskControl, Thread,
  load, seen, waking, returned, advance, exchange, exchanged, desired, from_raw, as_raw,
  request_cancel, fail_scheduler, finish, wake, wake_taken, Operation, fails,
}

abbrev pub is_terminal : TaskStatus → Bool
is_terminal active = false
is_terminal cancel_requested = false
is_terminal ready = true
is_terminal canceled = true
is_terminal scheduler_failed = true

-- The statuses that a task may have after one: a terminal one stays, and a task that was asked to
-- cancel is never ready.
abbrev pub follows : TaskStatus → TaskStatus → Bool
follows active t = true
follows cancel_requested t = (as_raw t == 1) || fails t
follows ready t = as_raw t == 2
follows canceled t = as_raw t == 3
follows scheduler_failed t = as_raw t == 4

-- `finish` is called with a status that ends the task.
abbrev pub IsValid : Operation → Type 0
IsValid request_cancel = Unit
IsValid fail_scheduler = Unit
IsValid (finish d) = is_terminal d ≡ true

-- What a thread knows of the present status from the one that it saw or stored.
abbrev pub Knows : Operation → TaskStatus → TaskStatus → Type 0
Knows op s now = IsValid op × (follows s now ≡ true)

-- The operations other than the request for cancellation end the task.
abbrev pub Settled : Operation → TaskStatus → Type 0
Settled request_cancel s = Unit
Settled fail_scheduler s = is_terminal s ≡ true
Settled (finish d) s = is_terminal s ≡ true

abbrev pub Told : Thread → TaskStatus → Type 0
Told (load op) now = IsValid op
Told (seen op s) now = Knows op s now
Told (waking op s) now = Knows op s now × (is_terminal s ≡ true)
Told (returned op s) now = Knows op s now × Settled op s

pub from_raw-as_raw : (s : TaskStatus) → from_raw (as_raw s) ≡ s
unfolding from_raw as_raw
from_raw-as_raw active = refl
from_raw-as_raw cancel_requested = refl
from_raw-as_raw ready = refl
from_raw-as_raw canceled = refl
from_raw-as_raw scheduler_failed = refl

pub as_raw-eq : (s t : TaskStatus) → as_raw s ≡ as_raw t → s ≡ t
as_raw-eq s t h = cc (from_raw-as_raw s, from_raw-as_raw t, ap from_raw h)

pub follows_refl : (s : TaskStatus) → follows s s ≡ true
unfolding as_raw
follows_refl active = refl
follows_refl cancel_requested = refl
follows_refl ready = refl
follows_refl canceled = refl
follows_refl scheduler_failed = refl

pub terminal_follows : (a b : TaskStatus) → is_terminal a ≡ true → follows a b ≡ true → a ≡ b
unfolding as_raw
terminal_follows ready b t h = ground (arith, as_raw-eq ready b)
terminal_follows canceled b t h = ground (arith, as_raw-eq canceled b)
terminal_follows scheduler_failed b t h = ground (arith, as_raw-eq scheduler_failed b)
terminal_follows active b t h = cc
terminal_follows cancel_requested b t h = cc

pub follows_trans :
    (a b c : TaskStatus) → follows a b ≡ true → follows b c ≡ true → follows a c ≡ true
unfolding as_raw
follows_trans active b c h k = refl
follows_trans cancel_requested active c h k = cc
follows_trans cancel_requested cancel_requested c h k = k
follows_trans cancel_requested ready c h k = cc
follows_trans cancel_requested canceled c h k =
    subst (λ x. follows cancel_requested x ≡ true) (terminal_follows canceled c refl k) refl
follows_trans cancel_requested scheduler_failed c h k =
    subst (λ x. follows cancel_requested x ≡ true) (terminal_follows scheduler_failed c refl k) refl
follows_trans ready b c h k =
    subst (λ x. follows x c ≡ true) (sym (terminal_follows ready b refl h)) k
follows_trans canceled b c h k =
    subst (λ x. follows x c ≡ true) (sym (terminal_follows canceled b refl h)) k
follows_trans scheduler_failed b c h k =
    subst (λ x. follows x c ≡ true) (sym (terminal_follows scheduler_failed b refl h)) k

-- A thread's own access: it learns the status, and leaves a terminal one alone.
exchanged-Told :
    (op : Operation) (s next : TaskStatus) (c : TaskControl)
    → IsValid op
    → c.status ≡ s
    → desired op s ≡ some next
    → let (t, c') = exchanged op next c in Told t c'.status × (follows c.status c'.status ≡ true)
unfolding exchanged desired as_raw
exchanged-Told request_cancel active next c v e h = ground (arith, follows_refl next)
exchanged-Told request_cancel cancel_requested next c v e h = cc
exchanged-Told request_cancel ready next c v e h = cc
exchanged-Told request_cancel canceled next c v e h = cc
exchanged-Told request_cancel scheduler_failed next c v e h = cc
exchanged-Told fail_scheduler active next c v e h = ground arith
exchanged-Told fail_scheduler cancel_requested next c v e h = ground arith
exchanged-Told fail_scheduler ready next c v e h = cc
exchanged-Told fail_scheduler canceled next c v e h = cc
exchanged-Told fail_scheduler scheduler_failed next c v e h = cc
exchanged-Told (finish ready) active next c v e h = ground arith
exchanged-Told (finish canceled) active next c v e h = ground arith
exchanged-Told (finish scheduler_failed) active next c v e h = ground arith
exchanged-Told (finish active) active next c v e h = cc
exchanged-Told (finish cancel_requested) active next c v e h = cc
exchanged-Told (finish d) cancel_requested next c v e h = ground arith
exchanged-Told (finish d) ready next c v e h = cc
exchanged-Told (finish d) canceled next c v e h = cc
exchanged-Told (finish d) scheduler_failed next c v e h = cc

-- An operation that stores nothing has seen the task's end, unless it asks for cancellation.
desired-Settled : (op : Operation) (s : TaskStatus) → desired op s ≡ none → Settled op s
unfolding desired
desired-Settled request_cancel s h = tt
desired-Settled fail_scheduler s h = by_status s h
  where
    by_status : (s : TaskStatus) → desired fail_scheduler s ≡ none → is_terminal s ≡ true
    by_status active h = cc
    by_status cancel_requested h = cc
    by_status ready h = refl
    by_status canceled h = refl
    by_status scheduler_failed h = refl
desired-Settled (finish d) active h = cc
desired-Settled (finish d) cancel_requested h = cc
desired-Settled (finish d) ready h = refl
desired-Settled (finish d) canceled h = refl
desired-Settled (finish d) scheduler_failed h = refl

abbrev pub Advanced : TaskStatus → Thread × TaskControl → Type 0
Advanced before r = Told r.0 r.1.status × (follows before r.1.status ≡ true)

exchange-Told :
    (op : Operation) (s : TaskStatus) (next : Option TaskStatus) (spurious : Bool) (c : TaskControl)
    → Knows op s c.status
    → desired op s ≡ next
    → Advanced c.status (exchange op s next spurious c)
unfolding exchange
exchange-Told op s none spurious c k h =
    ground (arith, follows_refl c.status, desired-Settled op s h)
exchange-Told op s (some next) spurious c k h = ground (
  arith,
  follows_refl c.status,
  follows_refl next,
  exchanged-Told op s next c k.0,
  h,
  as_raw-eq c.status s,
  from_raw-as_raw c.status,
)

-- Waking does not touch the status.
wake-status : (c : TaskControl) → (wake c).status ≡ c.status
unfolding wake
wake-status c = by_waker c.waker
  where
    by_waker : (w : Option ℕ) → (wake_taken w c).status ≡ c.status
    by_waker none = refl
    by_waker (some w) = refl

pub advance-Told :
    (t : Thread) (spurious : Bool) (c : TaskControl)
    → Told t c.status
    → Advanced c.status (advance t spurious c)
unfolding advance
advance-Told (load op) spurious c k =
    ground (arith, follows_refl c.status, from_raw-as_raw c.status)
advance-Told (seen op s) spurious c k = exchange-Told op s (desired op s) spurious c k refl
advance-Told (waking op s) spurious c k = ground (arith, wake-status c, follows_refl c.status)
advance-Told (returned op s) spurious c k = (k, follows_refl c.status)
