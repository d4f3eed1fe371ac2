-- ===== src/Lib.antt =====
-- Verification of ngx-rust, the Rust interface to nginx.
--
-- The repository wraps nginx's C structures in owners whose types carry the safety contracts. This
-- library models the owners that keep state of their own, and shows that their operations keep the
-- native structures whole. A module per part:
--
-- - Prelude: shared notation, lists measured by native numbers, results with `do`, total maps.
-- - Collections/NgxQueue: nginx-sys/src/core/queue.rs, the links of an intrusive queue, as a heap of
--   previous and next addresses. Segment and Update hold the laws of paths through such a heap.
-- - Collections/SlabQueue: src/collections/slab_queue.rs, the checked queue in shared memory over
--   those links (push_front, push_back, remove, move_to_front, front, back, the iterator). `Holds`
--   in Valid relates a heap to the list of nodes that it represents.
-- - Core/SlabCheck: the range and alignment checks of src/core/slab.rs, which the queue calls.
-- - Core/Buffer: src/core/buffer.rs, native buffers over a memory that maps addresses to bytes: checks,
--   sizes, views, consume, append; Slice: the buffers that a pool builds from bytes and ranges.
-- - Core/Chain: src/core/chain.rs, chains of those buffers: the checked iteration, the length, the
--   appends, and the builder of a pool's chain.
-- - Core/ProxyProtocol: src/core/connection/proxy_protocol.rs, with the ports of address.rs and the
--   socket types of src/core/connection.rs: the builder's bounds, the TLV lookup, the text of an
--   address, attaching metadata to a connection and reading it back.
-- - Http/Request: src/http/request/view.rs, the chain of parents to the main request; Hold and
--   Continuation: src/http/request/continuation.rs and context.rs, the reference count of the main
--   request, its holds, and the terminal operations of a continuation (cancel, finalize,
--   finalize_after_output, resume_declined, resume_preaccess), its saved filters (Filters), and the
--   resumption of a phase through posted events (Phase); Context: src/http/request/context.rs, the
--   registry of module contexts (Sweep) and the pending read of the client's body (Reads).
-- - Http/Filter: src/http/filter.rs, the slot of a module's filter pair, its preparation and
--   installation by the two configuration callbacks; Run: a response on its way down the filters.
-- - Http/AsyncRequest: src/http/async_request.rs, the phase handler that suspends a request while a
--   task runs: the start, in which the handler may drop its own context, the completion, the posted
--   continuation, the removal and the drop of the context.
-- - Async/Spawn/Control: `TaskStatus` and `TaskControl` of src/async_/spawn/scheduler.rs. The loops of
--   weak compare-and-exchange are threads that make one atomic access a turn, in any order;
--   Wakeup adds the poll of `LocalTask` (task.rs) as one more thread.
-- - Async/Spawn/Task: the runner and the handle of src/async_/spawn/task.rs.
-- - Async/Spawn/Scheduler: the queues, the quarantine and the phases under the scheduler's lock.
-- - Async/Spawn/Notification: the datagrams of src/async_/spawn/notification.rs, and the worker's
--   handlers beside foreign threads, over the operations of Scheduler.
-- - Async/Spawn/Lease: acquire_worker and release_worker_lease of scheduler.rs, the leases that modules
--   hold on the worker's scheduler. Async/Spawn/Table: the worker's registered and completed tasks.
-- - Async/Resolver: src/async_/resolver.rs, a resolution between its future, its owner in the pool and
--   nginx's resolver context; Copy: the copies of the addresses. Async/Sleep: src/async_/sleep.rs, a
--   sleep in steps of an owned timer, whose keys are nginx's clock modulo 2 ^ 64.
-- - Http/SubRequest: src/http/subrequest.rs, the builder, and in Future the handler, its guard and the
--   future that they resolve.
-- - Event/Keepalive: src/event/peer/keepalive.rs and the checks and preparation of connection.rs,
--   the transfers of a connection between active and idle use.
-- - Event/Owned: what src/event/timer.rs and src/event/posted.rs share, an event that owns a state and
--   a callback, which may drop the owner; Event/Timer and Event/Posted: the operations of each, and
--   the control that a callback has in their place.
-- - Sync: src/sync.rs, the reader-writer lock, whose threads make one atomic access a turn.
--
-- The parts meet where they do in the source: the slab queue calls the slab checks, a continuation
-- owns a hold, a hold counts on the root that the request's view validates, a task's runner finishes
-- the control that the scheduler may fail. The threads that
-- notify the worker, and the worker's handlers, run the scheduler's operations; a lease ends with the
-- scheduler's shutdown; an asynchronous request takes a hold, posts an event and resumes its phase by
-- them; a sleep arms a timer; a delayed response continues with the filters that a slot saved; a chain adds up the sizes of its buffers.
--
-- Representation. Pointers are addresses and 0 is null; a native structure is a record, looked up by
-- its address in a total map. `usize` and the bit fields are native numbers with the source's bounds
-- written out. An operation that can fail returns a result, and the state with it where the source
-- keeps the owner. A panic is an outcome of its own.
--
-- Fuel. The chain of parents is followed for as many steps as the source allows. The TLV lookup has
-- one more step than there are bytes, and each step consumes at least three. The end of a chain is
-- found with as much fuel as it has links, its length with one more. A response is given more fuel
-- than there are modules in the chain of filters; the loops over a request's registrations more than there are of them, a sleep one round more than there are of
-- nginx's largest timer values in it. The loops on a task's
-- status have no fuel: a thread takes the turns that a schedule gives it.
--
-- Not modelled: what nginx does when it is called (its answers are parameters), the bindings, the
-- build, logging, configuration, variables, streams, header lists and bodies, upstream peers, the slab
-- red-black tree, and the parts of the HTTP and event layers that only give typed access to native
-- fields. What request_callback_status does around a module's callback is a parameter of the filters
-- and of the subrequests. Atomic accesses are sequentially consistent here; the
-- source uses acquire and release on one word. Dropping a runnable does not call back into the
-- scheduler in the model. The socket of the notifications holds at least one datagram, and answers
-- EAGAIN exactly where it is full or empty.
pub mod Prelude
pub mod Core
pub mod Collections
pub mod Http
pub mod Async
pub mod Event
pub mod Sync
