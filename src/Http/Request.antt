-- ===== src/Http/Request.antt =====
-- src/http/request/view.rs, context.rs and continuation.rs: callback-scoped access to a native
-- HTTP request, and the references that a delayed operation retains.
--
-- The native requests are a heap from addresses to the fields that this code reads and writes; an
-- address is a number and zero is null. What nginx itself does is the parameter `Native`.
pub mod Root
pub mod Context
pub mod Hold
pub mod Continuation
mod Tests
use ngx_rust.Prelude.{
  ℕ, zero, suc, ◌+◌, ◌%◌, ◌^◌, Bool, ◌||◌, not, ◌==◌, if◌then◌else◌, Result, ok, err, ◌>>=◌, ◌>>◌,
  fail_if, map_err,
}
use ngx_rust.Event.Keepalive.{EventError}

pub data ConnectionError : Type 0 where
  null_connection misaligned_connection : ConnectionError
  event : EventError → ConnectionError

-- The errors that request access reports on the modelled paths.
pub data RequestError : Type 0 where
  null_request misaligned_request invalid_request_signature : RequestError
  missing_main misaligned_main invalid_main_signature foreign_main : RequestError
  reference_count_overflow allocation : RequestError
  connection : ConnectionError → RequestError

-- `write_event_handler`: nginx's phase runner, or any other handler.
pub data Handler : Type 0 where
  core_run_phases : Handler
  other : ℕ → Handler

-- `ngx_http_request_t`. `phase_handler` is the 64-bit pattern of an `ngx_int_t`.
pub record Request : Type 0 where
  pub signature : ℕ
  pub main : ℕ
  pub parent : ℕ
  pub count : ℕ
  pub pool : ℕ
  pub connection : ℕ
  pub phase_handler : ℕ
  pub write_event_handler : Handler

abbrev pub Requests : Type 0
Requests = ℕ → Request

-- nginx's constants and functions. A status is the 64-bit pattern of an `ngx_int_t`.
pub record Native : Type 0 where
  pub http_module : ℕ
  pub max_subrequests : ℕ
  pub declined : ℕ
  pub done : ℕ
  pub request_align : ℕ
  pub connection_align : ℕ
  pub request_terminated : ℕ → Requests → Bool
  pub finalize_request : ℕ → ℕ → Requests → Requests
  pub run_phases : ℕ → Requests → Requests

abbrev pub write : ℕ → Request → Requests → Requests
write p r w a = if a == p then r else w a

-- `set_count` writes a 16-bit field.
abbrev pub set_count : ℕ → ℕ → Requests → Requests
set_count p n w = write p (record (w p) { count = n % 2 ^ 16 }) w

module _ (ngx : Native) where
  abbrev pub is_aligned : ℕ → Bool
  is_aligned p = p % ngx.request_align == 0

  -- `checked_request_ptr`.
  unfoldable pub checked_request_ptr : Requests → ℕ → Result RequestError (Unit {0})
  checked_request_ptr w raw = do
    fail_if (raw == 0) null_request
    fail_if (not (is_aligned raw)) misaligned_request
    fail_if (not ((w raw).signature == ngx.http_module)) invalid_request_signature

  -- The parent loop of `main_raw`, on the edges that are left.
  unfoldable pub find_parent : Requests → ℕ → ℕ → ℕ → Result RequestError ℕ
  find_parent w main zero request = err foreign_main
  find_parent w main (suc edges) request =
      let parent = (w request).parent in
      let rest = find_parent w main edges parent in
      if parent == 0
      then err foreign_main
      else (if not (is_aligned parent)
            || not ((w parent).signature == ngx.http_module)
            || not ((w parent).main == main)
          then err foreign_main
          else (if parent == request
              then err foreign_main
              else (if parent == main then ok main else rest)))

  unfoldable pub main_raw : Requests → ℕ → Result RequestError ℕ
  main_raw w raw =
      let main = (w raw).main in
      let parents = find_parent w main (ngx.max_subrequests + 1) raw in
      if main == 0
      then err missing_main
      else (if not (is_aligned main)
          then err misaligned_main
          else (if not ((w main).signature == ngx.http_module)
              then err invalid_main_signature
              else (if not ((w main).main == main)
                  then err foreign_main
                  else (if main == raw then ok main else parents))))

  unfoldable pub is_main : Requests → ℕ → Result RequestError Bool
  is_main w raw = do main ← main_raw w raw; ok (main == raw)

  -- `checked_connection_ptr`, as `connection()` calls it.
  unfoldable pub connection_raw : Requests → ℕ → Result RequestError ℕ
  connection_raw w raw =
      let c = (w raw).connection in
      if c == 0
      then err (connection null_connection)
      else (if not (c % ngx.connection_align == 0)
          then err (connection misaligned_connection)
          else ok c)

  unfoldable pub validate_terminal_operation : Requests → ℕ → Result RequestError (Unit {0})
  validate_terminal_operation w raw = do main ← main_raw w raw; c ← connection_raw w raw; ok tt
