-- ===== src/Http/Filter/Tests.antt =====
-- Two modules that note their turn and continue, over the write filters of nginx.
use ngx_rust.Prelude.{
  ℕ, ◌≡◌, refl, true, false, none, some, List, [], ◌∷◌, Result, ok, err, put, arith,
}
use ngx_rust.Http.Filter.{
  native, empty, World, Conf, Host, filter_postconfiguration, HttpFilterError,
}
use ngx_rust.Http.Filter.Run.{
  Handling, reply, call_next, Filters, header_part, callback, handle, run_module, stacked,
}
use ngx_rust.Http.Filter.Install.Sequence.{IsQuiet, Configured, configure-invoke}
use ngx_rust.Http.Filter.Install.{Published, postconfiguration-Published}

abbrev answer : Result HttpFilterError ℕ → List ℕ → Handling (List ℕ)
answer (ok status) r = reply status r
answer (err e) r = reply 500 r

abbrev noting : Filters (List ℕ)
noting = record {
  native_filter = λ part n r. (0, n ∷ r);
  module_filter = λ part m r. call_next (m ∷ r) answer;
  chain = λ r. 8;
  links = record { link_align = 8; buf_align = 8 };
  enter = λ r. (true, r);
  leave = λ r. (true, r);
  error_status = 500;
}

abbrev host : Host
host = record {
  ok_status = 0;
  error_status = 500;
  conf_align = 8;
  pool_align = 8;
  cleanup_add = λ w pool. some 64;
  preconfigure = λ m t. (t, 0);
  postconfigure = λ m t. (t, 0);
  logs_postconfiguration_failure = λ m. false;
}

abbrev fresh_world : World
fresh_world = record {
  tops = record { top_header = some (native 1); top_body = some (native 2) };
  slots = λ m. empty;
  cleanups = λ pool. [];
  log = [];
}

abbrev cf : Conf
cf = record { address = 16; pool = 32; log_to = 48 }

quiet : IsQuiet host
quiet = record { before = λ m t. refl; after = λ m t. refl; memory = λ w pool. (64, refl) }

configure-invoke_example : Configured host cf noting (3 ∷ 4 ∷ []) 1 2 3 [] fresh_world
configure-invoke_example =
    configure-invoke host quiet cf refl refl noting (3 ∷ 4 ∷ []) 1 2 3 [] fresh_world (omega arith)
      (refl, (refl, tt)) refl (omega arith)

-- The last module is the first to see a response.
stacked_run : stacked noting header_part (4 ∷ 3 ∷ []) 1 [] ≡ some (0, 1 ∷ 3 ∷ 4 ∷ [])
unfolding stacked callback handle run_module
stacked_run = refl

abbrev prepared_world : World
prepared_world = record fresh_world {
  slots = put 3 (record { header = none; body = none; preparation = some 64 }) (λ m. empty);
  cleanups = put 32 (record { marker = 64; module_of = 3 } ∷ []) (λ pool. []);
}

postconfiguration-Published_example :
    Published host 3 prepared_world (filter_postconfiguration host 3 cf prepared_world) 3
postconfiguration-Published_example = postconfiguration-Published host 3 cf prepared_world 3
