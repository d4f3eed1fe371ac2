-- ===== src/Event/Keepalive/Tests.antt =====
-- A connection at 64 with its events at 128 and 192, and a pool at 256 or none.
use ngx_rust.Prelude.{◌≡◌, refl, true, false, some}
use ngx_rust.Event.Keepalive.{
  Peer, Platform, Preparation, Event, active, owned, checked_pool, checked_connection,
  checked_plain_connection, checked_events, validate_keepalive, prepare_pool, into_keepalive,
  pool_too_small,
}
use ngx_rust.Event.Keepalive.State.{IsQuiet}
use ngx_rust.Event.Keepalive.Transfer.{into_keepalive-unprepared}

abbrev platform : Platform
platform = record { connection_align = 8; event_align = 8; pool_align = 8; min_pool_size = 128 }

abbrev event : Event
event = record {
  timer_set = true;
  eof = false;
  error = false;
  timedout = false;
  ready = false;
  handler = active 1;
  log = 7;
}

abbrev peer : Peer
peer = record {
  connection = 64;
  log = 7;
  error = false;
  ssl = 0;
  data_at = 900;
  idle = false;
  connection_log = 7;
  read = 128;
  write = 192;
  pool = 256;
  events = λ at. event;
  pool_log = λ at. 7;
}

abbrev preparation : Preparation
preparation = record {
  log = 9;
  read_handler = active 2;
  write_handler = active 3;
  pool_size = 100;
  data_at = 901;
  idle = false;
}

abbrev unread : Peer
unread = record peer { events = λ at. record event { ready = true } }

abbrev poolless : Peer
poolless = record peer { pool = 0 }

into_keepalive-unprepared_example :
    let (error, r) = into_keepalive platform 0 true preparation poolless in
    (error ≡ some (pool_too_small 100 128))
    × (r.idle ≡ true)
    × (r.data_at ≡ 0)
    × IsQuiet (r.events 128)
    × IsQuiet (r.events 192)
    × (r.connection ≡ 64)
    × (r.pool ≡ 0)
    × (r.log ≡ 7)
unfolding validate_keepalive owned checked_plain_connection checked_connection checked_events
    checked_pool prepare_pool
into_keepalive-unprepared_example =
    into_keepalive-unprepared platform 0 true preparation poolless (pool_too_small 100 128) refl
      refl refl
