-- ===== src/Http/Filter.antt =====
-- src/http/filter.rs: the pair of output filters of an HTTP module, its slot, and how the two
-- configuration callbacks put the pair on top of nginx's filter chains.
--
-- A slot is looked up by its module. The hooks of a module reach the tops of the chains and not the
-- slots, which are private to this file.
pub mod Preparation
pub mod Run
pub mod Install
mod Tests
use ngx_rust.Prelude.{
  ℕ, ◌%◌, Bool, false, ◌||◌, not, Option, none, some, List, [], ◌∷◌, ◌==◌, if◌then◌else◌, Result,
  ok, err, put, ok_or, ◌>>=◌,
}

pub data HttpFilterError : Type 0 where
  already_prepared not_prepared preparation_cleanup missing_header_filter missing_body_filter :
      HttpFilterError
  missing_header_next missing_body_next : HttpFilterError

-- A function of nginx or of another module, or the trampoline of one of these modules.
pub data Filter : Type 0 where
  native : ℕ → Filter
  trampoline : ℕ → Filter

pub record FilterState : Type 0 where
  pub header : Option Filter
  pub body : Option Filter
  pub preparation : Option ℕ

abbrev pub empty : FilterState
empty = record { header = none; body = none; preparation = none }

-- `ngx_http_top_header_filter` and `ngx_http_top_body_filter`.
pub record Tops : Type 0 where
  pub top_header : Option Filter
  pub top_body : Option Filter

-- The value that a pool's cleanup owns: its address, and the module of its slot.
pub record FilterPreparation : Type 0 where
  pub marker : ℕ
  pub module_of : ℕ

pub data Message : Type 0 where
  preconfiguration_was_repeated paired_preconfiguration_was_not_completed : Message
  configuration_cleanup_could_not_be_registered : Message
  header_filter_chain_is_empty body_filter_chain_is_empty : Message
  saved_filter_continuation_is_unavailable postconfiguration_failed : Message

pub record Entry : Type 0 where
  pub module_name : ℕ
  pub message : Message

pub record World : Type 0 where
  pub tops : Tops
  pub slots : ℕ → FilterState
  pub cleanups : ℕ → List FilterPreparation
  pub log : List Entry

-- `ngx_conf_t`, by its address.
pub record Conf : Type 0 where
  pub address : ℕ
  pub pool : ℕ
  pub log_to : ℕ

-- What nginx and the modules answer: the statuses, a cleanup's memory, the hooks.
pub record Host : Type 0 where
  pub ok_status : ℕ
  pub error_status : ℕ
  pub conf_align : ℕ
  pub pool_align : ℕ
  pub cleanup_add : World → ℕ → Option ℕ
  pub preconfigure : ℕ → Tops → Tops × ℕ
  pub postconfigure : ℕ → Tops → Tops × ℕ
  pub logs_postconfiguration_failure : ℕ → Bool

abbrev pub Outcome : Type 0
Outcome = Result HttpFilterError (Unit {0}) × World

abbrev pub set_preparation : Option ℕ → FilterState → FilterState
set_preparation p s = record s { preparation = p }

abbrev pub set_slot : ℕ → FilterState → World → World
set_slot m s w = record w { slots = put m s w.slots }

abbrev pub same_marker : Option ℕ → ℕ → Bool
same_marker none p = false
same_marker (some q) p = q == p

-- `impl Drop for FilterPreparation`.
unfoldable pub drop_preparation : FilterPreparation → World → World
drop_preparation p w =
    let s = w.slots p.module_of in
    if same_marker s.preparation p.marker
    then set_slot p.module_of (set_preparation none s) w
    else w

-- `log_installation_error` and `log_postconfiguration_error`.
unfoldable pub report : ℕ → Message → Conf → World → World
report m e cf w =
    if cf.log_to == 0 then w else record w { log = record { module_name = m; message = e } ∷ w.log }

unfoldable pub installation_message : HttpFilterError → Message
installation_message already_prepared = preconfiguration_was_repeated
installation_message not_prepared = paired_preconfiguration_was_not_completed
installation_message preparation_cleanup = configuration_cleanup_could_not_be_registered
installation_message missing_header_filter = header_filter_chain_is_empty
installation_message missing_body_filter = body_filter_chain_is_empty
installation_message missing_header_next = saved_filter_continuation_is_unavailable
installation_message missing_body_next = saved_filter_continuation_is_unavailable

unfoldable pub cancel_preparation : ℕ → World → World
cancel_preparation m w = set_slot m (set_preparation none (w.slots m)) w

abbrev begin_at : ℕ → Option ℕ → World → Outcome
begin_at m none w = (err not_prepared, w)
begin_at m (some p) w = (ok tt, set_slot m (set_preparation none (w.slots m)) w)

unfoldable pub begin_installation : ℕ → World → Outcome
begin_installation m w = begin_at m (w.slots m).preparation w

unfoldable pub validate_installation : Tops → Result HttpFilterError FilterState
validate_installation t = do
  header ← ok_or t.top_header missing_header_filter
  body ← ok_or t.top_body missing_body_filter
  ok (record { header = some header; body = some body; preparation = none })

abbrev install_next : ℕ → Result HttpFilterError FilterState → World → Outcome
install_next m (err e) w = (err e, w)
install_next m (ok next) w =
    let above : Tops = record {
      top_header = some (trampoline m);
      top_body = some (trampoline m);
    } in
    (ok tt, record w { slots = put m next w.slots; tops = above })

unfoldable pub install : ℕ → World → Outcome
install m w = install_next m (validate_installation w.tops) w

module _ (host : Host) where
  abbrev prepared_at : ℕ → ℕ → Option ℕ → World → Outcome
  prepared_at m pool none w = (err preparation_cleanup, w)
  prepared_at m pool (some at) w =
      let own : FilterPreparation = record { marker = at; module_of = m } in
      let w' = record w { cleanups = put pool (own ∷ w.cleanups pool) w.cleanups } in
      (ok tt, set_slot m (set_preparation (some at) (w.slots m)) w')

  abbrev prepare_at : ℕ → ℕ → Option ℕ → World → Outcome
  prepare_at m pool (some p) w = (err already_prepared, w)
  prepare_at m pool none w =
      if pool == 0 || not (pool % host.pool_align == 0)
      then (err preparation_cleanup, w)
      else prepared_at m pool (host.cleanup_add w pool) w

  unfoldable pub prepare : ℕ → ℕ → World → Outcome
  prepare m pool w = prepare_at m pool (w.slots m).preparation w

  -- `configuration_callback_status`.
  abbrev pub is_refused : Conf → Bool
  is_refused cf = cf.address == 0 || not (cf.address % host.conf_align == 0)

  abbrev pub failed : ℕ → Message → Conf → World → World × ℕ
  failed m e cf w = (report m e cf w, host.error_status)

  abbrev preconfigure_after : ℕ → Conf → Outcome → World × ℕ
  preconfigure_after m cf (err e, w) = failed m (installation_message e) cf w
  preconfigure_after m cf (ok _, w) =
      let (t, status) = host.preconfigure m w.tops in
      let w' = record w { tops = t } in
      (if not (status == host.ok_status) then cancel_preparation m w' else w', status)

  unfoldable pub filter_preconfiguration : ℕ → Conf → World → World × ℕ
  filter_preconfiguration m cf w =
      if is_refused cf
      then (w, host.error_status)
      else preconfigure_after m cf (prepare m cf.pool w)

  abbrev installed_after : ℕ → Conf → Outcome → World × ℕ
  installed_after m cf (err e, w) = failed m (installation_message e) cf w
  installed_after m cf (ok _, w) = (w, host.ok_status)

  abbrev validated_after : ℕ → Conf → Result HttpFilterError FilterState → World → World × ℕ
  validated_after m cf (err e) w = failed m (installation_message e) cf w
  validated_after m cf (ok _) w =
      let (t, status) = host.postconfigure m w.tops in
      let w' = record w { tops = t } in
      if not (status == host.ok_status)
      then (if not (host.logs_postconfiguration_failure m)
          then failed m postconfiguration_failed cf w'
          else (w', host.error_status))
      else installed_after m cf (install m w')

  abbrev begun_after : ℕ → Conf → Outcome → World × ℕ
  begun_after m cf (err e, w) = failed m (installation_message e) cf w
  begun_after m cf (ok _, w) = validated_after m cf (validate_installation w.tops) w

  unfoldable pub filter_postconfiguration : ℕ → Conf → World → World × ℕ
  filter_postconfiguration m cf w =
      if is_refused cf then (w, host.error_status) else begun_after m cf (begin_installation m w)
