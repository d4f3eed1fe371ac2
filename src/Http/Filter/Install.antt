-- ===== src/Http/Filter/Install.antt =====
-- src/http/filter.rs: what one postconfiguration callback does, and a configuration of several
-- modules: every preconfiguration callback, then every postconfiguration callback, until one fails.
pub mod Sequence
use ngx_rust.Prelude.{
  ℕ, ◌%◌, ◌≡◌, ◌≢◌, refl, ◌⊎◌, inl, inr, true, false, ◌||◌, not, Option, none, some, List, [], ◌∷◌,
  Result, ok, err, if◌then◌else◌, ◌==◌, put, arith, ok_or,
}
use ngx_rust.Http.Filter.{
  trampoline, FilterState, Tops, World, Conf, Host, filter_preconfiguration,
  filter_postconfiguration, begin_installation, validate_installation, install, report,
  installation_message, is_refused,
}

-- `ngx_http_block`, on the callbacks of the modules.
unfoldable pub configure_each : ℕ → (ℕ → World → World × ℕ) → List ℕ → World → World × ℕ
configure_each good f [] w = (w, good)
configure_each good f (m ∷ ms) w =
    let (w', status) = f m w in
    let rest = configure_each good f ms w' in if status == good then rest else (w', status)

-- The pair of a module is on top, and its slot holds what was there.
pub record IsInstalled (m : ℕ) (before : Tops) (w : World) : Type 0 where
  pub top_header : w.tops.top_header ≡ some (trampoline m)
  pub top_body : w.tops.top_body ≡ some (trampoline m)
  pub header : (w.slots m).header ≡ before.top_header
  pub body : (w.slots m).body ≡ before.top_body
  pub some_header : before.top_header ≢ none
  pub some_body : before.top_body ≢ none

abbrev pub SameFilters : FilterState → FilterState → Type 0
SameFilters s t = (s.header ≡ t.header) × (s.body ≡ t.body)

-- The outcomes of a postconfiguration callback, as seen from one slot.
abbrev pub Published : Host → ℕ → World → World × ℕ → ℕ → Type 0
Published host m w (w', status) k =
    let t = (host.postconfigure m w.tops).0 in
    ((status ≡ host.ok_status) × IsInstalled m t w' × (k ≢ m → w'.slots k ≡ w.slots k))
    ⊎ ((status ≡ host.error_status)
        × ((w'.tops ≡ w.tops) ⊎ (w'.tops ≡ t))
        × SameFilters (w'.slots k) (w.slots k))

module _ (host : Host) where
  -- A postconfiguration callback installs the whole pair, on top of what the module's hook left,
  -- or it fails and publishes neither filter: the tops are what they were before or after the hook,
  -- and no slot has another saved filter.
  pub postconfiguration-Published :
      (m : ℕ) (cf : Conf) (w : World) (k : ℕ)
      → Published host m w (filter_postconfiguration host m cf w) k
  unfolding filter_postconfiguration begin_installation validate_installation install report put
  postconfiguration-Published m cf w k = ground arith
