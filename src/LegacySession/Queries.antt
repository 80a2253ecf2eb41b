-- ===== src/LegacySession/Queries.antt =====
-- src/legacy/session.rs: what each override does to what a query's getters return.
use python_rs_driver.Common.{ℕ, Bool, true, false, Option, some, ◌≡◌, refl, if◌then◌else◌, ◌||◌}
use python_rs_driver.Common.Python.{Obj}
use python_rs_driver.Statements.{Consistency, SerialConsistency, Duration, Config}
use python_rs_driver.Statements.Executable.{
  Library, IsLibrary, StatementKind, on_kind, prepared, unprepared, ExecutableStatement,
  kind_config,
}
use python_rs_driver.Statements.Executable
use python_rs_driver.LegacySession.{
  LegacyQuery, batch, statement, query_config, set_request_timeout, set_tracing,
  set_execution_profile_handle, set_target, set_consistency, set_serial_consistency,
  is_page_size_set, is_serial_consistency_set, apply_default_page_size,
}

-- What a query's getters return, and its flags.
pub record Seen : Type 0 where
  pub config : Config
  pub serial_is_set : Bool
  pub page_size_is_set : Bool
  pub is_batch : Bool

abbrev is_batch : {P S B : Type 0} → LegacyQuery P S B → Bool
is_batch (batch b) = true
is_batch (statement e) = false

-- The page size that a query gets from the session's default.
abbrev pub paged_config : ℕ → Seen → Seen
paged_config n s =
    if s.is_batch || s.page_size_is_set
    then s
    else record s { config = record s.config { page_size = n } }

module _ {P S B : Type 0} (lib : Library P S B) where
  unfoldable pub seen : LegacyQuery P S B → Seen
  unfolding is_page_size_set is_serial_consistency_set
  seen q = record {
    config = query_config lib q;
    serial_is_set = is_serial_consistency_set lib q;
    page_size_is_set = is_page_size_set lib q;
    is_batch = is_batch q;
  }

  on_kind-config :
      (f : P → P) (g : S → S) (update : Config → Config)
      → ((p : P) → lib.prepared.config (f p) ≡ update (lib.prepared.config p))
      → ((s : S) → lib.statement.config (g s) ≡ update (lib.statement.config s))
      → (k : StatementKind P S) → kind_config lib (on_kind lib f g k) ≡ update (kind_config lib k)
  unfolding kind_config
  on_kind-config f g update hf hg (prepared p) = hf p
  on_kind-config f g update hf hg (unprepared s) = hg s

  module _ (laws : IsLibrary lib) where
    pub set_request_timeout-seen :
        (d : Duration) (q : LegacyQuery P S B)
        → seen (set_request_timeout lib d q)
          ≡ record (seen q) { config = record (seen q).config { request_timeout = some d } }
    unfolding seen set_request_timeout query_config
    set_request_timeout-seen d (batch b) =
        rw (laws.batch_laws.timeout_set (some d) b.options.inner) refl
    set_request_timeout-seen d (statement e) =
        rw
          (on_kind-config _ _ (λ c. record c { request_timeout = some d })
            (laws.prepared_laws.timeout_set (some d)) (laws.statement_laws.timeout_set (some d))
            e.kind)
          refl

    pub set_tracing-seen :
        (v : Bool) (q : LegacyQuery P S B)
        → seen (set_tracing lib v q)
          ≡ record (seen q) { config = record (seen q).config { tracing = v } }
    unfolding seen set_tracing query_config
    set_tracing-seen v (batch b) = rw (laws.batch_laws.tracing_set v b.options.inner) refl
    set_tracing-seen v (statement e) =
        rw
          (on_kind-config _ _ (λ c. record c { tracing = v }) (laws.prepared_laws.tracing_set v)
            (laws.statement_laws.tracing_set v) e.kind)
          refl

    pub set_execution_profile_handle-seen :
        (h : Obj) (q : LegacyQuery P S B)
        → seen (set_execution_profile_handle lib h q) ≡ record (seen q) {
          config = record (seen q).config { execution_profile_handle = some h };
        }
    unfolding seen set_execution_profile_handle query_config
    set_execution_profile_handle-seen h (batch b) =
        rw (laws.batch_laws.profile_set (some h) b.options.inner) refl
    set_execution_profile_handle-seen h (statement e) =
        rw
          (on_kind-config _ _ (λ c. record c { execution_profile_handle = some h })
            (laws.prepared_laws.profile_set (some h)) (laws.statement_laws.profile_set (some h))
            e.kind)
          refl

    pub set_target-seen :
        (p : Obj) (q : LegacyQuery P S B)
        → seen (set_target lib p q)
          ≡ record (seen q) { config = record (seen q).config { load_balancing_policy = some p } }
    unfolding seen set_target query_config
    set_target-seen p (batch b) =
        rw (laws.batch_laws.load_balancing_set (some p) b.options.inner) refl
    set_target-seen p (statement e) =
        rw
          (on_kind-config _ _ (λ c. record c { load_balancing_policy = some p })
            (laws.prepared_laws.load_balancing_set (some p))
            (laws.statement_laws.load_balancing_set (some p)) e.kind)
          refl

    pub set_consistency-seen :
        (v : Consistency) (q : LegacyQuery P S B)
        → seen (set_consistency lib v q)
          ≡ record (seen q) { config = record (seen q).config { consistency = some v } }
    unfolding seen set_consistency query_config
    set_consistency-seen v (batch b) = rw (laws.batch_laws.consistency_set v b.options.inner) refl
    set_consistency-seen v (statement e) =
        rw
          (on_kind-config _ _ (λ c. record c { consistency = some v })
            (laws.prepared_laws.consistency_set v) (laws.statement_laws.consistency_set v) e.kind)
          refl

    pub set_serial_consistency-seen :
        (v : Option SerialConsistency) (q : LegacyQuery P S B)
        → seen (set_serial_consistency lib v q) ≡ record (seen q) {
          config = record (seen q).config { serial_consistency = v };
          serial_is_set = true;
        }
    unfolding seen set_serial_consistency query_config
    set_serial_consistency-seen v (batch b) = rw (laws.batch_laws.serial_set v b.options.inner) refl
    set_serial_consistency-seen v (statement e) =
        rw
          (on_kind-config _ _ (λ c. record c { serial_consistency = v })
            (laws.prepared_laws.serial_set v) (laws.statement_laws.serial_set v) e.kind)
          refl

    set_page_size-config :
        (n : ℕ) (e : ExecutableStatement P S)
        → kind_config lib (Executable.set_page_size lib n e).kind
          ≡ record (kind_config lib e.kind) { page_size = n }
    unfolding Executable.set_page_size
    set_page_size-config n e =
        on_kind-config _ _ (λ c. record c { page_size = n }) (laws.prepared_laws.page_size_set n)
          (laws.statement_laws.page_size_set n) e.kind

    apply_default_page_size-statement :
        (n : ℕ) (e : ExecutableStatement P S) (set : Bool)
        → e.is_page_size_set ≡ set
        → seen (apply_default_page_size lib n (statement e)) ≡ paged_config n (seen (statement e))
    unfolding seen apply_default_page_size query_config
    apply_default_page_size-statement n e true h = rw h refl
    apply_default_page_size-statement n e false h = rw h (rw (set_page_size-config n e) refl)

    pub apply_default_page_size-seen :
        (n : ℕ) (q : LegacyQuery P S B)
        → seen (apply_default_page_size lib n q) ≡ paged_config n (seen q)
    unfolding seen apply_default_page_size
    apply_default_page_size-seen n (batch b) = refl
    apply_default_page_size-seen n (statement e) = apply_default_page_size-statement n e _ refl
