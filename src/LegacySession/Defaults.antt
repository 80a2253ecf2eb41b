-- ===== src/LegacySession/Defaults.antt =====
-- src/legacy/session.rs: what the session's defaults make of a query.
use python_rs_driver.Common.{Bool, true, false, Option, none, some, ◌≡◌, refl, if◌then◌else◌, ◌||◌}
use python_rs_driver.Statements.{Consistency, SerialConsistency, Duration, or_of}
use python_rs_driver.Statements.Executable.{Library, IsLibrary}
use python_rs_driver.LegacySession.{
  LegacyQuery, duration, LegacyDefaults, request_timeout, consistency, is_serial_consistency_set,
  query_config,
}
use python_rs_driver.LegacySession.Queries.{
  Seen, seen, set_request_timeout-seen, set_consistency-seen, set_serial_consistency-seen,
}
use python_rs_driver.LegacySession.Requests.{
  default_timeout, default_consistency, default_serial_consistency, apply_defaults,
}

-- The first of two settings that is there wins; a setting that is there may itself be `None`.
abbrev pub or_else {ℓ} : {A : Type ℓ} → Option A → A → A
or_else none b = b
or_else (some a) b = a

or_none {ℓ} : {A : Type ℓ} (x : Option A) → or_of x none ≡ x
or_none none = refl
or_none (some a) = refl

same_branch {ℓ} : {A : Type ℓ} (b : Bool) (x : A) → (if b then x else x) ≡ x
same_branch true x = refl
same_branch false x = refl

or_false : (b : Bool) → (b || false) ≡ b
or_false true = refl
or_false false = refl

-- What the defaults make of a query: each applies where the query sets nothing itself.
abbrev set_by {ℓ} : {A : Type ℓ} → Option A → Bool
set_by none = false
set_by (some a) = true

abbrev pub with_defaults : LegacyDefaults → Seen → Seen
with_defaults d s = record s {
  config = record s.config {
    request_timeout = or_of s.config.request_timeout (duration d.timeout);
    consistency = or_of s.config.consistency d.consistency;
    serial_consistency =
        if s.serial_is_set
        then s.config.serial_consistency
        else or_else d.serial_consistency s.config.serial_consistency;
  };
  serial_is_set = s.serial_is_set || set_by d.serial_consistency;
}

module _ {P S B : Type 0} (lib : Library P S B) (laws : IsLibrary lib) where
  default_timeout-own :
      (v : Duration) (q : LegacyQuery P S B) (own : Option Duration)
      → request_timeout lib q ≡ own
      → seen lib (default_timeout lib (some v) q) ≡ record (seen lib q) {
        config = record (seen lib q).config { request_timeout = or_of own (some v) };
      }
  unfolding seen
  default_timeout-own v q none h = rw h (set_request_timeout-seen lib laws v q)
  default_timeout-own v q (some own) h = rw h (rw (← h) refl)

  default_timeout-seen :
      (v : Option Duration) (q : LegacyQuery P S B)
      → seen lib (default_timeout lib v q) ≡ record (seen lib q) {
        config = record (seen lib q).config {
          request_timeout = or_of (seen lib q).config.request_timeout v;
        };
      }
  unfolding seen
  default_timeout-seen none q = rw (or_none (request_timeout lib q)) refl
  default_timeout-seen (some v) q = default_timeout-own v q (request_timeout lib q) refl

  default_consistency-own :
      (v : Consistency) (q : LegacyQuery P S B) (own : Option Consistency)
      → consistency lib q ≡ own
      → seen lib (default_consistency lib (some v) q) ≡ record (seen lib q) {
        config = record (seen lib q).config { consistency = or_of own (some v) };
      }
  unfolding seen
  default_consistency-own v q none h = rw h (set_consistency-seen lib laws v q)
  default_consistency-own v q (some own) h = rw h (rw (← h) refl)

  default_consistency-seen :
      (v : Option Consistency) (q : LegacyQuery P S B)
      → seen lib (default_consistency lib v q) ≡ record (seen lib q) {
        config = record (seen lib q).config {
          consistency = or_of (seen lib q).config.consistency v;
        };
      }
  unfolding seen
  default_consistency-seen none q = rw (or_none (consistency lib q)) refl
  default_consistency-seen (some v) q = default_consistency-own v q (consistency lib q) refl

  default_serial_consistency-own :
      (v : Option SerialConsistency) (q : LegacyQuery P S B) (set : Bool)
      → is_serial_consistency_set lib q ≡ set
      → seen lib (default_serial_consistency lib (some v) q) ≡ record (seen lib q) {
        config = record (seen lib q).config {
          serial_consistency = if set then (seen lib q).config.serial_consistency else v;
        };
        serial_is_set = set || true;
      }
  unfolding seen
  default_serial_consistency-own v q true h = rw h (rw h refl)
  default_serial_consistency-own v q false h = rw h (set_serial_consistency-seen lib laws v q)

  default_serial_consistency-seen :
      (v : Option (Option SerialConsistency)) (q : LegacyQuery P S B)
      → seen lib (default_serial_consistency lib v q) ≡ record (seen lib q) {
        config = record (seen lib q).config {
          serial_consistency =
              if (seen lib q).serial_is_set
              then (seen lib q).config.serial_consistency
              else or_else v (seen lib q).config.serial_consistency;
        };
        serial_is_set = (seen lib q).serial_is_set || set_by v;
      }
  unfolding seen
  default_serial_consistency-seen none q =
      rw (same_branch (is_serial_consistency_set lib q) (query_config lib q).serial_consistency)
        (rw (or_false (is_serial_consistency_set lib q)) refl)
  default_serial_consistency-seen (some v) q =
      default_serial_consistency-own v q (is_serial_consistency_set lib q) refl

  pub apply_defaults-seen :
      (d : LegacyDefaults) (q : LegacyQuery P S B)
      → seen lib (apply_defaults lib d q) ≡ with_defaults d (seen lib q)
  unfolding apply_defaults
  apply_defaults-seen d q =
      rw
        (default_serial_consistency-seen d.serial_consistency
          (default_consistency lib d.consistency (default_timeout lib (duration d.timeout) q)))
        (rw (default_consistency-seen d.consistency (default_timeout lib (duration d.timeout) q))
          (rw (default_timeout-seen (duration d.timeout) q) refl))
