-- ===== src/Statements/Spec.antt =====
-- src/statement.rs: the options as Python sees them, and what a sequence of setters makes of them.
use python_rs_driver.Common.{
  ℕ, Bool, true, false, Option, none, some, List, [], ◌∷◌, ◌≡◌, refl, arith, ◌==◌, ◌<◌, ap, ◌∙◌,
}
use python_rs_driver.Common.Python.{Obj}
use python_rs_driver.CqlTypes.{ℤ}
use python_rs_driver.Statements.{
  MaybeUnset, unset, set_to, Consistency, SerialConsistency, Duration, max_duration, F64,
  RowFactory, WithOriginalPyObject, PyExecutionProfile, Configurable, IsConfigurable, Seconds,
  extracted_of, StatementOptions,
}
use python_rs_driver.Statements.Options.{handle_of, original_of, page_size_argument, with_page_size}
use python_rs_driver.Statements.Options

-- What the getters of a statement show, and what the Rust driver's statement holds beside them.
pub record Shown : Type 0 where
  pub execution_profile : Option PyExecutionProfile
  pub load_balancing_policy : Option Obj
  pub retry_policy : Option Obj
  pub row_factory : Option (WithOriginalPyObject RowFactory)
  pub consistency : MaybeUnset Consistency
  pub serial_consistency : MaybeUnset (Option SerialConsistency)
  pub request_timeout : MaybeUnset (Option F64)
  pub is_idempotent : Bool
  pub tracing : Bool
  pub page_size : ℕ
  pub is_page_size_set : Bool
  pub sent_profile : Option Obj
  pub sent_load_balancing : Option Obj
  pub sent_retry : Option Obj

pub data Change : Type 0 where
  to_execution_profile : Option PyExecutionProfile → Change
  to_load_balancing_policy to_retry_policy : Option (WithOriginalPyObject Obj) → Change
  to_row_factory : Option (WithOriginalPyObject RowFactory) → Change
  to_consistency : MaybeUnset Consistency → Change
  to_serial_consistency : MaybeUnset (Option SerialConsistency) → Change
  to_request_timeout : MaybeUnset (Option F64) → Change
  to_is_idempotent to_tracing : Bool → Change
  to_page_size : ℤ → Change

abbrev or_same : {A : Type 0} → A → Option A → A
or_same a none = a
or_same a (some b) = b

equal_self : (n : ℕ) → (n == n) ≡ true
equal_self n = ground arith

lt-differs : (m n : ℕ) → m < n → (m == n) ≡ false
lt-differs m n h = ground arith

module _ (secs : Seconds) where
  -- A number of seconds is shown as the duration nearest to it.
  abbrev shown_seconds : Shown → F64 → Option Duration → Shown
  shown_seconds v s none = v
  shown_seconds v s (some d) = record v { request_timeout = set_to (some (secs.as_secs_f64 d)) }

  abbrev shown_timeout : MaybeUnset (Option F64) → Shown → Shown
  shown_timeout (set_to (some s)) v = shown_seconds v s (secs.try_from_secs_f64 s)
  shown_timeout timeout v = record v { request_timeout = timeout }

  abbrev shown_page_size : Shown → Option ℕ → Shown
  shown_page_size v none = v
  shown_page_size v (some n) = record v { page_size = n; is_page_size_set = true }

  -- Each change, as an assignment to what is shown; one that is refused changes nothing.
  unfoldable pub shown_after : Change → Shown → Shown
  shown_after (to_execution_profile p) v = record v {
    execution_profile = p;
    sent_profile = handle_of p;
  }
  shown_after (to_load_balancing_policy p) v = record v {
    load_balancing_policy = original_of p;
    sent_load_balancing = extracted_of p;
  }
  shown_after (to_retry_policy p) v = record v {
    retry_policy = original_of p;
    sent_retry = extracted_of p;
  }
  shown_after (to_row_factory f) v = record v { row_factory = f }
  shown_after (to_consistency x) v = record v { consistency = x }
  shown_after (to_serial_consistency x) v = record v { serial_consistency = x }
  shown_after (to_request_timeout x) v = shown_timeout x v
  shown_after (to_is_idempotent x) v = record v { is_idempotent = x }
  shown_after (to_tracing x) v = record v { tracing = x }
  shown_after (to_page_size n) v = shown_page_size v (page_size_argument n)

  unfoldable pub all_shown_after : List Change → Shown → Shown
  all_shown_after [] v = v
  all_shown_after (x ∷ xs) v = all_shown_after xs (shown_after x v)

  module _ {S : Type 0} (c : Configurable S) where
    unfoldable pub shown : StatementOptions S → Shown
    unfolding Options.consistency Options.serial_consistency Options.request_timeout
    shown o = record {
      execution_profile = o.settings.execution_profile;
      load_balancing_policy = o.settings.load_balancing_policy;
      retry_policy = o.settings.retry_policy;
      row_factory = o.settings.row_factory;
      consistency = Options.consistency c o;
      serial_consistency = Options.serial_consistency c o;
      request_timeout = Options.request_timeout c secs o;
      is_idempotent = (c.config o.inner).is_idempotent;
      tracing = (c.config o.inner).tracing;
      page_size = (c.config o.inner).page_size;
      is_page_size_set = o.is_page_size_set;
      sent_profile = (c.config o.inner).execution_profile_handle;
      sent_load_balancing = (c.config o.inner).load_balancing_policy;
      sent_retry = (c.config o.inner).retry_policy;
    }

    -- The setter that a change calls.
    unfoldable pub change : Change → StatementOptions S → StatementOptions S
    unfolding Options.set_execution_profile Options.set_load_balancing_policy
        Options.set_retry_policy Options.set_row_factory Options.set_consistency
        Options.set_serial_consistency Options.set_request_timeout Options.set_is_idempotent
        Options.set_tracing Options.set_page_size
    change (to_execution_profile p) o = (Options.set_execution_profile c p o).0
    change (to_load_balancing_policy p) o = (Options.set_load_balancing_policy c p o).0
    change (to_retry_policy p) o = (Options.set_retry_policy c p o).0
    change (to_row_factory f) o = (Options.set_row_factory c f o).0
    change (to_consistency x) o = Options.set_consistency c x o
    change (to_serial_consistency x) o = Options.set_serial_consistency c x o
    change (to_request_timeout x) o = or_same o (Options.set_request_timeout c secs x o)
    change (to_is_idempotent x) o = Options.set_is_idempotent c x o
    change (to_tracing x) o = Options.set_tracing c x o
    change (to_page_size n) o = or_same o (Options.set_page_size c n o)

    unfoldable pub change_all : List Change → StatementOptions S → StatementOptions S
    change_all [] o = o
    change_all (x ∷ xs) o = change_all xs (change x o)

    module _ (laws : IsConfigurable c) where
      page_size-shown :
          (n : Option ℕ) (o : StatementOptions S)
          → shown (or_same o (with_page_size c o n)) ≡ shown_page_size (shown o) n
      unfolding shown
      page_size-shown none o = refl
      page_size-shown (some n) o = rw (laws.page_size_set n o.inner) refl

      seconds-shown :
          (s : F64) (d : Option Duration)
          → ((t : Duration) → d ≡ some t → t < max_duration)
          → (o : StatementOptions S)
          → shown (or_same o (Options.with_timeout c secs o (Options.converted c secs d)))
            ≡ shown_seconds (shown o) s d
      unfolding shown
      seconds-shown s none h o = refl
      seconds-shown s (some d) h o =
          rw (laws.timeout_set (some d) o.inner) (rw (lt-differs d max_duration (h d refl)) refl)

      change-shown :
          (x : Change) (o : StatementOptions S) → shown (change x o) ≡ shown_after x (shown o)
      unfolding shown change shown_after
      change-shown (to_execution_profile p) o = rw (laws.profile_set (handle_of p) o.inner) refl
      change-shown (to_load_balancing_policy p) o =
          rw (laws.load_balancing_set (extracted_of p) o.inner) refl
      change-shown (to_retry_policy p) o = rw (laws.retry_set (extracted_of p) o.inner) refl
      change-shown (to_row_factory f) o = refl
      change-shown (to_consistency (set_to x)) o = rw (laws.consistency_set x o.inner) refl
      change-shown (to_consistency unset) o = rw (laws.consistency_unset o.inner) refl
      change-shown (to_serial_consistency (set_to x)) o = rw (laws.serial_set x o.inner) refl
      change-shown (to_serial_consistency unset) o = rw (laws.serial_unset o.inner) refl
      change-shown (to_request_timeout unset) o = rw (laws.timeout_set none o.inner) refl
      change-shown (to_request_timeout (set_to none)) o =
          rw (laws.timeout_set (some max_duration) o.inner) (rw (equal_self max_duration) refl)
      change-shown (to_request_timeout (set_to (some s))) o =
          seconds-shown s (secs.try_from_secs_f64 s) (secs.below_max s) o
      change-shown (to_is_idempotent x) o = rw (laws.idempotent_set x o.inner) refl
      change-shown (to_tracing x) o = rw (laws.tracing_set x o.inner) refl
      change-shown (to_page_size n) o = page_size-shown (page_size_argument n) o

      -- If each setter of the Rust driver's statement sets what it is named for and nothing else,
      -- then what a statement shows after any setters, and what its Rust statement then holds, is
      -- what the assignments of their values make of what it showed, be the setters accepted or
      -- refused: unset and `None` stay apart, and the object that Python sees and the one that is
      -- sent agree.
      pub change_all-shown :
          (xs : List Change) (o : StatementOptions S)
          → shown (change_all xs o) ≡ all_shown_after xs (shown o)
      unfolding change_all all_shown_after
      change_all-shown [] o = refl
      change_all-shown (x ∷ xs) o =
          change_all-shown xs (change x o) ∙ ap (all_shown_after xs) (change-shown x o)
