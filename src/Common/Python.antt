-- ===== src/Common/Python.antt =====
-- Python objects, exceptions and results as the Rust code handles them: `Py<PyAny>`, `PyErr`,
-- `PyResult` (PyO3 types, used throughout src/).
use Prim.Native.Nat.{ℕ}

-- A Python object is known by its identity.
abbrev pub Obj : Type 0
Obj = ℕ

-- An exception that Python code or another library raised, or one that the driver itself creates.
pub data PyErr : Type 0 where
  raised : Obj → PyErr
  panicked_err dropped_err closed_err cancelled_err timed_out_err : PyErr
  query_exhausted request_in_flight : PyErr
  stop_iteration : Obj → PyErr
  stop_async_iteration : PyErr
  type_error runtime_error overflow_error value_error : PyErr

pub data PyResult {ℓ} (A : Type ℓ) : Type ℓ where
  ok : A → PyResult A
  err : PyErr → PyResult A

infixl 5 ◌>>=◌ ◌>>◌
abbrev pub ◌>>=◌ {ℓ κ} : {A : Type ℓ} {B : Type κ} → PyResult A → (A → PyResult B) → PyResult B
ok a >>= f = f a
err e >>= f = err e

abbrev pub ◌>>◌ {ℓ} : {B : Type ℓ} → PyResult (Unit {0}) → PyResult B → PyResult B
m >> k = m >>= λ _. k
