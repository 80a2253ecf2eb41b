-- ===== src/Callbacks.antt =====
-- src/future/callbacks.rs and `Prepended` of src/utils.rs: the callbacks of the two futures.
pub mod Prepended
use python_rs_driver.Common.{
  Bool, true, false, ◌&&◌, ◌||◌, not, Option, none, some, List, [], ◌∷◌, ◌++◌, is_empty,
}
use python_rs_driver.Common.Python.{Obj, PyErr, PyResult, ok, err, panicked_err}
use Prepended.{collect}
use Prepended

-- What reaches Python or the log when callbacks run.
pub data Effect : Type 0 where
  called : (callable : Obj) (args : List Obj) (kwargs : Option Obj) → Effect
  logged : PyErr → Effect

-- The interpreter: whether it can allocate a tuple, and what a call returns or raises.
pub record Interpreter : Type 0 where
  pub new_tuple : List Obj → PyResult (List Obj)
  pub call : Obj → List Obj → Option Obj → PyResult Obj

-- `callable.call(py, args, kwargs)`, its result dropped and its error logged.
unfoldable pub call_logged : Interpreter → Obj → List Obj → Option Obj → List Effect
call_logged py f args kwargs = elim (py.call f args kwargs) [
  | ok _ ↦ called f args kwargs ∷ []
  | err e ↦ called f args kwargs ∷ logged e ∷ []
]

pub record LegacyCallback : Type 0 where
  pub callable : Obj
  pub args : List Obj
  pub kwargs : Option Obj

unfoldable pub invoke_legacy : Interpreter → LegacyCallback → Obj → List Effect
unfolding call_logged
invoke_legacy py cb value = elim (py.new_tuple (collect (Prepended.new value cb.args))) [
  | ok args ↦ call_logged py cb.callable args cb.kwargs
  | err e ↦ logged e ∷ []
]

pub data Delivery : Type 0 where
  callbacks errbacks : Delivery

unfoldable pub delivery_of {ℓ} : {A : Type ℓ} → PyResult A → Delivery
delivery_of (ok _) = callbacks
delivery_of (err _) = errbacks

pub record Callbacks : Type 0 where
  pub callback_list : List LegacyCallback
  pub errback_list : List LegacyCallback

unfoldable pub default : Callbacks
default = record { callback_list = []; errback_list = [] }

unfoldable pub list : Callbacks → Delivery → List LegacyCallback
list c callbacks = c.callback_list
list c errbacks = c.errback_list

unfoldable pub is_empty_for : Callbacks → Delivery → Bool
unfolding list
is_empty_for c d = is_empty (list c d)

unfoldable pub push : Callbacks → Delivery → LegacyCallback → Callbacks
push c callbacks cb = record c { callback_list = c.callback_list ++ cb ∷ [] }
push c errbacks cb = record c { errback_list = c.errback_list ++ cb ∷ [] }

unfoldable pub for_outcome : Callbacks → Option Delivery → Option Callbacks
unfolding is_empty_for
for_outcome c (some d) = elim (not (is_empty_for c d)) [ true ↦ some c | false ↦ none ]
for_outcome c none = elim (not (is_empty_for c callbacks) || not (is_empty_for c errbacks)) [
  | true ↦ some c
  | false ↦ none
]

-- The loop of `fire`, over the list for the delivery.
unfoldable pub invoke_each : Interpreter → Obj → List LegacyCallback → List Effect
unfolding invoke_legacy
invoke_each py value [] = []
invoke_each py value (cb ∷ cbs) = invoke_legacy py cb value ++ invoke_each py value cbs

unfoldable pub fire : Interpreter → Callbacks → Delivery → Obj → List Effect
unfolding list invoke_each
fire py c d value = invoke_each py value (list c d)

-- A callback of a `DriverFuture`; `future` is the one that it was registered on.
pub data CallbackKind : Type 0 where
  success : (callable : Obj) → CallbackKind
  error : (callable : Obj) → CallbackKind
  done : (callable : Obj) (future : Obj) → CallbackKind

-- `value err` is the exception instance that carries the error.
unfoldable pub invoke_kind : Interpreter → (PyErr → Obj) → CallbackKind → PyResult Obj → List Effect
unfolding call_logged
invoke_kind py value (success f) (ok v) = call_logged py f (v ∷ []) none
invoke_kind py value (error f) (err e) = call_logged py f (value e ∷ []) none
invoke_kind py value (done f future) _ = call_logged py f (future ∷ []) none
invoke_kind py value _ _ = []

unfoldable pub fire_all :
    Interpreter → (PyErr → Obj) → List CallbackKind → PyResult Obj → List Effect
unfolding invoke_kind
fire_all py value [] result = []
fire_all py value (cb ∷ cbs) result = invoke_kind py value cb result ++ fire_all py value cbs result
