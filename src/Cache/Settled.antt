-- ===== src/Cache/Settled.antt =====
-- src/cache.rs: whole calls, after one has returned a mapping.
use python_rs_driver.Common.{ℕ, Option, some, List, [], ◌∷◌, ◌≡◌, refl, ap, ◌∙◌, map}
use python_rs_driver.Common.Python.{Obj, PyResult, ok, err}
use python_rs_driver.Cache.{
  Entries, CacheState, active, frozen, lookup, read_section, extend, KeyErrors, fill_dict,
  freeze_filled, freeze_section, freeze_collected, collect, get_or_init, get_or_init_python_mapping,
}
use python_rs_driver.Cache.History.{Event, run, held, Keeps, freeze-Keeps, run-Keeps}
use python_rs_driver.Cache.Shown.{IsShown, freeze-IsShown, run-IsShown}

ok_inj : (a b : Entries) → PyResult.ok a ≡ ok b → a ≡ b
ok_inj a b h = cc

-- A whole call, with the sections of other threads before it takes the write lock.
pub data Call : Type 0 where
  gets : List Event → ℕ → PyResult (Option Obj) → Call
  maps : List Event → List (ℕ × PyResult Obj) → KeyErrors → Call

pub data Answer : Type 0 where
  value : PyResult (Option Obj) → Answer
  mapping : PyResult Entries → Answer

unfoldable pub call : CacheState → Call → CacheState × Answer
unfolding get_or_init get_or_init_python_mapping
call s (gets between key resolved) =
    let (s', r) = get_or_init s (run s between).0 key resolved in (s', value r)
call s (maps between made raised) =
    let (s', r) = get_or_init_python_mapping s (run s between).0 made raised in (s', mapping r)

unfoldable pub calls : CacheState → List Call → CacheState × List Answer
unfolding call
calls s [] = (s, [])
calls s (c ∷ cs) = let (s', a) = call s c in let (s'', as') = calls s' cs in (s'', a ∷ as')

-- What a call answers once `view` is shown, whatever it would resolve or make.
unfoldable pub answer_of : Entries → Call → Answer
unfolding lookup
answer_of view (gets between key resolved) = value (ok (lookup view key))
answer_of view (maps between made raised) = mapping (ok view)

frozen-calls :
    (m view : Entries) (cs : List Call)
    → ((key : ℕ) → lookup view key ≡ lookup m key)
    → calls (frozen m view) cs ≡ (frozen m view, map (answer_of view) cs)
unfolding calls call get_or_init get_or_init_python_mapping read_section answer_of
frozen-calls m view [] h = refl
frozen-calls m view (gets between key resolved ∷ cs) h =
    rw (frozen-calls m view cs h) (rw (h key) refl)
frozen-calls m view (maps between made raised ∷ cs) h = rw (frozen-calls m view cs h) refl

-- Of a state and a mapping that a call has shown: later calls answer from the mapping, and it has
-- the values that were held before.
abbrev pub Settled : CacheState → CacheState → Entries → List Call → Type 0
Settled s s' view cs =
    (calls s' cs ≡ (s', map (answer_of view) cs))
    × ((key : ℕ) (x : Obj) → held s key ≡ some x → lookup view key ≡ some x)

frozen-Settled :
    (s : CacheState) (m v : Entries) (s' : CacheState) (view : Entries) (cs : List Call)
    → ◌≡◌ {A = CacheState × PyResult Entries} (frozen m v, ok v) (s', ok view)
    → IsShown (frozen m v)
    → Keeps s (frozen m v)
    → Settled s s' view cs
frozen-Settled s m v s' view cs h shown keeps =
    let e : frozen m v ≡ s' = ap (λ (p : CacheState × PyResult Entries). p.0) h in
    let e' : v ≡ view = ok_inj v view (ap (λ (p : CacheState × PyResult Entries). p.1) h) in
    (
      rw (← e) (rw (← e') (frozen-calls m v cs shown.1)),
      λ key x k. rw (← e') (shown.1 key ∙ keeps key x k),
    )

filled-Settled :
    (s : CacheState) (m n : Entries) (filled : PyResult Entries) (s' : CacheState) (view : Entries)
    (cs : List Call)
    → freeze_filled m n filled ≡ (s', ok view)
    → IsShown (freeze_filled m n filled).0
    → Keeps s (freeze_filled m n filled).0
    → Settled s s' view cs
filled-Settled s m n (err e) s' view cs h shown keeps = absurd cc
filled-Settled s m n (ok v) s' view cs h shown keeps = frozen-Settled s n v s' view cs h shown keeps

freeze-Settled :
    (s later : CacheState) (entries : Entries) (raised : KeyErrors) (s' : CacheState)
    (view : Entries) (cs : List Call)
    → IsShown later
    → Keeps s later
    → freeze_section later entries raised ≡ (s', ok view)
    → Settled s s' view cs
unfolding freeze_section
freeze-Settled s (active m) es raised s' view cs shown keeps h =
    filled-Settled s m (extend m es) (fill_dict raised [] (extend m es)) s' view cs h
      (freeze-IsShown (active m) es raised shown)
      (λ key x k. freeze-Keeps (active m) es raised key x (keeps key x k))
freeze-Settled s (frozen m v) es raised s' view cs shown keeps h =
    frozen-Settled s m v s' view cs h shown keeps

collected-Settled :
    (s later : CacheState) (made : PyResult Entries) (raised : KeyErrors) (s' : CacheState)
    (view : Entries) (cs : List Call)
    → IsShown later
    → Keeps s later
    → freeze_collected later made raised ≡ (s', ok view)
    → Settled s s' view cs
collected-Settled s later (err e) raised s' view cs shown keeps h = absurd cc
collected-Settled s later (ok entries) raised s' view cs shown keeps h =
    freeze-Settled s later entries raised s' view cs shown keeps h

-- Once a call has returned a mapping, whatever other threads did during it, no later call changes the
-- cache: each asks nothing of its closure, a call for a value answers what that mapping has for the
-- key, and a call for a mapping answers that same mapping; and the mapping has each value that the
-- cache held before the call. The cache is to start with one entry for each key and, if it is frozen,
-- a mapping of what it holds.
pub mapping-Settled :
    (s : CacheState) (between : List Event) (made : List (ℕ × PyResult Obj)) (raised : KeyErrors)
    (s' : CacheState) (view : Entries) (cs : List Call)
    → IsShown s
    → get_or_init_python_mapping s (run s between).0 made raised ≡ (s', ok view)
    → (calls s' cs ≡ (s', map (answer_of view) cs))
      × ((key : ℕ) (x : Obj) → held s key ≡ some x → lookup view key ≡ some x)
unfolding get_or_init_python_mapping
mapping-Settled (active m) between made raised s' view cs shown h =
    collected-Settled (active m) (run (active m) between).0 (collect made) raised s' view cs
      (run-IsShown (active m) between shown) (run-Keeps (active m) between).0 h
mapping-Settled (frozen m v) between made raised s' view cs shown h =
    frozen-Settled (frozen m v) m v s' view cs h shown (λ key x k. k)
