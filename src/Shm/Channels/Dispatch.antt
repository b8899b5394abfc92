-- ===== src/Shm/Channels/Dispatch.antt =====
-- The tag that `GetTypeIndex` gives a type selects that type's handler in `dispatchToHandler`.
use native.Mathlib.Decide.{ℕ_discrete}
use medici.Prelude.{ℕ, ◌+◌, ◌≤◌, ◌≡◌, refl, List, [], ◌∷◌, some, err, arith, length}
use medici.Shm.Ring.{Handler}
use medici.Shm.Channels.{Entry, Error, unknown_type_index, get_type_index, dispatch_to_handler}

get_type_index-ge :
    (target : ℕ) (types : List ℕ) (current k : ℕ)
    → get_type_index target types current ≡ some k
    → current ≤ k
unfolding get_type_index
get_type_index-ge target [] current k e = absurd (ground arith)
get_type_index-ge target (t ∷ types) current k e =
    ground (arith, get_type_index-ge target types (current + 1) k)

-- An entry tagged for a type reaches the handler of that type with its payload.
pub dispatch-get_type_index :
    {A S : Type 0} (types : List ℕ) (current target k : ℕ) (handler : ℕ → Handler Error S A) (x : A)
    (s : S)
    → get_type_index target types current ≡ some k
    → dispatch_to_handler types current handler (record { type_index = k; message_data = x }) s
      ≡ handler target x s
unfolding get_type_index dispatch_to_handler
dispatch-get_type_index [] current target k handler x s e = absurd (ground arith)
dispatch-get_type_index (t ∷ types) current target k handler x s e = elim (ℕ_discrete target t) [
  | yes same ↦ ground (arith, same)
  | no ne ↦ ground (
    arith,
    get_type_index-ge target types (current + 1) k,
    dispatch-get_type_index types (current + 1) target k handler x s,
  )
]

-- A tag past the last type reaches no handler.
pub dispatch_unknown :
    {A S : Type 0} (types : List ℕ) (current : ℕ) (handler : ℕ → Handler Error S A) (e : Entry A)
    (s : S)
    → current + length types ≤ e.type_index
    → dispatch_to_handler types current handler e s ≡ (err unknown_type_index, s)
unfolding dispatch_to_handler
dispatch_unknown [] current handler e s h = refl
dispatch_unknown (t ∷ types) current handler e s h =
    ground (arith, dispatch_unknown types (current + 1) handler e s)
