-- ===== src/Sockets/Group.antt =====
-- sockets/GroupEndpointCoordinator.hpp: the endpoints of a group by their ids, and the active one.
--
-- An endpoint of the group is a `C`; making one, with its unique id, and what a callback does to it are
-- the caller's. The iterator of the active entry is the id that it points to.
pub mod Valid
use medici.Prelude.{
  ℕ, Bool, true, false, if◌then◌else◌, ◌==◌, not, List, [], ◌∷◌, Option, none, some, Result,
  Expected, ok, err,
}

pub data GroupError : Type 0 where
  creation_failed : GroupError
  already_registered not_found : ℕ → GroupError
  no_active_endpoint endpoint_is_active : GroupError
  callback_failed : ℕ → GroupError

pub record Coordinator (C : Type 0) : Type 0 where
  pub context_lookup : List (ℕ × C)
  pub active_context_entry : Option ℕ

module _ {C : Type 0} where
  unfoldable pub find_context : ℕ → List (ℕ × C) → Option C
  find_context id [] = none
  find_context id ((k, c) ∷ m) = if k == id then some c else find_context id m

  unfoldable pub erase_context : ℕ → List (ℕ × C) → List (ℕ × C)
  erase_context id [] = []
  erase_context id ((k, c) ∷ m) =
      let rest = erase_context id m in if k == id then rest else (k, c) ∷ rest

  -- `createEndpoint` and `registerEndpoint`; the argument is the endpoint that was made, `none` where
  -- its constructor threw.
  unfoldable pub register_endpoint :
      Coordinator C → Option (ℕ × C) → Coordinator C × Expected GroupError
  unfolding find_context
  register_endpoint g none = (g, err creation_failed)
  register_endpoint g (some (id, c)) = elim (find_context id g.context_lookup) [
    | some other ↦ (g, err (already_registered id))
    | none ↦ (
      record { context_lookup = (id, c) ∷ g.context_lookup; active_context_entry = some id },
      ok tt,
    )
  ]

  -- `removeEndpoint`. The map is by endpoint id, and the argument is a file descriptor.
  unfoldable pub remove_endpoint : Coordinator C → ℕ → Coordinator C × Expected GroupError
  unfolding find_context erase_context
  remove_endpoint g fd = elim (find_context fd g.context_lookup) [
    | none ↦ (g, err (not_found fd))
    | some c ↦ (
      record { context_lookup = erase_context fd g.context_lookup; active_context_entry = none },
      ok tt,
    )
  ]

  unfoldable pub set_active_endpoint : Coordinator C → ℕ → Coordinator C × Expected GroupError
  unfolding find_context
  set_active_endpoint g id = elim (find_context id g.context_lookup) [
    | none ↦ (g, err (not_found id))
    | some c ↦ (record g { active_context_entry = some id }, ok tt)
  ]

  -- `getContext`; an exception is `none`.
  unfoldable pub get_context : Coordinator C → ℕ → Option C
  unfolding find_context
  get_context g id = find_context id g.context_lookup

  unfoldable pub get_active_context : Coordinator C → Option C
  unfolding find_context
  get_active_context g = elim g.active_context_entry [
    | none ↦ none
    | some id ↦ find_context id g.context_lookup
  ]

  -- `removeActiveContext`; `is_active` is the endpoint's.
  unfoldable pub remove_active_context :
      (C → Bool) → Coordinator C → Coordinator C × Expected GroupError
  unfolding get_active_context erase_context
  remove_active_context is_active g = elim g.active_context_entry [
    | none ↦ (g, err no_active_endpoint)
    | some id ↦ elim (find_context id g.context_lookup) [
      | none ↦ (g, err no_active_endpoint)
      | some c ↦ if is_active c then (g, err endpoint_is_active) else (
        record { context_lookup = erase_context id g.context_lookup; active_context_entry = none },
        ok tt,
      )
    ]
  ]

  -- The loop of `forEachEndpoint`, over the endpoints in the order of the map: it ends at the first
  -- error of the callback.
  unfoldable pub for_each_endpoint :
      {S : Type 0} → (C → S → Expected GroupError × S) → List (ℕ × C) → S → Expected GroupError × S
  for_each_endpoint callback [] s = (ok tt, s)
  for_each_endpoint callback ((id, c) ∷ m) s =
      let (r, s') = callback c s in
      elim r [ ok u ↦ for_each_endpoint callback m s' | err e ↦ (err e, s') ]

  -- `closeRemoteEndpoints`: it drops the result of `forEachEndpoint`.
  unfoldable pub close_remote_endpoints :
      {S : Type 0} → (C → S → Expected GroupError × S) → Coordinator C → S → Expected GroupError × S
  unfolding for_each_endpoint
  close_remote_endpoints close g s = (ok tt, (for_each_endpoint close g.context_lookup s).1)
