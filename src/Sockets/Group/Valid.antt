-- ===== src/Sockets/Group/Valid.antt =====
-- The active endpoint of a group is one of the group.
use medici.Prelude.{
  ℕ, ◌≡◌, refl, ap, sym, subst, ◌∙◌, inl, inr, Bool, if◌then◌else◌, ◌==◌, List, [], ◌∷◌, Option,
  none, some, arith, Option-cases, Bool-cases,
}
use medici.Sockets.Group.{
  Coordinator, find_context, erase_context, register_endpoint, remove_endpoint, set_active_endpoint,
  remove_active_context,
}

-- The operations that change a group.
pub data Op (C : Type 0) : Type 0 where
  register : Option (ℕ × C) → Op C
  remove set_active : ℕ → Op C
  remove_active : Op C

module _ {C : Type 0} (is_active : C → Bool) where
  unfoldable pub run_op : Coordinator C → Op C → Coordinator C
  unfolding register_endpoint remove_endpoint set_active_endpoint remove_active_context
  run_op g (register made) = (register_endpoint g made).0
  run_op g (remove fd) = (remove_endpoint g fd).0
  run_op g (set_active id) = (set_active_endpoint g id).0
  run_op g remove_active = (remove_active_context is_active g).0

  unfoldable pub run_ops : Coordinator C → List (Op C) → Coordinator C
  unfolding run_op
  run_ops g [] = g
  run_ops g (o ∷ os) = run_ops (run_op g o) os

-- No id stands for two endpoints.
unfoldable pub Distinct : {C : Type 0} → List (ℕ × C) → Type 0
Distinct [] = Unit
Distinct ((k, c) ∷ m) = (find_context k m ≡ none) × Distinct m

pub record IsValid {C : Type 0} (g : Coordinator C) : Type 0 where
  pub distinct : Distinct g.context_lookup
  pub active_in :
      (id : ℕ)
      → g.active_context_entry ≡ some id
      → (c : C) × (find_context id g.context_lookup ≡ some c)

module _ {C : Type 0} where
  find-erase :
      (id k : ℕ) (m : List (ℕ × C))
      → find_context k m ≡ none
      → find_context k (erase_context id m) ≡ none
  unfolding find_context erase_context
  find-erase id k [] h = refl
  find-erase id k ((j, c) ∷ m) h = ground (arith, h, find-erase id k m)

  erase-Distinct : (id : ℕ) (m : List (ℕ × C)) → Distinct m → Distinct (erase_context id m)
  unfolding Distinct erase_context
  erase-Distinct id [] d = tt
  erase-Distinct id ((k, c) ∷ m) (h, d) = elim (Bool-cases (k == id)) [
    | inl gone ↦ rw gone (erase-Distinct id m d)
    | inr kept ↦ rw kept (find-erase id k m h, erase-Distinct id m d)
  ]

  without :
      (id : ℕ) (g : Coordinator C)
      → IsValid g
      → IsValid (record {
        context_lookup = erase_context id g.context_lookup;
        active_context_entry = none;
      })
  without id g v = record {
    distinct = erase-Distinct id g.context_lookup v.distinct;
    active_in = λ k e. cc;
  }

  register-IsValid :
      (g : Coordinator C) (made : Option (ℕ × C)) → IsValid g → IsValid (register_endpoint g made).0
  unfolding register_endpoint Distinct find_context
  register-IsValid g none v = v
  register-IsValid g (some (id, c)) v = elim (Option-cases (find_context id g.context_lookup)) [
    | inr (other, e) ↦ rw (register_endpoint, e) v
    | inl e ↦
        rw (register_endpoint, e)
          (record {
            distinct = (e, v.distinct);
            active_in = λ k same. let at : id ≡ k = cc in (c, ground (arith, at));
          })
  ]

  remove-IsValid : (g : Coordinator C) (fd : ℕ) → IsValid g → IsValid (remove_endpoint g fd).0
  unfolding remove_endpoint
  remove-IsValid g fd v = elim (Option-cases (find_context fd g.context_lookup)) [
    | inl e ↦ rw (remove_endpoint, e) v
    | inr (c, e) ↦ rw (remove_endpoint, e) (without fd g v)
  ]

  set_active-IsValid :
      (g : Coordinator C) (id : ℕ) → IsValid g → IsValid (set_active_endpoint g id).0
  unfolding set_active_endpoint
  set_active-IsValid g id v = elim (Option-cases (find_context id g.context_lookup)) [
    | inl e ↦ rw (set_active_endpoint, e) v
    | inr (c, e) ↦
        rw (set_active_endpoint, e)
          (record {
            distinct = v.distinct;
            active_in = λ k same.
                let at : k ≡ id = cc in (c, ap (λ x. find_context x g.context_lookup) at ∙ e);
          })
  ]

  -- What `removeActiveContext` does with an entry and the endpoint that is looked up for it.
  abbrev removal : (C → Bool) → Coordinator C → Option ℕ → Coordinator C
  removal is_active g entry = elim entry [
    | none ↦ g
    | some id ↦ elim (find_context id g.context_lookup) [
      | none ↦ g
      | some c ↦ if is_active c then g else record {
        context_lookup = erase_context id g.context_lookup;
        active_context_entry = none;
      }
    ]
  ]

  removal_lem :
      (is_active : C → Bool) (g : Coordinator C)
      → (remove_active_context is_active g).0 ≡ removal is_active g g.active_context_entry
  unfolding remove_active_context
  removal_lem is_active g = ground arith

  removal-IsValid :
      (is_active : C → Bool) (g : Coordinator C) (entry : Option ℕ)
      → IsValid g
      → IsValid (removal is_active g entry)
  removal-IsValid is_active g none v = v
  removal-IsValid is_active g (some id) v = elim (Option-cases (find_context id g.context_lookup)) [
    | inl e ↦ rw (removal, e) v
    | inr (c, e) ↦ elim (Bool-cases (is_active c)) [
      | inl busy ↦ rw (removal, e, busy) v
      | inr done ↦ rw (removal, e, done) (without id g v)
    ]
  ]

  remove_active-IsValid :
      (is_active : C → Bool) (g : Coordinator C)
      → IsValid g
      → IsValid (remove_active_context is_active g).0
  remove_active-IsValid is_active g v =
      subst IsValid (sym (removal_lem is_active g))
        (removal-IsValid is_active g g.active_context_entry v)

-- Every operation on a group keeps one endpoint to an id and the active endpoint among those of the
-- group, whether it succeeds or not, in any sequence.
pub run_ops-IsValid :
    {C : Type 0} (is_active : C → Bool) (g : Coordinator C) (ops : List (Op C))
    → IsValid g
    → IsValid (run_ops is_active g ops)
unfolding run_ops run_op
run_ops-IsValid is_active g [] v = v
run_ops-IsValid is_active g (register made ∷ ops) v =
    run_ops-IsValid is_active (register_endpoint g made).0 ops (register-IsValid g made v)
run_ops-IsValid is_active g (remove fd ∷ ops) v =
    run_ops-IsValid is_active (remove_endpoint g fd).0 ops (remove-IsValid g fd v)
run_ops-IsValid is_active g (set_active id ∷ ops) v =
    run_ops-IsValid is_active (set_active_endpoint g id).0 ops (set_active-IsValid g id v)
run_ops-IsValid is_active g (remove_active ∷ ops) v =
    run_ops-IsValid is_active (remove_active_context is_active g).0 ops
      (remove_active-IsValid is_active g v)
