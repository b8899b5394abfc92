-- ===== src/EventQueue/Timers.antt =====
-- The timed events: their order, and when the loops that fire them end.
use medici.Prelude.{
  ℕ, zero, suc, ◌+◌, ◌%◌, ◌≤◌, ◌<◌, ◌≡◌, ◌≢◌, refl, ap, sym, subst, ◌∙◌, ◌⊎◌, inl, inr, leb, leb→le,
  List, [], ◌∷◌, Result, ok, err, arith, length, Bool-cases,
}
use medici.EventQueue.{Error, user, Timed, Queue, waiting, M, Host}
use medici.EventQueue.Threads.{size_mod}
use medici.EventQueue.Post.{push_timed}
use medici.EventQueue.Steps.{
  List-cases, then_do-ok, checked-ok, then_do-returns, checked-returns, fire_empty, fire_early,
  fire_due,
}
use medici.EventQueue.Cycle.{
  Timing, precision, idle, timed_events, pop_timed, without_first, checked, apply, fire,
}

module _ {A B : Type 0} where
  -- No event is before `t`.
  unfoldable pub From : ℕ → List (Timed A B) → Type 0
  From t [] = Unit
  From t (x ∷ xs) = (t ≤ x.event_time) × From t xs

  -- The earliest event first.
  unfoldable pub Ordered : List (Timed A B) → Type 0
  Ordered [] = Unit
  Ordered (x ∷ xs) = From x.event_time xs × Ordered xs

  From-le : (xs : List (Timed A B)) {t u : ℕ} → t ≤ u → From u xs → From t xs
  unfolding From
  From-le [] h f = tt
  From-le (x ∷ xs) h (f, fs) = (omega arith, From-le xs h fs)

  push-From :
      (xs : List (Timed A B)) (e : Timed A B) (t : ℕ)
      → t ≤ e.event_time
      → From t xs
      → From t (push_timed e xs)
  unfolding From push_timed
  push-From [] e t h f = (h, tt)
  push-From (x ∷ xs) e t h (f, fs) = elim (Bool-cases (leb x.event_time e.event_time)) [
    | inl later ↦ rw later (f, push-From xs e t h fs)
    | inr before ↦ rw before (h, (f, fs))
  ]

  pub push-Ordered :
      (xs : List (Timed A B)) (e : Timed A B) → Ordered xs → Ordered (push_timed e xs)
  unfolding Ordered From push_timed
  push-Ordered [] e o = (tt, tt)
  push-Ordered (x ∷ xs) e (f, o) = elim (Bool-cases (leb x.event_time e.event_time)) [
    | inl later ↦ rw later (
      push-From xs e x.event_time (leb→le x.event_time e.event_time later) f,
      push-Ordered xs e o,
    )
    | inr before ↦
        let le : e.event_time ≤ x.event_time = ground arith in
        rw before ((le, From-le xs le f), (f, o))
  ]

-- No event is left, or the earliest one is after the last reading of the clock.
unfoldable pub NothingDue : {A B S : Type 0} → Host A B S → List (Timed A B) → S → Type 0
NothingDue {A} {B} {S} host xs s =
    (xs ≡ [])
    ⊎ ((e : Timed A B) × (es : List (Timed A B)) × (s0 : S) × (xs ≡ e ∷ es)
        × ((host.clock s0).0 < e.event_time)
        × ((host.clock s0).1 ≡ s))

-- When a loop that fires timed events ends without an error, nothing that was due is left: the queue is
-- empty or its earliest event is after the time just read. This holds whatever the actions do.
pub fire-NothingDue :
    {A B S : Type 0} (host : Host A B S) (tid : ℕ) (w : Timing) (fuel n : ℕ) (q : Queue A B) (s : S)
    (m : ℕ) (q' : Queue A B) (s' : S)
    → fire host tid w fuel n q s ≡ (ok (ok m), q', s')
    → NothingDue host (timed_events w q') s'
unfolding fire NothingDue
fire-NothingDue {A} {B} {S} host tid w zero n q s m q' s' e = cc
fire-NothingDue {A} {B} {S} host tid w (suc fuel) n q s m q' s' e =
    elim (List-cases (timed_events w q)) [
      | inl none_left ↦ inl (
          ap (λ z. timed_events w z.1) (sym e ∙ fire_empty host tid w fuel n q s none_left)
          ∙ none_left)
      | inr (x, xs, h) ↦ elim (Bool-cases (leb x.event_time (host.clock s).0)) [
        | inr early ↦
            let done = sym e ∙ fire_early host tid w fuel n q s x xs h early in
            inr (
              x,
              xs,
              s,
              ap (λ z. timed_events w z.1) done ∙ h,
              ground (arith, early),
              sym (ap (λ z. z.2) done),
            )
        | inl due ↦
            let rest : Unit → M A B S (Result Error ℕ) =
              λ u. fire host tid w fuel ((n + 1) % size_mod) in
            let (r, q2, s2, _, e2) =
              then_do-ok (apply host tid x.action q (host.clock s).1)
                (λ r q2 s2. checked rest r (pop_timed w q2) s2) (ok m) q' s'
                (sym (fire_due host tid w fuel n q s x xs h due) ∙ e) in
            let (u, _, e3) = checked-ok rest r (pop_timed w q2) s2 m q' s' e2 in
            fire-NothingDue host tid w fuel ((n + 1) % size_mod) (pop_timed w q2) s2 m q' s' e3
      ]
    ]

-- All of the events call an action of the application, as those that are posted on the thread of the
-- queue do.
unfoldable pub AllUser : {A B : Type 0} → List (Timed A B) → Type 0
AllUser [] = Unit
AllUser {A} {B} (x ∷ xs) = ((a : A) × (x.action ≡ user a)) × AllUser xs

pop-timed :
    {A B : Type 0} (w : Timing) (q : Queue A B)
    → timed_events w (pop_timed w q) ≡ without_first (timed_events w q)
pop-timed precision q = refl
pop-timed idle q = refl

-- Where all of the events call actions of the application, which post no timed events and return, the
-- loop ends: fuel beyond the number of events is enough.
pub fire_terminates :
    {A B S : Type 0} (host : Host A B S) (tid : ℕ) (w : Timing) (fuel n : ℕ) (q : Queue A B) (s : S)
    → AllUser (timed_events w q)
    → ((a : A) (q : Queue A B) (s : S) → timed_events w (host.call a q s).1 ≡ timed_events w q)
    → ((a : A) (q : Queue A B) (s : S) → (host.call a q s).0 ≢ err waiting)
    → length (timed_events w q) < fuel
    → (fire host tid w fuel n q s).0 ≢ err waiting
unfolding fire apply AllUser
fire_terminates host tid w zero n q s users same returns small = absurd (omega (arith, small))
fire_terminates {A} {B} {S} host tid w (suc fuel) n q s users same returns small =
    elim (List-cases (timed_events w q)) [
      | inl none_left ↦
          subst (λ z. z.0 ≢ err waiting) (sym (fire_empty host tid w fuel n q s none_left))
            (λ e. cc)
      | inr (x, xs, h) ↦ elim (Bool-cases (leb x.event_time (host.clock s).0)) [
        | inr early ↦
            subst (λ z. z.0 ≢ err waiting) (sym (fire_early host tid w fuel n q s x xs h early))
              (λ e. cc)
        | inl due ↦
            let (a, own) = (subst AllUser h users).0 in
            let rest : Unit → M A B S (Result Error ℕ) =
              λ u. fire host tid w fuel ((n + 1) % size_mod) in
            let call : apply host tid x.action q (host.clock s).1 ≡ host.call a q (host.clock s).1 =
              ap (λ c. apply host tid c q (host.clock s).1) own in
            subst (λ z. z.0 ≢ err waiting) (sym (fire_due host tid w fuel n q s x xs h due))
              (then_do-returns (apply host tid x.action q (host.clock s).1)
                (λ r q2 s2. checked rest r (pop_timed w q2) s2)
                (subst (λ z. z.0 ≢ err waiting) (sym call) (returns a q _))
                (λ r q2 s2 e.
                  let left : timed_events w (pop_timed w q2) ≡ xs =
                    pop-timed w q2
                    ∙ ap without_first
                        (ap (λ z. timed_events w z.1) (sym e ∙ call) ∙ same a q _ ∙ h) in
                  checked-returns rest r (pop_timed w q2) s2 (λ u.
                    fire_terminates host tid w fuel _ (pop_timed w q2) s2
                      (subst AllUser (sym left) (subst AllUser h users).1) same returns
                      (omega (arith, small, ap length h, ap length left)))))
      ]
    ]
