-- ===== src/Suse/Effects/Triple.antt =====
-- Commands by their effect: which relation holds between the states before and after a normal return.
use tp_sistemas_operativos_l.Common.{
  ℤ, Bool, true, false, ◌≡◌, ap, ◌∙◌, List, ◌∷◌, inl, inr, Bool-cases, if◌then◌else◌,
}
use tp_sistemas_operativos_l.Suse.State.{Semaforo, State, Mutex}
use tp_sistemas_operativos_l.Suse.Monad.{
  Outcome, ok, fault, deadlock, waits, M, and_then, ◌>>=◌, cambiar, tiene, soltar, unlock, locked,
  soltar_head,
}

-- The postcondition of a run that returns.
pub data Post {D A : Type 0} (Q : A → State D → Type 0) : Outcome D A → Type 0 where
  post_ok : {a : A} {s : State D} → Q a s → Post Q (ok a s)
  post_fault : Post Q fault
  post_deadlock : Post Q deadlock
  post_waits : Post Q waits

-- The multiprogramming degree and the semaphores.
abbrev pub View : Type 0
View = ℤ × List Semaforo

abbrev pub view : {D : Type 0} → State D → View
view s = (s.actual_multiprog, s.semaforos)

abbrev pub Counter : Type 1
Counter = View → View → Type 0

-- The locks are as before, and the view moves by `R`.
pub record Moves (R : Counter) {D : Type 0} (s s' : State D) : Type 0 where
  pub locks : s'.held ≡ s.held
  pub degree : R (view s) (view s')

pub record Keeps (R : Counter) {D A : Type 0} (m : M D A) : Type 0 where
  pub run : (s : State D) → Post (λ _ s'. Moves R s s') (m s)

module _ {D A : Type 0} where
  pub Post-mono :
      {P Q : A → State D → Type 0} {r : Outcome D A}
      → Post P r
      → ((a : A) (s : State D) → P a s → Q a s)
      → Post Q r
  Post-mono (post_ok p) w = post_ok (w _ _ p)
  Post-mono post_fault w = post_fault
  Post-mono post_deadlock w = post_deadlock
  Post-mono post_waits w = post_waits

  pub Post-bind :
      {B : Type 0} {P : A → State D → Type 0} {Q : B → State D → Type 0} {r : Outcome D A}
      {f : A → M D B}
      → Post P r
      → ((a : A) (s : State D) → P a s → Post Q (f a s))
      → Post Q (and_then r f)
  unfolding and_then
  Post-bind (post_ok p) w = w _ _ p
  Post-bind post_fault w = post_fault
  Post-bind post_deadlock w = post_deadlock
  Post-bind post_waits w = post_waits

module _ {R S T : Counter} (compose : (x y z : View) → R x y → S y z → T x z) {D A B : Type 0} where
  pub Keeps-bind :
      {m : M D A} {f : A → M D B} → Keeps R m → ((a : A) → Keeps S (f a)) → Keeps T (m >>= f)
  unfolding ◌>>=◌ and_then
  Keeps-bind k l = record {
    run = λ s. Post-bind (k.run s) λ a s' p.
        Post-mono ((l a).run s')
          λ b s'' q. record { locks = q.locks ∙ p.locks; degree = compose _ _ _ p.degree q.degree };
  }

module _ {R : Counter} {D : Type 0} where
  Post-unlock :
      {A : Type 0} (m : Mutex) (s : State D) (r : Outcome D A)
      → Post (λ _ s'. Moves R (record s { held = m ∷ s.held }) s') r
      → Post (λ _ s'. Moves R s s') (unlock m r)
  unfolding unlock
  Post-unlock m s (ok a s') (post_ok p) =
      post_ok (record { locks = ap (soltar m) p.locks ∙ soltar_head m s.held; degree = p.degree })
  Post-unlock m s fault p = post_fault
  Post-unlock m s deadlock p = post_deadlock
  Post-unlock m s waits p = post_waits

  -- A bracket of lock and unlock leaves the locks as they were.
  pub Keeps-locked :
      {A : Type 0} (m : Mutex) {body : M D A} → Keeps R body → Keeps R (locked m body)
  unfolding locked
  Keeps-locked m {body} k = record {
    run = λ s. elim (Bool-cases (tiene m s.held)) [
      | inl e ↦ rw e post_deadlock
      | inr e ↦ rw e (Post-unlock m s (body (record s { held = m ∷ s.held })) (k.run _))
    ];
  }

  pub Keeps-if :
      {A : Type 0} (b : Bool) {m n : M D A} → Keeps R m → Keeps R n → Keeps R (if b then m else n)
  Keeps-if true k l = k
  Keeps-if false k l = l

  pub Keeps-cambiar :
      {f : State D → State D} → ((s : State D) → Moves R s (f s)) → Keeps R (cambiar f)
  unfolding cambiar
  Keeps-cambiar h = record { run = λ s. post_ok (h s) }

  pub Keeps-weaken :
      {S : Counter} {A : Type 0} {m : M D A}
      → ((x y : View) → R x y → S x y)
      → Keeps R m
      → Keeps S m
  Keeps-weaken w k = record {
    run = λ s. Post-mono (k.run s) λ a s' p. record { locks = p.locks; degree = w _ _ p.degree };
  }
