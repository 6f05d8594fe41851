-- ===== src/Suse/Effects/Updates.antt =====
-- Changes of one semaphore of the list, and the commands of suse.c that make one.
use Prim.Native.String.{String}
use text.Mathlib.Text.{◌==◌ as str_eq}
use tp_sistemas_operativos_l.Common.{
  ℕ, ℤ, All, ◌≡◌, refl, sym, ap, subst, true, false, Bool-cases, inl, inr, some, List, [], ◌∷◌,
  ◌++◌, arith,
}
use tp_sistemas_operativos_l.Suse.State.{Ptr, Semaforo, Entorno}
use tp_sistemas_operativos_l.Suse.Monad.{M, ◌>>=◌}
use tp_sistemas_operativos_l.Suse.Semaphores.{
  find_semaforo, update_semaforo, sin_primero, cambiar_semaforo, ejecucion_a_bloqueado_por_semaforo,
}
use tp_sistemas_operativos_l.Suse.Effects.Triple.{
  Counter, Keeps, Keeps-bind, Keeps-cambiar, Keeps-weaken,
}
use tp_sistemas_operativos_l.Suse.Effects.Quiet.{same, IsQuiet, quiet_base, buscar_tid-IsQuiet}
use tp_sistemas_operativos_l.Suse.Effects.Parts.{
  no_nulo-IsQuiet, dejar_exec-IsQuiet, encolar_bloqueado-IsQuiet,
}
use tp_sistemas_operativos_l.Suse.Effects.Bound.{IsBalanced}

-- A new thread at the end of the list of waiters.
abbrev pub esperando : Ptr → Semaforo → Semaforo
esperando t x = record x { blocked_list = x.blocked_list ++ t ∷ [] }

abbrev pub con_valor : (ℤ → ℤ) → Semaforo → Semaforo
con_valor f x = record x { value = f x.value }

abbrev pub sin_el_primero : Semaforo → Semaforo
sin_el_primero x = record x { blocked_list = sin_primero x.blocked_list }

module _ (name : String) (f : Semaforo → Semaforo) where
  pub All-update :
      (xs : List Semaforo) {x : Semaforo}
      → find_semaforo name xs ≡ some x
      → IsBalanced (f x)
      → All IsBalanced xs
      → All IsBalanced (update_semaforo name f xs)
  unfolding find_semaforo update_semaforo
  All-update [] e b bs = bs
  All-update (y ∷ ys) {x} e b bs = elim (Bool-cases (str_eq y.name name)) [
    | inl h ↦ rw h (subst (λ z. IsBalanced (f z)) (sym (same_head h)) b, bs.1)
    | inr h ↦ rw h (bs.0, All-update ys (later h) b bs.1)
  ]
    where
      same_head : str_eq y.name name ≡ true → y ≡ x
      same_head h = ground arith

      later : str_eq y.name name ≡ false → find_semaforo name ys ≡ some x
      later h = ground arith

  -- A semaphore that a search gives is in order.
  pub find-IsBalanced :
      (xs : List Semaforo) {x : Semaforo}
      → find_semaforo name xs ≡ some x
      → All IsBalanced xs
      → IsBalanced x
  unfolding find_semaforo
  find-IsBalanced [] e bs = cc
  find-IsBalanced (y ∷ ys) {x} e bs = elim (Bool-cases (str_eq y.name name)) [
    | inl h ↦ subst IsBalanced (same_head h) bs.0
    | inr h ↦ find-IsBalanced ys (later h) bs.1
  ]
    where
      same_head : str_eq y.name name ≡ true → y ≡ x
      same_head h = ground arith

      later : str_eq y.name name ≡ false → find_semaforo name ys ≡ some x
      later h = ground arith

pub update-update :
    (name : String) (f g : Semaforo → Semaforo) (xs : List Semaforo)
    → ((x : Semaforo) → (f x).name ≡ x.name)
    → update_semaforo name g (update_semaforo name f xs) ≡ update_semaforo name (λ x. g (f x)) xs
unfolding update_semaforo
update-update name f g [] k = refl
update-update name f g (x ∷ xs) k = elim (Bool-cases (str_eq x.name name)) [
  | inl h ↦ rw h (rw (k x) (rw h refl))
  | inr h ↦ rw h (rw h (ap (◌∷◌ x) (update-update name f g xs k)))
]

pub find-update :
    (name : String) (f : Semaforo → Semaforo) (xs : List Semaforo) {x : Semaforo}
    → ((x : Semaforo) → (f x).name ≡ x.name)
    → find_semaforo name xs ≡ some x
    → find_semaforo name (update_semaforo name f xs) ≡ some (f x)
unfolding find_semaforo update_semaforo
find-update name f [] k e = cc
find-update name f (y ∷ ys) {x} k e = elim (Bool-cases (str_eq y.name name)) [
  | inl h ↦ rw h (simp (k y, h) (ap (λ z. some (f z)) (same_head h)))
  | inr h ↦ rw h (simp h (find-update name f ys k (later h)))
]
  where
    same_head : str_eq y.name name ≡ true → y ≡ x
    same_head h = ground arith

    later : str_eq y.name name ≡ false → find_semaforo name ys ≡ some x
    later h = ground arith

-- The semaphore of that name changes by `f`, and nothing else in the view does.
unfoldable pub updates : String → (Semaforo → Semaforo) → Counter
updates name f x y = y ≡ (x.0, update_semaforo name f x.1)

-- One more thread waits on the semaphore.
unfoldable pub pushes : String → Counter
pushes name x y = (t : Ptr) × updates name (esperando t) x y

module _ {D : Type 0} where
  pub cambiar_semaforo-updates :
      (name : String) (f : Semaforo → Semaforo)
      → Keeps (updates name f) {D = D} (cambiar_semaforo name f)
  unfolding updates cambiar_semaforo
  cambiar_semaforo-updates name f = Keeps-cambiar (λ s. record { locks = refl; degree = refl })

  pub quiet-left :
      {R : Counter} {A B : Type 0} {m : M D A} {f : A → M D B}
      → IsQuiet m
      → ((a : A) → Keeps R (f a))
      → Keeps R (m >>= f)
  unfolding same
  quiet-left {R} = Keeps-bind (λ x y z p q. subst (λ w. R w z) p q)

  pub quiet-right :
      {R : Counter} {A B : Type 0} {m : M D A} {f : A → M D B}
      → Keeps R m
      → ((a : A) → IsQuiet (f a))
      → Keeps R (m >>= f)
  unfolding same
  quiet-right {R} = Keeps-bind (λ x y z p q. subst (λ w. R x w) (sym q) p)

  pub push-pushes :
      (name : String) (t : Ptr) → Keeps (pushes name) {D = D} (cambiar_semaforo name (esperando t))
  unfolding pushes
  push-pushes name t = Keeps-weaken (λ x y p. (t, p)) (cambiar_semaforo-updates name (esperando t))

module _ {D : Type 0} (e : Entorno D) where
  pub bloquear-pushes :
      (tid pid : ℕ) (name : String)
      → Keeps (pushes name) (ejecucion_a_bloqueado_por_semaforo e tid pid name)
  unfolding ejecucion_a_bloqueado_por_semaforo
  bloquear-pushes tid pid name =
      search
        (
          quiet_base, quiet-left, quiet-right, push-pushes, buscar_tid-IsQuiet, no_nulo-IsQuiet,
          dejar_exec-IsQuiet, encolar_bloqueado-IsQuiet,
        )
        depth 12
  -- A change that keeps the semaphore it is made to in order keeps all in order.
