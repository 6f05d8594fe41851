-- ===== src/Suse/Monad.antt =====
-- Commands over the state of SUSE: what a handler can do besides returning.
use tp_sistemas_operativos_l.Common.{Bool, true, false, List, [], ◌∷◌, if◌then◌else◌, ◌≡◌, refl}
use tp_sistemas_operativos_l.Suse.State.{
  State, Mutex, m_new, m_blocked, m_exit, m_semaforos, m_multiprog, m_process_list,
}

-- `fault`: a read through NULL or through a freed thread. `deadlock`: a lock of a mutex that the
-- handler holds already (the mutexes are the default, not recursive, ones). `waits`: `sem_wait` at 0.
pub data Outcome (D : Type 0) (A : Type 0) : Type 0 where
  ok : A → State D → Outcome D A
  fault : Outcome D A
  deadlock : Outcome D A
  waits : Outcome D A

abbrev pub M : Type 0 → Type 0 → Type 0
M D A = State D → Outcome D A

module _ {D : Type 0} where
  unfoldable pub pure : {A : Type 0} → A → M D A
  pure a s = ok a s

  unfoldable pub fallar : {A : Type 0} → M D A
  fallar s = fault

  unfoldable pub and_then : {A B : Type 0} → Outcome D A → (A → M D B) → Outcome D B
  and_then (ok a s) f = f a s
  and_then fault f = fault
  and_then deadlock f = deadlock
  and_then waits f = waits

  infixl 5 ◌>>=◌ ◌>>◌
  unfoldable pub ◌>>=◌ : {A B : Type 0} → M D A → (A → M D B) → M D B
  ◌>>=◌ m f s = and_then (m s) f

  abbrev pub ◌>>◌ : {B : Type 0} → M D (Unit {0}) → M D B → M D B
  m >> k = m >>= λ _. k

  -- Reads from the globals.
  unfoldable pub leer : {A : Type 0} → (State D → A) → M D A
  leer f s = ok (f s) s

  -- A plain assignment to the globals.
  unfoldable pub cambiar : (State D → State D) → M D (Unit {0})
  cambiar f s = ok tt (f s)

unfoldable pub mutex_eq : Mutex → Mutex → Bool
mutex_eq m_new m_new = true
mutex_eq m_blocked m_blocked = true
mutex_eq m_exit m_exit = true
mutex_eq m_semaforos m_semaforos = true
mutex_eq m_multiprog m_multiprog = true
mutex_eq m_process_list m_process_list = true
mutex_eq _ _ = false

unfoldable pub tiene : Mutex → List Mutex → Bool
tiene m [] = false
tiene m (x ∷ xs) = if mutex_eq m x then true else tiene m xs

unfoldable pub soltar : Mutex → List Mutex → List Mutex
soltar m [] = []
soltar m (x ∷ xs) = if mutex_eq m x then xs else x ∷ soltar m xs

module _ {D : Type 0} where
  unfoldable pub unlock : {A : Type 0} → Mutex → Outcome D A → Outcome D A
  unlock m (ok a s) = ok a (record s { held = soltar m s.held })
  unlock m fault = fault
  unlock m deadlock = deadlock
  unlock m waits = waits

  -- pthread_mutex_lock(m); body; pthread_mutex_unlock(m).
  unfoldable pub locked : {A : Type 0} → Mutex → M D A → M D A
  locked m body s =
      if tiene m s.held then deadlock else unlock m (body (record s { held = m ∷ s.held }))

pub soltar_head : (m : Mutex) (xs : List Mutex) → soltar m (m ∷ xs) ≡ xs
unfolding soltar mutex_eq
soltar_head m_new xs = refl
soltar_head m_blocked xs = refl
soltar_head m_exit xs = refl
soltar_head m_semaforos xs = refl
soltar_head m_multiprog xs = refl
soltar_head m_process_list xs = refl
