-- ===== src/Suse/Semaphores.antt =====
-- The semaphores that programs share: init_semaforos, decrementar_semaforo, incrementar_semaforo and
-- desbloquear_hilos_semaforo.
use Prim.Native.String.{String}
use text.Mathlib.Text.{◌==◌ as str_eq}
use tp_sistemas_operativos_l.Common.{
  ℕ, ℤ, pos, negsuc, succℤ, predℤ, leℤ, Bool, ◌&&◌, Option, none, some, List, [], ◌∷◌, ◌++◌,
  if◌then◌else◌,
}
use tp_sistemas_operativos_l.Suse.State.{Ptr, Semaforo, Entorno}
use tp_sistemas_operativos_l.Suse.Monad.{ok, fault, M, pure, fallar, ◌>>=◌, ◌>>◌, leer, cambiar}
use tp_sistemas_operativos_l.Suse.Access.{hilo, proceso, buscar_tid}
use tp_sistemas_operativos_l.Suse.Transitions.{bloqueado_a_listo, dejar_exec, encolar_bloqueado}

-- One entry of SEM_IDS, SEM_INIT and SEM_MAX.
unfoldable pub crear_semaforo : String × ℤ × ℤ → Semaforo
crear_semaforo (name, init, max) = record {
  name = name;
  init = init;
  max = max;
  value = init;
  blocked_list = [];
}

unfoldable pub init_semaforos : List (String × ℤ × ℤ) → List Semaforo
init_semaforos [] = []
init_semaforos (c ∷ cs) = crear_semaforo c ∷ init_semaforos cs

unfoldable pub find_semaforo : String → List Semaforo → Option Semaforo
find_semaforo name [] = none
find_semaforo name (x ∷ xs) = if str_eq x.name name then some x else find_semaforo name xs

unfoldable pub update_semaforo : String → (Semaforo → Semaforo) → List Semaforo → List Semaforo
update_semaforo name f [] = []
update_semaforo name f (x ∷ xs) =
    if str_eq x.name name then f x ∷ xs else x ∷ update_semaforo name f xs

-- list_remove(…, 0).
unfoldable pub sin_primero : List Ptr → List Ptr
sin_primero [] = []
sin_primero (p ∷ ps) = ps

abbrev pub igualℤ : ℤ → ℤ → Bool
igualℤ a b = leℤ a b && leℤ b a

module _ {D : Type 0} where
  unfoldable pub cambiar_semaforo : String → (Semaforo → Semaforo) → M D (Unit {0})
  cambiar_semaforo name f =
      cambiar (λ s. record s { semaforos = update_semaforo name f s.semaforos })

  -- The thread that a list search gave, when the code reads through it without a test.
  unfoldable pub no_nulo : Option Ptr → M D Ptr
  no_nulo none s = fault
  no_nulo (some p) s = ok p s

  unfoldable pub incrementar : String → Option Semaforo → M D ℤ
  incrementar name none = pure (negsuc 0)
  incrementar name (some x) =
      if igualℤ x.value x.max
      then pure (negsuc 0)
      else do cambiar_semaforo name (λ x. record x { value = succℤ x.value }); pure (pos 0)

  unfoldable pub incrementar_semaforo : String → M D ℤ
  incrementar_semaforo name = do x ← leer (λ s. find_semaforo name s.semaforos); incrementar name x

module _ {D : Type 0} (e : Entorno D) where
  unfoldable pub ejecucion_a_bloqueado_por_semaforo : ℕ → ℕ → String → M D (Unit {0})
  ejecucion_a_bloqueado_por_semaforo tid socket name = do
    p ← proceso socket
    found ← buscar_tid tid p.ults
    thread ← no_nulo found
    dejar_exec e thread socket
    cambiar_semaforo name (λ x. record x { blocked_list = x.blocked_list ++ thread ∷ [] })
    encolar_bloqueado thread

  unfoldable pub decrementar : ℕ → ℕ → String → Option Semaforo → M D ℤ
  decrementar socket tid name none = pure (negsuc 0)
  decrementar socket tid name (some x) = do
    if leℤ x.value (pos 0) then ejecucion_a_bloqueado_por_semaforo tid socket name else pure tt
    cambiar_semaforo name (λ x. record x { value = predℤ x.value })
    pure (pos 0)

  unfoldable pub decrementar_semaforo : ℕ → ℕ → String → M D ℤ
  decrementar_semaforo socket tid name = do
    x ← leer (λ s. find_semaforo name s.semaforos)
    decrementar socket tid name x

  -- The first thread of the semaphore's list, if there is one.
  unfoldable pub desbloquear : String → List Ptr → M D ℤ
  desbloquear name [] = pure (pos 0)
  desbloquear name (thread ∷ rest) = do
    t ← hilo thread
    p ← proceso t.proceso_id
    bloqueado_a_listo e thread p.process_id
    cambiar_semaforo name (λ x. record x { blocked_list = sin_primero x.blocked_list })
    pure (pos 0)

  unfoldable pub desbloquear_hilos : String → Option Semaforo → M D ℤ
  desbloquear_hilos name none = fallar
  desbloquear_hilos name (some x) = desbloquear name x.blocked_list

  unfoldable pub desbloquear_hilos_semaforo : String → M D ℤ
  desbloquear_hilos_semaforo name = do
    x ← leer (λ s. find_semaforo name s.semaforos)
    desbloquear_hilos name x
