-- ===== src/Suse/Access.antt =====
-- Reads and writes of threads, processes and the clock, and the searches of the commons lists with the
-- conditions that suse.c gives them.
use tp_sistemas_operativos_l.Common.{
  ℕ, ◌+◌, Bool, ◌&&◌, Option, none, some, List, [], ◌∷◌, ◌==◌, if◌then◌else◌,
}
use tp_sistemas_operativos_l.Suse.State.{Ptr, Thread, Process, Entorno}
use tp_sistemas_operativos_l.Suse.Monad.{ok, fault, M, pure, ◌>>=◌, cambiar}

unfoldable pub write {ℓ} : {A : Type ℓ} → (Ptr → A) → Ptr → A → Ptr → A
write h p v q = if q == p then v else h q

-- The first process with the id, as `list_find` gives it.
unfoldable pub find_process : ℕ → List Process → Option Process
find_process pid [] = none
find_process pid (p ∷ ps) = if p.process_id == pid then some p else find_process pid ps

unfoldable pub update_process : ℕ → (Process → Process) → List Process → List Process
update_process pid f [] = []
update_process pid f (p ∷ ps) =
    if p.process_id == pid then f p ∷ ps else p ∷ update_process pid f ps

unfoldable pub remove_process : ℕ → List Process → List Process
remove_process pid [] = []
remove_process pid (p ∷ ps) = if p.process_id == pid then ps else p ∷ remove_process pid ps

module _ {D : Type 0} where
  unfoldable pub deref_or : Option (Thread D) → M D (Thread D)
  deref_or none s = fault
  deref_or (some t) s = ok t s

  -- thread->…
  unfoldable pub hilo : Ptr → M D (Thread D)
  hilo p s = deref_or (s.heap p) s

  unfoldable pub guardar_hilo : Ptr → Thread D → M D (Unit {0})
  guardar_hilo p t = cambiar (λ s. record s { heap = write s.heap p (some t) })

  -- thread->… = …
  unfoldable pub cambiar_hilo : Ptr → (Thread D → Thread D) → M D (Unit {0})
  cambiar_hilo p f = do t ← hilo p; guardar_hilo p (f t)

  -- `free` of a thread; a second `free` is a fault.
  unfoldable pub liberar_hilo : Ptr → M D (Unit {0})
  liberar_hilo p = do _ ← hilo p; cambiar (λ s. record s { heap = write s.heap p none })

  unfoldable pub process_or : Option Process → M D Process
  process_or none s = fault
  process_or (some p) s = ok p s

  -- The process that list_find gives, read through at once.
  unfoldable pub proceso : ℕ → M D Process
  proceso pid s = process_or (find_process pid s.process) s

  -- process->… = …
  unfoldable pub cambiar_proceso : ℕ → (Process → Process) → M D (Unit {0})
  cambiar_proceso pid f = do
    _ ← proceso pid
    cambiar (λ s. record s { process = update_process pid f s.process })

  -- list_find with the condition th->tid == tid: each thread passed is read.
  unfoldable pub buscar_tid : ℕ → List Ptr → M D (Option Ptr)
  buscar_tid tid [] = pure none
  buscar_tid tid (p ∷ ps) = do t ← hilo p; if t.tid == tid then pure (some p) else buscar_tid tid ps

  -- list_remove_by_condition: the first thread that meets the condition leaves the list.
  unfoldable pub quitar : (Thread D → Bool) → List Ptr → M D (List Ptr)
  quitar cond [] = pure []
  quitar cond (p ∷ ps) = do
    t ← hilo p
    if cond t then pure ps else do rest ← quitar cond ps; pure (p ∷ rest)

  -- get_time_today.
  unfoldable pub get_time_today : Entorno D → M D D
  get_time_today e s = ok (e.reloj s.lecturas) (record s { lecturas = s.lecturas + 1 })

unfoldable pub mismo_tid : {D : Type 0} → ℕ → Thread D → Bool
mismo_tid tid t = t.tid == tid

unfoldable pub mismo_tid_y_proceso : {D : Type 0} → ℕ → ℕ → Thread D → Bool
mismo_tid_y_proceso tid pid t = (t.tid == tid) && (t.proceso_id == pid)
