-- ===== src/Suse/Transitions.antt =====
-- The functions "transicion de estados" of suse.c. The process that a function looks up by the socket
-- is named by that id.
use tp_sistemas_operativos_l.Common.{
  ℕ, ◌+◌, ◌-◌, true, some, [], ◌∷◌, ◌++◌, if◌then◌else◌, succℤ, ◌==◌,
}
use tp_sistemas_operativos_l.Suse.State.{
  Ptr, e_ready, e_execute, e_blocked, e_exit, Entorno, m_exit, m_blocked, m_process_list,
}
use tp_sistemas_operativos_l.Suse.Monad.{waits, M, pure, ◌>>=◌, ◌>>◌, cambiar, locked}
use tp_sistemas_operativos_l.Suse.Access.{
  hilo, cambiar_hilo, proceso, cambiar_proceso, quitar, mismo_tid, get_time_today,
}
use tp_sistemas_operativos_l.Suse.Queues.{remover_ult_exec, eliminar_ult_cola_actual}

module _ {D : Type 0} where
  unfoldable pub sem_post : ℕ → M D (Unit {0})
  sem_post pid = cambiar_proceso pid (λ p. record p { semaforo_ready = p.semaforo_ready + 1 })

  unfoldable pub esperar : M D (Unit {0})
  esperar s = waits

  unfoldable pub sem_wait : ℕ → M D (Unit {0})
  sem_wait pid = do
    p ← proceso pid
    if p.semaforo_ready == 0
        then esperar
        else cambiar_proceso pid (λ p. record p { semaforo_ready = p.semaforo_ready - 1 })

  -- pthread_mutex_lock(&mutex_process_list); list_find; unlock.
  unfoldable pub buscar_proceso : ℕ → M D (Unit {0})
  buscar_proceso pid = locked m_process_list (pure tt)

  -- list_remove_by_condition(process->ULTS, buscadorThread).
  unfoldable pub quitar_de_ults : Ptr → ℕ → M D (Unit {0})
  quitar_de_ults thread pid = do
    p ← proceso pid
    t ← hilo thread
    ults' ← quitar (mismo_tid t.tid) p.ults
    cambiar_proceso pid (λ p. record p { ults = ults' })

  -- thread->estado = E_EXIT, and the thread joins the exit queue.
  unfoldable pub a_exit : Ptr → M D (Unit {0})
  a_exit thread = do
    cambiar_hilo thread (λ t. record t { estado = e_exit })
    locked m_exit (cambiar (λ s. record s { exit_queue = s.exit_queue ++ thread ∷ [] }))

  unfoldable pub encolar_bloqueado : Ptr → M D (Unit {0})
  encolar_bloqueado thread =
      locked m_blocked (cambiar (λ s. record s { blocked_queue = s.blocked_queue ++ thread ∷ [] }))

module _ {D : Type 0} (e : Entorno D) where
  unfoldable pub ejecucion_a_exit : Ptr → ℕ → M D (Unit {0})
  ejecucion_a_exit thread socket = do
    buscar_proceso socket
    tiempo ← get_time_today e
    cambiar_hilo thread (λ t. record t {
      tiempo_de_cpu = e.suma t.tiempo_de_cpu (e.resta tiempo t.tiempo_inicial_en_exec);
    })
    remover_ult_exec socket
    quitar_de_ults thread socket
    a_exit thread

  unfoldable pub listo_a_exit : Ptr → ℕ → M D (Unit {0})
  listo_a_exit thread socket = do
    buscar_proceso socket
    tiempo ← get_time_today e
    cambiar_hilo thread (λ t. record t {
      tiempo_de_espera = e.suma t.tiempo_de_espera (e.resta tiempo t.tiempo_inicial_en_ready);
    })
    eliminar_ult_cola_actual thread socket
    quitar_de_ults thread socket
    a_exit thread
    sem_wait socket

  unfoldable pub listo_a_ejecucion : Ptr → ℕ → M D (Unit {0})
  listo_a_ejecucion thread socket = do
    buscar_proceso socket
    tiempo ← get_time_today e
    cambiar_hilo thread (λ t. record t {
      tiempo_inicial_en_exec = tiempo;
      tiempo_de_espera = e.suma t.tiempo_de_espera (e.resta tiempo t.tiempo_inicial_en_ready);
    })
    eliminar_ult_cola_actual thread socket
    cambiar_hilo thread (λ t. record t { estado = e_execute; ejecutado_desde_estimacion = true })
    cambiar_proceso socket (λ p. record p { exec_thread = some thread })

  unfoldable pub nuevo_a_ejecucion : Ptr → ℕ → M D (Unit {0})
  nuevo_a_ejecucion thread socket = do
    aux ← get_time_today e
    eliminar_ult_cola_actual thread socket
    tiempo ← get_time_today e
    cambiar_hilo thread (λ t. record t {
      tiempo_inicial_en_exec = tiempo;
      duracion_rafaga = aux;
      estado = e_execute;
      ejecutado_desde_estimacion = true;
    })
    cambiar_proceso socket (λ p. record p { exec_thread = some thread })
    cambiar (λ s. record s { actual_multiprog = succℤ s.actual_multiprog })

  unfoldable pub ejecucion_a_listo : Ptr → ℕ → M D (Unit {0})
  ejecucion_a_listo thread socket = do
    tiempo ← get_time_today e
    cambiar_hilo thread (λ t. record t {
      tiempo_de_cpu = e.suma t.tiempo_de_cpu (e.resta tiempo t.tiempo_inicial_en_exec);
      tiempo_inicial_en_ready = tiempo;
    })
    remover_ult_exec socket
    cambiar_hilo thread (λ t. record t { estado = e_ready })
    cambiar_proceso socket (λ p. record p { ready_list = p.ready_list ++ thread ∷ [] })
    sem_post socket

  unfoldable pub bloqueado_a_listo : Ptr → ℕ → M D (Unit {0})
  bloqueado_a_listo thread program = do
    tiempo ← get_time_today e
    cambiar_hilo thread (λ t. record t { tiempo_inicial_en_ready = tiempo })
    eliminar_ult_cola_actual thread program
    cambiar_hilo thread (λ t. record t { estado = e_ready })
    cambiar_proceso program (λ p. record p { ready_list = p.ready_list ++ thread ∷ [] })
    sem_post program

  unfoldable pub nuevo_a_listo : Ptr → ℕ → M D (Unit {0})
  nuevo_a_listo thread pid = do
    tiempo ← get_time_today e
    cambiar_hilo thread (λ t. record t { tiempo_inicial_en_ready = tiempo })
    cambiar_proceso pid (λ p. record p { ready_list = p.ready_list ++ thread ∷ [] })
    eliminar_ult_cola_actual thread pid
    cambiar_hilo thread (λ t. record t { estado = e_ready })
    cambiar (λ s. record s { actual_multiprog = succℤ s.actual_multiprog })
    sem_post pid

  -- if(duracionRafaga > 0) duracionRafaga = now - duracionRafaga.
  unfoldable pub cerrar_rafaga : Ptr → M D (Unit {0})
  cerrar_rafaga thread = do
    t ← hilo thread
    if e.menor e.cero t.duracion_rafaga
        then (do
          tiempo ← get_time_today e
          cambiar_hilo thread
              (λ u. record u { duracion_rafaga = e.resta tiempo t.duracion_rafaga }))
        else pure tt

  -- The common part of the two functions that block a running thread, up to its estado.
  unfoldable pub dejar_exec : Ptr → ℕ → M D (Unit {0})
  dejar_exec thread socket = do
    tiempo ← get_time_today e
    cambiar_hilo thread (λ t. record t {
      tiempo_de_cpu = e.suma t.tiempo_de_cpu (e.resta tiempo t.tiempo_inicial_en_exec);
    })
    cerrar_rafaga thread
    remover_ult_exec socket
    cambiar_hilo thread (λ t. record t { estado = e_blocked })

  unfoldable pub ejecucion_a_bloqueado : Ptr → ℕ → M D (Unit {0})
  ejecucion_a_bloqueado thread socket = do dejar_exec thread socket; encolar_bloqueado thread

module _ {D : Type 0} where
  -- bloqueado_a_exit and nuevo_a_exit are the same but for the log line.
  unfoldable pub sin_medir_a_exit : Ptr → ℕ → M D (Unit {0})
  sin_medir_a_exit thread socket = do
    buscar_proceso socket
    eliminar_ult_cola_actual thread socket
    quitar_de_ults thread socket
    a_exit thread

  unfoldable pub bloqueado_a_exit : Ptr → ℕ → M D (Unit {0})
  bloqueado_a_exit = sin_medir_a_exit

  unfoldable pub nuevo_a_exit : Ptr → ℕ → M D (Unit {0})
  nuevo_a_exit = sin_medir_a_exit
