-- ===== src/Suse/Service.antt =====
-- The requests of the threads library: suse_create, schedule_next, wait, signal, join and close.
-- A request is decoded already, and its answer is the value that the handler sends back.
use Prim.Native.String.{String}
use tp_sistemas_operativos_l.Common.{
  ℕ, ◌+◌, ℤ, pos, negsuc, succℤ, predℤ, leℤ, Bool, false, Option, none, some, List, [], ◌∷◌, ◌++◌,
  ◌==◌, if◌then◌else◌,
}
use tp_sistemas_operativos_l.Suse.State.{
  Ptr, Estado, e_ready, e_execute, e_blocked, e_exit, e_new, Thread, Process, Entorno, State, m_new,
  m_blocked, m_multiprog, m_semaforos,
}
use tp_sistemas_operativos_l.Suse.Monad.{M, pure, ◌>>=◌, ◌>>◌, leer, cambiar, locked}
use tp_sistemas_operativos_l.Suse.Access.{
  write, find_process, remove_process, hilo, cambiar_hilo, liberar_hilo, proceso, cambiar_proceso,
  buscar_tid, quitar, mismo_tid, get_time_today,
}
use tp_sistemas_operativos_l.Suse.Transitions.{
  ejecucion_a_exit, listo_a_exit, bloqueado_a_exit, nuevo_a_exit, nuevo_a_listo, nuevo_a_ejecucion,
  bloqueado_a_listo, ejecucion_a_bloqueado,
}
use tp_sistemas_operativos_l.Suse.Planner.{obtener_proximo_ejecutar}
use tp_sistemas_operativos_l.Suse.Semaphores.{
  no_nulo, decrementar_semaforo, incrementar_semaforo, desbloquear_hilos_semaforo,
}
use tp_sistemas_operativos_l.Suse.Metrics.{metricas}

module _ {D : Type 0} (e : Entorno D) where
  -- MAX_MULTIPROG >= ACTUAL_MULTIPROG + 1.
  unfoldable pub validar_grado_multiprogramacion : State D → Bool
  validar_grado_multiprogramacion s = leℤ (succℤ s.actual_multiprog) e.max_multiprog

  unfoldable pub generar_process : ℕ → Process
  generar_process pid = record {
    ults = [];
    process_id = pid;
    ready_list = [];
    exec_thread = none;
    semaforo_ready = 0;
  }

  unfoldable pub nuevo_hilo : ℕ → ℕ → D → Thread D
  nuevo_hilo tid pid tiempo = record {
    tid = tid;
    estado = e_new;
    proceso_id = pid;
    duracion_rafaga = e.cero;
    estimacion_ultima_rafaga = e.cero;
    ejecutado_desde_estimacion = false;
    joined_by = [];
    join_to = [];
    tiempo_de_ejecucion = tiempo;
    tiempo_de_espera = e.cero;
    tiempo_de_cpu = e.cero;
    tiempo_inicial_en_ready = e.sin_iniciar;
    tiempo_inicial_en_exec = e.sin_iniciar;
  }

  -- `malloc` gives an address that was never given before.
  unfoldable pub ult_create : ℕ → ℕ → M D Ptr
  ult_create pid tid = do
    tiempo ← get_time_today e
    p ← leer (λ s. s.fresh)
    cambiar
        (λ s. record s { heap = write s.heap p (some (nuevo_hilo tid pid tiempo)); fresh = p + 1 })
    cambiar_proceso pid (λ q. record q { ults = q.ults ++ p ∷ [] })
    cambiar (λ s. record s { new_queue = s.new_queue ++ p ∷ [] })
    pure p

  -- if(validar_grado_multiprogramacion()) m
  unfoldable pub si_hay_lugar : M D (Unit {0}) → M D (Unit {0})
  si_hay_lugar m = do lugar ← leer validar_grado_multiprogramacion; if lugar then m else pure tt

  unfoldable pub handle_ult_create : ℕ → ℕ → M D (Unit {0})
  handle_ult_create pid tid = do
    new_thread ← ult_create pid tid
    locked m_multiprog (si_hay_lugar (nuevo_a_listo e new_thread pid))

  unfoldable pub handle_main_thread_create : ℕ → ℕ → M D (Unit {0})
  handle_main_thread_create pid tid = do
    cambiar (λ s. record s { process = s.process ++ generar_process pid ∷ [] })
    main_thread ← ult_create pid tid
    locked m_multiprog (si_hay_lugar (nuevo_a_ejecucion e main_thread pid))

  unfoldable pub crear_en : Option Process → ℕ → ℕ → M D (Unit {0})
  crear_en none pid tid = handle_main_thread_create pid tid
  crear_en (some p) pid tid = handle_ult_create pid tid

  unfoldable pub handle_suse_create : ℕ → ℕ → M D (Unit {0})
  handle_suse_create pid tid = do p ← leer (λ s. find_process pid s.process); crear_en p pid tid

  unfoldable pub handle_next_tid : ℕ → M D ℤ
  handle_next_tid pid = do _ ← proceso pid; obtener_proximo_ejecutar e pid

  unfoldable pub handle_wait_sem : ℕ → ℕ → String → M D ℤ
  handle_wait_sem pid tid name = locked m_semaforos (decrementar_semaforo e pid tid name)

  -- resultado != -1: the two answers of incrementar_semaforo are 0 and -1.
  unfoldable pub tras_incrementar : ℤ → String → M D ℤ
  tras_incrementar (pos n) name = desbloquear_hilos_semaforo e name
  tras_incrementar (negsuc n) name = pure (negsuc n)

  unfoldable pub handle_signal_sem : String → M D ℤ
  handle_signal_sem name =
      locked m_semaforos do resultado ← incrementar_semaforo name; tras_incrementar resultado name

  unfoldable pub join_hilos : Option Ptr → Option Ptr → ℕ → M D ℤ
  join_hilos (some thread_executing) (some thread_joined) pid = do
    cambiar_hilo thread_executing (λ t. record t { join_to = t.join_to ++ thread_joined ∷ [] })
    cambiar_hilo thread_joined (λ t. record t { joined_by = t.joined_by ++ thread_executing ∷ [] })
    ejecucion_a_bloqueado e thread_executing pid
    pure (pos 0)
  join_hilos _ _ pid = pure (pos 0)

  unfoldable pub join : ℕ → ℕ → M D ℤ
  join pid tid = do
    p ← proceso pid
    thread_joined ← buscar_tid tid p.ults
    join_hilos p.exec_thread thread_joined pid

  -- obtener_ult_ready_fifo, on the new queue.
  unfoldable pub promover : List Ptr → M D (Unit {0})
  promover [] = pure tt
  promover (thread ∷ _) = do
    t ← hilo thread
    p ← proceso t.proceso_id
    nuevo_a_listo e thread p.process_id

  unfoldable pub obtener_ult_ready_fifo : M D (Unit {0})
  obtener_ult_ready_fifo = do q ← leer (λ s. s.new_queue); promover q

  -- The branch of desjoinear_hilo for a thread that waits for nobody any more.
  unfoldable pub despertar : Ptr → M D (Unit {0})
  despertar thread_joiner = locked m_multiprog do
    lugar ← leer validar_grado_multiprogramacion
    if lugar
        then (do t ← hilo thread_joiner; bloqueado_a_listo e thread_joiner t.proceso_id)
        else (do
          cambiar_hilo thread_joiner (λ t. record t { estado = e_new })
          locked m_new (cambiar (λ s. record s { new_queue = s.new_queue ++ thread_joiner ∷ [] })))

  unfoldable pub despertar_si_libre : List Ptr → Ptr → M D (Unit {0})
  despertar_si_libre [] thread_joiner = despertar thread_joiner
  despertar_si_libre (_ ∷ _) thread_joiner = pure tt

  unfoldable pub desjoinear_hilo : Ptr → Ptr → M D (Unit {0})
  desjoinear_hilo thread_joineado thread_joiner = do
    th ← hilo thread_joineado
    t ← hilo thread_joiner
    join_to' ← quitar (mismo_tid th.tid) t.join_to
    cambiar_hilo thread_joiner (λ t. record t { join_to = join_to' })
    despertar_si_libre join_to' thread_joiner

  unfoldable pub desjoinear : Ptr → List Ptr → M D (Unit {0})
  desjoinear thread_joineado [] = pure tt
  desjoinear thread_joineado (thread ∷ rest) = do
    desjoinear_hilo thread_joineado thread
    desjoinear thread_joineado rest

  unfoldable pub destruir_hilos : List Ptr → M D (Unit {0})
  destruir_hilos [] = pure tt
  destruir_hilos (p ∷ ps) = do liberar_hilo p; destruir_hilos ps

  -- Closing the main thread ends the process.
  unfoldable pub cerrar_proceso : List Ptr → ℕ → M D ℤ
  cerrar_proceso ults pid = do
    destruir_hilos ults
    cambiar (λ s. record s { process = remove_process pid s.process })
    pure (e.close_socket pid)

  unfoldable pub bajar_multiprog : M D (Unit {0})
  bajar_multiprog = cambiar (λ s. record s { actual_multiprog = predℤ s.actual_multiprog })

  -- switch(thread->estado) of close_tid.
  unfoldable pub cerrar_segun : Estado → Ptr → ℕ → M D (Unit {0})
  cerrar_segun e_new thread pid = locked m_new (nuevo_a_exit thread pid)
  cerrar_segun e_blocked thread pid = locked m_blocked (
      locked m_multiprog
        do bajar_multiprog; bloqueado_a_exit thread pid; si_hay_lugar obtener_ult_ready_fifo)
  cerrar_segun e_ready thread pid =
      locked m_multiprog
        do bajar_multiprog; listo_a_exit e thread pid; si_hay_lugar obtener_ult_ready_fifo
  cerrar_segun e_execute thread pid = locked m_multiprog do
    cambiar_proceso pid (λ p. record p { exec_thread = none })
    ejecucion_a_exit e thread pid
    bajar_multiprog
    si_hay_lugar obtener_ult_ready_fifo
  cerrar_segun e_exit thread pid = pure tt

  unfoldable pub cerrar_hilo : Ptr → ℕ → M D ℤ
  cerrar_hilo thread pid = do
    t ← hilo thread
    desjoinear thread t.joined_by
    u ← hilo thread
    cerrar_segun u.estado thread pid
    metricas
    pure (pos 1)

  unfoldable pub close_tid : ℕ → ℕ → M D ℤ
  close_tid tid pid = do
    p ← proceso pid
    found ← buscar_tid tid p.ults
    thread ← no_nulo found
    t ← hilo thread
    if t.tid == 0 then cerrar_proceso p.ults pid else cerrar_hilo thread pid

-- The requests of handle_conection_suse, from the program on socket `pid`.
pub data Pedido : Type 0 where
  suse_create next_tid close_ult : (pid : ℕ) → (tid : ℕ) → Pedido
  wait_sem : (pid : ℕ) → (tid : ℕ) → String → Pedido
  signal_sem : String → Pedido
  suse_join : (pid : ℕ) → (tid : ℕ) → Pedido

-- handle_conection_suse dispatches on the operation code; suse_create answers nothing.
unfoldable pub atender : {D : Type 0} → Entorno D → Pedido → M D ℤ
atender e (suse_create pid tid) = do handle_suse_create e pid tid; pure (pos 0)
atender e (next_tid pid tid) = handle_next_tid e pid
atender e (close_ult pid tid) = close_tid e tid pid
atender e (wait_sem pid tid name) = handle_wait_sem e pid tid name
atender e (signal_sem name) = handle_signal_sem e name
atender e (suse_join pid tid) = join e pid tid
