-- ===== src/Suse/Examples.antt =====
-- Runs of the scheduler on a small configuration, with natural numbers for times.
use tp_sistemas_operativos_l.Common.{
  ℕ, ◌+◌, ◌-◌, ◌*◌, ℤ, pos, ltb, ◌==◌, ◌≡◌, ◌≤ℤ◌, refl, inl, some, none, List, [], ◌∷◌, All, arith,
}
use tp_sistemas_operativos_l.Suse.State.{Ptr, e_ready, Thread, Process, Semaforo, Entorno, State}
use tp_sistemas_operativos_l.Suse.Monad.{
  Outcome, ok, deadlock, pure, fallar, and_then, ◌>>=◌, leer, cambiar, mutex_eq, tiene, soltar,
  unlock, locked,
}
use tp_sistemas_operativos_l.Suse.Access.{
  write, find_process, update_process, remove_process, deref_or, hilo, guardar_hilo, cambiar_hilo,
  liberar_hilo, process_or, proceso, cambiar_proceso, buscar_tid, quitar, get_time_today, mismo_tid,
  mismo_tid_y_proceso,
}
use tp_sistemas_operativos_l.Suse.Queues.{
  remover_ult_nuevo, remover_ult_bloqueado, remover_ult_exec, remover_ult_listo, eliminar_segun,
  eliminar_ult_cola_actual,
}
use tp_sistemas_operativos_l.Suse.Transitions.{
  sem_post, esperar, sem_wait, buscar_proceso, quitar_de_ults, a_exit, ejecucion_a_exit,
  listo_a_exit, listo_a_ejecucion, nuevo_a_ejecucion, ejecucion_a_listo, bloqueado_a_listo,
  nuevo_a_listo, cerrar_rafaga, dejar_exec, encolar_bloqueado, ejecucion_a_bloqueado,
  sin_medir_a_exit, bloqueado_a_exit, nuevo_a_exit,
}
use tp_sistemas_operativos_l.Suse.Planner.{
  estimacion, estimar_hilo, estimar_ults_listos, hay_primero, comparar, funcion_sjf,
  ordenar_cola_listos, desalojar, despachar, obtener_proximo_ejecutar,
}
use tp_sistemas_operativos_l.Suse.Semaphores.{
  crear_semaforo, init_semaforos, find_semaforo, update_semaforo, sin_primero, cambiar_semaforo,
  no_nulo, ejecucion_a_bloqueado_por_semaforo, decrementar, decrementar_semaforo, incrementar,
  incrementar_semaforo, desbloquear, desbloquear_hilos, desbloquear_hilos_semaforo,
}
use tp_sistemas_operativos_l.Suse.Metrics.{
  contar, sin_hilos, contar_hilos, contar_exit, conteo_de, conteos, metricas_por_programa,
  metricas_sistema, metricas,
}
use tp_sistemas_operativos_l.Suse.Service.{
  validar_grado_multiprogramacion, generar_process, nuevo_hilo, ult_create, si_hay_lugar,
  handle_ult_create, handle_main_thread_create, crear_en, handle_suse_create, handle_next_tid,
  handle_wait_sem, tras_incrementar, handle_signal_sem, join_hilos, join, promover,
  obtener_ult_ready_fifo, despertar, despertar_si_libre, desjoinear_hilo, desjoinear,
  destruir_hilos, cerrar_proceso, bajar_multiprog, cerrar_segun, cerrar_hilo, close_tid, Pedido,
  suse_create, next_tid, wait_sem, signal_sem, atender,
}
use tp_sistemas_operativos_l.Suse.Effects.Requests.{
  atendido, Alcanza, aqui, luego, estado_inicial, Alcanza-IsBounded,
}
use tp_sistemas_operativos_l.Suse.Effects.Bound.{IsBalanced}
use tp_sistemas_operativos_l.Suse.Runs.Returns.{Returns, buscar_en, quitar_en}
use tp_sistemas_operativos_l.Suse.Runs.Waits.{Espera, handle_wait_sem-blocks}
use tp_sistemas_operativos_l.Suse.Runs.Signals.{
  Despertado, handle_signal_sem-wakes, handle_signal_sem-handle_wait_sem,
}
use tp_sistemas_operativos_l.Suse.Runs.Closing.{close_tid-deadlock}

-- Opens every definition that a run of the service calls.
abierto : Unit {0}
unfolding and_then fallar pure ◌>>=◌ leer cambiar mutex_eq tiene soltar unlock locked write
    find_process update_process remove_process deref_or hilo guardar_hilo cambiar_hilo liberar_hilo
    process_or proceso cambiar_proceso buscar_tid quitar get_time_today mismo_tid
    mismo_tid_y_proceso remover_ult_nuevo remover_ult_bloqueado remover_ult_exec remover_ult_listo
    eliminar_segun eliminar_ult_cola_actual sem_post esperar sem_wait buscar_proceso quitar_de_ults
    a_exit ejecucion_a_exit listo_a_exit listo_a_ejecucion nuevo_a_ejecucion ejecucion_a_listo
    bloqueado_a_listo nuevo_a_listo cerrar_rafaga dejar_exec encolar_bloqueado ejecucion_a_bloqueado
    sin_medir_a_exit bloqueado_a_exit nuevo_a_exit estimacion estimar_hilo estimar_ults_listos
    hay_primero comparar funcion_sjf ordenar_cola_listos desalojar despachar
    obtener_proximo_ejecutar crear_semaforo init_semaforos find_semaforo update_semaforo sin_primero
    cambiar_semaforo no_nulo ejecucion_a_bloqueado_por_semaforo decrementar decrementar_semaforo
    incrementar incrementar_semaforo desbloquear desbloquear_hilos desbloquear_hilos_semaforo contar
    sin_hilos contar_hilos contar_exit conteo_de conteos metricas_por_programa metricas_sistema
    metricas validar_grado_multiprogramacion generar_process nuevo_hilo ult_create si_hay_lugar
    handle_ult_create handle_main_thread_create crear_en handle_suse_create handle_next_tid
    handle_wait_sem tras_incrementar handle_signal_sem join_hilos join promover
    obtener_ult_ready_fifo despertar despertar_si_libre desjoinear_hilo desjoinear destruir_hilos
    cerrar_proceso bajar_multiprog cerrar_segun cerrar_hilo close_tid atender estado_inicial
    buscar_en quitar_en
abierto = tt

abbrev entorno : Entorno ℕ
entorno = record {
  suma = ◌+◌;
  resta = ◌-◌;
  producto = ◌*◌;
  menor = ltb;
  igual = ◌==◌;
  cero = 0;
  uno = 1;
  sin_iniciar = 77;
  reloj = λ n. 100 + n;
  alpha_sjf = 1;
  max_multiprog = pos 2;
  list_sort = λ f xs. xs;
  close_socket = λ n. pos 0;
}

abbrev sems : List Semaforo
sems = record { name = "A"; init = pos 0; max = pos 1; value = pos 0; blocked_list = [] } ∷ []

-- The state that a run leaves.
abbrev deja : State ℕ → Outcome ℕ ℤ → State ℕ
deja s (ok r s') = s'
deja s _ = s

abbrev paso : State ℕ → Pedido → State ℕ
paso s p = deja s (atender entorno p s)

abbrev s0 : State ℕ
s0 = estado_inicial sems

-- The main thread of program 5, and a second one.
abbrev s1 : State ℕ
s1 = paso s0 (suse_create 5 0)

abbrev s2 : State ℕ
s2 = paso s1 (suse_create 5 1)

-- The main thread waits on the semaphore.
abbrev s3 : State ℕ
s3 = paso s2 (wait_sem 5 0 "A")

abbrev s4 : State ℕ
s4 = paso s3 (next_tid 5 0)

abbrev s5 : State ℕ
s5 = paso s4 (signal_sem "A")

abbrev hilo_de : State ℕ → Ptr → Thread ℕ
hilo_de s p = elim (s.heap p) [ some t ↦ t | none ↦ nuevo_hilo entorno 0 0 0 ]

next_answers : atender entorno (next_tid 5 0) s3 ≡ ok (pos 1) s4
unfolding abierto
next_answers = refl

signal_wakes : (hilo_de s5 0).estado ≡ e_ready
unfolding abierto
signal_wakes = refl

camino : Alcanza entorno s0 s5
unfolding abierto
camino =
    luego
      (luego
        (luego
          (luego (luego aqui (atendido (suse_create 5 0) (pos 0) refl))
            (atendido (suse_create 5 1) (pos 0) refl))
          (atendido (wait_sem 5 0 "A") (pos 0) refl))
        (atendido (next_tid 5 0) (pos 1) refl))
      (atendido (signal_sem "A") (pos 0) refl)

Alcanza-IsBounded_example :
    (s5.held ≡ []) × (s5.actual_multiprog ≤ℤ entorno.max_multiprog) × All IsBalanced s5.semaforos
Alcanza-IsBounded_example = Alcanza-IsBounded entorno sems (omega arith) (omega arith) camino

abbrev programa : State ℕ → Process
programa s = elim (find_process 5 s.process) [ some p ↦ p | none ↦ generar_process entorno 5 ]

abbrev sem_de : State ℕ → Semaforo
sem_de s = elim (find_semaforo "A" s.semaforos) [
  | some x ↦ x
  | none ↦ record { name = "B"; init = pos 0; max = pos 0; value = pos 0; blocked_list = [] }
]

handle_wait_sem-blocks_example :
    Returns
      (λ r s'. (r ≡ pos 0) × Espera entorno s2 5 "A" 0 (hilo_de s2 0) s')
      (handle_wait_sem entorno 5 0 "A")
      s2
unfolding abierto
handle_wait_sem-blocks_example =
    handle_wait_sem-blocks entorno 5 0 "A" (sem_de s2) (programa s2) 0 (hilo_de s2 0) s2 refl refl
      refl refl refl refl

handle_signal_sem-wakes_example :
    Returns
      (λ r s'. (r ≡ pos 0) × Despertado entorno s4 "A" 0 (hilo_de s4 0) [] s')
      (handle_signal_sem entorno "A")
      s4
unfolding abierto
handle_signal_sem-wakes_example =
    handle_signal_sem-wakes entorno "A" (sem_de s4) 0 [] (hilo_de s4 0) (programa s4) [] s4 refl
      refl refl refl refl refl refl refl refl

-- The program with one unit of its semaphore, and no waiters.
abbrev con_uno : State ℕ
con_uno = record s2 {
  semaforos =
      record (sem_de s2) { value = pos 1; max = pos 2; init = pos 1; blocked_list = [] } ∷ [];
}

handle_signal_sem-handle_wait_sem_example :
    (t : State ℕ) × (handle_wait_sem entorno 5 1 "A" con_uno ≡ ok (pos 0) t)
    × (handle_signal_sem entorno "A" t ≡ ok (pos 0) con_uno)
unfolding abierto
handle_signal_sem-handle_wait_sem_example =
    handle_signal_sem-handle_wait_sem entorno 5 1 "A" (sem_de con_uno) con_uno refl refl refl refl
      refl

-- A third thread finds no room and stays new.
abbrev s6 : State ℕ
s6 = paso s2 (suse_create 5 2)

close_tid-deadlock_example : close_tid entorno 2 5 s6 ≡ deadlock
unfolding abierto
close_tid-deadlock_example =
    close_tid-deadlock entorno 2 5 (programa s6) 2 (hilo_de s6 2) s6 refl refl refl refl refl refl
      (inl refl)
