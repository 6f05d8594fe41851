-- ===== src/Suse/Planner.antt =====
-- Choosing the next thread: SJF with an estimated burst (obtener_proximo_ejecutar and its helpers).
use tp_sistemas_operativos_l.Common.{
  ℕ, ℤ, pos, negsuc, Bool, true, false, Option, none, some, List, [], ◌∷◌, if◌then◌else◌,
}
use tp_sistemas_operativos_l.Suse.State.{Ptr, Thread, Process, Entorno, State}
use tp_sistemas_operativos_l.Suse.Monad.{M, pure, ◌>>=◌, ◌>>◌, leer}
use tp_sistemas_operativos_l.Suse.Access.{
  hilo, cambiar_hilo, find_process, proceso, cambiar_proceso, get_time_today,
}
use tp_sistemas_operativos_l.Suse.Transitions.{sem_wait, ejecucion_a_listo, listo_a_ejecucion}

module _ {D : Type 0} (e : Entorno D) where
  unfoldable pub estimacion : Thread D → D
  estimacion t =
      e.suma (e.producto e.alpha_sjf t.duracion_rafaga)
        (e.producto (e.resta e.uno e.alpha_sjf) t.estimacion_ultima_rafaga)

  -- The body of `estimar`, with estimar_rafaga.
  unfoldable pub estimar_hilo : Thread D → Thread D
  estimar_hilo t =
      if t.ejecutado_desde_estimacion
      then record t { ejecutado_desde_estimacion = false; estimacion_ultima_rafaga = estimacion t }
      else t

  unfoldable pub estimar_ults_listos : List Ptr → M D (Unit {0})
  estimar_ults_listos [] = pure tt
  estimar_ults_listos (p ∷ ps) = do cambiar_hilo p estimar_hilo; estimar_ults_listos ps

  -- On a tie the code answers whether the process has a first thread.
  unfoldable pub hay_primero : Option Process → Bool
  hay_primero none = false
  hay_primero (some p) = elim p.ults [ [] ↦ false | _ ↦ true ]

  unfoldable pub comparar : State D → Option (Thread D) → Option (Thread D) → Bool
  comparar s (some t) (some u) =
      if e.igual t.estimacion_ultima_rafaga u.estimacion_ultima_rafaga
      then hay_primero (find_process t.proceso_id s.process)
      else e.menor t.estimacion_ultima_rafaga u.estimacion_ultima_rafaga
  comparar s _ _ = false

  -- The comparison reads threads that `estimar_ults_listos` has read just before.
  unfoldable pub funcion_sjf : State D → Ptr → Ptr → Bool
  funcion_sjf s p q = comparar s (s.heap p) (s.heap q)

  unfoldable pub ordenar_cola_listos : ℕ → M D (Unit {0})
  ordenar_cola_listos pid = do
    p ← proceso pid
    estimar_ults_listos p.ready_list
    orden ← leer funcion_sjf
    cambiar_proceso pid (λ p. record p { ready_list = e.list_sort orden p.ready_list })

  -- The running thread goes back to the ready list.
  unfoldable pub desalojar : Option Ptr → D → ℕ → M D (Unit {0})
  desalojar none tiempo_actual pid = pure tt
  desalojar (some exec_actual) tiempo_actual pid = do
    cambiar_hilo exec_actual (λ t.
        if e.igual t.duracion_rafaga e.cero
        then t
        else record t { duracion_rafaga = e.resta tiempo_actual t.duracion_rafaga })
    ejecucion_a_listo e exec_actual pid

  -- list_get(process->READY_LIST, 0) and what follows.
  unfoldable pub despachar : List Ptr → D → ℕ → M D ℤ
  despachar [] tiempo_actual pid = pure (negsuc 0)
  despachar (next_ULT ∷ _) tiempo_actual pid = do
    t ← hilo next_ULT
    listo_a_ejecucion e next_ULT pid
    cambiar_hilo next_ULT (λ t. record t { duracion_rafaga = tiempo_actual })
    pure (pos t.tid)

  unfoldable pub obtener_proximo_ejecutar : ℕ → M D ℤ
  obtener_proximo_ejecutar pid = do
    tiempo_actual ← get_time_today e
    p ← proceso pid
    desalojar p.exec_thread tiempo_actual pid
    sem_wait pid
    ordenar_cola_listos pid
    q ← proceso pid
    despachar q.ready_list tiempo_actual pid
