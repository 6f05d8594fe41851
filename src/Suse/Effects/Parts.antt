-- ===== src/Suse/Effects/Parts.antt =====
-- The transitions, the planner and the metrics leave the locks, ACTUAL_MULTIPROG and the semaphores as
-- they are.
use tp_sistemas_operativos_l.Common.{ℕ, refl, Option, none, some, List, [], ◌∷◌, negsuc}
use tp_sistemas_operativos_l.Suse.State.{
  Ptr, Estado, e_ready, e_execute, e_blocked, e_exit, e_new, Process, Entorno,
}
use tp_sistemas_operativos_l.Suse.Queues.{eliminar_segun, eliminar_ult_cola_actual}
use tp_sistemas_operativos_l.Suse.Transitions.{
  sem_post, esperar, sem_wait, buscar_proceso, quitar_de_ults, a_exit, encolar_bloqueado,
  ejecucion_a_exit, listo_a_exit, listo_a_ejecucion, ejecucion_a_listo, bloqueado_a_listo,
  cerrar_rafaga, dejar_exec, ejecucion_a_bloqueado, sin_medir_a_exit,
}
use tp_sistemas_operativos_l.Suse.Planner.{
  estimar_ults_listos, ordenar_cola_listos, desalojar, despachar, obtener_proximo_ejecutar,
}
use tp_sistemas_operativos_l.Suse.Semaphores.{no_nulo}
use tp_sistemas_operativos_l.Suse.Metrics.{
  Conteo, contar_hilos, contar_exit, conteo_de, conteos, metricas_por_programa, metricas_sistema,
  metricas,
}
use tp_sistemas_operativos_l.Suse.Effects.Triple.{post_fault, post_ok, post_waits, Keeps-cambiar}
use tp_sistemas_operativos_l.Suse.Effects.Quiet.{
  IsQuiet, bind-IsQuiet, pure-IsQuiet, Moves-same, quiet_base, buscar_tid-IsQuiet, quitar-IsQuiet,
  remover_ult_nuevo-IsQuiet, remover_ult_bloqueado-IsQuiet, remover_ult_exec-IsQuiet,
  remover_ult_listo-IsQuiet, hilo-IsQuiet, cambiar_hilo-IsQuiet,
}

module _ {D : Type 0} where
  pub eliminar_segun-IsQuiet :
      (s : Estado) (p : Ptr) (pid : ℕ) → IsQuiet {D = D} (eliminar_segun s p pid)
  unfolding eliminar_segun
  eliminar_segun-IsQuiet e_ready p pid = remover_ult_listo-IsQuiet p pid
  eliminar_segun-IsQuiet e_new p pid = remover_ult_nuevo-IsQuiet p
  eliminar_segun-IsQuiet e_execute p pid = remover_ult_exec-IsQuiet pid
  eliminar_segun-IsQuiet e_blocked p pid = remover_ult_bloqueado-IsQuiet p
  eliminar_segun-IsQuiet e_exit p pid = pure-IsQuiet tt

  pub eliminar-IsQuiet : (p : Ptr) (pid : ℕ) → IsQuiet {D = D} (eliminar_ult_cola_actual p pid)
  unfolding eliminar_ult_cola_actual
  eliminar-IsQuiet p pid = search (quiet_base, eliminar_segun-IsQuiet)

  pub sem_post-IsQuiet : (pid : ℕ) → IsQuiet {D = D} (sem_post pid)
  unfolding sem_post
  sem_post-IsQuiet pid = search quiet_base

  pub esperar-IsQuiet : IsQuiet {D = D} esperar
  unfolding esperar
  esperar-IsQuiet = record { run = λ s. post_waits }

  pub sem_wait-IsQuiet : (pid : ℕ) → IsQuiet {D = D} (sem_wait pid)
  unfolding sem_wait
  sem_wait-IsQuiet pid = search (quiet_base, esperar-IsQuiet)

  pub buscar_proceso-IsQuiet : (pid : ℕ) → IsQuiet {D = D} (buscar_proceso pid)
  unfolding buscar_proceso
  buscar_proceso-IsQuiet pid = search quiet_base

  pub quitar_de_ults-IsQuiet : (p : Ptr) (pid : ℕ) → IsQuiet {D = D} (quitar_de_ults p pid)
  unfolding quitar_de_ults
  quitar_de_ults-IsQuiet p pid = search (quiet_base, quitar-IsQuiet) depth 8

  pub a_exit-IsQuiet : (p : Ptr) → IsQuiet {D = D} (a_exit p)
  unfolding a_exit
  a_exit-IsQuiet p = search (quiet_base, Keeps-cambiar, Moves-same) depth 8

  pub encolar_bloqueado-IsQuiet : (p : Ptr) → IsQuiet {D = D} (encolar_bloqueado p)
  unfolding encolar_bloqueado
  encolar_bloqueado-IsQuiet p = search (quiet_base, Keeps-cambiar, Moves-same) depth 8

pub ruleset quiet_steps = (
  quiet_base, eliminar-IsQuiet, sem_post-IsQuiet, sem_wait-IsQuiet, buscar_proceso-IsQuiet,
  quitar_de_ults-IsQuiet, a_exit-IsQuiet, encolar_bloqueado-IsQuiet, remover_ult_exec-IsQuiet,
)

module _ {D : Type 0} (e : Entorno D) where
  pub ejecucion_a_exit-IsQuiet : (p : Ptr) (pid : ℕ) → IsQuiet (ejecucion_a_exit e p pid)
  unfolding ejecucion_a_exit
  ejecucion_a_exit-IsQuiet p pid = search quiet_steps depth 12

  pub listo_a_exit-IsQuiet : (p : Ptr) (pid : ℕ) → IsQuiet (listo_a_exit e p pid)
  unfolding listo_a_exit
  listo_a_exit-IsQuiet p pid = search quiet_steps depth 12

  pub listo_a_ejecucion-IsQuiet : (p : Ptr) (pid : ℕ) → IsQuiet (listo_a_ejecucion e p pid)
  unfolding listo_a_ejecucion
  listo_a_ejecucion-IsQuiet p pid = search quiet_steps depth 12

  pub ejecucion_a_listo-IsQuiet : (p : Ptr) (pid : ℕ) → IsQuiet (ejecucion_a_listo e p pid)
  unfolding ejecucion_a_listo
  ejecucion_a_listo-IsQuiet p pid = search quiet_steps depth 12

  pub bloqueado_a_listo-IsQuiet : (p : Ptr) (pid : ℕ) → IsQuiet (bloqueado_a_listo e p pid)
  unfolding bloqueado_a_listo
  bloqueado_a_listo-IsQuiet p pid = search quiet_steps depth 12

  pub cerrar_rafaga-IsQuiet : (p : Ptr) → IsQuiet (cerrar_rafaga e p)
  unfolding cerrar_rafaga
  cerrar_rafaga-IsQuiet p = search quiet_steps depth 12

  pub dejar_exec-IsQuiet : (p : Ptr) (pid : ℕ) → IsQuiet (dejar_exec e p pid)
  unfolding dejar_exec
  dejar_exec-IsQuiet p pid = search (quiet_steps, cerrar_rafaga-IsQuiet) depth 12

  pub ejecucion_a_bloqueado-IsQuiet : (p : Ptr) (pid : ℕ) → IsQuiet (ejecucion_a_bloqueado e p pid)
  unfolding ejecucion_a_bloqueado
  ejecucion_a_bloqueado-IsQuiet p pid = search (quiet_steps, dejar_exec-IsQuiet) depth 12

  pub estimar_ults_listos-IsQuiet : (ps : List Ptr) → IsQuiet (estimar_ults_listos e ps)
  unfolding estimar_ults_listos
  estimar_ults_listos-IsQuiet [] = pure-IsQuiet tt
  estimar_ults_listos-IsQuiet (p ∷ ps) =
      bind-IsQuiet (cambiar_hilo-IsQuiet p _) λ _. estimar_ults_listos-IsQuiet ps

  pub ordenar_cola_listos-IsQuiet : (pid : ℕ) → IsQuiet (ordenar_cola_listos e pid)
  unfolding ordenar_cola_listos
  ordenar_cola_listos-IsQuiet pid = search (quiet_steps, estimar_ults_listos-IsQuiet) depth 12

  pub desalojar-IsQuiet : (o : Option Ptr) (t : D) (pid : ℕ) → IsQuiet (desalojar e o t pid)
  unfolding desalojar
  desalojar-IsQuiet none t pid = pure-IsQuiet tt
  desalojar-IsQuiet (some p) t pid =
      bind-IsQuiet (cambiar_hilo-IsQuiet p _) λ _. ejecucion_a_listo-IsQuiet p pid

  pub despachar-IsQuiet : (ps : List Ptr) (t : D) (pid : ℕ) → IsQuiet (despachar e ps t pid)
  unfolding despachar
  despachar-IsQuiet [] t pid = pure-IsQuiet (negsuc 0)
  despachar-IsQuiet (p ∷ ps) t pid = search (quiet_steps, listo_a_ejecucion-IsQuiet) depth 12

  pub obtener_proximo_ejecutar-IsQuiet : (pid : ℕ) → IsQuiet (obtener_proximo_ejecutar e pid)
  unfolding obtener_proximo_ejecutar
  obtener_proximo_ejecutar-IsQuiet pid =
      search (quiet_steps, desalojar-IsQuiet, ordenar_cola_listos-IsQuiet, despachar-IsQuiet) depth
        14

pub ruleset quiet_e = (
  quiet_steps, ejecucion_a_exit-IsQuiet, listo_a_exit-IsQuiet, bloqueado_a_listo-IsQuiet,
  dejar_exec-IsQuiet, ejecucion_a_bloqueado-IsQuiet, obtener_proximo_ejecutar-IsQuiet,
)

module _ {D : Type 0} where
  pub sin_medir_a_exit-IsQuiet : (p : Ptr) (pid : ℕ) → IsQuiet {D = D} (sin_medir_a_exit p pid)
  unfolding sin_medir_a_exit
  sin_medir_a_exit-IsQuiet p pid = search quiet_steps depth 12

  pub no_nulo-IsQuiet : (o : Option Ptr) → IsQuiet {D = D} (no_nulo o)
  unfolding no_nulo
  no_nulo-IsQuiet none = record { run = λ s. post_fault }
  no_nulo-IsQuiet (some p) = record { run = λ s. post_ok (Moves-same refl refl refl) }

module _ {D : Type 0} where
  contar_hilos-IsQuiet : (ps : List Ptr) (c : Conteo) → IsQuiet {D = D} (contar_hilos ps c)
  unfolding contar_hilos
  contar_hilos-IsQuiet [] c = pure-IsQuiet c
  contar_hilos-IsQuiet (p ∷ ps) c = bind-IsQuiet (hilo-IsQuiet p) λ t. contar_hilos-IsQuiet ps _

  contar_exit-IsQuiet : (pid : ℕ) (ps : List Ptr) → IsQuiet {D = D} (contar_exit pid ps)
  unfolding contar_exit
  contar_exit-IsQuiet pid [] = pure-IsQuiet 0
  contar_exit-IsQuiet pid (p ∷ ps) =
      bind-IsQuiet (hilo-IsQuiet p)
        λ t. bind-IsQuiet (contar_exit-IsQuiet pid ps) λ n. pure-IsQuiet _

  conteo_de-IsQuiet : (p : Process) → IsQuiet {D = D} (conteo_de p)
  unfolding conteo_de
  conteo_de-IsQuiet p = search (quiet_base, contar_hilos-IsQuiet, contar_exit-IsQuiet) depth 8

  conteos-IsQuiet : (ps : List Process) → IsQuiet {D = D} (conteos ps)
  unfolding conteos
  conteos-IsQuiet [] = pure-IsQuiet []
  conteos-IsQuiet (p ∷ ps) =
      bind-IsQuiet (conteo_de-IsQuiet p) λ c. bind-IsQuiet (conteos-IsQuiet ps) λ cs. pure-IsQuiet _

  pub metricas-IsQuiet : IsQuiet {D = D} metricas
  unfolding metricas metricas_sistema metricas_por_programa
  metricas-IsQuiet = search (quiet_base, conteos-IsQuiet) depth 8
