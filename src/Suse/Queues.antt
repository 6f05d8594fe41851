-- ===== src/Suse/Queues.antt =====
-- Leaving the queues: the remover_ULT_… functions and eliminar_ult_cola_actual of suse.c.
use tp_sistemas_operativos_l.Common.{ℕ, none}
use tp_sistemas_operativos_l.Suse.State.{
  Ptr, Estado, e_ready, e_execute, e_blocked, e_exit, e_new, m_new, m_blocked,
}
use tp_sistemas_operativos_l.Suse.Monad.{M, pure, ◌>>=◌, leer, cambiar, locked}
use tp_sistemas_operativos_l.Suse.Access.{
  hilo, proceso, cambiar_proceso, quitar, mismo_tid, mismo_tid_y_proceso,
}

module _ {D : Type 0} where
  unfoldable pub remover_ult_nuevo : Ptr → M D (Unit {0})
  remover_ult_nuevo ult = locked m_new do
    t ← hilo ult
    q ← leer (λ s. s.new_queue)
    q' ← quitar (mismo_tid_y_proceso t.tid t.proceso_id) q
    cambiar (λ s. record s { new_queue = q' })

  unfoldable pub remover_ult_bloqueado : Ptr → M D (Unit {0})
  remover_ult_bloqueado ult = locked m_blocked do
    t ← hilo ult
    q ← leer (λ s. s.blocked_queue)
    q' ← quitar (mismo_tid_y_proceso t.tid t.proceso_id) q
    cambiar (λ s. record s { blocked_queue = q' })

  unfoldable pub remover_ult_exec : ℕ → M D (Unit {0})
  remover_ult_exec pid = cambiar_proceso pid (λ p. record p { exec_thread = none })

  unfoldable pub remover_ult_listo : Ptr → ℕ → M D (Unit {0})
  remover_ult_listo ult pid = do
    t ← hilo ult
    p ← proceso pid
    q' ← quitar (mismo_tid t.tid) p.ready_list
    cambiar_proceso pid (λ p. record p { ready_list = q' })

  -- switch(ULT->estado); there is no case for E_EXIT.
  unfoldable pub eliminar_segun : Estado → Ptr → ℕ → M D (Unit {0})
  eliminar_segun e_ready ult pid = remover_ult_listo ult pid
  eliminar_segun e_new ult pid = remover_ult_nuevo ult
  eliminar_segun e_execute ult pid = remover_ult_exec pid
  eliminar_segun e_blocked ult pid = remover_ult_bloqueado ult
  eliminar_segun e_exit ult pid = pure tt

  unfoldable pub eliminar_ult_cola_actual : Ptr → ℕ → M D (Unit {0})
  eliminar_ult_cola_actual ult pid = do t ← hilo ult; eliminar_segun t.estado ult pid
