-- ===== src/Suse/Runs/Closing.antt =====
-- close_tid: the runs that block on the handler's own lock, and the end of a process.
use tp_sistemas_operativos_l.Common.{ℕ, ◌≡◌, refl, false, some, [], ◌==◌, arith, ◌⊎◌}
use tp_sistemas_operativos_l.Suse.State.{
  Ptr, Estado, e_new, e_blocked, Thread, Process, Entorno, State,
}
use tp_sistemas_operativos_l.Suse.Monad.{
  deadlock, pure, and_then, ◌>>=◌, cambiar, tiene, soltar, mutex_eq, locked, unlock,
}
use tp_sistemas_operativos_l.Suse.Access.{find_process, deref_or, hilo, process_or, proceso}
use tp_sistemas_operativos_l.Suse.Queues.{
  eliminar_segun, eliminar_ult_cola_actual, remover_ult_nuevo, remover_ult_bloqueado,
}
use tp_sistemas_operativos_l.Suse.Transitions.{
  buscar_proceso, sin_medir_a_exit, nuevo_a_exit, bloqueado_a_exit,
}
use tp_sistemas_operativos_l.Suse.Semaphores.{no_nulo}
use tp_sistemas_operativos_l.Suse.Service.{
  desjoinear, bajar_multiprog, cerrar_segun, cerrar_hilo, close_tid,
}
use tp_sistemas_operativos_l.Suse.Runs.Returns.{buscar_en, buscar_tid-eq}

module _ {D : Type 0} (e : Entorno D) where
  cerrar_segun-deadlock :
      (x : Estado) (q : Ptr) (pid : ℕ) (t : Thread D) (s : State D)
      → s.held ≡ []
      → s.heap q ≡ some t
      → t.estado ≡ x
      → (x ≡ e_new) ⊎ (x ≡ e_blocked)
      → cerrar_segun e x q pid s ≡ deadlock
  unfolding cerrar_segun nuevo_a_exit bloqueado_a_exit sin_medir_a_exit buscar_proceso
      bajar_multiprog eliminar_ult_cola_actual remover_ult_nuevo remover_ult_bloqueado ◌>>=◌
      and_then pure cambiar hilo deref_or locked unlock tiene soltar mutex_eq eliminar_segun
  cerrar_segun-deadlock e_new q pid t s held h he c = rw held (rw h (rw (he, eliminar_segun) refl))
  cerrar_segun-deadlock e_blocked q pid t s held h he c =
      rw held (rw h (rw (he, eliminar_segun) refl))
  cerrar_segun-deadlock _ q pid t s held h he c = ground arith

  -- Closing a thread that is new or blocked, and that nobody joined, never returns: close_tid holds the
  -- lock of the new or of the blocked queue, and the removal from that queue locks it again. The thread
  -- is not the main one, it and its program are there, and no lock is held when the request comes.
  pub close_tid-deadlock :
      (tid pid : ℕ) (p : Process) (q : Ptr) (t : Thread D) (s : State D)
      → s.held ≡ []
      → find_process pid s.process ≡ some p
      → buscar_en s.heap tid p.ults ≡ some (some q)
      → s.heap q ≡ some t
      → (t.tid == 0) ≡ false
      → t.joined_by ≡ []
      → (t.estado ≡ e_new) ⊎ (t.estado ≡ e_blocked)
      → close_tid e tid pid s ≡ deadlock
  unfolding close_tid cerrar_hilo desjoinear ◌>>=◌ and_then proceso process_or hilo deref_or no_nulo
      pure
  close_tid-deadlock tid pid p q t s held hp hb h hz hj he = rw hp (
      rw (buscar_tid-eq tid p.ults (some q) s hb) (
        rw h (
          rw hz (
            rw h (
              simp hj
                (rw h (rw (cerrar_segun-deadlock t.estado q pid t s held h refl he) refl)))))))
