-- ===== src/Suse/Runs/Waits.antt =====
-- handle_wait_sem that blocks, and that does not.
use Prim.Native.String.{String}
use tp_sistemas_operativos_l.Common.{
  ℕ, ℤ, pos, negsuc, predℤ, leℤ, ◌≡◌, refl, true, false, Option, none, some, [], ◌∷◌, ◌++◌,
  Bool-cases, inl, inr, ap, ◌∙◌, sym, subst,
}
use tp_sistemas_operativos_l.Suse.State.{
  Ptr, e_blocked, Thread, Process, Semaforo, Entorno, State, m_semaforos, m_blocked,
}
use tp_sistemas_operativos_l.Suse.Monad.{
  Outcome, ok, pure, and_then, ◌>>=◌, leer, cambiar, tiene, soltar, mutex_eq, locked, unlock,
}
use tp_sistemas_operativos_l.Suse.Access.{write, find_process, update_process}
use tp_sistemas_operativos_l.Suse.Queues.{remover_ult_exec}
use tp_sistemas_operativos_l.Suse.Transitions.{cerrar_rafaga, dejar_exec, encolar_bloqueado}
use tp_sistemas_operativos_l.Suse.Semaphores.{
  find_semaforo, update_semaforo, no_nulo, cambiar_semaforo, ejecucion_a_bloqueado_por_semaforo,
  decrementar, decrementar_semaforo,
}
use tp_sistemas_operativos_l.Suse.Service.{handle_wait_sem}
use tp_sistemas_operativos_l.Suse.Effects.Updates.{esperando, con_valor, update-update}
use tp_sistemas_operativos_l.Suse.Runs.Returns.{
  Returns, returns, write_self, write_same, write-write, buscar_en, ret-locked, ret-pure,
  ret-if_true, ret-if_false, ret-cambiar, ret-cambiar_hilo, ret-cambiar_proceso, ret-hilo,
  ret-proceso, ret-leer, ret-tiempo, ret-bind, ret-buscar_tid,
}

abbrev sin_exec : Process → Process
sin_exec p = record p { exec_thread = none }

abbrev bloqueado : {D : Type 0} → Thread D → Thread D
bloqueado u = record u { estado = e_blocked }

module _ {D : Type 0} (e : Entorno D) where
  -- The heap with the thread given anew.
  ret-cerrar_rafaga :
      {Q : Unit {0} → State D → Type 0} (q : Ptr) (t : Thread D) (s : State D)
      → s.heap q ≡ some t
      → ((u : Thread D) (n : ℕ)
          → u.tid ≡ t.tid
          → u.proceso_id ≡ t.proceso_id
          → Q tt (record s { heap = write s.heap q (some u); lecturas = n }))
      → Returns Q (cerrar_rafaga e q) s
  unfolding cerrar_rafaga
  ret-cerrar_rafaga {Q} q t s h k = ret-bind _ _ s (
      ret-hilo q t s h (elim (Bool-cases (e.menor e.cero t.duracion_rafaga)) [
        | inl y ↦
            ret-if_true _ _ _ s y
              (ret-bind _ _ s (ret-tiempo e s (ret-cambiar_hilo q t _ _ h (k _ _ refl refl))))
        | inr n ↦ ret-if_false _ _ _ s n (ret-pure tt s same)
      ]))
    where
      same : Q tt s
      same =
          subst (λ g. Q tt (record s { heap = g })) (write_same s.heap q (some t) h)
            (k t s.lecturas refl refl)

  -- What dejar_exec leaves: the thread is blocked and nobody runs.
  ret-dejar_exec :
      {Q : Unit {0} → State D → Type 0} (q : Ptr) (pid : ℕ) (t : Thread D) (p : Process)
      (s : State D)
      → s.heap q ≡ some t
      → find_process pid s.process ≡ some p
      → ((u : Thread D) (n : ℕ)
          → u.tid ≡ t.tid
          → u.proceso_id ≡ t.proceso_id
          → u.estado ≡ e_blocked
          → Q tt (record s {
            heap = write s.heap q (some u);
            lecturas = n;
            process = update_process pid sin_exec s.process;
          }))
      → Returns Q (dejar_exec e q pid) s
  unfolding dejar_exec remover_ult_exec
  ret-dejar_exec {Q} q pid t p s h hp k = ret-bind _ _ s (
      ret-tiempo e s (
        ret-bind _ _ _ (
          ret-cambiar_hilo q t _ _ h (
            ret-bind _ _ _ (
              ret-cerrar_rafaga q _ _ (write_self s.heap q _) λ u n et ep. ret-bind _ _ _ (
                ret-cambiar_proceso pid p _ _ hp (
                  ret-cambiar_hilo q u _ _ (write_self _ q (some u)) (
                    subst
                      (λ g. Q tt (record s {
                        heap = g;
                        lecturas = n;
                        process = update_process pid sin_exec s.process;
                      }))
                      (sym (
                        ap (λ g. write g q (some (bloqueado u))) (write-write s.heap q _ (some u))
                        ∙ write-write s.heap q (some u) _))
                      (k (bloqueado u) n et ep refl)))))))))

  -- What a wait that blocks leaves: the thread `q` is blocked, at the end of the semaphore's list and of
  -- the blocked queue; nobody runs; VALUE is one less; all else is as before.
  pub record Espera (s : State D) (pid : ℕ) (name : String) (q : Ptr) (t : Thread D) (s' : State D)
      : Type 0 where
    pub hilo :
        (u : Thread D) × (s'.heap ≡ write s.heap q (some u))
        × (u.estado ≡ e_blocked)
        × (u.tid ≡ t.tid)
    pub procesos : s'.process ≡ update_process pid sin_exec s.process
    pub semaforos :
        s'.semaforos ≡ update_semaforo name (λ x. con_valor predℤ (esperando q x)) s.semaforos
    pub bloqueados : s'.blocked_queue ≡ s.blocked_queue ++ q ∷ []
    pub nuevos : s'.new_queue ≡ s.new_queue
    pub terminados : s'.exit_queue ≡ s.exit_queue
    pub grado : s'.actual_multiprog ≡ s.actual_multiprog
    pub libre : s'.held ≡ []

  ret-bloquear :
      (pid tid : ℕ) (name : String) (p : Process) (q : Ptr) (t : Thread D) (s : State D)
      → s.held ≡ m_semaforos ∷ []
      → find_process pid s.process ≡ some p
      → buscar_en s.heap tid p.ults ≡ some (some q)
      → s.heap q ≡ some t
      → {Q : Unit {0} → State D → Type 0}
      → ((u : Thread D) (n : ℕ)
          → u.tid ≡ t.tid
          → u.estado ≡ e_blocked
          → Q tt (record s {
            heap = write s.heap q (some u);
            lecturas = n;
            process = update_process pid sin_exec s.process;
            semaforos = update_semaforo name (esperando q) s.semaforos;
            blocked_queue = s.blocked_queue ++ q ∷ [];
          }))
      → Returns Q (ejecucion_a_bloqueado_por_semaforo e tid pid name) s
  unfolding ejecucion_a_bloqueado_por_semaforo no_nulo cambiar_semaforo encolar_bloqueado tiene
      soltar mutex_eq
  ret-bloquear pid tid name p q t s held hp hb h k = ret-bind _ _ s (
      ret-proceso pid p s hp (
        ret-bind _ _ s (
          ret-buscar_tid tid p.ults (some q) s hb (
            ret-bind _ _ s (
              returns refl (
                ret-bind _ _ s (
                  ret-dejar_exec q pid t p s h hp λ u n et ep ee. ret-bind _ _ _ (
                    ret-cambiar _ _ (
                      ret-locked m_blocked _ _ (rw held refl)
                        (ret-cambiar _ _ (k u n et ee)))))))))))

  -- A wait on a semaphore whose VALUE is 0 or less returns 0 and blocks the thread that the program names,
  -- if the program and the thread are there and no lock is held.
  pub handle_wait_sem-blocks :
      (pid tid : ℕ) (name : String) (x : Semaforo) (p : Process) (q : Ptr) (t : Thread D)
      (s : State D)
      → s.held ≡ []
      → find_semaforo name s.semaforos ≡ some x
      → leℤ x.value (pos 0) ≡ true
      → find_process pid s.process ≡ some p
      → buscar_en s.heap tid p.ults ≡ some (some q)
      → s.heap q ≡ some t
      → Returns (λ r s'. (r ≡ pos 0) × Espera s pid name q t s') (handle_wait_sem e pid tid name) s
  unfolding handle_wait_sem decrementar_semaforo decrementar cambiar_semaforo tiene soltar mutex_eq
  handle_wait_sem-blocks pid tid name x p q t s held hx low hp hb h =
      ret-locked m_semaforos _ s (rw held refl) (
        ret-bind _ _ _ (
          ret-leer _ _ (
            rw hx (
              ret-bind _ _ _ (
                ret-if_true _ _ _ _ low (
                  ret-bloquear pid tid name p q t _ (ap (◌∷◌ m_semaforos) held) hp hb h λ u n et ee.
                    ret-bind _ _ _ (
                      ret-cambiar _ _ (
                        ret-pure _ _ (
                          refl,
                          record {
                            hilo = (u, refl, ee, et);
                            procesos = refl;
                            semaforos =
                                update-update name (esperando q) (con_valor predℤ) s.semaforos
                                  (λ _. refl);
                            bloqueados = refl;
                            nuevos = refl;
                            terminados = refl;
                            grado = refl;
                            libre = held;
                          },
                        )))))))))

abbrev pub respuesta_libre : {D : Type 0} → String → Option Semaforo → State D → Outcome D ℤ
respuesta_libre name none s = ok (negsuc 0) s
respuesta_libre name (some x) s =
    ok (pos 0) (record s { semaforos = update_semaforo name (con_valor predℤ) s.semaforos })

module _ {D : Type 0} (e : Entorno D) where
  -- A wait that does not block, with no lock held: on a name that no semaphore has it returns -1 and
  -- changes nothing; where VALUE is positive it returns 0 and VALUE goes down by one, nothing else
  -- changes.
  pub handle_wait_sem-free :
      (pid tid : ℕ) (name : String) (o : Option Semaforo) (s : State D)
      → s.held ≡ []
      → find_semaforo name s.semaforos ≡ o
      → ((x : Semaforo) → o ≡ some x → leℤ x.value (pos 0) ≡ false)
      → handle_wait_sem e pid tid name s ≡ respuesta_libre name o s
  unfolding handle_wait_sem decrementar_semaforo decrementar cambiar_semaforo tiene soltar mutex_eq
      locked unlock ◌>>=◌ and_then leer cambiar pure
  handle_wait_sem-free pid tid name none s held hx k = rw held (rw hx refl)
  handle_wait_sem-free pid tid name (some x) s held hx k = rw held (rw hx (rw (k x refl) refl))
