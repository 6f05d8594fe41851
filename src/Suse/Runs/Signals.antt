-- ===== src/Suse/Runs/Signals.antt =====
-- handle_signal_sem that wakes a thread, and after a wait.
use Prim.Native.String.{String}
use text.Mathlib.Text.{◌==◌ as str_eq}
use tp_sistemas_operativos_l.Suse.Runs.Waits.{handle_wait_sem-free}
use tp_sistemas_operativos_l.Common.{
  ℕ, zero, suc, ℤ, ◌+◌, pos, negsuc, succℤ, predℤ, leℤ, ◌≡◌, refl, sym, ap, subst, ◌∙◌, false, some,
  List, [], ◌∷◌, ◌++◌, ◌==◌, Bool-cases, inl, inr,
}
use tp_sistemas_operativos_l.Suse.State.{
  Ptr, Estado, e_ready, e_blocked, Thread, Process, Semaforo, Entorno, State, m_semaforos,
  m_blocked,
}
use tp_sistemas_operativos_l.Suse.Monad.{
  ok, pure, and_then, ◌>>=◌, leer, cambiar, tiene, soltar, mutex_eq, locked, unlock,
}
use tp_sistemas_operativos_l.Suse.Access.{write, find_process, update_process, mismo_tid_y_proceso}
use tp_sistemas_operativos_l.Suse.Queues.{
  eliminar_segun, eliminar_ult_cola_actual, remover_ult_bloqueado,
}
use tp_sistemas_operativos_l.Suse.Transitions.{sem_post, bloqueado_a_listo}
use tp_sistemas_operativos_l.Suse.Semaphores.{
  find_semaforo, update_semaforo, igualℤ, cambiar_semaforo, incrementar, incrementar_semaforo,
  desbloquear, desbloquear_hilos, desbloquear_hilos_semaforo,
}
use tp_sistemas_operativos_l.Suse.Service.{handle_wait_sem, tras_incrementar, handle_signal_sem}
use tp_sistemas_operativos_l.Suse.Effects.Updates.{
  con_valor, sin_el_primero, update-update, find-update,
}
use tp_sistemas_operativos_l.Suse.Runs.Returns.{
  Returns, write_self, write-write, quitar_en, quitar_en-write, ret-locked, ret-pure, ret-if_false,
  ret-cambiar, ret-cambiar_hilo, ret-cambiar_proceso, ret-hilo, ret-proceso, ret-leer, ret-tiempo,
  ret-bind, ret-quitar, find-update_process,
}

-- The thread at the end of the ready list, and one more in the semaphore.
abbrev pub con_listo : Ptr → Process → Process
con_listo q p = record p {
  ready_list = p.ready_list ++ q ∷ [];
  semaforo_ready = p.semaforo_ready + 1;
}

pub update_process-twice :
    (pid : ℕ) (f g : Process → Process) (ps : List Process)
    → ((p : Process) → (f p).process_id ≡ p.process_id)
    → update_process pid g (update_process pid f ps) ≡ update_process pid (λ p. g (f p)) ps
unfolding update_process
update_process-twice pid f g [] k = refl
update_process-twice pid f g (p ∷ ps) k = elim (Bool-cases (p.process_id == pid)) [
  | inl h ↦ rw h (simp (k p, h) refl)
  | inr h ↦ rw h (simp h (ap (◌∷◌ p) (update_process-twice pid f g ps k)))
]

succ-pred : (v : ℤ) → succℤ (predℤ v) ≡ v
succ-pred (pos zero) = refl
succ-pred (pos (suc n)) = refl
succ-pred (negsuc n) = refl

update-same :
    (name : String) (f : Semaforo → Semaforo) (xs : List Semaforo)
    → ((x : Semaforo) → f x ≡ x)
    → update_semaforo name f xs ≡ xs
unfolding update_semaforo
update-same name f [] k = refl
update-same name f (x ∷ xs) k = elim (Bool-cases (str_eq x.name name)) [
  | inl h ↦ rw h (ap (λ y. y ∷ xs) (k x))
  | inr h ↦ rw h (ap (◌∷◌ x) (update-same name f xs k))
]

update-restores :
    (name : String) (xs : List Semaforo)
    → update_semaforo name (con_valor succℤ) (update_semaforo name (con_valor predℤ) xs) ≡ xs
update-restores name xs =
    update-update name (con_valor predℤ) (con_valor succℤ) xs (λ _. refl)
    ∙ update-same name _ xs (λ x. ap (λ v. record x { value = v }) (succ-pred x.value))

module _ {D : Type 0} (e : Entorno D) where
  -- A blocked thread becomes ready: it leaves the blocked queue and joins the ready list of its process.
  pub ret-bloqueado_a_listo :
      {Q : Unit {0} → State D → Type 0} (q : Ptr) (pid : ℕ) (t : Thread D) (p : Process)
      (bq : List Ptr) (s : State D)
      → tiene m_blocked s.held ≡ false
      → s.heap q ≡ some t
      → t.estado ≡ e_blocked
      → find_process pid s.process ≡ some p
      → quitar_en s.heap (mismo_tid_y_proceso t.tid t.proceso_id) s.blocked_queue ≡ some bq
      → ((u : Thread D) (n : ℕ)
          → u.tid ≡ t.tid
          → u.estado ≡ e_ready
          → Q tt (record s {
            heap = write s.heap q (some u);
            lecturas = n;
            process = update_process pid (con_listo q) s.process;
            blocked_queue = bq;
          }))
      → Returns Q (bloqueado_a_listo e q pid) s
  unfolding bloqueado_a_listo eliminar_ult_cola_actual eliminar_segun remover_ult_bloqueado sem_post
      soltar mutex_eq mismo_tid_y_proceso
  ret-bloqueado_a_listo {Q} q pid t p bq s free h he hp hq k = ret-bind _ _ s (
      ret-tiempo e s (
        ret-bind _ _ _ (
          ret-cambiar_hilo q t _ _ h (
            ret-bind _ _ _ (
              ret-bind _ _ _ (
                ret-hilo q _ _ (write_self s.heap q _) (
                  ret-segun t.estado he (
                    ret-locked m_blocked _ _ free (
                      ret-bind _ _ _ (
                        ret-hilo q _ _ (write_self s.heap q _) (
                          ret-bind _ _ _ (
                            ret-leer _ _ (
                              ret-bind _ _ _ (
                                ret-quitar _ _ bq _
                                  (quitar_en-write s.heap _ q t1 s.blocked_queue h refl ∙ hq)
                                  (ret-cambiar _ _ (
                                    ret-bind _ _ _ (
                                      ret-cambiar_hilo q t1 _ _ (write_self s.heap q (some t1)) (
                                        ret-bind _ _ _ (
                                          ret-cambiar_proceso pid p _ _ hp (
                                            ret-cambiar_proceso pid _ _ _
                                              (find-update_process pid _ s.process (λ _. refl) hp)
                                              last))))))))))))))))))))
    where
      t1 : Thread D
      t1 = record t { tiempo_inicial_en_ready = e.reloj s.lecturas }

      t2 : Thread D
      t2 = record t1 { estado = e_ready }

      ret-segun :
          {R : Unit {0} → State D → Type 0} {s' : State D} (x : Estado)
          → x ≡ e_blocked
          → Returns R (remover_ult_bloqueado q) s'
          → Returns R (eliminar_segun x q pid) s'
      ret-segun {R} {s'} x eq r = subst (λ y. Returns R (eliminar_segun y q pid) s') (sym eq) r

      last : Q tt (record s {
        heap = write (write s.heap q (some t1)) q (some t2);
        lecturas = s.lecturas + 1;
        process =
            update_process pid
              (λ p. record p { semaforo_ready = p.semaforo_ready + 1 })
              (update_process pid
                (λ p. record p { ready_list = p.ready_list ++ q ∷ [] })
                s.process);
        blocked_queue = bq;
      })
      last =
          subst
            (λ ps. Q tt (record s {
              heap = write (write s.heap q (some t1)) q (some t2);
              lecturas = s.lecturas + 1;
              process = ps;
              blocked_queue = bq;
            }))
            (sym (update_process-twice pid _ _ s.process (λ _. refl)))
            (subst
              (λ g. Q tt (record s {
                heap = g;
                lecturas = s.lecturas + 1;
                process = update_process pid (con_listo q) s.process;
                blocked_queue = bq;
              }))
              (sym (write-write s.heap q (some t1) (some t2))) (k t2 (s.lecturas + 1) refl refl))

  -- What a signal that wakes the first waiter `q` leaves: `q` is ready, at the end of its program's ready
  -- list, and in no blocked list; VALUE is one more; all else is as before.
  pub record Despertado (s : State D) (name : String) (q : Ptr) (t : Thread D) (bq : List Ptr)
      (s' : State D) : Type 0 where
    pub hilo :
        (u : Thread D) × (s'.heap ≡ write s.heap q (some u))
        × (u.estado ≡ e_ready)
        × (u.tid ≡ t.tid)
    pub procesos : s'.process ≡ update_process t.proceso_id (con_listo q) s.process
    pub semaforos :
        s'.semaforos ≡ update_semaforo name (λ x. sin_el_primero (con_valor succℤ x)) s.semaforos
    pub bloqueados : s'.blocked_queue ≡ bq
    pub nuevos : s'.new_queue ≡ s.new_queue
    pub terminados : s'.exit_queue ≡ s.exit_queue
    pub grado : s'.actual_multiprog ≡ s.actual_multiprog
    pub libre : s'.held ≡ []

  -- A signal below MAX, on a semaphore with waiters, wakes the one that waits longest and returns 0, if
  -- that thread and its program are there, the threads that the search of the blocked queue passes are,
  -- and no lock is held.
  pub handle_signal_sem-wakes :
      (name : String) (x : Semaforo) (q : Ptr) (rest : List Ptr) (t : Thread D) (p : Process)
      (bq : List Ptr) (s : State D)
      → s.held ≡ []
      → find_semaforo name s.semaforos ≡ some x
      → igualℤ x.value x.max ≡ false
      → x.blocked_list ≡ q ∷ rest
      → s.heap q ≡ some t
      → t.estado ≡ e_blocked
      → find_process t.proceso_id s.process ≡ some p
      → p.process_id ≡ t.proceso_id
      → quitar_en s.heap (mismo_tid_y_proceso t.tid t.proceso_id) s.blocked_queue ≡ some bq
      → Returns (λ r s'. (r ≡ pos 0) × Despertado s name q t bq s') (handle_signal_sem e name) s
  unfolding handle_signal_sem incrementar_semaforo incrementar tras_incrementar
      desbloquear_hilos_semaforo desbloquear_hilos desbloquear cambiar_semaforo tiene soltar
      mutex_eq
  handle_signal_sem-wakes name x q rest t p bq s held hx hm hb h he hp hi hq =
      ret-locked m_semaforos _ s (rw held refl) (
        ret-bind _ _ _ (
          ret-bind _ _ _ (
            ret-leer _ _ (
              rw hx (
                ret-if_false _ _ _ _ hm (
                  ret-bind _ _ _ (
                    ret-cambiar _ _ (
                      ret-pure _ _ (
                        ret-bind _ _ _ (
                          ret-leer _ _ (
                            rw (find-update name (con_valor succℤ) s.semaforos (λ _. refl) hx) (
                              rw hb (
                                ret-bind _ _ _ (
                                  ret-hilo q t _ h (
                                    ret-bind _ _ _ (
                                      ret-proceso t.proceso_id p _ hp (
                                        rw hi (
                                          ret-bind _ _ _ (
                                            ret-bloqueado_a_listo q t.proceso_id t p bq _
                                              (rw held refl) h he hp hq
                                              λ u n et ee. ret-bind _ _ _ (
                                                ret-cambiar _ _ (
                                                  ret-pure _ _ (
                                                    refl,
                                                    record {
                                                      hilo = (u, refl, ee, et);
                                                      procesos = refl;
                                                      semaforos =
                                                          update-update name (con_valor succℤ)
                                                            sin_el_primero s.semaforos (λ _. refl);
                                                      bloqueados = refl;
                                                      nuevos = refl;
                                                      terminados = refl;
                                                      grado = refl;
                                                      libre = held;
                                                    },
                                                  ))))))))))))))))))))))

  -- A wait on a semaphore whose VALUE is positive and not one more than MAX, without waiters, and a signal
  -- on it right after, with no lock held: both return 0, and the state is as it was before the two.
  pub handle_signal_sem-handle_wait_sem :
      (pid tid : ℕ) (name : String) (x : Semaforo) (s : State D)
      → s.held ≡ []
      → find_semaforo name s.semaforos ≡ some x
      → leℤ x.value (pos 0) ≡ false
      → igualℤ (predℤ x.value) x.max ≡ false
      → x.blocked_list ≡ []
      → (t : State D) × (handle_wait_sem e pid tid name s ≡ ok (pos 0) t)
        × (handle_signal_sem e name t ≡ ok (pos 0) s)
  unfolding handle_signal_sem incrementar_semaforo incrementar tras_incrementar
      desbloquear_hilos_semaforo desbloquear_hilos desbloquear cambiar_semaforo tiene soltar
      mutex_eq locked unlock ◌>>=◌ and_then leer cambiar pure
  handle_signal_sem-handle_wait_sem pid tid name x s held hx hv hm hb =
      let u = update_semaforo name (con_valor predℤ) s.semaforos in
      let f = find-update name (con_valor predℤ) s.semaforos (λ _. refl) hx in
      (
        record s { semaforos = u },
        handle_wait_sem-free e pid tid name (some x) s held hx
            (λ y h. subst (λ z. leℤ z.value (pos 0) ≡ false) (mismo h) hv),
        rw held (
            rw f (
              rw hm (
                rw (find-update name (con_valor succℤ) u (λ _. refl) f) (
                  rw hb (
                    ap (λ l. ok (pos 0) (record s { semaforos = l; held = [] }))
                      (update-restores name s.semaforos)))))),
      )
    where
      mismo : {y : Semaforo} → some x ≡ some y → x ≡ y
      mismo h = cc
