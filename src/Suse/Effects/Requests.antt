-- ===== src/Suse/Effects/Requests.antt =====
-- Every request keeps ACTUAL_MULTIPROG within MAX_MULTIPROG and gives back the locks that it takes,
-- and so does every run of the service.
use tp_sistemas_operativos_l.Common.{
  ℕ, ℤ, pos, ◌≤ℤ◌, ◌≡◌, refl, ◌∙◌, Option, none, some, List, [], subst, All,
}
use tp_sistemas_operativos_l.Suse.State.{
  Ptr, Estado, e_ready, e_execute, e_blocked, e_exit, e_new, Process, Semaforo, Entorno, State,
}
use tp_sistemas_operativos_l.Suse.Monad.{Outcome, ok}
use tp_sistemas_operativos_l.Suse.Transitions.{nuevo_a_exit, bloqueado_a_exit}
use tp_sistemas_operativos_l.Suse.Service.{
  handle_ult_create, handle_main_thread_create, crear_en, handle_suse_create, handle_next_tid,
  handle_wait_sem, handle_signal_sem, join_hilos, join, cerrar_segun, cerrar_hilo, close_tid,
  Pedido, suse_create, next_tid, close_ult, wait_sem, signal_sem, suse_join, atender,
}
use tp_sistemas_operativos_l.Suse.Effects.Triple.{
  Post, post_ok, Keeps-locked, Keeps-if, Keeps-cambiar,
}
use tp_sistemas_operativos_l.Suse.Effects.Quiet.{
  IsQuiet, pure-IsQuiet, Moves-same, buscar_tid-IsQuiet,
}
use tp_sistemas_operativos_l.Suse.Effects.Parts.{
  quiet_e, sin_medir_a_exit-IsQuiet, no_nulo-IsQuiet, metricas-IsQuiet,
}
use tp_sistemas_operativos_l.Suse.Effects.Balance.{decrementar_semaforo-IsBounded}
use tp_sistemas_operativos_l.Suse.Effects.Signals.{signal-IsBounded}
use tp_sistemas_operativos_l.Suse.Effects.Bound.{
  IsBalanced, bounded, IsBounded, bind-IsBounded, quiet-IsBounded, bajar-IsBounded,
  nuevo_a_listo-raised, nuevo_a_ejecucion-raised, ult_create-IsQuiet, guarded,
  obtener_ult_ready_fifo-raised, desjoinear-IsQuiet, cerrar_proceso-IsQuiet,
}

ruleset bound_rules = (
  quiet_e, quiet-IsBounded, bind-IsBounded, bajar-IsBounded, guarded, obtener_ult_ready_fifo-raised,
  sin_medir_a_exit-IsQuiet,
)

module _ {D : Type 0} (e : Entorno D) where
  cerrar_segun-IsBounded : (x : Estado) (p : Ptr) (pid : ℕ) → IsBounded e (cerrar_segun e x p pid)
  unfolding cerrar_segun nuevo_a_exit bloqueado_a_exit
  cerrar_segun-IsBounded e_new p pid = search bound_rules depth 12
  cerrar_segun-IsBounded e_blocked p pid = search bound_rules depth 12
  cerrar_segun-IsBounded e_ready p pid = search bound_rules depth 12
  cerrar_segun-IsBounded e_execute p pid = search bound_rules depth 12
  cerrar_segun-IsBounded e_exit p pid = quiet-IsBounded e (pure-IsQuiet tt)

  crear_en-IsBounded : (o : Option Process) (pid tid : ℕ) → IsBounded e (crear_en e o pid tid)
  unfolding crear_en handle_main_thread_create handle_ult_create
  crear_en-IsBounded none pid tid =
      search (bound_rules, ult_create-IsQuiet, nuevo_a_ejecucion-raised, Keeps-cambiar, Moves-same)
        depth 12
  crear_en-IsBounded (some p) pid tid =
      search (bound_rules, ult_create-IsQuiet, nuevo_a_listo-raised) depth 12

  join_hilos-IsQuiet : (o o' : Option Ptr) (pid : ℕ) → IsQuiet (join_hilos e o o' pid)
  unfolding join_hilos
  join_hilos-IsQuiet none o' pid = pure-IsQuiet (pos 0)
  join_hilos-IsQuiet (some p) none pid = pure-IsQuiet (pos 0)
  join_hilos-IsQuiet (some p) (some q) pid = search quiet_e depth 12

  cerrar_hilo-IsBounded : (p : Ptr) (pid : ℕ) → IsBounded e (cerrar_hilo e p pid)
  unfolding cerrar_hilo
  cerrar_hilo-IsBounded p pid =
      search (bound_rules, desjoinear-IsQuiet, cerrar_segun-IsBounded, metricas-IsQuiet) depth 12

  close_tid-IsBounded : (tid pid : ℕ) → IsBounded e (close_tid e tid pid)
  unfolding close_tid
  close_tid-IsBounded tid pid =
      search
        (
          bound_rules, buscar_tid-IsQuiet, no_nulo-IsQuiet, Keeps-if, cerrar_proceso-IsQuiet,
          cerrar_hilo-IsBounded,
        )
        depth 12

  pub atender-IsBounded : (p : Pedido) → IsBounded e (atender e p)
  unfolding atender handle_suse_create handle_next_tid handle_wait_sem handle_signal_sem join
  atender-IsBounded (suse_create pid tid) = search (bound_rules, crear_en-IsBounded) depth 8
  atender-IsBounded (next_tid pid tid) = search bound_rules depth 8
  atender-IsBounded (close_ult pid tid) = close_tid-IsBounded tid pid
  atender-IsBounded (wait_sem pid tid name) = search (bound_rules, decrementar_semaforo-IsBounded)
  atender-IsBounded (signal_sem name) = Keeps-locked _ (signal-IsBounded e name)
  atender-IsBounded (suse_join pid tid) =
      search (bound_rules, buscar_tid-IsQuiet, join_hilos-IsQuiet) depth 10

-- A request that returned.
pub data Atendido {D : Type 0} (e : Entorno D) (s s' : State D) : Type 0 where
  atendido : (p : Pedido) (r : ℤ) → atender e p s ≡ ok r s' → Atendido e s s'

-- The states that the service reaches from `s`, one request after another.
pub data Alcanza {D : Type 0} (e : Entorno D) (s : State D) : State D → Type 0 where
  aqui : Alcanza e s s
  luego : {t u : State D} → Alcanza e s t → Atendido e t u → Alcanza e s u

-- The state that main sets up.
unfoldable pub estado_inicial : {D : Type 0} → List Semaforo → State D
estado_inicial xs = record {
  heap = λ _. none;
  fresh = 0;
  process = [];
  semaforos = xs;
  new_queue = [];
  blocked_queue = [];
  exit_queue = [];
  actual_multiprog = pos 0;
  lecturas = 0;
  held = [];
}

Post-ok :
    {D A : Type 0} {Q : A → State D → Type 0} (r : Outcome D A) {a : A} {s : State D}
    → Post Q r
    → r ≡ ok a s
    → Q a s
Post-ok r p e = elim (subst (Post _) e p) [ post_ok q ↦ q ]

module _ {D : Type 0} (e : Entorno D) (xs : List Semaforo) where
  -- In every state that the service reaches between two requests no lock is held, ACTUAL_MULTIPROG is at
  -- most MAX_MULTIPROG, and for each semaphore VALUE is at most MAX and as many threads wait as VALUE
  -- is below 0. This asks that MAX_MULTIPROG is not negative and that the semaphores start so.
  pub Alcanza-IsBounded :
      {s : State D}
      → pos 0 ≤ℤ e.max_multiprog
      → All IsBalanced xs
      → Alcanza e (estado_inicial xs) s
      → (s.held ≡ []) × (s.actual_multiprog ≤ℤ e.max_multiprog) × All IsBalanced s.semaforos
  unfolding estado_inicial bounded
  Alcanza-IsBounded h b aqui = (refl, h, b)
  Alcanza-IsBounded h b (luego {t} r (atendido p a eq)) =
      let (locks, bound, balanced) = Alcanza-IsBounded h b r in
      let m = Post-ok (atender e p t) ((atender-IsBounded e p).run t) eq in
      (m.locks ∙ locks, m.degree.0 bound, m.degree.1 balanced)
