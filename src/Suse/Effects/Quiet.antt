-- ===== src/Suse/Effects/Quiet.antt =====
-- Commands of suse.c that leave the locks, ACTUAL_MULTIPROG and the semaphores as they are.
use tp_sistemas_operativos_l.Common.{
  ℕ, ◌≡◌, refl, ◌∙◌, Bool, Option, none, some, List, [], ◌∷◌, ◌==◌,
}
use tp_sistemas_operativos_l.Suse.State.{Ptr, Thread, Process, Entorno, State}
use tp_sistemas_operativos_l.Suse.Monad.{M, pure, fallar, ◌>>=◌, leer}
use tp_sistemas_operativos_l.Suse.Access.{
  find_process, deref_or, hilo, guardar_hilo, cambiar_hilo, liberar_hilo, process_or, proceso,
  cambiar_proceso, buscar_tid, quitar, get_time_today,
}
use tp_sistemas_operativos_l.Suse.Queues.{
  remover_ult_nuevo, remover_ult_bloqueado, remover_ult_exec, remover_ult_listo,
}
use tp_sistemas_operativos_l.Suse.Effects.Triple.{
  Counter, Post, post_ok, post_fault, post_waits, Moves, Keeps, Keeps-bind, Keeps-locked, Keeps-if,
  Keeps-cambiar,
}

unfoldable pub same : Counter
same x y = y ≡ x

abbrev pub IsQuiet : {D A : Type 0} → M D A → Type 0
IsQuiet m = Keeps same m

module _ {D : Type 0} where
  pub bind-IsQuiet :
      {A B : Type 0} {m : M D A} {f : A → M D B}
      → IsQuiet m
      → ((a : A) → IsQuiet (f a))
      → IsQuiet (m >>= f)
  unfolding same
  bind-IsQuiet = Keeps-bind (λ x y z p q. q ∙ p)

  pub pure-IsQuiet : {A : Type 0} (a : A) → IsQuiet {D = D} (pure a)
  unfolding pure same
  pure-IsQuiet a = record { run = λ s. post_ok (record { locks = refl; degree = refl }) }

  pub leer-IsQuiet : {A : Type 0} (f : State D → A) → IsQuiet (leer f)
  unfolding leer same
  leer-IsQuiet f = record { run = λ s. post_ok (record { locks = refl; degree = refl }) }

  pub fallar-IsQuiet : {A : Type 0} → IsQuiet {D = D} {A = A} fallar
  unfolding fallar
  fallar-IsQuiet = record { run = λ s. post_fault }

  -- An assignment to none of these.
  pub Moves-same :
      {s s' : State D}
      → s'.held ≡ s.held
      → s'.actual_multiprog ≡ s.actual_multiprog
      → s'.semaforos ≡ s.semaforos
      → Moves same s s'
  unfolding same
  Moves-same p q r = record { locks = p; degree = λ i. (q i, r i) }

  pub deref_or-IsQuiet : (o : Option (Thread D)) → IsQuiet (deref_or o)
  unfolding deref_or same
  deref_or-IsQuiet none = record { run = λ s. post_fault }
  deref_or-IsQuiet (some t) = record { run = λ s. post_ok (record { locks = refl; degree = refl }) }

  pub process_or-IsQuiet : (o : Option Process) → IsQuiet {D = D} (process_or o)
  unfolding process_or same
  process_or-IsQuiet none = record { run = λ s. post_fault }
  process_or-IsQuiet (some p) = record {
    run = λ s. post_ok (record { locks = refl; degree = refl });
  }

  pub hilo-IsQuiet : (p : Ptr) → IsQuiet {D = D} (hilo p)
  unfolding hilo
  hilo-IsQuiet p = record { run = λ s. (deref_or-IsQuiet (s.heap p)).run s }

  pub proceso-IsQuiet : (pid : ℕ) → IsQuiet {D = D} (proceso pid)
  unfolding proceso
  proceso-IsQuiet pid = record {
    run = λ s. (process_or-IsQuiet (find_process pid s.process)).run s;
  }

  pub guardar_hilo-IsQuiet : (p : Ptr) (t : Thread D) → IsQuiet (guardar_hilo p t)
  unfolding guardar_hilo
  guardar_hilo-IsQuiet p t = Keeps-cambiar (λ s. Moves-same refl refl refl)

  pub cambiar_hilo-IsQuiet : (p : Ptr) (f : Thread D → Thread D) → IsQuiet (cambiar_hilo p f)
  unfolding cambiar_hilo
  cambiar_hilo-IsQuiet p f = search (bind-IsQuiet, hilo-IsQuiet, guardar_hilo-IsQuiet)

  pub liberar_hilo-IsQuiet : (p : Ptr) → IsQuiet {D = D} (liberar_hilo p)
  unfolding liberar_hilo
  liberar_hilo-IsQuiet p =
      bind-IsQuiet (hilo-IsQuiet p) λ _. Keeps-cambiar (λ s. Moves-same refl refl refl)

  pub cambiar_proceso-IsQuiet :
      (pid : ℕ) (f : Process → Process) → IsQuiet {D = D} (cambiar_proceso pid f)
  unfolding cambiar_proceso
  cambiar_proceso-IsQuiet pid f =
      bind-IsQuiet (proceso-IsQuiet pid) λ _. Keeps-cambiar (λ s. Moves-same refl refl refl)

  pub get_time_today-IsQuiet : (e : Entorno D) → IsQuiet (get_time_today e)
  unfolding get_time_today
  get_time_today-IsQuiet e = record { run = λ s. post_ok (Moves-same refl refl refl) }

pub ruleset quiet_base = (
  bind-IsQuiet, pure-IsQuiet, leer-IsQuiet, fallar-IsQuiet, hilo-IsQuiet, proceso-IsQuiet,
  cambiar_hilo-IsQuiet, cambiar_proceso-IsQuiet, liberar_hilo-IsQuiet, get_time_today-IsQuiet,
  Keeps-if, Keeps-locked,
)

module _ {D : Type 0} where
  pub buscar_tid-IsQuiet : (tid : ℕ) (ps : List Ptr) → IsQuiet {D = D} (buscar_tid tid ps)
  unfolding buscar_tid
  buscar_tid-IsQuiet tid [] = pure-IsQuiet none
  buscar_tid-IsQuiet tid (p ∷ ps) =
      bind-IsQuiet (hilo-IsQuiet p)
        λ t. Keeps-if (t.tid == tid) (pure-IsQuiet (some p)) (buscar_tid-IsQuiet tid ps)

  pub quitar-IsQuiet : (cond : Thread D → Bool) (ps : List Ptr) → IsQuiet (quitar cond ps)
  unfolding quitar
  quitar-IsQuiet cond [] = pure-IsQuiet []
  quitar-IsQuiet cond (p ∷ ps) = bind-IsQuiet (hilo-IsQuiet p) λ t.
      Keeps-if (cond t) (pure-IsQuiet ps)
        (bind-IsQuiet (quitar-IsQuiet cond ps) λ rest. pure-IsQuiet (p ∷ rest))

  pub remover_ult_nuevo-IsQuiet : (p : Ptr) → IsQuiet {D = D} (remover_ult_nuevo p)
  unfolding remover_ult_nuevo
  remover_ult_nuevo-IsQuiet p = Keeps-locked _ (
      bind-IsQuiet (hilo-IsQuiet p) λ t.
        bind-IsQuiet (leer-IsQuiet _) λ q.
          bind-IsQuiet (quitar-IsQuiet _ q) λ q'. Keeps-cambiar (λ s. Moves-same refl refl refl))

  pub remover_ult_bloqueado-IsQuiet : (p : Ptr) → IsQuiet {D = D} (remover_ult_bloqueado p)
  unfolding remover_ult_bloqueado
  remover_ult_bloqueado-IsQuiet p = Keeps-locked _ (
      bind-IsQuiet (hilo-IsQuiet p) λ t.
        bind-IsQuiet (leer-IsQuiet _) λ q.
          bind-IsQuiet (quitar-IsQuiet _ q) λ q'. Keeps-cambiar (λ s. Moves-same refl refl refl))

  pub remover_ult_exec-IsQuiet : (pid : ℕ) → IsQuiet {D = D} (remover_ult_exec pid)
  unfolding remover_ult_exec
  remover_ult_exec-IsQuiet pid = search quiet_base

  pub remover_ult_listo-IsQuiet : (p : Ptr) (pid : ℕ) → IsQuiet {D = D} (remover_ult_listo p pid)
  unfolding remover_ult_listo
  remover_ult_listo-IsQuiet p pid = search (quiet_base, quitar-IsQuiet) depth 8
