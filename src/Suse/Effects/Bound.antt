-- ===== src/Suse/Effects/Bound.antt =====
-- ACTUAL_MULTIPROG never passes MAX_MULTIPROG: every increment stands behind
-- validar_grado_multiprogramacion.
use tp_sistemas_operativos_l.Common.{
  ℕ, ℤ, pos, negsuc, succℤ, predℤ, ◌≤ℤ◌, leℤ, leℤ→≤ℤ, neg_part, length, All, ◌≡◌, refl, sym, subst,
  zero, suc, true, Bool-cases, ◌⊎◌, inl, inr, List, [], ◌∷◌, arith,
}
use tp_sistemas_operativos_l.Suse.State.{Ptr, Entorno, Semaforo}
use tp_sistemas_operativos_l.Suse.Monad.{M, pure, and_then, ◌>>=◌, leer, cambiar}
use tp_sistemas_operativos_l.Suse.Transitions.{nuevo_a_listo, nuevo_a_ejecucion}
use tp_sistemas_operativos_l.Suse.Service.{
  validar_grado_multiprogramacion, ult_create, si_hay_lugar, promover, obtener_ult_ready_fifo,
  despertar, despertar_si_libre, desjoinear_hilo, desjoinear, destruir_hilos, cerrar_proceso,
  bajar_multiprog,
}
use tp_sistemas_operativos_l.Suse.Effects.Triple.{
  Counter, View, view, post_ok, Keeps, Keeps-bind, Keeps-cambiar, Keeps-weaken, Post-mono,
}
use tp_sistemas_operativos_l.Suse.Effects.Quiet.{
  same, IsQuiet, bind-IsQuiet, pure-IsQuiet, Moves-same, quiet_base, quitar-IsQuiet,
  liberar_hilo-IsQuiet,
}
use tp_sistemas_operativos_l.Suse.Effects.Parts.{quiet_steps, quiet_e}

-- As before, or one more.
pub raised : Counter
raised x y = (y ≡ x) ⊎ (y ≡ (succℤ x.0, x.1))

-- VALUE is at most MAX, and as many threads wait as VALUE is below 0.
abbrev pub IsBalanced : Semaforo → Type 0
IsBalanced x = (x.value ≤ℤ x.max) × (length x.blocked_list ≡ neg_part x.value)

-- The degree is within the bound if it was so before, and the semaphores are in order if they were.
unfoldable pub bounded : ℤ → Counter
bounded max x y = (x.0 ≤ℤ max → y.0 ≤ℤ max) × (All IsBalanced x.1 → All IsBalanced y.1)

module _ {D : Type 0} where
  pub quiet-raise :
      {A B : Type 0} {m : M D A} {f : A → M D B}
      → IsQuiet m
      → ((a : A) → Keeps raised (f a))
      → Keeps raised (m >>= f)
  unfolding same raised
  quiet-raise = Keeps-bind (λ x y z p q. subst (λ w. (z ≡ w) ⊎ (z ≡ (succℤ w.0, w.1))) p q)

  pub raise-quiet :
      {A B : Type 0} {m : M D A} {f : A → M D B}
      → Keeps raised m
      → ((a : A) → IsQuiet (f a))
      → Keeps raised (m >>= f)
  unfolding same raised
  raise-quiet = Keeps-bind (λ x y z p q. subst (λ w. (w ≡ x) ⊎ (w ≡ (succℤ x.0, x.1))) (sym q) p)

  pub quiet-raised : {A : Type 0} {m : M D A} → IsQuiet m → Keeps raised m
  unfolding same raised
  quiet-raised = Keeps-weaken (λ x y p. inl p)

  pub subir-raised :
      Keeps raised {D = D} (cambiar (λ s. record s { actual_multiprog = succℤ s.actual_multiprog }))
  unfolding raised
  subir-raised = Keeps-cambiar (λ s. record { locks = refl; degree = inr refl })

module _ {D : Type 0} (e : Entorno D) where
  abbrev pub IsBounded : {A : Type 0} → M D A → Type 0
  IsBounded m = Keeps (bounded e.max_multiprog) m

  pub bind-IsBounded :
      {A B : Type 0} {m : M D A} {f : A → M D B}
      → IsBounded m
      → ((a : A) → IsBounded (f a))
      → IsBounded (m >>= f)
  unfolding bounded
  bind-IsBounded = Keeps-bind (λ x y z p q. (λ h. q.0 (p.0 h), λ h. q.1 (p.1 h)))

  pub quiet-IsBounded : {A : Type 0} {m : M D A} → IsQuiet m → IsBounded m
  unfolding same bounded
  quiet-IsBounded = Keeps-weaken λ x y p. (
    λ h. subst (λ z. z.0 ≤ℤ e.max_multiprog) (sym p) h,
    λ h. subst (λ z. All IsBalanced z.1) (sym p) h,
  )

  pub pred-le : (x m : ℤ) → x ≤ℤ m → predℤ x ≤ℤ m
  pred-le (pos zero) m h = omega arith
  pred-le (pos (suc n)) m h = omega arith
  pred-le (negsuc n) m h = omega arith

  pub bajar-IsBounded : IsBounded (bajar_multiprog e)
  unfolding bounded bajar_multiprog
  bajar-IsBounded =
      Keeps-cambiar (λ s. record {
        locks = refl;
        degree = (pred-le s.actual_multiprog e.max_multiprog, λ b. b);
      })

  pub nuevo_a_listo-raised : (p : Ptr) (pid : ℕ) → Keeps raised (nuevo_a_listo e p pid)
  unfolding nuevo_a_listo
  nuevo_a_listo-raised p pid = search (quiet_steps, quiet-raise, raise-quiet, subir-raised) depth 12

  pub nuevo_a_ejecucion-raised : (p : Ptr) (pid : ℕ) → Keeps raised (nuevo_a_ejecucion e p pid)
  unfolding nuevo_a_ejecucion
  nuevo_a_ejecucion-raised p pid = search (quiet_steps, quiet-raise, subir-raised) depth 12

  pub ult_create-IsQuiet : (pid tid : ℕ) → IsQuiet (ult_create e pid tid)
  unfolding ult_create
  ult_create-IsQuiet pid tid = search (quiet_steps, Keeps-cambiar, Moves-same) depth 12

  within :
      (x y : View)
      → leℤ (succℤ x.0) e.max_multiprog ≡ true
      → (y ≡ x) ⊎ (y ≡ (succℤ x.0, x.1))
      → (x.0 ≤ℤ e.max_multiprog → y.0 ≤ℤ e.max_multiprog)
        × (All IsBalanced x.1 → All IsBalanced y.1)
  within x y h (inl p) = (
    λ b. subst (λ z. z.0 ≤ℤ e.max_multiprog) (sym p) b,
    λ b. subst (λ z. All IsBalanced z.1) (sym p) b,
  )
  within x y h (inr p) = (
    λ b. subst (λ z. z.0 ≤ℤ e.max_multiprog) (sym p) (leℤ→≤ℤ (succℤ x.0) e.max_multiprog h),
    λ b. subst (λ z. All IsBalanced z.1) (sym p) b,
  )

  -- A run behind the test may take the degree one up.
  pub guarded : {m : M D (Unit {0})} → Keeps raised m → IsBounded (si_hay_lugar e m)
  unfolding si_hay_lugar bounded raised ◌>>=◌ and_then leer pure validar_grado_multiprogramacion
  guarded k = record {
    run = λ s. elim (Bool-cases (leℤ (succℤ s.actual_multiprog) e.max_multiprog)) [
      | inl h ↦ rw h (
          Post-mono (k.run s)
            λ _ s' p. record { locks = p.locks; degree = within (view s) (view s') h p.degree })
      | inr h ↦ rw h (post_ok (record { locks = refl; degree = (λ b. b, λ b. b) }))
    ];
  }

  pub promover-raised : (ps : List Ptr) → Keeps raised (promover e ps)
  unfolding promover
  promover-raised [] = quiet-raised (pure-IsQuiet tt)
  promover-raised (p ∷ ps) = search (quiet_base, quiet-raise, nuevo_a_listo-raised)

  pub obtener_ult_ready_fifo-raised : Keeps raised (obtener_ult_ready_fifo e)
  unfolding obtener_ult_ready_fifo
  obtener_ult_ready_fifo-raised = search (quiet_base, quiet-raise, promover-raised)

  pub despertar-IsQuiet : (p : Ptr) → IsQuiet (despertar e p)
  unfolding despertar
  despertar-IsQuiet p = search (quiet_e, Keeps-cambiar, Moves-same) depth 14

  pub despertar_si_libre-IsQuiet : (ps : List Ptr) (p : Ptr) → IsQuiet (despertar_si_libre e ps p)
  unfolding despertar_si_libre
  despertar_si_libre-IsQuiet [] p = despertar-IsQuiet p
  despertar_si_libre-IsQuiet (q ∷ qs) p = pure-IsQuiet tt

  pub desjoinear_hilo-IsQuiet : (p q : Ptr) → IsQuiet (desjoinear_hilo e p q)
  unfolding desjoinear_hilo
  desjoinear_hilo-IsQuiet p q =
      search (quiet_base, quitar-IsQuiet, despertar_si_libre-IsQuiet) depth 12

  pub desjoinear-IsQuiet : (p : Ptr) (qs : List Ptr) → IsQuiet (desjoinear e p qs)
  unfolding desjoinear
  desjoinear-IsQuiet p [] = pure-IsQuiet tt
  desjoinear-IsQuiet p (q ∷ qs) =
      bind-IsQuiet (desjoinear_hilo-IsQuiet p q) λ _. desjoinear-IsQuiet p qs

  pub destruir_hilos-IsQuiet : (ps : List Ptr) → IsQuiet (destruir_hilos e ps)
  unfolding destruir_hilos
  destruir_hilos-IsQuiet [] = pure-IsQuiet tt
  destruir_hilos-IsQuiet (p ∷ ps) =
      bind-IsQuiet (liberar_hilo-IsQuiet p) λ _. destruir_hilos-IsQuiet ps

  pub cerrar_proceso-IsQuiet : (ps : List Ptr) (pid : ℕ) → IsQuiet (cerrar_proceso e ps pid)
  unfolding cerrar_proceso
  cerrar_proceso-IsQuiet ps pid =
      search (quiet_base, destruir_hilos-IsQuiet, Keeps-cambiar, Moves-same) depth 8
