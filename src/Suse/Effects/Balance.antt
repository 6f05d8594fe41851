-- ===== src/Suse/Effects/Balance.antt =====
-- wait keeps each semaphore in order: VALUE is at most MAX, and as many threads wait as VALUE is below
-- 0.
use Prim.Native.String.{String}
use tp_sistemas_operativos_l.Common.{
  ℕ, ℤ, pos, negsuc, zero, suc, predℤ, ◌≤ℤ◌, leℤ, neg_part, length, length-append, All, ◌≡◌, refl,
  sym, ap, subst, ◌∙◌, true, false, Bool-cases, inl, inr, Option, none, some, [], ◌∷◌, ◌++◌, arith,
}
use tp_sistemas_operativos_l.Suse.State.{Ptr, Semaforo, Entorno, State}
use tp_sistemas_operativos_l.Suse.Monad.{M, pure, and_then, ◌>>=◌, ◌>>◌, leer}
use tp_sistemas_operativos_l.Suse.Semaphores.{
  find_semaforo, update_semaforo, cambiar_semaforo, ejecucion_a_bloqueado_por_semaforo, decrementar,
  decrementar_semaforo,
}
use tp_sistemas_operativos_l.Suse.Effects.Triple.{
  View, view, Post, Post-mono, Moves, Keeps, Keeps-bind,
}
use tp_sistemas_operativos_l.Suse.Effects.Quiet.{pure-IsQuiet}
use tp_sistemas_operativos_l.Suse.Effects.Bound.{
  IsBalanced, bounded, IsBounded, quiet-IsBounded, pred-le,
}
use tp_sistemas_operativos_l.Suse.Effects.Updates.{
  esperando, con_valor, All-update, find-IsBalanced, update-update, updates, pushes,
  cambiar_semaforo-updates, quiet-left, quiet-right, bloquear-pushes,
}

module _ {D : Type 0} (e : Entorno D) where
  pub bounded-update :
      (name : String) (f : Semaforo → Semaforo) (v w : View) {x : Semaforo}
      → find_semaforo name v.1 ≡ some x
      → (IsBalanced x → IsBalanced (f x))
      → w ≡ (v.0, update_semaforo name f v.1)
      → bounded e.max_multiprog v w
  unfolding bounded
  bounded-update name f v w {x} found k p = (
    λ h. subst (λ z. z.0 ≤ℤ e.max_multiprog) (sym p) h,
    λ h.
        subst (λ z. All IsBalanced z.1) (sym p)
          (All-update name f v.1 found (k (find-IsBalanced name f v.1 found h)) h),
  )

  Post-leer :
      {A B : Type 0} {Q : B → State D → Type 0} (f : State D → A) (g : A → M D B) (s : State D)
      → Post Q (g (f s) s)
      → Post Q ((leer f >>= g) s)
  unfolding ◌>>=◌ and_then leer
  Post-leer f g s p = p

  wait-IsBalanced :
      (t : Ptr) (x : Semaforo)
      → leℤ x.value (pos 0) ≡ true
      → IsBalanced x
      → IsBalanced (con_valor predℤ (esperando t x))
  wait-IsBalanced t x h b = (pred-le e x.value x.max b.0, len x.value h b.1)
    where
      len :
          (v : ℤ)
          → leℤ v (pos 0) ≡ true
          → length x.blocked_list ≡ neg_part v
          → length (x.blocked_list ++ t ∷ []) ≡ neg_part (predℤ v)
      len (pos zero) h l = omega (arith, length-append x.blocked_list (t ∷ []))
      len (pos (suc n)) h l = ground arith
      len (negsuc n) h l = omega (arith, length-append x.blocked_list (t ∷ []))

  take-IsBalanced :
      (x : Semaforo) → leℤ x.value (pos 0) ≡ false → IsBalanced x → IsBalanced (con_valor predℤ x)
  take-IsBalanced x h b = (pred-le e x.value x.max b.0, len x.value h b.1)
    where
      len :
          (v : ℤ)
          → leℤ v (pos 0) ≡ false
          → length x.blocked_list ≡ neg_part v
          → length x.blocked_list ≡ neg_part (predℤ v)
      len (pos zero) h l = ground arith
      len (pos (suc n)) h l = omega arith
      len (negsuc n) h l = ground arith

  waits_on-run :
      (tid pid : ℕ) (name : String)
      → Keeps
          (λ v w.
            (t : Ptr) × (w
              ≡ (v.0, update_semaforo name (λ x. con_valor predℤ (esperando t x)) v.1)))
          (do
            ejecucion_a_bloqueado_por_semaforo e tid pid name
            cambiar_semaforo name (con_valor predℤ)
            pure (pos 0))
  unfolding pushes updates
  waits_on-run tid pid name =
      Keeps-bind
        (λ x y z (t, p) q. (
          t,
          subst (λ w. z ≡ (w.0, update_semaforo name (con_valor predℤ) w.1)) p q
              ∙ ap (λ u. (x.0, u))
                  (update-update name (esperando t) (con_valor predℤ) x.1 (λ _. refl)),
        ))
        (bloquear-pushes e tid pid name)
        (λ _.
          quiet-right (cambiar_semaforo-updates name (con_valor predℤ)) (λ _. pure-IsQuiet (pos 0)))

  decrementar-run :
      (pid tid : ℕ) (name : String) (o : Option Semaforo) (s : State D)
      → find_semaforo name s.semaforos ≡ o
      → Post (λ _ s'. Moves (bounded e.max_multiprog) s s') (decrementar e pid tid name o s)
  unfolding decrementar updates
  decrementar-run pid tid name none s h = (quiet-IsBounded e (pure-IsQuiet (negsuc 0))).run s
  decrementar-run pid tid name (some x) s h = elim (Bool-cases (leℤ x.value (pos 0))) [
    | inl low ↦ rw low (
        Post-mono ((waits_on-run tid pid name).run s) λ _ s' p. record {
          locks = p.locks;
          degree =
              bounded-update name _ (view s) (view s') h (wait-IsBalanced p.degree.0 x low)
                p.degree.1;
        })
    | inr high ↦ rw high (
        Post-mono
          ((quiet-left (pure-IsQuiet tt) λ _.
              quiet-right (cambiar_semaforo-updates name (con_valor predℤ))
                λ _. pure-IsQuiet (pos 0)).run
            s)
          λ _ s' p. record {
            locks = p.locks;
            degree = bounded-update name _ (view s) (view s') h (take-IsBalanced x high) p.degree;
          })
  ]

  pub decrementar_semaforo-IsBounded :
      (pid tid : ℕ) (name : String) → IsBounded e (decrementar_semaforo e pid tid name)
  unfolding decrementar_semaforo
  decrementar_semaforo-IsBounded pid tid name = record {
    run = λ s. Post-leer _ _ s (decrementar-run pid tid name _ s refl);
  }
