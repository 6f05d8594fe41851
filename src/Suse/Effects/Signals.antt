-- ===== src/Suse/Effects/Signals.antt =====
-- signal keeps each semaphore in order: VALUE is at most MAX, and as many threads wait as VALUE is
-- below 0.
use Prim.Native.String.{String}
use tp_sistemas_operativos_l.Common.{
  ℤ, pos, negsuc, zero, suc, succℤ, ◌≤ℤ◌, neg_part, length, ◌≡◌, refl, sym, ap, ◌∙◌, false,
  Bool-cases, inl, inr, Option, none, some, List, [], ◌∷◌, arith,
}
use tp_sistemas_operativos_l.Suse.State.{Ptr, Semaforo, Entorno, State}
use tp_sistemas_operativos_l.Suse.Monad.{pure, and_then, ◌>>=◌, leer, cambiar}
use tp_sistemas_operativos_l.Suse.Semaphores.{
  find_semaforo, update_semaforo, sin_primero, igualℤ, cambiar_semaforo, incrementar,
  incrementar_semaforo, desbloquear, desbloquear_hilos, desbloquear_hilos_semaforo,
}
use tp_sistemas_operativos_l.Suse.Service.{tras_incrementar}
use tp_sistemas_operativos_l.Suse.Effects.Triple.{view, Post, post_ok, Post-mono, Moves, Keeps}
use tp_sistemas_operativos_l.Suse.Effects.Quiet.{quiet_base, pure-IsQuiet}
use tp_sistemas_operativos_l.Suse.Effects.Parts.{bloqueado_a_listo-IsQuiet}
use tp_sistemas_operativos_l.Suse.Effects.Bound.{IsBalanced, bounded, IsBounded, quiet-IsBounded}
use tp_sistemas_operativos_l.Suse.Effects.Updates.{
  con_valor, sin_el_primero, update-update, find-update, updates, cambiar_semaforo-updates,
  quiet-left, quiet-right,
}
use tp_sistemas_operativos_l.Suse.Effects.Balance.{bounded-update}

module _ {D : Type 0} (e : Entorno D) where
  desbloquear-updates :
      (name : String) (p : Ptr) (ps : List Ptr)
      → Keeps (updates name sin_el_primero) (desbloquear e name (p ∷ ps))
  unfolding desbloquear
  desbloquear-updates name p ps =
      search
        (quiet_base, quiet-left, quiet-right, bloqueado_a_listo-IsQuiet, cambiar_semaforo-updates)
        depth 12

  succ-le : (v m : ℤ) → igualℤ v m ≡ false → v ≤ℤ m → succℤ v ≤ℤ m
  succ-le (pos n) m h t = ground arith
  succ-le (negsuc zero) m h t = ground arith
  succ-le (negsuc (suc n)) m h t = ground arith

  signal-IsBalanced :
      (x : Semaforo) (ps : List Ptr)
      → igualℤ x.value x.max ≡ false
      → x.blocked_list ≡ ps
      → IsBalanced x
      → IsBalanced (sin_el_primero (con_valor succℤ x))
  unfolding sin_primero
  signal-IsBalanced x ps m h b = (succ-le x.value x.max m b.0, rw h (len ps x.value (rw h at b.1)))
    where
      len :
          (ps : List Ptr) (v : ℤ)
          → length ps ≡ neg_part v
          → length (sin_primero ps) ≡ neg_part (succℤ v)
      len [] (pos n) l = refl
      len [] (negsuc n) l = absurd (omega arith)
      len (p ∷ ps) (pos n) l = absurd (omega arith)
      len (p ∷ ps) (negsuc zero) l = omega arith
      len (p ∷ ps) (negsuc (suc n)) l = omega arith

  -- The second half of handle_signal_sem, after the increment.
  tras-run :
      (name : String) (x : Semaforo) (ps : List Ptr) (s : State D)
      → find_semaforo name s.semaforos ≡ some x
      → igualℤ x.value x.max ≡ false
      → x.blocked_list ≡ ps
      → Post
          (λ _ s'. Moves (bounded e.max_multiprog) s s')
          (desbloquear e name ps
            (record s { semaforos = update_semaforo name (con_valor succℤ) s.semaforos }))
  unfolding desbloquear pure updates sin_primero
  tras-run name x [] s h m b = post_ok (record {
    locks = refl;
    degree =
        bounded-update e name (con_valor succℤ) (view s) _ h
          (λ k.
            let k' = signal-IsBalanced x [] m b k in
            (k'.0, ap length b ∙ sym (ap (λ l. length (sin_primero l)) b) ∙ k'.1))
          refl;
  })
  tras-run name x (p ∷ ps) s h m b =
      Post-mono
        ((desbloquear-updates name p ps).run
          (record s { semaforos = update_semaforo name (con_valor succℤ) s.semaforos }))
        λ _ s' q. record {
          locks = q.locks;
          degree =
              bounded-update e name (λ y. sin_el_primero (con_valor succℤ y)) (view s) (view s') h
                (signal-IsBalanced x (p ∷ ps) m b)
                (q.degree
                  ∙ ap (λ u. (s.actual_multiprog, u))
                      (update-update name (con_valor succℤ) sin_el_primero s.semaforos
                        (λ _. refl)));
        }

  incrementar-run :
      (name : String) (o : Option Semaforo) (s : State D)
      → find_semaforo name s.semaforos ≡ o
      → Post
          (λ _ s'. Moves (bounded e.max_multiprog) s s')
          ((incrementar name o >>= λ r. tras_incrementar e r name) s)
  unfolding incrementar tras_incrementar ◌>>=◌ and_then pure cambiar_semaforo cambiar
      desbloquear_hilos_semaforo desbloquear_hilos leer
  incrementar-run name none s h = (quiet-IsBounded e (pure-IsQuiet (negsuc 0))).run s
  incrementar-run name (some x) s h = elim (Bool-cases (igualℤ x.value x.max)) [
    | inl m ↦ rw m ((quiet-IsBounded e (pure-IsQuiet (negsuc 0))).run s)
    | inr m ↦ rw m (
        rw (find-update name (con_valor succℤ) s.semaforos (λ _. refl) h)
          (tras-run name x x.blocked_list s h m refl))
  ]

  pub signal-IsBounded :
      (name : String) → IsBounded e (incrementar_semaforo name >>= λ r. tras_incrementar e r name)
  unfolding incrementar_semaforo ◌>>=◌ and_then leer
  signal-IsBounded name = record { run = λ s. incrementar-run name _ s refl }
