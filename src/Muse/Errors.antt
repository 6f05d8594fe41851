-- ===== src/Muse/Errors.antt =====
-- memory_malloc of no bytes, and the calls after it.
use tp_sistemas_operativos_l.Common.{ℕ, suc, ◌≡◌, refl, ◌∷◌}
use tp_sistemas_operativos_l.Muse.State.{Muse, lock}
use tp_sistemas_operativos_l.Muse.Monad.{
  ok, deadlock, pure, and_then, ◌>>=◌, tiene, mutex_eq, tomar_mutex,
}
use tp_sistemas_operativos_l.Muse.Eviction.{Libre}
use tp_sistemas_operativos_l.Muse.Alloc.{memory_malloc}

-- Where mutex_lock is free, memory_malloc of no bytes answers 0 and keeps mutex_lock: every call of
-- memory_malloc after it, whatever its size and program, does not return.
pub memory_malloc-zero :
    (r fuel pid : ℕ) (s : Muse)
    → Libre lock s
    → (t : Muse) × (memory_malloc r (suc fuel) 0 pid s ≡ ok 0 t)
      × ((fuel2 size pid2 : ℕ) → memory_malloc r (suc fuel2) size pid2 t ≡ deadlock)
unfolding memory_malloc tomar_mutex tiene mutex_eq pure ◌>>=◌ and_then
memory_malloc-zero r fuel pid s h = (record s { held = lock ∷ s.held }, rw h refl, λ f size p. refl)
