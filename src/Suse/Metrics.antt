-- ===== src/Suse/Metrics.antt =====
-- The metrics that close_tid and the timer compute: the counts of threads by state, and the locks that
-- metricas_sistema takes. The times and percentages that metricas_por_hilo logs are left out: it reads
-- the same threads and changes nothing.
use tp_sistemas_operativos_l.Common.{ℕ, ◌+◌, List, [], ◌∷◌, ◌==◌, if◌then◌else◌}
use tp_sistemas_operativos_l.Suse.State.{
  Ptr, Estado, e_ready, e_execute, e_blocked, e_exit, e_new, Process, m_multiprog, m_semaforos,
}
use tp_sistemas_operativos_l.Suse.Monad.{M, pure, ◌>>=◌, ◌>>◌, leer, locked}
use tp_sistemas_operativos_l.Suse.Access.{hilo}

-- The counters of metricas_por_programa.
pub record Conteo : Type 0 where
  pub news : ℕ
  pub readys : ℕ
  pub executing : ℕ
  pub blocked : ℕ
  pub exits : ℕ

unfoldable pub contar : Estado → Conteo → Conteo
contar e_ready c = record c { readys = c.readys + 1 }
contar e_execute c = record c { executing = 1 }
contar e_blocked c = record c { blocked = c.blocked + 1 }
contar e_new c = record c { news = c.news + 1 }
contar e_exit c = c

unfoldable pub sin_hilos : Conteo
sin_hilos = record { news = 0; readys = 0; executing = 0; blocked = 0; exits = 0 }

module _ {D : Type 0} where
  unfoldable pub contar_hilos : List Ptr → Conteo → M D Conteo
  contar_hilos [] c = pure c
  contar_hilos (p ∷ ps) c = do t ← hilo p; contar_hilos ps (contar t.estado c)

  -- list_size(list_filter(exit_queue, buscadorNew)).
  unfoldable pub contar_exit : ℕ → List Ptr → M D ℕ
  contar_exit pid [] = pure 0
  contar_exit pid (p ∷ ps) = do
    t ← hilo p
    n ← contar_exit pid ps
    pure (if t.proceso_id == pid then n + 1 else n)

  unfoldable pub conteo_de : Process → M D Conteo
  conteo_de p = do
    c ← contar_hilos p.ults sin_hilos
    q ← leer (λ s. s.exit_queue)
    n ← contar_exit p.process_id q
    pure (record c { exits = n })

  unfoldable pub conteos : List Process → M D (List Conteo)
  conteos [] = pure []
  conteos (p ∷ ps) = do c ← conteo_de p; cs ← conteos ps; pure (c ∷ cs)

  unfoldable pub metricas_por_programa : M D (List Conteo)
  metricas_por_programa = do ps ← leer (λ s. s.process); conteos ps

  unfoldable pub metricas_sistema : M D (Unit {0})
  metricas_sistema = do locked m_semaforos (pure tt); locked m_multiprog (pure tt)

  unfoldable pub metricas : M D (Unit {0})
  metricas = do metricas_sistema; _ ← metricas_por_programa; pure tt
