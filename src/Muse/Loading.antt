-- ===== src/Muse/Loading.antt =====
-- obtener_data_marco_heap of memoria/main_memory.c: a page back from the swap file.
use tp_sistemas_operativos_l.Common.{ℕ, true, false, ◌==◌, ltb, if◌then◌else◌}
use tp_sistemas_operativos_l.Muse.State.{bitmap_heap, mm}
use tp_sistemas_operativos_l.Muse.Monad.{
  M, pure, ◌>>=◌, ◌>>◌, leer, cambiar, locked, pagina, escribir, guardar_pagina, poner_bit,
}
use tp_sistemas_operativos_l.Muse.Frames.{number_of_free_frames_upcm, liberar_frame_swap}
use tp_sistemas_operativos_l.Muse.Clock.{dame_nro_frame_reemplazado, page_with_free_size}

unfoldable pub cargar_frame : ℕ → (ℕ → ℕ) → M (Unit {0})
cargar_frame fr buffer = cambiar (λ s. record s { main_memory = escribir s.main_memory fr buffer })

-- The page on frame `fr`, where it was used.
unfoldable pub presentar : ℕ → ℕ → M (Unit {0})
presentar n fr = do
  p ← pagina n
  guardar_pagina n (record p { fr = fr; is_present = true; is_used = true })

-- Without a free frame.
unfoldable pub traer_por_reemplazo : ℕ → ℕ → M (Unit {0})
traer_por_reemplazo fuel n = do
  num_frame ← dame_nro_frame_reemplazado fuel
  locked bitmap_heap (poner_bit num_frame false)
  p ← pagina n
  liberar_frame_swap p.fr
  buffer ← leer (λ s. s.swap_file p.fr)
  locked mm (pure tt)
  presentar n num_frame
  cargar_frame num_frame buffer

-- With one.
unfoldable pub traer_a_libre : ℕ → ℕ → M (Unit {0})
traer_a_libre fuel n = do
  p ← pagina n
  buffer ← leer (λ s. s.swap_file p.fr)
  sacar_frame ← page_with_free_size fuel
  liberar_frame_swap p.fr
  q ← pagina sacar_frame
  locked bitmap_heap (poner_bit q.fr false)
  presentar n q.fr
  cargar_frame q.fr buffer

-- The code counts the free frames again for its second test.
unfoldable pub traer_si_hay : ℕ → ℕ → M (Unit {0})
traer_si_hay fuel n = do
  libres ← number_of_free_frames_upcm
  if ltb 0 libres then traer_a_libre fuel n else pure tt

unfoldable pub traer : ℕ → ℕ → M (Unit {0})
traer fuel n = do
  libres ← number_of_free_frames_upcm
  if libres == 0 then traer_por_reemplazo fuel n else traer_si_hay fuel n

unfoldable pub obtener_data_marco_heap : ℕ → ℕ → M ℕ
obtener_data_marco_heap fuel n = do
  p ← pagina n
  if p.is_present then pure tt else traer fuel n
  q ← pagina n
  pure q.fr
