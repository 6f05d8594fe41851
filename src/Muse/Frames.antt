-- ===== src/Muse/Frames.antt =====
-- Frames: the counts, frame_swap_libre, the eviction of a page to the swap file and liberar_frame of
-- memoria/main_memory.c. TOTAL_FRAME_NUM and TOTAL_FRAME_NUM_SWAP are the lengths of the bitmaps. The
-- log lines are left out.
use tp_sistemas_operativos_l.Common.{
  ℕ, suc, ◌+◌, ◌/◌, ◌%◌, Bool, true, false, Option, none, some, List, [], ◌∷◌, ◌==◌, if◌then◌else◌,
}
use tp_sistemas_operativos_l.Muse.State.{bitmap_heap, bitmap_mmap, mm}
use tp_sistemas_operativos_l.Muse.Monad.{
  M, pure, ◌>>=◌, ◌>>◌, leer, cambiar, tomar_mutex, soltar_mutex, locked, pagina, escribir,
  guardar_pagina, poner_bit, poner_bit_swap,
}

unfoldable pub bits_libres : List Bool → ℕ
bits_libres [] = 0
bits_libres (true ∷ bs) = suc (bits_libres bs)
bits_libres (false ∷ bs) = bits_libres bs

unfoldable pub number_of_free_frames_upcm : M ℕ
number_of_free_frames_upcm = do
  frames_libres_1 ← locked bitmap_heap (leer (λ s. bits_libres s.bitmap))
  _ ← locked bitmap_mmap (leer (λ s. bits_libres s.bitmap_swap_file))
  pure frames_libres_1

unfoldable pub number_of_free_frames : M ℕ
number_of_free_frames = do
  frames_libres_1 ← locked bitmap_heap (leer (λ s. bits_libres s.bitmap))
  frames_libres_2 ← locked bitmap_mmap (leer (λ s. bits_libres s.bitmap_swap_file))
  pure (frames_libres_1 + frames_libres_2)

unfoldable pub frames_needed : ℕ → ℕ → ℕ
frames_needed page_size size_total =
    size_total / page_size + (if size_total % page_size == 0 then 0 else 1)

abbrev pub en_cola : Option ℕ → Option ℕ
en_cola none = none
en_cola (some i) = some (suc i)

-- The first bit that is set.
unfoldable pub primer_frame : List Bool → Option ℕ
primer_frame [] = none
primer_frame (true ∷ bs) = some 0
primer_frame (false ∷ bs) = en_cola (primer_frame bs)

-- The return of a frame that is found leaves the mutex locked.
unfoldable pub salir_con : Option ℕ → M (Option ℕ)
salir_con none = do soltar_mutex bitmap_heap; pure none
salir_con (some i) = pure (some i)

unfoldable pub proximo_frame_libre : M (Option ℕ)
proximo_frame_libre = do tomar_mutex bitmap_heap; i ← leer (λ s. primer_frame s.bitmap); salir_con i

-- The bit that frame_swap_libre takes.
unfoldable pub tomar_swap : Option ℕ → M (Option ℕ)
tomar_swap none = pure none
tomar_swap (some i) = do poner_bit_swap i false; pure (some i)

-- The code locks the bitmap for each frame that it looks at: here once for the search. `none` is -1.
unfoldable pub frame_swap_libre : M (Option ℕ)
frame_swap_libre =
    locked bitmap_mmap do i ← leer (λ s. primer_frame s.bitmap_swap_file); tomar_swap i

-- The copy of a frame to the place in the swap file that was found.
unfoldable pub copiar_a_swap : ℕ → Option ℕ → M (Unit {0})
copiar_a_swap nro_frame none = pure tt
copiar_a_swap nro_frame (some k) = do
  buffer ← locked mm (leer (λ s. s.main_memory nro_frame))
  cambiar (λ s. record s { swap_file = escribir s.swap_file k buffer })

-- mandar_al_archivo_swap_toda_la_pagina_que_esta_en.
unfoldable pub mandar_al_swap : ℕ → M (Option ℕ)
mandar_al_swap nro_frame = do
  nro_frame_swap ← frame_swap_libre
  copiar_a_swap nro_frame nro_frame_swap
  pure nro_frame_swap

-- The page that was evicted, unless the swap file is full.
unfoldable pub marcar_victima : ℕ → Option ℕ → M (Unit {0})
marcar_victima n none = pure tt
marcar_victima n (some k) = do
  p ← pagina n
  guardar_pagina n (record p { fr = k; is_present = false })

-- se_hace_la_vistima of page n.
unfoldable pub se_hace_la_vistima : ℕ → M ℕ
se_hace_la_vistima n = do
  p ← pagina n
  nro_frame_upcm ← locked mm (pure p.fr)
  locked bitmap_heap (poner_bit nro_frame_upcm true)
  nro_frame_swap ← mandar_al_swap nro_frame_upcm
  marcar_victima n nro_frame_swap
  pure nro_frame_upcm

unfoldable pub liberar_frame : ℕ → M (Unit {0})
liberar_frame numero_frame = locked bitmap_heap (poner_bit numero_frame true)

unfoldable pub liberar_frame_swap : ℕ → M (Unit {0})
liberar_frame_swap frame = locked bitmap_mmap (poner_bit_swap frame true)
