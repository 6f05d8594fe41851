-- ===== src/Muse/Maps.antt =====
-- The pages of a mapped file in memoria/main_memory.c: obtener_data_marco_mmap, and the test of the
-- programs of a map. A read of the mapping past its end is not told from one inside.
use tp_sistemas_operativos_l.Common.{
  ℕ, ◌+◌, ◌-◌, ◌*◌, Bool, true, false, not, ◌&&◌, List, [], ◌∷◌, ◌==◌, ltb, leb, if◌then◌else◌,
}
use tp_sistemas_operativos_l.Muse.State.{Segment, Program, Archivo, bitmap_heap, bitmap_mmap, mm}
use tp_sistemas_operativos_l.Muse.Monad.{
  M, pure, ◌>>=◌, ◌>>◌, leer, no_nulo, locked, pagina, poner_bit,
}
use tp_sistemas_operativos_l.Muse.Frames.{number_of_free_frames_upcm}
use tp_sistemas_operativos_l.Muse.Clock.{dame_nro_frame_reemplazado, page_with_free_size}
use tp_sistemas_operativos_l.Muse.Loading.{cargar_frame, presentar}
use tp_sistemas_operativos_l.Muse.Heap.{resta}

abbrev pub min : ℕ → ℕ → ℕ
min a b = if leb a b then a else b

-- memcpy of `n` bytes to the start of a frame, and memset of `n` bytes of it.
unfoldable pub copiar_al_inicio : ℕ → (ℕ → ℕ) → (ℕ → ℕ) → ℕ → ℕ
copiar_al_inicio n origen frame o = if ltb o n then origen o else frame o

-- The content that a page gets when a frame was taken from another: its first bytes are cleared, where
-- fewer than a page are read.
unfoldable pub contenido_mmap : ℕ → ℕ → ℕ → (ℕ → ℕ) → (ℕ → ℕ) → ℕ → ℕ
contenido_mmap page_size limit nro archivo frame =
    let bytes_a_leer = min page_size (resta (nro * page_size + page_size) limit) in
    if leb (nro * page_size) limit
    then copiar_al_inicio (page_size - bytes_a_leer) (λ o. 0)
        (copiar_al_inicio bytes_a_leer (λ o. archivo (nro * page_size + o)) frame)
    else copiar_al_inicio page_size (λ o. 0) frame

unfoldable pub archivo_de : Segment → M Archivo
archivo_de seg = do o ← leer (λ s. s.archivos seg.archivo_mapeado); no_nulo o

unfoldable pub mapear_por_reemplazo : ℕ → Segment → ℕ → ℕ → M (Unit {0})
mapear_por_reemplazo fuel seg n nro = do
  num_frame ← dame_nro_frame_reemplazado fuel
  locked bitmap_mmap (poner_bit num_frame false)
  locked mm (pure tt)
  presentar n num_frame
  a ← archivo_de seg
  page_size ← leer (λ s. s.page_size)
  frame ← leer (λ s. s.main_memory num_frame)
  cargar_frame num_frame (contenido_mmap page_size seg.limit nro a.archivo frame)

unfoldable pub mapear_a_libre : ℕ → Segment → ℕ → ℕ → M (Unit {0})
mapear_a_libre fuel seg n nro = do
  sacar_frame ← page_with_free_size fuel
  q ← pagina sacar_frame
  locked bitmap_heap (poner_bit q.fr false)
  presentar n q.fr
  a ← archivo_de seg
  page_size ← leer (λ s. s.page_size)
  frame ← leer (λ s. s.main_memory q.fr)
  cargar_frame q.fr (copiar_al_inicio page_size (λ o. a.archivo (nro * page_size + o)) frame)

unfoldable pub mapear_si_hay : ℕ → Segment → ℕ → ℕ → M (Unit {0})
mapear_si_hay fuel seg n nro = do
  libres ← number_of_free_frames_upcm
  if ltb 0 libres then mapear_a_libre fuel seg n nro else pure tt

unfoldable pub mapear : ℕ → Segment → ℕ → ℕ → M (Unit {0})
mapear fuel seg n nro = do
  libres ← number_of_free_frames_upcm
  if libres == 0 then mapear_por_reemplazo fuel seg n nro else mapear_si_hay fuel seg n nro

-- Page `n`, number `nro` of the segment.
unfoldable pub obtener_data_marco_mmap : ℕ → Segment → ℕ → ℕ → M ℕ
obtener_data_marco_mmap fuel seg n nro = do
  p ← pagina n
  if p.is_present then pure tt else mapear fuel seg n nro
  q ← pagina n
  pure q.fr

unfoldable pub hay_pid : ℕ → List ℕ → Bool
hay_pid pid [] = false
hay_pid pid (p ∷ ps) = if p == pid then true else hay_pid pid ps

-- What list_find gives is compared with NULL, so pid 0 is never found.
unfoldable pub tiene_permiso : Program → Archivo → Bool
tiene_permiso prog a = hay_pid prog.pid a.programas && not (prog.pid == 0)
