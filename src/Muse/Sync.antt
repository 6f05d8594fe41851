-- ===== src/Muse/Sync.antt =====
-- memory_sync of memoria/main_memory.c. msync and the mapping beyond the file are not told from the bytes
-- of the mapping. The answer is -1, -2 or 0.
use tp_sistemas_operativos_l.Common.{
  ℕ, ◌+◌, ◌-◌, ◌*◌, ◌/◌, ◌%◌, Bool, true, not, ◌&&◌, ◌||◌, Option, none, some, List, ◌==◌, ltb, leb,
  get_elem?, length, if◌then◌else◌,
}
use tp_sistemas_operativos_l.Muse.State.{Segment, Program, lock}
use tp_sistemas_operativos_l.Muse.Monad.{M, pure, ◌>>=◌, ◌>>◌, leer, cambiar, locked, escribir}
use tp_sistemas_operativos_l.Muse.Frames.{frames_needed}
use tp_sistemas_operativos_l.Muse.Clock.{lista_de_segmentos}
use tp_sistemas_operativos_l.Muse.Heap.{palabra, resta, copiar_en, take}
use tp_sistemas_operativos_l.Muse.Segments.{search_program, programa, busca_segmento}
use tp_sistemas_operativos_l.Muse.Alloc.{asegurar_programa}
use tp_sistemas_operativos_l.Muse.Maps.{min, archivo_de, tiene_permiso}
use tp_sistemas_operativos_l.Muse.Data.{Respuesta, menos, bien, leer_paginas}

-- memset of `n` bytes from `o` on.
unfoldable pub ceros : (ℕ → ℕ) → ℕ → ℕ → ℕ → ℕ
ceros f o n i = if leb o i && ltb i (o + n) then 0 else f i

-- The bytes of the mapping after the copy of `nro_bytes` bytes to `inicio`. What is cleared after them
-- starts one byte later.
unfoldable pub sincronizado : (ℕ → ℕ) → ℕ → ℕ → ℕ → List ℕ → ℕ → ℕ
sincronizado archivo inicio nro_bytes tam buffer =
    let copiado = copiar_en archivo inicio (take nro_bytes buffer) in
    if ltb nro_bytes tam then ceros copiado (inicio + nro_bytes + 1) (tam - nro_bytes) else copiado

unfoldable pub guardar_bytes : Segment → (ℕ → ℕ) → M (Unit {0})
guardar_bytes seg bs = do
  a ← archivo_de seg
  cambiar (λ s. record s {
    archivos = escribir s.archivos seg.archivo_mapeado (some (record a { archivo = bs }));
  })

-- The copy of `cantidad` pages from number `nro` on.
unfoldable pub volcar : ℕ → Segment → ℕ → ℕ → ℕ → M (Respuesta ℕ)
volcar r seg nro cantidad largo = do
  page_size ← leer (λ s. s.page_size)
  buffer ← leer_paginas r seg nro cantidad
  if leb (nro * page_size) seg.tam_archivo_mmap
      then (do
        a ← archivo_de seg
        guardar_bytes seg (
            sincronizado a.archivo (nro * page_size) (min largo seg.tam_archivo_mmap)
              seg.tam_archivo_mmap buffer)
        pure (bien 0))
      else pure (menos 1)

-- A heap, or an address that does not start a page.
unfoldable pub sincronizar_mapa : ℕ → Segment → ℕ → ℕ → ℕ → M (Respuesta ℕ)
sincronizar_mapa r seg dir cantidad largo = do
  page_size ← leer (λ s. s.page_size)
  if seg.is_heap || not (dir % page_size == 0)
      then pure (menos 1)
      else volcar r seg (resta dir seg.base / page_size) cantidad largo

unfoldable pub con_permiso : Program → Segment → M Bool
con_permiso prog seg =
    if seg.is_heap then pure true else (do a ← archivo_de seg; pure (tiene_permiso prog a))

unfoldable pub sincronizar : ℕ → Program → Option Segment → ℕ → ℕ → M (Respuesta ℕ)
sincronizar r prog none dir largo = pure (menos 2)
sincronizar r prog (some seg) dir largo = do
  page_size ← leer (λ s. s.page_size)
  let cantidad = frames_needed page_size largo
  if ltb (length seg.page_table) cantidad || ltb (palabra (seg.base + seg.limit)) (dir + largo)
      then pure (menos 2)
      else (do
        b ← con_permiso prog seg
        if b then sincronizar_mapa r seg dir cantidad largo else pure (menos 1))

-- The number of the segment in the table of the program is used in the list of the segments of all
-- programs.
unfoldable pub segmento_global : List Segment → Option ℕ → Option Segment
segmento_global segs none = none
segmento_global segs (some i) = get_elem? segs i

unfoldable pub memory_sync : ℕ → ℕ → ℕ → ℕ → M (Respuesta ℕ)
memory_sync r direccion largo pid = locked lock do
  nro_prog ← search_program pid
  i ← asegurar_programa pid nro_prog
  prog ← programa (some i)
  lista_seg ← leer (λ s. lista_de_segmentos s.program_list)
  sincronizar r prog (segmento_global lista_seg (busca_segmento prog direccion)) direccion largo
