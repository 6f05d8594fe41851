-- ===== src/Muse/Data.antt =====
-- memory_get and memory_cpy of memoria/main_memory.c. The quotients that the code rounds up in floating
-- point are exact here. An access out of the buffer is a fault. The bytes that a program is made of when
-- it is not cleared are zero.
use tp_sistemas_operativos_l.Common.{
  ℕ, zero, suc, ◌+◌, ◌-◌, ◌*◌, ◌/◌, ◌%◌, Bool, true, false, not, ◌&&◌, Option, none, some, List, [],
  ◌++◌, ltb, leb, get_elem?, length, if◌then◌else◌,
}
use tp_sistemas_operativos_l.Muse.State.{Segment, Program, lock}
use tp_sistemas_operativos_l.Muse.Monad.{
  M, pure, fallar, ◌>>=◌, ◌>>◌, leer, no_nulo, soltar_mutex, locked, pagina, guardar_pagina,
}
use tp_sistemas_operativos_l.Muse.Frames.{frames_needed}
use tp_sistemas_operativos_l.Muse.Clock.{drop}
use tp_sistemas_operativos_l.Muse.Loading.{obtener_data_marco_heap}
use tp_sistemas_operativos_l.Muse.Heap.{
  metadata_size, palabra, resta, metadata_de, copiar_de, escribir_bytes, take,
}
use tp_sistemas_operativos_l.Muse.Segments.{search_program, programa, busca_segmento, segmento_nro}
use tp_sistemas_operativos_l.Muse.Alloc.{asegurar_programa}
use tp_sistemas_operativos_l.Muse.Maps.{min, archivo_de, obtener_data_marco_mmap, tiene_permiso}

-- An answer: -n, or what was asked for.
pub data Respuesta (A : Type 0) : Type 0 where
  menos : ℕ → Respuesta A
  bien : A → Respuesta A

-- The frame of page `nro` of the segment.
unfoldable pub frame_de : ℕ → Segment → ℕ → M ℕ
frame_de r seg nro = do
  n ← no_nulo (get_elem? seg.page_table nro)
  if seg.is_heap then obtener_data_marco_heap r n else obtener_data_marco_mmap r seg n nro

-- The pages of the segment from `nro` on, in the buffer.
unfoldable pub leer_paginas : ℕ → Segment → ℕ → ℕ → M (List ℕ)
leer_paginas r seg nro zero = pure []
leer_paginas r seg nro (suc cuantas) = do
  fr ← frame_de r seg nro
  page_size ← leer (λ s. s.page_size)
  datos ← leer (λ s. copiar_de (s.main_memory fr) 0 page_size)
  resto ← leer_paginas r seg (suc nro) cuantas
  pure (datos ++ resto)

-- The buffer, back in the pages.
unfoldable pub escribir_paginas : ℕ → Segment → ℕ → ℕ → List ℕ → M (Unit {0})
escribir_paginas r seg nro zero buffer = pure tt
escribir_paginas r seg nro (suc cuantas) buffer = do
  n ← no_nulo (get_elem? seg.page_table nro)
  p ← pagina n
  guardar_pagina n (record p { is_modify = true })
  fr ← frame_de r seg nro
  page_size ← leer (λ s. s.page_size)
  escribir_bytes fr 0 (take page_size buffer)
  escribir_paginas r seg (suc nro) cuantas (drop page_size buffer)

-- The test of a map, under mutex_lock: 1 for one that was unmapped, 2 for one of other programs.
unfoldable pub permiso : Program → Segment → M (Option ℕ)
permiso prog seg = if seg.is_heap then pure none else (do
  a ← archivo_de seg
  pure (if a.con_path then (if tiene_permiso prog a then none else some 2) else some 1))

unfoldable pub programa_de : ℕ → M Program
programa_de pid = do
  _ ← search_program pid
  nro_prog ← search_program pid
  i ← asegurar_programa pid nro_prog
  programa (some i)

-- The bytes, from the pages that hold them.
unfoldable pub obtener_bytes : ℕ → Segment → ℕ → ℕ → M (List ℕ)
obtener_bytes r seg src num_bytes = locked lock do
  page_size ← leer (λ s. s.page_size)
  let offset = resta src seg.base % page_size
  buffer ←
      leer_paginas r seg (resta src seg.base / page_size)
        (frames_needed page_size (offset + num_bytes))
  pure (take num_bytes (drop offset buffer))

-- After the tests of the address. A heap is read without mutex_lock for the test.
unfoldable pub leer_segmento : ℕ → Program → Segment → ℕ → ℕ → M (Respuesta (List ℕ))
leer_segmento r prog seg src num_bytes = do
  e ← if seg.is_heap then pure none else locked lock (permiso prog seg)
  elim e as (λ _. M (Respuesta (List ℕ))) [
    | some n ↦ pure (menos n)
    | none ↦ (do bs ← obtener_bytes r seg src num_bytes; pure (bien bs))
  ]

-- The two error returns unlock mutex_lock without having it.
unfoldable pub leer_de : ℕ → Program → Option Segment → ℕ → ℕ → M (Respuesta (List ℕ))
leer_de r prog none src num_bytes = do soltar_mutex lock; pure (menos 3)
leer_de r prog (some seg) src num_bytes =
    if ltb (palabra (seg.base + seg.limit)) (src + num_bytes)
    then (do soltar_mutex lock; pure (menos 4))
    else leer_segmento r prog seg src num_bytes

unfoldable pub memory_get : ℕ → ℕ → ℕ → ℕ → M (Respuesta (List ℕ))
memory_get r src num_bytes pid = do
  prog ← programa_de pid
  leer_de r prog (segmento_nro prog (busca_segmento prog src)) src num_bytes

-- memcpy of `bs` to place `o` of the buffer.
unfoldable pub poner_en : List ℕ → ℕ → List ℕ → M (List ℕ)
poner_en buffer o bs =
    if leb (o + length bs) (length buffer)
    then pure (take o buffer ++ bs ++ drop (o + length bs) buffer)
    else fallar

-- The metadata of the block is in the buffer before the data.
unfoldable pub copiar_en_heap : ℕ → Segment → ℕ → ℕ → ℕ → List ℕ → List ℕ → M Bool
copiar_en_heap r seg nro cuantas posicion src buffer = do
  metadata ← no_nulo (metadata_de (take metadata_size (drop posicion buffer)))
  if not metadata.is_free && leb (length src) metadata.size
      then (do
        nuevo ← poner_en buffer (posicion + metadata_size) src
        escribir_paginas r seg nro cuantas nuevo
        pure true)
      else pure false

unfoldable pub copiar_en_mapa : ℕ → Segment → ℕ → ℕ → ℕ → List ℕ → List ℕ → M Bool
copiar_en_mapa r seg nro cuantas offset src buffer = do
  page_size ← leer (λ s. s.page_size)
  if leb (length src) (offset + cuantas * page_size)
      then (do
        nuevo ← poner_en buffer offset src
        escribir_paginas r seg nro cuantas nuevo
        pure true)
      else pure false

-- In a map, or in a heap whose metadata is in the page of the address.
unfoldable pub copiar_desde : ℕ → Segment → ℕ → ℕ → ℕ → List ℕ → M Bool
copiar_desde r seg nro offset cuantas src = do
  let paginas = min cuantas (length seg.page_table)
  buffer ← leer_paginas r seg nro paginas
  if seg.is_heap
      then copiar_en_heap r seg nro paginas (offset - metadata_size) src buffer
      else copiar_en_mapa r seg nro paginas offset src buffer

-- In a heap whose metadata starts `antes` pages before: before the first page there is none.
unfoldable pub copiar_antes : ℕ → Segment → ℕ → ℕ → ℕ → ℕ → List ℕ → M Bool
copiar_antes r seg nro offset cuantas antes src = do
  page_size ← leer (λ s. s.page_size)
  if ltb nro antes then fallar else pure tt
  let paginas = min (cuantas + antes) (length seg.page_table)
  buffer ← leer_paginas r seg (nro - antes) paginas
  copiar_en_heap r seg (nro - antes) paginas (antes * page_size + offset - metadata_size) src buffer

unfoldable pub copiar_a : ℕ → Segment → ℕ → List ℕ → M Bool
copiar_a r seg dst src = do
  page_size ← leer (λ s. s.page_size)
  let nro = resta dst seg.base / page_size
  let offset = resta dst seg.base % page_size
  let cuantas = frames_needed page_size (offset + length src)
  locked lock (
      if seg.is_heap && ltb offset metadata_size
      then copiar_antes r seg nro offset cuantas (frames_needed page_size (metadata_size - offset))
          src
      else copiar_desde r seg nro offset cuantas src)

unfoldable pub escribir_en : ℕ → Program → Option Segment → ℕ → List ℕ → M (Respuesta ℕ)
escribir_en r prog none dst src = pure (menos 3)
escribir_en r prog (some seg) dst src = do
  e ← locked lock (permiso prog seg)
  elim e as (λ _. M (Respuesta ℕ)) [
    | some n ↦ pure (menos n)
    | none ↦ (do b ← copiar_a r seg dst src; pure (if b then bien dst else menos 1))
  ]

unfoldable pub memory_cpy : ℕ → ℕ → List ℕ → ℕ → M (Respuesta ℕ)
memory_cpy r dst src pid = do
  prog ← programa_de pid
  escribir_en r prog (segmento_nro prog (busca_segmento prog dst)) dst src
