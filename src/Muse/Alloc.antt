-- ===== src/Muse/Alloc.antt =====
-- memory_malloc of memoria/main_memory.c. The answer is a 32-bit word, -1 for an error; a size below one
-- is 0 here. The quotients that the code rounds up in floating point are exact below 2^24. A segment that
-- has room is a heap, so the test of the programs of a map is left out.
use tp_sistemas_operativos_l.Common.{
  ℕ, ◌/◌, zero, suc, ◌+◌, ◌-◌, ◌*◌, ◌%◌, ◌^◌, Bool, true, false, Option, none, some, [], ◌∷◌, ◌++◌,
  ◌==◌, ltb, get_elem?, set, length, if◌then◌else◌,
}
use tp_sistemas_operativos_l.Muse.State.{Segment, Program, lock}
use tp_sistemas_operativos_l.Muse.Monad.{
  M, pure, sin_fuel, ◌>>=◌, ◌>>◌, leer, cambiar, no_nulo, tomar_mutex, soltar_mutex, locked, pagina,
  guardar_pagina,
}
use tp_sistemas_operativos_l.Muse.Frames.{number_of_free_frames, frames_needed}
use tp_sistemas_operativos_l.Muse.Clock.{page_with_free_size}
use tp_sistemas_operativos_l.Muse.Heap.{
  metadata_size, palabra, resta, buscar_metadata_por_direccion, modificar_metadata, siguiente_de,
  ultima_metadata_segmento, proxima_metadata_libre_con_size,
}
use tp_sistemas_operativos_l.Muse.Segments.{
  search_program, programa, cambiar_programa, ultimo_segmento_programa, se_puede_agrandar,
  segment_with_free_space,
}

abbrev pub menos_uno : ℕ
menos_uno = 2 ^ 32 - 1

-- The number of the program, which is added to the list if it is not there. A program keeps 16 bits of its
-- pid.
unfoldable pub asegurar_programa : ℕ → Option ℕ → M ℕ
asegurar_programa pid (some i) = pure i
asegurar_programa pid none = do
  i ← leer (λ s. length s.program_list)
  cambiar (λ s. record s {
    program_list =
        s.program_list ++ record { pid = pid % 2 ^ 16; segment_table = []; using_memory = 0 } ∷ [];
  })
  pure i

-- Segment `j` of program `i`.
unfoldable pub segmento_de : ℕ → ℕ → M Segment
segmento_de i j = do p ← programa (some i); no_nulo (get_elem? p.segment_table j)

unfoldable pub cambiar_segmento : ℕ → ℕ → (Segment → Segment) → M (Unit {0})
cambiar_segmento i j f = do
  seg ← segmento_de i j
  cambiar_programa i (λ p. record p { segment_table = set p.segment_table j (f seg) })

-- `n` pages more at the end of a segment, whose limit grows by `paso` for each.
unfoldable pub agregar_paginas : ℕ → ℕ → ℕ → ℕ → ℕ → M (Unit {0})
agregar_paginas r i j paso zero = pure tt
agregar_paginas r i j paso (suc n) = do
  pag ← page_with_free_size r
  p ← pagina pag
  guardar_pagina pag (record p { is_used = true })
  cambiar_segmento i j (λ seg. record seg {
    page_table = seg.page_table ++ pag ∷ [];
    limit = palabra (seg.limit + paso);
  })
  agregar_paginas r i j paso n

unfoldable pub o_menos_uno : Option ℕ → ℕ
o_menos_uno none = menos_uno
o_menos_uno (some d) = d

-- In a segment with room: the block is cut in two. It gives the address of its metadata.
unfoldable pub alocar : ℕ → ℕ → Program → M ℕ
alocar r size prog = do
  nro_seg ← segment_with_free_space r prog (size + metadata_size)
  j ← no_nulo nro_seg
  seg ← no_nulo (get_elem? prog.segment_table j)
  libre ← proxima_metadata_libre_con_size r r seg.base seg (size + metadata_size)
  let dir = o_menos_uno libre
  anterior ← buscar_metadata_por_direccion r dir seg
  modificar_metadata r dir seg size false
  nueva ← buscar_metadata_por_direccion r dir seg
  let dir_final = siguiente_de nueva dir
  _ ← buscar_metadata_por_direccion r dir_final seg
  modificar_metadata r dir_final seg (resta anterior.size (size + metadata_size)) true
  ultima ← ultima_metadata_segmento r r seg.base seg
  _ ← buscar_metadata_por_direccion r ultima seg
  pure dir

-- The last segment, number `j` of program `i`, gets the pages that the block needs. Where the last block
-- has more than the bytes needed, the number of pages is negative: the block loses the whole pages of the
-- rest.
unfoldable pub agrandar : ℕ → ℕ → ℕ → ℕ → M (Unit {0})
agrandar r size i j = locked lock do
  seg ← segmento_de i j
  page_size ← leer (λ s. s.page_size)
  ultima ← ultima_metadata_segmento r r seg.base seg
  m ← buscar_metadata_por_direccion r ultima seg
  let paginas = frames_needed page_size (size + metadata_size - m.size)
  let de_mas = (m.size - (size + metadata_size)) / page_size
  modificar_metadata r ultima seg (palabra (paginas * page_size + m.size - de_mas * page_size)) true
  _ ← buscar_metadata_por_direccion r ultima seg
  agregar_paginas r i j page_size paginas
  nuevo ← segmento_de i j
  _ ← buscar_metadata_por_direccion r ultima nuevo
  pure tt

-- A heap segment without pages at the end of the table of program `i`: its number.
unfoldable pub agregar_segmento : ℕ → ℕ → M ℕ
agregar_segmento i base = do
  p ← programa (some i)
  cambiar_programa i (λ q. record q {
    segment_table =
        q.segment_table
        ++ record {
          is_heap = true;
          base = base;
          limit = 0;
          page_table = [];
          archivo_mapeado = 0;
          tipo_map = 0;
          tam_archivo_mmap = 0;
        }
          ∷ [];
  })
  pure (length p.segment_table)

-- The metadata of a new segment, written at address 0.
unfoldable pub primera_metadata : ℕ → ℕ → ℕ → ℕ → M (Unit {0})
primera_metadata r i j paginas = do
  page_size ← leer (λ s. s.page_size)
  seg ← segmento_de i j
  modificar_metadata r 0 seg (resta (paginas * page_size) metadata_size) true
  _ ← buscar_metadata_por_direccion r 0 seg
  pure tt

-- After a last segment that cannot grow. Its limit is set when it has its pages.
unfoldable pub crear_siguiente : ℕ → ℕ → ℕ → Segment → M (Unit {0})
crear_siguiente r size i ultimo = do
  page_size ← leer (λ s. s.page_size)
  let paginas = frames_needed page_size (size + metadata_size * 2)
  let base = palabra (ultimo.limit + 1)
  j ← agregar_segmento i base
  locked lock (agregar_paginas r i j 0 paginas)
  cambiar_segmento i j (λ seg. record seg { limit = palabra (paginas * page_size + base) })
  locked lock (primera_metadata r i j paginas)

-- The first segment, or one after a map: its base is 0.
unfoldable pub crear_primero : ℕ → ℕ → ℕ → M (Unit {0})
crear_primero r size i = do
  page_size ← leer (λ s. s.page_size)
  let paginas = frames_needed page_size (size + metadata_size * 2)
  j ← agregar_segmento i 0
  locked lock (do agregar_paginas r i j page_size paginas; primera_metadata r i j paginas)

-- Room is made for the next call, with mutex_lock free.
unfoldable pub hacer_lugar : ℕ → ℕ → ℕ → Program → Option Segment → M (Unit {0})
hacer_lugar r size i prog none = crear_primero r size i
hacer_lugar r size i prog (some seg) =
    if seg.is_heap
    then (if se_puede_agrandar seg prog
        then agrandar r size i (length prog.segment_table - 1)
        else crear_siguiente r size i seg)
    else crear_primero r size i

-- metricas_por_socket_conectado only counts what it writes to the log.
unfoldable pub metricas_por_socket_conectado : ℕ → M (Unit {0})
metricas_por_socket_conectado pid = do
  nro_prog ← search_program pid
  _ ← programa nro_prog
  _ ← number_of_free_frames
  pure tt

unfoldable pub terminar_malloc : ℕ → ℕ → ℕ → ℕ → M ℕ
terminar_malloc size pid i dir = do
  soltar_mutex lock
  metricas_por_socket_conectado pid
  cambiar_programa i (λ p. record p { using_memory = palabra (p.using_memory + size) })
  pure (palabra (dir + metadata_size))

unfoldable pub hay_memoria : ℕ → M Bool
hay_memoria size = do
  libres ← number_of_free_frames
  page_size ← leer (λ s. s.page_size)
  pure (if ltb (libres * page_size) (size + metadata_size) then false else true)

-- `fuel` bounds the calls of memory_malloc by itself, `r` every other loop.
unfoldable pub memory_malloc : ℕ → ℕ → ℕ → ℕ → M ℕ
memory_malloc r zero size pid = sin_fuel
memory_malloc r (suc fuel) size pid = do
  tomar_mutex lock
  if size == 0 then pure 0 else (do
    hay ← hay_memoria size
    soltar_mutex lock
    if hay
        then (do
          nro_prog ← search_program pid
          i ← asegurar_programa pid nro_prog
          prog ← programa (some i)
          tomar_mutex lock
          lugar ← segment_with_free_space r prog (size + metadata_size)
          elim lugar as (λ _. M ℕ) [
            | some j ↦ (do dir ← alocar r size prog; terminar_malloc size pid i dir)
            | none ↦ (do
              soltar_mutex lock
              hacer_lugar r size i prog (ultimo_segmento_programa prog)
              memory_malloc r fuel size pid)
          ])
        else pure menos_uno)
