-- ===== src/Muse/Segments.antt =====
-- Programs and segments of memoria/main_memory.c: the searches, the compaction of a heap and memory_free.
use tp_sistemas_operativos_l.Common.{
  ℕ, zero, suc, ◌+◌, ◌-◌, Bool, true, false, ◌&&◌, Option, none, some, List, [], ◌∷◌, ◌==◌, leb,
  get_elem?, set, length, if◌then◌else◌,
}
use tp_sistemas_operativos_l.Muse.State.{HeapMetadata, Segment, Program, lock}
use tp_sistemas_operativos_l.Muse.Monad.{
  M, pure, sin_fuel, ◌>>=◌, ◌>>◌, leer, cambiar, no_nulo, locked,
}
use tp_sistemas_operativos_l.Muse.Frames.{en_cola}
use tp_sistemas_operativos_l.Muse.Heap.{
  metadata_size, palabra, resta, buscar_metadata_por_direccion, modificar_metadata, siguiente_de,
  ultima_metadata_segmento, proxima_metadata_libre_con_size, proxima_metadata_libre,
}

unfoldable pub buscar_pid : ℕ → List Program → Option ℕ
buscar_pid pid [] = none
buscar_pid pid (p ∷ ps) = if p.pid == pid then some 0 else en_cola (buscar_pid pid ps)

unfoldable pub search_program : ℕ → M (Option ℕ)
search_program pid = leer (λ s. buscar_pid pid s.program_list)

-- list_get with the number of a search: -1 gives NULL.
unfoldable pub programa : Option ℕ → M Program
programa none = no_nulo none
programa (some i) = do o ← leer (λ s. get_elem? s.program_list i); no_nulo o

unfoldable pub cambiar_programa : ℕ → (Program → Program) → M (Unit {0})
cambiar_programa i f = do
  p ← programa (some i)
  cambiar (λ s. record s { program_list = set s.program_list i (f p) })

unfoldable pub buscar_en : ℕ → List Segment → Option ℕ
buscar_en dir [] = none
buscar_en dir (seg ∷ segs) =
    if leb seg.base dir && leb dir seg.limit then some 0 else en_cola (buscar_en dir segs)

unfoldable pub busca_segmento : Program → ℕ → Option ℕ
busca_segmento prog dir = buscar_en dir prog.segment_table

-- list_get of the table of segments.
unfoldable pub segmento_nro : Program → Option ℕ → Option Segment
segmento_nro prog none = none
segmento_nro prog (some i) = get_elem? prog.segment_table i

unfoldable pub ultimo_segmento_programa : Program → Option Segment
ultimo_segmento_programa prog = get_elem? prog.segment_table (length prog.segment_table - 1)

unfoldable pub es_nada : Option ℕ → Bool
es_nada none = true
es_nada (some i) = false

unfoldable pub se_puede_agrandar : Segment → Program → Bool
se_puede_agrandar seg prog =
    let tamanio_segmento = resta seg.limit seg.base in
    es_nada (busca_segmento prog (palabra (seg.base + tamanio_segmento + 1)))

-- The loop of segment_with_free_space from segment `i` on.
unfoldable pub segmento_con_lugar : ℕ → List Segment → ℕ → ℕ → M (Option ℕ)
segmento_con_lugar r [] i size = pure none
segmento_con_lugar r (seg ∷ segs) i size = do
  d ← if seg.is_heap then proxima_metadata_libre_con_size r r seg.base seg size else pure none
  elim d as (λ _. M (Option ℕ)) [
    | none ↦ segmento_con_lugar r segs (suc i) size
    | some dir ↦ (do _ ← buscar_metadata_por_direccion r dir seg; pure (some i))
  ]

unfoldable pub segment_with_free_space : ℕ → Program → ℕ → M (Option ℕ)
segment_with_free_space r prog size = segmento_con_lugar r prog.segment_table 0 size

-- A free block joins the one before it.
unfoldable pub unir : ℕ → HeapMetadata → HeapMetadata → ℕ → ℕ → Segment → M (Unit {0})
unir r inicial siguiente dir_inicial dir_siguiente seg = do
  modificar_metadata r dir_inicial seg (palabra (inicial.size + siguiente.size + metadata_size))
      inicial.is_free
  modificar_metadata r dir_siguiente seg siguiente.size true

-- The last block.
unfoldable pub compactar_ultima : ℕ → HeapMetadata → ℕ → ℕ → Segment → M (Unit {0})
compactar_ultima r inicial dir_inicial dir_siguiente seg = do
  siguiente ← buscar_metadata_por_direccion r dir_siguiente seg
  if siguiente.is_free then unir r inicial siguiente dir_inicial dir_siguiente seg else pure tt

unfoldable pub compactar_en_segmento : ℕ → ℕ → ℕ → ℕ → Segment → M (Unit {0})
compactar_en_segmento r zero dir_inicial dir_siguiente seg = sin_fuel
compactar_en_segmento r (suc fuel) dir_inicial dir_siguiente seg = do
  inicial ← buscar_metadata_por_direccion r dir_inicial seg
  ultima ← ultima_metadata_segmento r r seg.base seg
  if dir_siguiente == ultima then compactar_ultima r inicial dir_inicial dir_siguiente seg else (do
    siguiente ← buscar_metadata_por_direccion r dir_siguiente seg
    if siguiente.is_free
        then (do
          unir r inicial siguiente dir_inicial dir_siguiente seg
          compactar_en_segmento r fuel dir_inicial (siguiente_de siguiente dir_siguiente) seg)
        else (do
          nueva ← proxima_metadata_libre r r dir_siguiente seg
          elim nueva as (λ _. M (Unit {0})) [
            | none ↦ pure tt
            | some d ↦
                (if ultima == d then pure tt else (do
                  m ← buscar_metadata_por_direccion r d seg
                  compactar_en_segmento r fuel d (siguiente_de m d) seg))
          ]))

-- One turn of the loop of compactar_espacios_libres.
unfoldable pub compactar_segmento : ℕ → Segment → M (Unit {0})
compactar_segmento r seg = do
  ultima ← ultima_metadata_segmento r r seg.base seg
  libre ← proxima_metadata_libre r r seg.base seg
  elim libre as (λ _. M (Unit {0})) [
    | none ↦ pure tt
    | some d ↦ (do
      inicial ← buscar_metadata_por_direccion r d seg
      if d == ultima then pure tt else compactar_en_segmento r r d (siguiente_de inicial d) seg)
  ]

unfoldable pub compactar_segmentos : ℕ → List Segment → M (Unit {0})
compactar_segmentos r [] = pure tt
compactar_segmentos r (seg ∷ segs) = do compactar_segmento r seg; compactar_segmentos r segs

unfoldable pub compactar_espacios_libres : ℕ → Program → M (Unit {0})
compactar_espacios_libres r prog = compactar_segmentos r prog.segment_table

-- It reads the metadata that it writes to the log, so it may load pages.
unfoldable pub listar_metadatas : ℕ → ℕ → ℕ → Segment → M (Unit {0})
listar_metadatas r zero dir seg = sin_fuel
listar_metadatas r (suc fuel) dir seg = do
  m ← buscar_metadata_por_direccion r dir seg
  ultima ← ultima_metadata_segmento r r seg.base seg
  if dir == ultima
      then pure tt
      else if ultima == siguiente_de m dir
      then (do _ ← buscar_metadata_por_direccion r (siguiente_de m dir) seg; pure tt)
      else listar_metadatas r fuel (siguiente_de m dir) seg

-- What memory_free does under mutex_lock.
unfoldable pub liberar_bloque : ℕ → ℕ → ℕ → Program → Segment → M (Unit {0})
liberar_bloque r dir i prog seg = do
  metadata ← buscar_metadata_por_direccion r dir seg
  modificar_metadata r dir seg metadata.size true
  compactar_espacios_libres r prog
  cambiar_programa i (λ p. record p { using_memory = resta p.using_memory metadata.size })
  listar_metadatas r r seg.base seg

unfoldable pub memory_free : ℕ → ℕ → ℕ → M ℕ
memory_free r virtual_address pid = do
  nro_prog ← search_program pid
  prog ← programa nro_prog
  i ← no_nulo nro_prog
  let nro_seg = busca_segmento prog virtual_address
  locked lock (do
    seg ← no_nulo (segmento_nro prog nro_seg)
    liberar_bloque r (resta virtual_address metadata_size) i prog seg)
  pure 0
