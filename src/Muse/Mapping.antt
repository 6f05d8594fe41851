-- ===== src/Muse/Mapping.antt =====
-- memory_map and memory_unmap of memoria/main_memory.c. What open, lseek, truncate and mmap give is an
-- argument of memory_map: the bytes of the mapping, or that open failed. munmap is called on a pointer
-- that is no mapping and changes nothing. The answer is -1, -2, or the base of the segment, and 0.
use Prim.Native.String.{String}
use text.Mathlib.Text.{◌==◌ as str_eq}
use tp_sistemas_operativos_l.Common.{
  ℕ, zero, suc, ◌+◌, ◌*◌, ◌/◌, true, false, not, ◌&&◌, Option, none, some, List, [], ◌∷◌, ◌++◌,
  ◌==◌, length, get_elem?, if◌then◌else◌,
}
use tp_sistemas_operativos_l.Muse.State.{Page, Segment, Archivo, Program, mm, lock}
use tp_sistemas_operativos_l.Muse.Monad.{
  M, pure, fallar, ◌>>=◌, ◌>>◌, leer, cambiar, no_nulo, locked, pagina, escribir,
}
use tp_sistemas_operativos_l.Muse.Frames.{liberar_frame}
use tp_sistemas_operativos_l.Muse.Heap.{palabra}
use tp_sistemas_operativos_l.Muse.Segments.{
  search_program, programa, cambiar_programa, busca_segmento, ultimo_segmento_programa,
}
use tp_sistemas_operativos_l.Muse.Alloc.{asegurar_programa, cambiar_segmento}
use tp_sistemas_operativos_l.Muse.Maps.{archivo_de, tiene_permiso}
use tp_sistemas_operativos_l.Muse.Data.{Respuesta, menos, bien}

abbrev pub map_shared : ℕ
map_shared = 1

abbrev pub map_private : ℕ
map_private = 2

unfoldable pub archivo_nro : ℕ → M Archivo
archivo_nro m = do o ← leer (λ s. s.archivos m); no_nulo o

unfoldable pub guardar_archivo : ℕ → Archivo → M (Unit {0})
guardar_archivo m a = cambiar (λ s. record s { archivos = escribir s.archivos m (some a) })

-- list_find of a path in lista_archivos_mmap.
unfoldable pub buscar_path : List ℕ → String → M (Option ℕ)
buscar_path [] path = pure none
buscar_path (m ∷ ms) path = do
  a ← archivo_nro m
  if str_eq a.path_archivo path then pure (some m) else buscar_path ms path

unfoldable pub buscar_archivo_mmap : String → M (Option ℕ)
buscar_archivo_mmap path = do ms ← leer (λ s. s.lista_archivos_mmap); buscar_path ms path

-- Where the last segment ends, and one more.
unfoldable pub base_nueva : Option Segment → ℕ
base_nueva none = 0
base_nueva (some ultimo) = palabra (ultimo.limit + 1)

-- The quotient of two integers, which ceil does not change.
abbrev pub paginas_del_mapa : ℕ → ℕ → ℕ
paginas_del_mapa page_size largo = largo / page_size

-- What malloc leaves in the fields of the segment that are set later is 0.
unfoldable pub crear_nuevo_segmento_mmap : ℕ → ℕ → M ℕ
crear_nuevo_segmento_mmap largo i = do
  prog ← programa (some i)
  page_size ← leer (λ s. s.page_size)
  let base = base_nueva (ultimo_segmento_programa prog)
  cambiar_programa i (λ p. record p {
    segment_table =
        p.segment_table
        ++ record {
          is_heap = false;
          base = base;
          limit = palabra (paginas_del_mapa page_size largo * page_size + base);
          page_table = [];
          archivo_mapeado = 0;
          tipo_map = 0;
          tam_archivo_mmap = 0;
        }
          ∷ [];
  })
  pure base

-- A page of a new map. Its frame is not set.
abbrev pub pagina_de_mapa : Page
pagina_de_mapa = record { is_modify = false; is_used = false; is_present = false; fr = 0 }

unfoldable pub crear_paginas : ℕ → M (List ℕ)
crear_paginas zero = pure []
crear_paginas (suc n) = do
  m ← leer (λ s. s.fresh)
  cambiar (λ s. record s { paginas = escribir s.paginas m (some pagina_de_mapa); fresh = suc m })
  ms ← crear_paginas n
  pure (m ∷ ms)

-- The archivoMMAP of a path that was opened.
unfoldable pub crear_archivo : String → ℕ → (ℕ → ℕ) → M ℕ
crear_archivo path largo bytes = do
  page_size ← leer (λ s. s.page_size)
  ms ← crear_paginas (paginas_del_mapa page_size largo)
  m ← leer (λ s. s.fresh_archivo)
  guardar_archivo m (record {
    con_path = true;
    path_archivo = path;
    archivo = bytes;
    programas = [];
    tabla_paginas = ms;
    tabla_viva = true;
  })
  cambiar (λ s. record s {
    lista_archivos_mmap = s.lista_archivos_mmap ++ m ∷ [];
    fresh_archivo = suc m;
  })
  pure m

-- The list of programs after the flag is looked at; `none` for another flag.
abbrev pub programas_con : ℕ → ℕ → List ℕ → Option (List ℕ)
programas_con flag pid ps =
    if flag == map_shared
    then some (ps ++ pid ∷ [])
    else (if flag == map_private then some (if length ps == 0 then pid ∷ [] else ps) else none)

unfoldable pub apuntar_segmento : ℕ → ℕ → ℕ → ℕ → M (Unit {0})
apuntar_segmento i j m largo = do
  a ← archivo_nro m
  cambiar_segmento i j (λ seg. record seg {
    archivo_mapeado = m;
    page_table = a.tabla_paginas;
    tam_archivo_mmap = largo;
  })

-- With the flags MAP_SHARED and MAP_PRIVATE the type of the map is 1 and 0. Another flag is refused when the
-- segment is there.
unfoldable pub anotar_programa : ℕ → ℕ → ℕ → ℕ → ℕ → ℕ → Option (List ℕ) → M (Respuesta ℕ)
anotar_programa i j m flag pid base none = pure (menos 1)
anotar_programa i j m flag pid base (some ps) = do
  cambiar_segmento i j (λ seg. record seg { tipo_map = if flag == map_shared then 1 else 0 })
  a ← archivo_nro m
  guardar_archivo m (record a { programas = ps })
  pure (bien base)

unfoldable pub poner_mapa : ℕ → ℕ → ℕ → ℕ → ℕ → M (Respuesta ℕ)
poner_mapa i m largo flag pid = do
  base ← crear_nuevo_segmento_mmap largo i
  prog ← programa (some i)
  j ← no_nulo (busca_segmento prog base)
  apuntar_segmento i j m largo
  a ← archivo_nro m
  anotar_programa i j m flag pid base (programas_con flag pid a.programas)

-- The branches on buscar_archivo_mmap and on open.
unfoldable pub mapear_archivo :
    ℕ → Program → Option ℕ → Option (ℕ → ℕ) → String → ℕ → ℕ → ℕ → M (Respuesta ℕ)
mapear_archivo i prog none none path largo flag pid = pure (menos 1)
mapear_archivo i prog none (some bytes) path largo flag pid = do
  m ← crear_archivo path largo bytes
  poner_mapa i m largo flag pid
mapear_archivo i prog (some m) abierto path largo flag pid = do
  a ← archivo_nro m
  if (flag == map_private) && not (tiene_permiso prog a)
      then pure (menos 2)
      else poner_mapa i m largo flag pid

unfoldable pub memory_map : Option (ℕ → ℕ) → String → ℕ → ℕ → ℕ → M (Respuesta ℕ)
memory_map abierto path largo flag pid = locked lock do
  nro_prog ← search_program pid
  i ← asegurar_programa pid nro_prog
  prog ← programa (some i)
  m ← buscar_archivo_mmap path
  mapear_archivo i prog m abierto path largo flag pid

-- eliminar_pagina for each page of a table. A page that is freed is no longer there.
unfoldable pub eliminar_paginas : List ℕ → M (Unit {0})
eliminar_paginas [] = pure tt
eliminar_paginas (n ∷ ns) = do
  p ← pagina n
  if p.is_present then (do locked mm (pure tt); liberar_frame p.fr) else pure tt
  cambiar (λ s. record s { paginas = escribir s.paginas n none })
  eliminar_paginas ns

-- list_destroy of the table of pages of an archivoMMAP.
unfoldable pub destruir_tabla : ℕ → M (Unit {0})
destruir_tabla m = do
  a ← archivo_nro m
  if a.tabla_viva then guardar_archivo m (record a { tabla_viva = false }) else fallar

unfoldable pub eliminar_archivo_mmap : ℕ → M (Unit {0})
eliminar_archivo_mmap m = do
  a ← archivo_nro m
  if a.tabla_viva then eliminar_paginas a.tabla_paginas else fallar
  destruir_tabla m

-- The list without the first `m`.
unfoldable pub sin_el_primero : ℕ → List ℕ → List ℕ
sin_el_primero m [] = []
sin_el_primero m (n ∷ ns) = if n == m then ns else n ∷ sin_el_primero m ns

-- list_remove_and_destroy_by_condition of the archivoMMAP with a path.
unfoldable pub quitar_archivo : Option ℕ → M (Unit {0})
quitar_archivo none = pure tt
quitar_archivo (some m) = do
  cambiar (λ s. record s { lista_archivos_mmap = sin_el_primero m s.lista_archivos_mmap })
  eliminar_archivo_mmap m

unfoldable pub sin_nro : ℕ → List Segment → List Segment
sin_nro j [] = []
sin_nro zero (seg ∷ segs) = segs
sin_nro (suc j) (seg ∷ segs) = seg ∷ sin_nro j segs

-- What follows when no program is left: eliminar_archivo_mmap destroys the table of pages of the file,
-- which is the page_table of the segment.
unfoldable pub soltar_archivo : ℕ → M (Unit {0})
soltar_archivo m = do
  a ← archivo_nro m
  o ← buscar_archivo_mmap a.path_archivo
  quitar_archivo o
  destruir_tabla m
  b ← archivo_nro m
  guardar_archivo m (record b { con_path = false })

unfoldable pub desmapear : ℕ → ℕ → Program → Segment → M (Respuesta ℕ)
desmapear i j prog seg = do
  a ← archivo_de seg
  if not (tiene_permiso prog a) then pure (menos 1) else (do
    let resto = sin_el_primero prog.pid a.programas
    guardar_archivo seg.archivo_mapeado (record a { programas = resto })
    cambiar_programa i (λ p. record p { segment_table = sin_nro j p.segment_table })
    if length resto == 0 then soltar_archivo seg.archivo_mapeado else pure tt
    pure (bien 0))

-- A segment that is a heap is refused.
unfoldable pub desmapear_en : ℕ → Program → Option ℕ → M (Respuesta ℕ)
desmapear_en i prog none = pure (menos 1)
desmapear_en i prog (some j) = do
  seg ← no_nulo (get_elem? prog.segment_table j)
  if seg.is_heap then pure (menos 1) else desmapear i j prog seg

unfoldable pub memory_unmap : ℕ → ℕ → M (Respuesta ℕ)
memory_unmap dir pid = locked lock do
  nro_prog ← search_program pid
  i ← asegurar_programa pid nro_prog
  prog ← programa (some i)
  desmapear_en i prog (busca_segmento prog dir)
