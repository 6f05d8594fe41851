-- ===== src/Muse/HeapExamples.antt =====
-- Runs of the heap operations: a segment of two pages on the two frames of the memory.
use tp_sistemas_operativos_l.Common.{
  ℕ, zero, suc, ◌≤◌, ◌≡◌, refl, Bool, true, false, Option, none, some, [], ◌∷◌, get_elem?,
  if◌then◌else◌, ◌==◌, arith,
}
use tp_sistemas_operativos_l.Muse.State.{Page, HeapMetadata, Segment, Muse}
use tp_sistemas_operativos_l.Muse.Monad.{
  ok, deadlock, tiene, pure, and_then, ◌>>=◌, leer, no_nulo, pagina,
}
use tp_sistemas_operativos_l.Muse.Frames.{primer_frame, se_hace_la_vistima}
use tp_sistemas_operativos_l.Muse.Replacement.{Libres}
use tp_sistemas_operativos_l.Muse.Loading.{obtener_data_marco_heap}
use tp_sistemas_operativos_l.Muse.Heap.{
  resta, metadata_de, copiar_de, frame_de_pagina, buscar_metadata_por_direccion, modificar_metadata,
  ultima_metadata_segmento, proxima_metadata_libre_con_size,
}
use tp_sistemas_operativos_l.Muse.Alloc.{memory_malloc}
use tp_sistemas_operativos_l.Muse.Metadata.{buscar_metadata_por_direccion-modificar_metadata}
use tp_sistemas_operativos_l.Muse.Reload.{obtener_data_marco_heap-se_hace_la_vistima}
use tp_sistemas_operativos_l.Muse.Walk.{
  Bloques, BloqueEn, ultima_metadata_segmento-ultima_de, proxima_metadata_libre_con_size-ajuste,
  proxima_metadata_libre_con_size-primer_ajuste, proxima_metadata_libre_con_size-fits,
  proxima_metadata_libre_con_size-skips,
}
use tp_sistemas_operativos_l.Muse.Errors.{memory_malloc-zero}

abbrev en : ℕ → Page
en i = record { is_modify = false; is_used = true; is_present = true; fr = i }

abbrev dos_paginas : ℕ → Option Page
dos_paginas zero = some (en 0)
dos_paginas (suc zero) = some (en 1)
dos_paginas (suc (suc n)) = none

abbrev pub segmento : Segment
segmento = record {
  is_heap = true;
  base = 0;
  limit = 64;
  page_table = 0 ∷ 1 ∷ [];
  archivo_mapeado = 0;
  tipo_map = 0;
  tam_archivo_mmap = 0;
}

-- A frame that is one block of 27 bytes.
abbrev bloque : Bool → ℕ → ℕ
bloque libre o = if o == 0 then 27 else if o == 4 then (if libre then 1 else 0) else 0

abbrev dos_bloques : Bool → Bool → ℕ → ℕ → ℕ
dos_bloques a b zero = bloque a
dos_bloques a b (suc n) = bloque b

-- The two blocks of the segment, free or not.
abbrev pub monton : Bool → Bool → Muse
monton a b = record {
  page_size = 32;
  main_memory = dos_bloques a b;
  swap_file = λ fr i. 0;
  bitmap = false ∷ false ∷ [];
  bitmap_swap_file = true ∷ [];
  paginas = dos_paginas;
  fresh = 2;
  program_list = record { pid = 7; segment_table = segmento ∷ []; using_memory = 0 } ∷ [];
  archivos = λ a. none;
  pagina_clock = 0;
  lista_archivos_mmap = [];
  fresh_archivo = 0;
  segmento_clock = 0;
  held = [];
}

abbrev pub de_27 : Bool → HeapMetadata
de_27 libre = record { size = 27; is_free = libre }

lee_ocupado :
    buscar_metadata_por_direccion 2 0 segmento (monton false true)
    ≡ ok (de_27 false) (monton false true)
unfolding buscar_metadata_por_direccion frame_de_pagina no_nulo pagina leer resta metadata_de
    copiar_de pure ◌>>=◌ and_then
lee_ocupado = refl

lee_libre :
    buscar_metadata_por_direccion 2 32 segmento (monton false true)
    ≡ ok (de_27 true) (monton false true)
unfolding buscar_metadata_por_direccion frame_de_pagina no_nulo pagina leer resta metadata_de
    copiar_de pure ◌>>=◌ and_then
lee_libre = refl

lee_libre_antes :
    buscar_metadata_por_direccion 2 0 segmento (monton true false)
    ≡ ok (de_27 true) (monton true false)
unfolding buscar_metadata_por_direccion frame_de_pagina no_nulo pagina leer resta metadata_de
    copiar_de pure ◌>>=◌ and_then
lee_libre_antes = refl

lee_ocupado_despues :
    buscar_metadata_por_direccion 2 32 segmento (monton true false)
    ≡ ok (de_27 false) (monton true false)
unfolding buscar_metadata_por_direccion frame_de_pagina no_nulo pagina leer resta metadata_de
    copiar_de pure ◌>>=◌ and_then
lee_ocupado_despues = refl

ocupado_y_libre : Bloques 2 (monton false true) segmento 0 (de_27 false ∷ de_27 true ∷ [])
ocupado_y_libre = (lee_ocupado, omega arith, omega arith, (lee_libre, omega arith, refl))

libre_y_ocupado : Bloques 2 (monton true false) segmento 0 (de_27 true ∷ de_27 false ∷ [])
libre_y_ocupado =
    (lee_libre_antes, omega arith, omega arith, (lee_ocupado_despues, omega arith, refl))

ultima_metadata_segmento-ultima_de_example :
    ultima_metadata_segmento 2 2 0 segmento (monton false true) ≡ ok 32 (monton false true)
ultima_metadata_segmento-ultima_de_example =
    ultima_metadata_segmento-ultima_de 2 2 (monton false true) segmento 0
      (de_27 false ∷ de_27 true ∷ []) ocupado_y_libre (omega arith)

proxima_metadata_libre_con_size-primer_ajuste_example :
    proxima_metadata_libre_con_size 2 2 0 segmento 20 (monton false true)
    ≡ ok (some 32) (monton false true)
proxima_metadata_libre_con_size-primer_ajuste_example =
    proxima_metadata_libre_con_size-primer_ajuste 2 2 (monton false true) segmento
      (de_27 false ∷ de_27 true ∷ []) 20 ocupado_y_libre (omega arith) (omega arith) refl

corrida :
    proxima_metadata_libre_con_size 2 2 0 segmento 20 (monton false true)
    ≡ ok (some 32) (monton false true)
corrida =
    proxima_metadata_libre_con_size-ajuste 2 2 (monton false true) segmento
      (de_27 false ∷ de_27 true ∷ []) 20 ocupado_y_libre (omega arith) (omega arith)

proxima_metadata_libre_con_size-fits_example :
    (x : HeapMetadata) × BloqueEn 0 (de_27 false ∷ de_27 true ∷ []) 32 x
    × (x.is_free ≡ true)
    × (20 ≤ x.size)
proxima_metadata_libre_con_size-fits_example =
    proxima_metadata_libre_con_size-fits 2 2 (monton false true) (monton false true) segmento
      (de_27 false ∷ de_27 true ∷ []) 20 32 ocupado_y_libre (omega arith) (omega arith) refl corrida

proxima_metadata_libre_con_size-skips_example :
    proxima_metadata_libre_con_size 2 2 0 segmento 20 (monton true false)
    ≡ ok none (monton true false)
proxima_metadata_libre_con_size-skips_example =
    proxima_metadata_libre_con_size-skips 2 2 (monton true false) segmento (de_27 true)
      (de_27 false) 20 libre_y_ocupado (omega arith) (omega arith) refl (omega arith) refl

monton-Libres : (a b : Bool) → Libres (monton a b)
unfolding tiene
monton-Libres a b = (refl, refl, refl, refl)

obtener_data_marco_heap-se_hace_la_vistima_example :
    (t u : Muse) × (fr : ℕ) × (se_hace_la_vistima 1 (monton true false) ≡ ok 1 t)
    × (obtener_data_marco_heap 0 1 t ≡ ok fr u)
    × ((o : ℕ) → u.main_memory fr o ≡ bloque false o)
    × (u.paginas 1
        ≡ some (record { is_modify = false; is_used = true; is_present = true; fr = fr }))
    × (get_elem? u.bitmap fr ≡ some false)
    × (get_elem? u.bitmap_swap_file 0 ≡ some true)
unfolding primer_frame
obtener_data_marco_heap-se_hace_la_vistima_example =
    obtener_data_marco_heap-se_hace_la_vistima (monton true false) 1 0 (en 1) refl refl
      (monton-Libres true false) refl refl 0

-- A metadata at 30 is cut by the end of the first page.
buscar_metadata_por_direccion-modificar_metadata_example :
    (t : Muse) × (modificar_metadata 0 30 segmento 1000 true (monton true false) ≡ ok tt t)
    × (buscar_metadata_por_direccion 0 30 segmento t
        ≡ ok (record { size = 1000; is_free = true }) t)
    × (t.paginas ≡ dos_paginas)
unfolding resta
buscar_metadata_por_direccion-modificar_metadata_example =
    buscar_metadata_por_direccion-modificar_metadata 0 (monton true false) segmento 30 0
      (0, en 0, refl, refl, refl, refl)
      (λ c. (1, (1, en 1, refl, refl, refl, refl), λ e. omega (arith, e)))
      (record { size = 1000; is_free = true }) (omega arith)

memory_malloc-zero_example :
    (t : Muse) × (memory_malloc 0 1 0 7 (monton true false) ≡ ok 0 t)
    × ((fuel2 size pid2 : ℕ) → memory_malloc 0 (suc fuel2) size pid2 t ≡ deadlock)
unfolding tiene
memory_malloc-zero_example = memory_malloc-zero 0 0 7 (monton true false) refl
