-- ===== src/Muse/SyncExamples.antt =====
-- A run of memory_sync: the second page of a map of 40 bytes.
use tp_sistemas_operativos_l.Common.{true, false, some, [], ◌∷◌}
use tp_sistemas_operativos_l.Muse.State.{Segment, Program, Archivo, Muse}
use tp_sistemas_operativos_l.Muse.HeapExamples.{segmento, monton}

abbrev pub mapa : Segment
mapa = record segmento { is_heap = false; tipo_map = 1; tam_archivo_mmap = 40 }

abbrev pub siete : Program
siete = record { pid = 7; segment_table = mapa ∷ []; using_memory = 0 }

abbrev pub vacio : Archivo
vacio = record {
  con_path = true;
  path_archivo = "/f";
  archivo = λ o. 9;
  programas = 7 ∷ [];
  tabla_paginas = [];
  tabla_viva = true;
}

abbrev pub mapeado : Muse
mapeado = record (monton false true) { program_list = siete ∷ []; archivos = λ a. some vacio }
