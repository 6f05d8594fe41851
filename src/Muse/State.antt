-- ===== src/Muse/State.antt =====
-- The data of memoria/main_memory.h: frames, pages, segments and programs.
-- Pages are objects in a store, since the programs that map one file share its pages. The memory and
-- the swap file are read by frame and offset. A pointer into MAIN_MEMORY at the start of a frame is the
-- number of that frame.
use Prim.Native.String.{String}
use tp_sistemas_operativos_l.Common.{ℕ, Bool, Option, List}

-- page. `fr` is the frame of a page that is present, the place in the swap file of one that is not.
pub record Page : Type 0 where
  pub is_modify : Bool
  pub is_used : Bool
  pub is_present : Bool
  pub fr : ℕ

-- heap_metadata.
pub record HeapMetadata : Type 0 where
  pub size : ℕ
  pub is_free : Bool

-- segment. `archivo_mapeado` is the number of an archivoMMAP.
pub record Segment : Type 0 where
  pub is_heap : Bool
  pub base : ℕ
  pub limit : ℕ
  pub page_table : List ℕ
  pub archivo_mapeado : ℕ
  pub tipo_map : ℕ
  pub tam_archivo_mmap : ℕ

-- archivoMMAP: its path and whether it is set, the bytes of the mapping, the programs that may use it, and
-- the table of pages that the segments on it share, which `tabla_viva` says is not destroyed yet.
pub record Archivo : Type 0 where
  pub con_path : Bool
  pub path_archivo : String
  pub archivo : ℕ → ℕ
  pub programas : List ℕ
  pub tabla_paginas : List ℕ
  pub tabla_viva : Bool

-- program.
pub record Program : Type 0 where
  pub pid : ℕ
  pub segment_table : List Segment
  pub using_memory : ℕ

-- The mutexes of main_memory.h.
pub data Mutex : Type 0 where
  bitmap_heap bitmap_mmap mm clock lock : Mutex

-- The globals of main_memory.c. The bitmaps have a bit for each frame, true for a free one. `fresh` is
-- the number of the next page, `fresh_archivo` that of the next archivoMMAP, `lista_archivos_mmap` has the
-- numbers of those that are mapped, `held` the mutexes that the handler holds.
pub record Muse : Type 0 where
  pub page_size : ℕ
  pub main_memory : ℕ → ℕ → ℕ
  pub swap_file : ℕ → ℕ → ℕ
  pub bitmap : List Bool
  pub bitmap_swap_file : List Bool
  pub paginas : ℕ → Option Page
  pub fresh : ℕ
  pub program_list : List Program
  pub archivos : ℕ → Option Archivo
  pub lista_archivos_mmap : List ℕ
  pub fresh_archivo : ℕ
  pub pagina_clock : ℕ
  pub segmento_clock : ℕ
  pub held : List Mutex
