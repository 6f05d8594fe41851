-- ===== src/Muse/Synced.antt =====
-- What memory_sync leaves in the mapped file.
use tp_sistemas_operativos_l.Common.{
  ℕ, ◌+◌, ◌*◌, ◌/◌, ◌%◌, ◌≤◌, ◌≡◌, true, false, some, List, ◌==◌, ltb, leb, length,
}
use tp_sistemas_operativos_l.Muse.State.{Segment, Program, Archivo, Mutex, lock, Muse}
use tp_sistemas_operativos_l.Muse.Monad.{escribir}
use tp_sistemas_operativos_l.Muse.Frames.{frames_needed}
use tp_sistemas_operativos_l.Muse.Eviction.{Libre}
use tp_sistemas_operativos_l.Muse.Heap.{palabra, resta}
use tp_sistemas_operativos_l.Muse.Maps.{min, tiene_permiso}
use tp_sistemas_operativos_l.Muse.Reading.{EnFrames, contenido}
use tp_sistemas_operativos_l.Muse.Sync.{sincronizado}

module _ (r : ℕ) (s : Muse) (seg : Segment) (prog : Program) (a : Archivo) (frs : List ℕ)
    (dir largo : ℕ) (hh : seg.is_heap ≡ false) (ha : s.archivos seg.archivo_mapeado ≡ some a)
    (pe : tiene_permiso prog a ≡ true) (al : (dir % s.page_size == 0) ≡ true) (hl : Libre lock s)
    (h1 : ltb (length seg.page_table) (frames_needed s.page_size largo) ≡ false)
    (h2 : ltb (palabra (seg.base + seg.limit)) (dir + largo) ≡ false)
    (ef : EnFrames s seg (resta dir seg.base / s.page_size) frs)
    (hn : frames_needed s.page_size largo ≡ length frs)
    (ht : leb (resta dir seg.base / s.page_size * s.page_size) seg.tam_archivo_mmap ≡ true)
    (hb : min largo seg.tam_archivo_mmap ≤ length (contenido s frs)) where
  abbrev inicio : ℕ
  inicio = resta dir seg.base / s.page_size * s.page_size

  abbrev cuantos : ℕ
  cuantos = min largo seg.tam_archivo_mmap

  -- The file after the copy.
  abbrev escrito : Archivo
  escrito = record a {
    archivo = sincronizado a.archivo inicio cuantos seg.tam_archivo_mmap (contenido s frs);
  }

  abbrev final : List Mutex → Muse
  final ms = record s {
    held = ms;
    archivos = escribir s.archivos seg.archivo_mapeado (some escrito);
  }
