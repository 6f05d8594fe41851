-- ===== src/Muse/MapExamples.antt =====
-- Runs of memory_map and memory_unmap: programs 7 and 8, and a file of one page that program 7 has mapped.
use tp_sistemas_operativos_l.Common.{◌≡◌, refl, none, [], ◌∷◌, inl, arith}
use tp_sistemas_operativos_l.Muse.State.{Program, Muse}
use tp_sistemas_operativos_l.Muse.Monad.{fault}
use tp_sistemas_operativos_l.Muse.Segments.{
  buscar_pid, buscar_en, busca_segmento, ultimo_segmento_programa,
}
use tp_sistemas_operativos_l.Muse.Maps.{hay_pid, tiene_permiso}
use tp_sistemas_operativos_l.Muse.Mapping.{base_nueva, sin_el_primero, memory_unmap}
use tp_sistemas_operativos_l.Muse.Unmapped.{memory_unmap-twice}
use tp_sistemas_operativos_l.Muse.Mapped.{Devuelto, memory_unmap-memory_map}
use tp_sistemas_operativos_l.Muse.SyncExamples.{mapa, siete, vacio, mapeado}

abbrev ocho : Program
ocho = record { pid = 8; segment_table = []; using_memory = 0 }

abbrev con_ocho : Muse
con_ocho = record mapeado { program_list = siete ∷ ocho ∷ []; lista_archivos_mmap = 0 ∷ [] }

memory_unmap-twice_example : memory_unmap 3 7 con_ocho ≡ fault
unfolding buscar_pid buscar_en busca_segmento hay_pid tiene_permiso sin_el_primero
memory_unmap-twice_example =
    memory_unmap-twice 3 7 0 0 siete mapa vacio con_ocho refl refl refl refl refl refl refl refl
      refl (vacio, refl, inl (refl, refl))

memory_unmap-memory_map_example : Devuelto con_ocho 1 ocho 0 vacio 40 8 "/f" none
unfolding buscar_pid buscar_en busca_segmento hay_pid base_nueva ultimo_segmento_programa
memory_unmap-memory_map_example =
    memory_unmap-memory_map 1 0 40 8 "/f" none ocho vacio con_ocho refl refl refl
      (λ e. omega (arith, e))
      (record { programa = refl; libre = refl; base = omega arith; cabe = omega arith }) refl
      (vacio, refl, inl (refl, refl)) refl (λ e. absurd cc)
