-- ===== src/Muse/DataExamples.antt =====
-- Runs of memory_get and memory_cpy on the heap of HeapExamples.
use tp_sistemas_operativos_l.Common.{◌≡◌, refl, true, false, [], ◌∷◌}
use tp_sistemas_operativos_l.Muse.State.{Program, Muse}
use tp_sistemas_operativos_l.Muse.Monad.{ok, tiene}
use tp_sistemas_operativos_l.Muse.Frames.{frames_needed}
use tp_sistemas_operativos_l.Muse.Heap.{resta, copiar_de}
use tp_sistemas_operativos_l.Muse.Segments.{buscar_pid, buscar_en, busca_segmento}
use tp_sistemas_operativos_l.Muse.Data.{bien, memory_get}
use tp_sistemas_operativos_l.Muse.Metadata.{EnFrame}
use tp_sistemas_operativos_l.Muse.Reading.{memory_get-contenido}
use tp_sistemas_operativos_l.Muse.HeapExamples.{segmento, monton}

abbrev siete : Program
siete = record { pid = 7; segment_table = segmento ∷ []; using_memory = 0 }

abbrev primera : EnFrame (monton false true) segmento 0 0
primera = (
  0,
  record { is_modify = false; is_used = true; is_present = true; fr = 0 },
  refl,
  refl,
  refl,
  refl,
)

-- The size of the first block.
memory_get-contenido_example :
    memory_get 0 0 4 7 (monton false true) ≡ ok (bien (27 ∷ 0 ∷ 0 ∷ 0 ∷ [])) (monton false true)
unfolding buscar_pid buscar_en busca_segmento frames_needed resta tiene copiar_de
memory_get-contenido_example =
    memory_get-contenido 0 (monton false true) 0 4 7 0 siete refl refl 0 segmento (0 ∷ []) refl refl
      refl refl refl (primera, tt) refl
