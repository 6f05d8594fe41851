-- ===== src/Muse/Reading.antt =====
-- What memory_get gives, on a heap whose pages are present and where the address is wrong.
use tp_sistemas_operativos_l.Common.{Bool-cases, inl, inr}
use tp_sistemas_operativos_l.Common.{
  ℕ, suc, ◌+◌, ◌≡◌, refl, ap, true, false, some, List, [], ◌∷◌, ◌++◌, ltb, get_elem?, length,
}
use tp_sistemas_operativos_l.Muse.State.{Segment, Program, Mutex, lock, Muse}
use tp_sistemas_operativos_l.Muse.Monad.{
  ok, pure, and_then, ◌>>=◌, leer, cambiar, no_nulo, tiene, soltar, mutex_eq, tomar_mutex,
  soltar_mutex, locked, pagina,
}
use tp_sistemas_operativos_l.Muse.Frames.{frames_needed}
use tp_sistemas_operativos_l.Muse.Clock.{drop}
use tp_sistemas_operativos_l.Muse.Eviction.{Libre}
use tp_sistemas_operativos_l.Muse.Loading.{obtener_data_marco_heap}
use tp_sistemas_operativos_l.Muse.Maps.{obtener_data_marco_mmap}
use tp_sistemas_operativos_l.Muse.Heap.{palabra, copiar_de, take}
use tp_sistemas_operativos_l.Muse.Segments.{
  buscar_pid, search_program, programa, busca_segmento, segmento_nro,
}
use tp_sistemas_operativos_l.Muse.Alloc.{asegurar_programa}
use tp_sistemas_operativos_l.Muse.Metadata.{EnFrame, nro_de, offset_de}
use tp_sistemas_operativos_l.Muse.Data.{
  bien, frame_de, leer_paginas, programa_de, obtener_bytes, leer_segmento, leer_de, memory_get,
}

-- The pages of the segment from `nro` on are present, on these frames.
abbrev pub EnFrames : Muse → Segment → ℕ → List ℕ → Type 0
EnFrames s seg nro [] = Unit
EnFrames s seg nro (fr ∷ frs) = EnFrame s seg nro fr × EnFrames s seg (suc nro) frs

-- The bytes of the frames, one after the other.
abbrev pub contenido : Muse → List ℕ → List ℕ
contenido s [] = []
contenido s (fr ∷ frs) = copiar_de (s.main_memory fr) 0 s.page_size ++ contenido s frs

pub contenido_con :
    (ms : List Mutex) (s : Muse) (frs : List ℕ)
    → contenido (record s { held = ms }) frs ≡ contenido s frs
contenido_con ms s [] = refl
contenido_con ms s (fr ∷ frs) =
    ap (λ z. copiar_de (s.main_memory fr) 0 s.page_size ++ z) (contenido_con ms s frs)

module _ (r : ℕ) (s : Muse) (seg : Segment) where
  pub frame_de-run : (nro fr : ℕ) → EnFrame s seg nro fr → frame_de r seg nro s ≡ ok fr s
  unfolding frame_de obtener_data_marco_heap obtener_data_marco_mmap no_nulo pagina leer pure ◌>>=◌
      and_then
  frame_de-run nro fr (n, p, h, e, pr, f) = elim (Bool-cases seg.is_heap) [
    | inl hh ↦ rw (h, hh) (rw (e, pr) (rw e (ap (λ z. ok z s) f)))
    | inr hh ↦ rw (h, hh) (rw (e, pr) (rw e (ap (λ z. ok z s) f)))
  ]

  pub leer_paginas-contenido :
      (frs : List ℕ) (nro : ℕ)
      → EnFrames s seg nro frs
      → leer_paginas r seg nro (length frs) s ≡ ok (contenido s frs) s
  unfolding leer_paginas leer pure ◌>>=◌ and_then
  leer_paginas-contenido [] nro h = refl
  leer_paginas-contenido (fr ∷ frs) nro (h, hs) =
      rw (frame_de-run nro fr h) (rw (leer_paginas-contenido frs (suc nro) hs) refl)

-- A program of the list, found by its pid, and a segment of it found by the address.
module _ (r : ℕ) (s : Muse) (src n pid i : ℕ) (prog : Program)
    (hi : buscar_pid pid s.program_list ≡ some i)
    (hp : get_elem? s.program_list i ≡ some prog) where
  pub programa_de-run : programa_de pid s ≡ ok prog s
  unfolding programa_de search_program asegurar_programa programa no_nulo leer pure ◌>>=◌ and_then
  programa_de-run = rw hi (rw hp refl)

  -- Where the address is in a heap segment of a program of the list, the bytes end by base + limit, mutex_lock is
  -- free and the pages that hold the bytes are present, memory_get gives the bytes from the address on and
  -- changes nothing.
  pub memory_get-contenido :
      (j : ℕ) (seg : Segment) (frs : List ℕ)
      → busca_segmento prog src ≡ some j
      → get_elem? prog.segment_table j ≡ some seg
      → seg.is_heap ≡ true
      → ltb (palabra (seg.base + seg.limit)) (src + n) ≡ false
      → Libre lock s
      → EnFrames s seg (nro_de s seg src) frs
      → frames_needed s.page_size (offset_de s seg src + n) ≡ length frs
      → memory_get r src n pid s
        ≡ ok (bien (take n (drop (offset_de s seg src) (contenido s frs)))) s
  unfolding memory_get leer_de leer_segmento obtener_bytes segmento_nro locked tomar_mutex
      soltar_mutex soltar mutex_eq tiene leer cambiar pure ◌>>=◌ and_then
  memory_get-contenido j seg frs h hs hh c hl ef hn =
      rw (programa_de-run, h)
        (rw hs (
          rw (c, hh)
            (rw
              (
                hl,
                hn,
                leer_paginas-contenido r (record s { held = lock ∷ s.held }) seg frs
                    (nro_de s seg src) ef,
              )
              (ap (λ z. ok (bien (take n (drop (offset_de s seg src) z))) s)
                (contenido_con (lock ∷ s.held) s frs)))))
