-- ===== src/Muse/Stored.antt =====
-- memory_get after memory_cpy, on a heap whose pages are present.
use tp_sistemas_operativos_l.Common.{
  ℕ, ◌+◌, ◌-◌, ◌≤◌, ◌≡◌, refl, ap, ◌∙◌, true, false, ◌&&◌, none, some, List, ◌∷◌, ltb, length,
  if◌then◌else◌, arith,
}
use tp_sistemas_operativos_l.Muse.State.{HeapMetadata, Segment, Program, lock, Muse}
use tp_sistemas_operativos_l.Muse.Monad.{
  ok, pure, and_then, ◌>>=◌, leer, cambiar, no_nulo, soltar, mutex_eq, tomar_mutex, soltar_mutex,
  locked,
}
use tp_sistemas_operativos_l.Muse.Frames.{frames_needed}
use tp_sistemas_operativos_l.Muse.Clock.{drop}
use tp_sistemas_operativos_l.Muse.Eviction.{Libre}
use tp_sistemas_operativos_l.Muse.Heap.{metadata_de, take}
use tp_sistemas_operativos_l.Muse.Metadata.{nro_de, offset_de}
use tp_sistemas_operativos_l.Muse.Maps.{min}
use tp_sistemas_operativos_l.Muse.Data.{
  menos, bien, leer_paginas, escribir_paginas, permiso, poner_en, copiar_en_heap, copiar_en_mapa,
  copiar_desde, copiar_a, escribir_en,
}
use tp_sistemas_operativos_l.Muse.Reading.{
  EnFrames, contenido, contenido_con, leer_paginas-contenido,
}
use tp_sistemas_operativos_l.Muse.Writing.{Distintos, bytes_en, escribir_paginas-Queda}
use tp_sistemas_operativos_l.Muse.Buffer.{
  con_datos, length-con_datos, length-contenido, no_menor, y_falso, si_menor,
}

-- The copy in the pages of a heap that are present: `frs` are their frames.
module _ (r : ℕ) (s : Muse) (seg : Segment) (frs src : List ℕ) (m : HeapMetadata) (dst : ℕ)
    (hh : seg.is_heap ≡ true) (hl : Libre lock s) (ef : EnFrames s seg (nro_de s seg dst) frs)
    (ds : Distintos frs)
    (hn : frames_needed s.page_size (offset_de s seg dst + length src) ≡ length frs)
    (hp : length frs ≤ length seg.page_table) (h5 : 5 ≤ offset_de s seg dst)
    (hb : offset_de s seg dst + length src ≤ bytes_en s.page_size frs)
    (hm : metadata_de (take 5 (drop (offset_de s seg dst - 5) (contenido s frs))) ≡ some m)
    (hf : m.is_free ≡ false) (hs : length src ≤ m.size) where
  abbrev nuevo : List ℕ
  nuevo = con_datos (contenido s frs) (offset_de s seg dst) src

  cabe : offset_de s seg dst + length src ≤ length (contenido s frs)
  cabe = omega (arith, hb, length-contenido s frs)

  poner_en-run : (t : Muse) → poner_en (contenido s frs) (offset_de s seg dst) src t ≡ ok nuevo t
  unfolding poner_en pure
  poner_en-run t =
      rw (si_menor (offset_de s seg dst + length src) (length (contenido s frs)) cabe) refl

  copiar_en_heap-run :
      (t : Muse)
      → copiar_en_heap r seg
          (nro_de s seg dst)
          (length frs)
          (offset_de s seg dst - 5)
          src
          (contenido s frs)
          t
        ≡ and_then
            (escribir_paginas r seg (nro_de s seg dst) (length frs) nuevo t)
            (λ _ u. ok true u)
  unfolding copiar_en_heap no_nulo pure ◌>>=◌ and_then
  copiar_en_heap-run t =
      let o5 : offset_de s seg dst - 5 + 5 ≡ offset_de s seg dst = omega (arith, h5) in
      rw (hm, hf, si_menor (length src) m.size hs) (rw o5 (rw (poner_en-run t) refl))

  copiar_desde-heap :
      (t : Muse) (nro o c : ℕ)
      → copiar_desde r seg nro o c src t
        ≡ and_then
            (leer_paginas r seg nro (min c (length seg.page_table)) t)
            (λ buffer. copiar_en_heap r seg nro (min c (length seg.page_table)) (o - 5) src buffer)
  unfolding copiar_desde ◌>>=◌ and_then
  copiar_desde-heap t nro o c =
      ap
        (λ b. and_then (leer_paginas r seg nro (min c (length seg.page_table)) t) (λ buffer.
          if b
          then copiar_en_heap r seg nro (min c (length seg.page_table)) (o - 5) src buffer
          else copiar_en_mapa r seg nro (min c (length seg.page_table)) o src buffer))
        hh

  en_esta_pagina : (seg.is_heap && ltb (offset_de s seg dst) 5) ≡ false
  en_esta_pagina =
      ap (λ b. seg.is_heap && b) (no_menor (offset_de s seg dst) 5 h5) ∙ y_falso seg.is_heap

  desde-run :
      (let t = record s { held = lock ∷ s.held } in
        copiar_desde r seg (nro_de s seg dst) (offset_de s seg dst) (length frs) src t
        ≡ and_then
            (escribir_paginas r seg (nro_de s seg dst) (length frs) nuevo t)
            (λ _ u. ok true u))
  unfolding and_then
  desde-run =
      let t = record s { held = lock ∷ s.held } in
      let c : min (length frs) (length seg.page_table) ≡ length frs =
        ap (λ b. if b then length frs else length seg.page_table)
          (si_menor (length frs) (length seg.page_table) hp) in
      copiar_desde-heap t (nro_de s seg dst) (offset_de s seg dst) (length frs)
      ∙ ap
          (λ z. and_then (leer_paginas r seg (nro_de s seg dst) z t) (λ buffer.
            copiar_en_heap r seg (nro_de s seg dst) z (offset_de s seg dst - 5) src buffer))
          c
      ∙ ap
          (λ z. and_then z (λ buffer.
            copiar_en_heap r seg (nro_de s seg dst) (length frs) (offset_de s seg dst - 5) src
              buffer))
          (leer_paginas-contenido r t seg frs (nro_de s seg dst) ef)
      ∙ ap
          (λ z.
            copiar_en_heap r seg (nro_de s seg dst) (length frs) (offset_de s seg dst - 5) src z t)
          (contenido_con (lock ∷ s.held) s frs)
      ∙ copiar_en_heap-run t

  copiar_a-run :
      copiar_a r seg dst src s
      ≡ and_then
          (and_then
            (escribir_paginas r seg
              (nro_de s seg dst)
              (length frs)
              nuevo
              (record s { held = lock ∷ s.held }))
            (λ _ u. ok true u))
          (λ b u. ok b (record u { held = soltar lock u.held }))
  unfolding copiar_a locked tomar_mutex soltar_mutex cambiar leer pure ◌>>=◌ and_then
  copiar_a-run = rw (en_esta_pagina, hl, hn) (rw desde-run refl)

  permiso-run : (prog : Program) (t : Muse) → permiso prog seg t ≡ ok none t
  unfolding permiso pure ◌>>=◌ and_then
  permiso-run prog t = rw hh refl

  escribir_en-run :
      (prog : Program)
      → escribir_en r prog (some seg) dst src s
        ≡ and_then (copiar_a r seg dst src s) (λ b u. ok (if b then bien dst else menos 1) u)
  unfolding escribir_en locked tomar_mutex soltar_mutex soltar mutex_eq cambiar pure ◌>>=◌ and_then
  escribir_en-run prog = rw hl (rw (permiso-run prog (record s { held = lock ∷ s.held })) refl)

  -- What a copy leaves: the answer is the address, and the bytes are in the pages.
  abbrev Copiado : Program → Muse → Type 0
  Copiado prog t =
      (escribir_en r prog (some seg) dst src s ≡ ok (bien dst) t)
      × (t.held ≡ s.held)
      × (t.program_list ≡ s.program_list)
      × (t.page_size ≡ s.page_size)
      × (contenido t frs ≡ nuevo)
      × EnFrames t seg (nro_de s seg dst) frs

  pub escribir_en-Copiado : (prog : Program) → (t : Muse) × Copiado prog t
  unfolding soltar mutex_eq and_then
  escribir_en-Copiado prog =
      let l =
        length-con_datos (contenido s frs) (offset_de s seg dst) src cabe
        ∙ length-contenido s frs in
      let (t, e, c, (q1, q2, q3, q4, q5)) =
        escribir_paginas-Queda r seg frs (record s { held = lock ∷ s.held }) (nro_de s seg dst)
          nuevo ef ds l in
      (
        record t { held = soltar lock t.held },
        (
          escribir_en-run prog ∙ rw copiar_a-run (rw e refl),
          ap (soltar lock) q1,
          q2,
          q3,
          contenido_con (soltar lock t.held) t frs ∙ c,
          q5 (nro_de s seg dst) frs ef,
        ),
      )
