-- ===== src/Muse/Clock.antt =====
-- The choice of a page to evict, dame_nro_frame_reemplazado, and page_with_free_size of
-- memoria/main_memory.c: the clock algorithm on the pairs (used, modified).
use tp_sistemas_operativos_l.Common.{
  ℕ, zero, suc, Bool, true, false, not, ◌&&◌, Option, none, some, List, [], ◌∷◌, ◌++◌,
  if◌then◌else◌, get_elem?,
}
use tp_sistemas_operativos_l.Muse.State.{Page, Segment, Program, bitmap_heap, clock, mm}
use tp_sistemas_operativos_l.Muse.Monad.{
  M, pure, sin_fuel, ◌>>=◌, ◌>>◌, leer, cambiar, locked, no_nulo, pagina, guardar_pagina, poner_bit,
}
use tp_sistemas_operativos_l.Muse.Frames.{primer_frame, se_hace_la_vistima}

abbrev pub drop {ℓ} : {A : Type ℓ} → ℕ → List A → List A
drop zero xs = xs
drop (suc n) [] = []
drop (suc n) (x ∷ xs) = drop n xs

unfoldable pub lista_de_segmentos : List Program → List Segment
lista_de_segmentos [] = []
lista_de_segmentos (p ∷ ps) = p.segment_table ++ lista_de_segmentos ps

-- nro_paso: 1 looks for a page neither used nor modified, 2 for one that is modified but not used.
pub data Paso : Type 0 where
  uno dos : Paso

unfoldable pub candidata : Paso → Page → Bool
candidata uno p = not p.is_used && not p.is_modify
candidata dos p = not p.is_used && p.is_modify

unfoldable pub paso_siguiente : Paso → Paso
paso_siguiente uno = dos
paso_siguiente dos = uno

-- A page that is not chosen: step 2 clears the used bit of one that is present.
unfoldable pub pasar_de_largo : Paso → ℕ → Page → M (Unit {0})
pasar_de_largo uno n p = pure tt
pasar_de_largo dos n p =
    if p.is_present then guardar_pagina n (record p { is_used = false }) else pure tt

-- The victim and its place in the segment.
unfoldable pub elegir : ℕ → ℕ → M (Option (ℕ × ℕ))
elegir n nro_de_pag = do nro_frame ← se_hace_la_vistima n; pure (some (nro_de_pag, nro_frame))

-- The loop over the pages of a segment, from place `nro_de_pag` on.
unfoldable pub recorrer_paginas : Paso → List ℕ → ℕ → M (Option (ℕ × ℕ))
recorrer_paginas paso [] nro_de_pag = pure none
recorrer_paginas paso (n ∷ ns) nro_de_pag = do
  p ← pagina n
  if p.is_present && candidata paso p
      then elegir n nro_de_pag
      else (do pasar_de_largo paso n p; recorrer_paginas paso ns (suc nro_de_pag))

-- The return from inside the two loops.
unfoldable pub mover_reloj : ℕ → ℕ × ℕ → M (Option ℕ)
mover_reloj nro_de_segmento (nro_de_pag, nro_frame) = do
  cambiar (λ s. record s { segmento_clock = nro_de_segmento; pagina_clock = nro_de_pag })
  pure (some nro_frame)

-- The loop over the segments, from number `nro_de_segmento` and page `nro_de_pag` on.
unfoldable pub recorrer_segmentos : Paso → List Segment → ℕ → ℕ → M (Option ℕ)
recorrer_segmentos paso [] nro_de_segmento nro_de_pag = pure none
recorrer_segmentos paso (seg ∷ segs) nro_de_segmento nro_de_pag = do
  r ← recorrer_paginas paso (drop nro_de_pag seg.page_table) nro_de_pag
  elim r as (λ _. M (Option ℕ)) [
    | none ↦ recorrer_segmentos paso segs (suc nro_de_segmento) 0
    | some x ↦ mover_reloj nro_de_segmento x
  ]

-- while(true), on fuel for its turns: `segs` are the segments that the turn has before it.
unfoldable pub vueltas : ℕ → Paso → List Segment → List Segment → ℕ → ℕ → M ℕ
vueltas zero paso todos segs nro_de_segmento nro_de_pag = sin_fuel
vueltas (suc fuel) paso todos segs nro_de_segmento nro_de_pag = do
  r ← recorrer_segmentos paso segs nro_de_segmento nro_de_pag
  elim r as (λ _. M ℕ) [
    | none ↦ vueltas fuel (paso_siguiente paso) todos todos 0 0
    | some nro_frame ↦ pure nro_frame
  ]

unfoldable pub dame_nro_frame_reemplazado : ℕ → M ℕ
dame_nro_frame_reemplazado fuel = locked clock do
  lista_seg ← leer (λ s. lista_de_segmentos s.program_list)
  segmento ← leer (λ s. s.segmento_clock)
  pag ← leer (λ s. s.pagina_clock)
  _ ← no_nulo (get_elem? lista_seg segmento)
  vueltas fuel uno lista_seg (drop segmento lista_seg) segmento (suc pag)

-- malloc of a page on frame `i`, whose bit is taken.
unfoldable pub pagina_nueva : ℕ → M ℕ
pagina_nueva i = do
  poner_bit i false
  locked mm (pure tt)
  n ← leer (λ s. s.fresh)
  guardar_pagina n (record { is_modify = false; is_used = true; is_present = true; fr = i })
  cambiar (λ s. record s { fresh = suc n })
  pure n

-- The test of the frame that was given back. It is free, so the loop of the code ends there.
unfoldable pub tomar_reemplazado : ℕ → M ℕ
tomar_reemplazado i = locked bitmap_heap do
  b ← leer (λ s. get_elem? s.bitmap i)
  libre ← no_nulo b
  if libre then pagina_nueva i else sin_fuel

-- The search of page_with_free_size locks the bitmap for each frame that it looks at: here once.
unfoldable pub tomar_libre : ℕ → Option ℕ → M ℕ
tomar_libre fuel (some i) = locked bitmap_heap (pagina_nueva i)
tomar_libre fuel none = do i ← dame_nro_frame_reemplazado fuel; tomar_reemplazado i

unfoldable pub page_with_free_size : ℕ → M ℕ
page_with_free_size fuel = do
  libre ← locked bitmap_heap (leer (λ s. primer_frame s.bitmap))
  tomar_libre fuel libre
