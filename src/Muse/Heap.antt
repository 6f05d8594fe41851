-- ===== src/Muse/Heap.antt =====
-- The metadata of a heap segment in memoria/main_memory.c: its reading and writing, and the walks over
-- its blocks. An address is a 32-bit word, as is the sum for the address of the next metadata; -1 is
-- `none`. A metadata has five bytes, its size with the lowest byte first and its bool, and a page has no
-- less. Log lines, and the copies that only they read, are left out.
use tp_sistemas_operativos_l.Common.{
  ℕ, zero, suc, ◌+◌, ◌-◌, ◌*◌, ◌/◌, ◌%◌, ◌^◌, Bool, not, ◌&&◌, Option, none, some, List, [], ◌∷◌,
  ◌++◌, ◌==◌, ltb, leb, get_elem?, if◌then◌else◌,
}
use tp_sistemas_operativos_l.Muse.State.{HeapMetadata, Segment}
use tp_sistemas_operativos_l.Muse.Monad.{
  M, pure, sin_fuel, ◌>>=◌, ◌>>◌, leer, cambiar, no_nulo, pagina, escribir,
}
use tp_sistemas_operativos_l.Muse.Clock.{drop}
use tp_sistemas_operativos_l.Muse.Loading.{obtener_data_marco_heap}

abbrev pub metadata_size : ℕ
metadata_size = 5

-- Sums and differences of words.
abbrev pub palabra : ℕ → ℕ
palabra n = n % 2 ^ 32

unfoldable pub resta : ℕ → ℕ → ℕ
resta a b = (a + 2 ^ 32 - b) % 2 ^ 32

-- The bytes of a metadata.
unfoldable pub bytes_de : HeapMetadata → List ℕ
bytes_de m =
    m.size % 256
    ∷ m.size / 256 % 256
    ∷ m.size / 65536 % 256
    ∷ m.size / 16777216 % 256
    ∷ (if m.is_free then 1 else 0)
    ∷ []

unfoldable pub metadata_de : List ℕ → Option HeapMetadata
metadata_de (a ∷ b ∷ c ∷ d ∷ e ∷ []) =
    some (record { size = a + 256 * b + 65536 * c + 16777216 * d; is_free = not (e == 0) })
metadata_de _ = none

-- memcpy from and to a frame.
unfoldable pub copiar_de : (ℕ → ℕ) → ℕ → ℕ → List ℕ
copiar_de frame offset zero = []
copiar_de frame offset (suc n) = frame offset ∷ copiar_de frame (suc offset) n

unfoldable pub copiar_en : (ℕ → ℕ) → ℕ → List ℕ → ℕ → ℕ
copiar_en frame offset [] = frame
copiar_en frame offset (b ∷ bs) = copiar_en (escribir frame offset b) (suc offset) bs

unfoldable pub escribir_bytes : ℕ → ℕ → List ℕ → M (Unit {0})
escribir_bytes fr offset bs = cambiar (λ s. record s {
  main_memory = escribir s.main_memory fr (copiar_en (s.main_memory fr) offset bs);
})

abbrev pub take {ℓ} : {A : Type ℓ} → ℕ → List A → List A
take zero xs = []
take (suc n) [] = []
take (suc n) (x ∷ xs) = x ∷ take n xs

-- list_get of a page, loaded if it is not present: its frame. `r` bounds the turns of the replacement.
unfoldable pub frame_de_pagina : ℕ → Segment → ℕ → M ℕ
frame_de_pagina r seg nro = do
  n ← no_nulo (get_elem? seg.page_table nro)
  p ← pagina n
  if p.is_present then pure p.fr else obtener_data_marco_heap r n

-- The second part of a metadata that is cut by the end of its page.
unfoldable pub resto_cortado : ℕ → Segment → ℕ → ℕ → M (List ℕ)
resto_cortado r seg nro cuantos = do
  fr ← frame_de_pagina r seg nro
  leer (λ s. copiar_de (s.main_memory fr) 0 cuantos)

unfoldable pub buscar_metadata_por_direccion : ℕ → ℕ → Segment → M HeapMetadata
buscar_metadata_por_direccion r dir seg = do
  page_size ← leer (λ s. s.page_size)
  let pagina_buscada = resta dir seg.base / page_size
  let offset = resta dir seg.base % page_size
  fr ← frame_de_pagina r seg pagina_buscada
  let cortada = page_size - offset
  bs ←
      if ltb page_size (offset + metadata_size)
      then (do
        parte ← leer (λ s. copiar_de (s.main_memory fr) offset cortada)
        resto ← resto_cortado r seg (suc pagina_buscada) (metadata_size - cortada)
        pure (parte ++ resto))
      else leer (λ s. copiar_de (s.main_memory fr) offset metadata_size)
  no_nulo (metadata_de bs)

-- Both parts are written when both pages are present.
unfoldable pub escribir_cortada : ℕ → Segment → ℕ → ℕ → ℕ → ℕ → List ℕ → M (Unit {0})
escribir_cortada r seg fr nro offset cortada bs = do
  siguiente ← frame_de_pagina r seg nro
  escribir_bytes fr offset (take cortada bs)
  escribir_bytes siguiente 0 (drop cortada bs)

unfoldable pub modificar_metadata : ℕ → ℕ → Segment → ℕ → Bool → M (Unit {0})
modificar_metadata r dir seg nuevo_size libre = do
  page_size ← leer (λ s. s.page_size)
  let pagina_buscada = resta dir seg.base / page_size
  let offset = resta dir seg.base % page_size
  fr ← frame_de_pagina r seg pagina_buscada
  let bs = bytes_de (record { size = nuevo_size; is_free = libre })
  if ltb page_size (offset + metadata_size)
      then escribir_cortada r seg fr (suc pagina_buscada) offset (page_size - offset) bs
      else escribir_bytes fr offset bs

-- The address of the next metadata.
unfoldable pub siguiente_de : HeapMetadata → ℕ → ℕ
siguiente_de m dir = palabra (m.size + metadata_size + dir)

unfoldable pub ultima_metadata_segmento : ℕ → ℕ → ℕ → Segment → M ℕ
ultima_metadata_segmento r zero dir seg = sin_fuel
ultima_metadata_segmento r (suc fuel) dir seg = do
  m ← buscar_metadata_por_direccion r dir seg
  if siguiente_de m dir == seg.limit
      then pure dir
      else ultima_metadata_segmento r fuel (siguiente_de m dir) seg

-- The last metadata, when the walk is before it.
unfoldable pub probar_ultima : ℕ → ℕ → Segment → ℕ → M (Option ℕ)
probar_ultima r dir seg size = do
  m ← buscar_metadata_por_direccion r dir seg
  pure (if m.is_free && leb size m.size then some dir else none)

-- `r` bounds the search of the last metadata too.
unfoldable pub proxima_metadata_libre_con_size : ℕ → ℕ → ℕ → Segment → ℕ → M (Option ℕ)
proxima_metadata_libre_con_size r zero dir seg size = sin_fuel
proxima_metadata_libre_con_size r (suc fuel) dir seg size = do
  m ← buscar_metadata_por_direccion r dir seg
  ultima ← ultima_metadata_segmento r r seg.base seg
  if dir == ultima
      then pure (if leb size m.size then some dir else none)
      else if ultima == siguiente_de m dir
      then probar_ultima r (siguiente_de m dir) seg size
      else if m.is_free && leb size m.size
      then pure (some dir)
      else proxima_metadata_libre_con_size r fuel (siguiente_de m dir) seg size

unfoldable pub si_es_libre : HeapMetadata → ℕ → Option ℕ
si_es_libre m dir = if m.is_free then some dir else none

unfoldable pub proxima_metadata_libre : ℕ → ℕ → ℕ → Segment → M (Option ℕ)
proxima_metadata_libre r zero dir seg = sin_fuel
proxima_metadata_libre r (suc fuel) dir seg = do
  m ← buscar_metadata_por_direccion r dir seg
  ultima ← ultima_metadata_segmento r r seg.base seg
  if ultima == siguiente_de m dir
      then (do
        u ← buscar_metadata_por_direccion r (siguiente_de m dir) seg
        pure (si_es_libre u dir))
      else if m.is_free
      then pure (some dir)
      else proxima_metadata_libre r fuel (siguiente_de m dir) seg
