-- ===== src/Sac/Blocks.antt =====
-- Blocks: get_bloque_vacio, cantidad_bloques_libres, setear_posicion and agregar_nodo of
-- filesystem/sac_handlers.c.
use tp_sistemas_operativos_l.Common.{
  ℕ, zero, suc, ◌*◌, ◌/◌, ◌%◌, ◌-◌, ◌^◌, ℤ, pos, negsuc, Bool, true, false, ◌&&◌, Option, none,
  some, List, [], ◌∷◌, ◌==◌, ltb, if◌then◌else◌, length, set,
}
use tp_sistemas_operativos_l.Messages.Bytes.{bytes_de}
use tp_sistemas_operativos_l.Muse.Heap.{copiar_en}
use tp_sistemas_operativos_l.Sac.State.{
  Entorno, direccion, bloque_size, punteros_a_bloques_datos, blkindirect, menos_uno32,
}
use tp_sistemas_operativos_l.Sac.Monad.{
  F, pure, fallar, ◌>>=◌, ◌>>◌, leer, cambiar, lock_bitmap, unlock_bitmap, lock_nodos, unlock_nodos,
  nodo, cambiar_nodo,
}

-- The position in a list of a position in its tail.
abbrev pub en_cola : Option ℕ → Option ℕ
en_cola none = none
en_cola (some i) = some (suc i)

-- The first bit that is 0 from position `desde` on.
unfoldable pub primer_libre : ℕ → List Bool → Option ℕ
primer_libre desde [] = none
primer_libre zero (false ∷ bs) = some 0
primer_libre zero (true ∷ bs) = en_cola (primer_libre 0 bs)
primer_libre (suc k) (b ∷ bs) = en_cola (primer_libre k bs)

-- How many bits are 0 from position `desde` on.
unfoldable pub contar_libres : ℕ → List Bool → ℕ
contar_libres desde [] = 0
contar_libres zero (false ∷ bs) = suc (contar_libres 0 bs)
contar_libres zero (true ∷ bs) = contar_libres 0 bs
contar_libres (suc k) (b ∷ bs) = contar_libres k bs

-- bitarray_clean_bit.
unfoldable pub limpiar_bit : ℕ → F (Unit {0})
limpiar_bit n = do
  total ← leer (λ s. length s.bitmap)
  if ltb n total then cambiar (λ s. record s { bitmap = set s.bitmap n false }) else fallar

module _ (e : Entorno) where
  -- What get_bloque_vacio does with the bit that its loop stops at. The bitmap stays locked on -1.
  unfoldable pub ocupar : Option ℕ → F ℤ
  ocupar none = pure (negsuc 0)
  ocupar (some i) = do
    cambiar (λ s. record s { bitmap = set s.bitmap i true })
    unlock_bitmap
    pure (pos i)

  -- A search that starts after the last bit sets a bit that is not there.
  unfoldable pub get_bloque_vacio : F ℤ
  get_bloque_vacio = do
    lock_bitmap
    total ← leer (λ s. length s.bitmap)
    libre ← leer (λ s. primer_libre (e.inicio_datos - 1) s.bitmap)
    if ltb total (e.inicio_datos - 1) then fallar else ocupar libre

  unfoldable pub cantidad_bloques_libres : F ℕ
  cantidad_bloques_libres = do
    lock_bitmap
    contador ← leer (λ s. contar_libres (e.inicio_datos - 1) s.bitmap)
    unlock_bitmap
    pure contador

-- The quotient and the remainder of setear_posicion, for an offset below 2^31: `div` takes an int.
abbrev pub puntero_de : ℕ → ℕ
puntero_de offset = offset / (bloque_size * punteros_a_bloques_datos)

abbrev pub dato_de : ℕ → ℕ
dato_de offset = (offset % (bloque_size * punteros_a_bloques_datos)) / bloque_size

-- From 2^31 on the offset is negative in `div`, and the positions with it.
unfoldable pub setear_posicion : ℕ → F (ℕ × ℕ)
setear_posicion offset =
    if ltb offset (2 ^ 31) then pure (puntero_de offset, dato_de offset) else fallar

abbrev pub escribir_en : (ℕ → ℕ) → ℕ → ℕ → ℕ → ℕ
escribir_en f j v i = if i == j then v else f i

-- A store of a uint32_t to entry j of block b.
abbrev pub escribir_puntero : (ℕ → ℕ) → ℕ → ℕ → ℕ → ℕ → ℕ
escribir_puntero f b j v = copiar_en f (direccion b (4 * j)) (bytes_de 4 v)

-- memset of a block to 0.
abbrev pub poner_ceros : (ℕ → ℕ) → ℕ → ℕ → ℕ
poner_ceros f b a = if a / bloque_size == b then 0 else f a

-- An int stored in a uint32_t.
abbrev pub como_u32 : ℤ → ℕ
como_u32 (pos n) = n % 2 ^ 32
como_u32 (negsuc n) = menos_uno32 - n % 2 ^ 32

-- nodo_punteros->punteros_a_bloques[position] = numeroNodo, and the return that unlocks.
unfoldable pub apuntar : ℕ → ℕ → ℤ → F ℤ
apuntar bloque position numero_nodo = do
  cambiar
      (λ s. record s { datos = escribir_puntero s.datos bloque position (como_u32 numero_nodo) })
  unlock_nodos
  pure (pos 0)

-- The branch of agregar_nodo for a new block of pointers. Entry BLKINDIRECT is out of the array.
unfoldable pub bloque_de_punteros : ℕ → ℕ → ℤ → ℤ → F ℤ
bloque_de_punteros n q numero_nodo (negsuc k) = pure (negsuc k)
bloque_de_punteros n q numero_nodo (pos nuevo) = do
  cambiar (λ s. record s { datos = poner_ceros s.datos nuevo })
  cambiar_nodo n
      (λ g. record g { indirect_blocks_array = escribir_en g.indirect_blocks_array q nuevo })
  if ltb (suc q) blkindirect
      then cambiar_nodo n
          (λ g. record g { indirect_blocks_array = escribir_en g.indirect_blocks_array (suc q) 0 })
      else fallar
  apuntar nuevo 0 numero_nodo

module _ (e : Entorno) where
  -- file_data is node n. The test for position 1024 of the code never holds: a position is below 1024.
  unfoldable pub agregar_en : ℕ → ℤ → ℕ → ℕ → F ℤ
  agregar_en n numero_nodo q position =
      if (q == blkindirect - 1) && (position == punteros_a_bloques_datos - 1)
      -- -ENOSPC, with s_tablaDeNodos locked.
      then pure (negsuc 27)
      else (if position == 0
          then (do nuevo ← get_bloque_vacio e; bloque_de_punteros n q numero_nodo nuevo)
          else (do g ← nodo n; apuntar (g.indirect_blocks_array q) position numero_nodo))

  unfoldable pub agregar_nodo : ℕ → ℤ → F ℤ
  agregar_nodo n numero_nodo = do
    g ← nodo n
    lock_nodos
    qp ← setear_posicion g.file_size
    agregar_en n numero_nodo qp.0 qp.1
