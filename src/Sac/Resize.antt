-- ===== src/Sac/Resize.antt =====
-- Changing the size of a file: truncar_archivo, get_new_space and delete_nodes_upto of
-- filesystem/sac_handlers.c. DELETE_MODE is 0 throughout: nothing enables it.
use tp_sistemas_operativos_l.Common.{
  ℕ, zero, suc, ◌+◌, ◌*◌, ◌%◌, ◌-◌, ◌^◌, ℤ, pos, negsuc, Option, none, some, ◌==◌, ltb, leb, ◌&&◌,
  if◌then◌else◌,
}
use tp_sistemas_operativos_l.Sac.State.{punteros, Entorno, bloque_size, punteros_a_bloques_datos}
use tp_sistemas_operativos_l.Sac.Monad.{
  F, pure, fallar, sin_fuel, ◌>>=◌, ◌>>◌, leer, cambiar, lock_bitmap, unlock_bitmap, lock_nodos,
  unlock_nodos, nodo, cambiar_nodo,
}
use tp_sistemas_operativos_l.Sac.Blocks.{
  limpiar_bit, get_bloque_vacio, cantidad_bloques_libres, setear_posicion, agregar_nodo,
  escribir_en, escribir_puntero,
}

-- A uint32_t plus an int.
abbrev pub sumar_u32 : ℕ → ℤ → ℕ
sumar_u32 a (pos n) = (a + n) % 2 ^ 32
sumar_u32 a (negsuc n) = (a + (2 ^ 32 - suc n % 2 ^ 32)) % 2 ^ 32

-- An int less BLOQUE_SIZE.
abbrev pub menos_bloque : ℤ → ℤ
menos_bloque (pos n) =
    if leb bloque_size n then pos (n - bloque_size) else negsuc (bloque_size - suc n)
menos_bloque (negsuc n) = negsuc (n + bloque_size)

-- A size_t less another, and an int as a size_t.
abbrev pub resta_size : ℕ → ℕ → ℕ
resta_size a b = if leb b a then a - b else 2 ^ 64 - (b - a)

abbrev pub como_size : ℤ → ℕ
como_size (pos n) = n
como_size (negsuc n) = 2 ^ 64 - suc n

unfoldable pub sumar_tamanio : ℕ → ℤ → F (Unit {0})
sumar_tamanio n size = do
  lock_nodos
  cambiar_nodo n (λ g. record g { file_size = sumar_u32 g.file_size size })
  unlock_nodos

abbrev pub menos_enospc : ℤ
menos_enospc = negsuc 27

-- BLOQUE_SIZE - file_size % BLOQUE_SIZE.
abbrev pub espacio_en_bloque : ℕ → ℕ
espacio_en_bloque file_size = bloque_size - file_size % bloque_size

module _ (e : Entorno) where
  -- The loop of get_new_space, on fuel. `size` is an int and the test compares it as a size_t.
  unfoldable pub agregar_bloques : ℕ → ℕ → ℕ → ℤ → F ℤ
  agregar_bloques zero n space size = sin_fuel
  agregar_bloques (suc fuel) n space size =
      if leb space (como_size size)
      then (do
        nuevo ← get_bloque_vacio e
        _ ← agregar_nodo e n nuevo
        sumar_tamanio n (pos bloque_size)
        agregar_bloques fuel n space (menos_bloque size))
      else pure size

  -- The test `space_in_block >= size` and what follows it.
  unfoldable pub agregar_espacio : ℕ → ℕ → ℕ → ℕ → F ℤ
  agregar_espacio fuel n space size =
      if leb size space then (do sumar_tamanio n (pos size); pure (pos 0)) else (do
        sumar_tamanio n (pos space)
        resto ← agregar_bloques fuel n space (pos size)
        sumar_tamanio n resto
        pure (pos 0))

  -- get_new_space of node n for a size below 2^31. The bytes of the free blocks, an int in the code, are
  -- not cut to 32 bits.
  unfoldable pub get_new_space : ℕ → ℕ → ℕ → F ℤ
  get_new_space fuel n size = do
    g ← nodo n
    libres ← cantidad_bloques_libres e
    if ltb (libres * bloque_size) (resta_size size (espacio_en_bloque g.file_size))
        then pure menos_enospc
        else agregar_espacio fuel n (espacio_en_bloque g.file_size) size

-- One turn of the inner loop of delete_nodes_upto.
unfoldable pub liberar_dato : ℕ → ℕ → F (Unit {0})
liberar_dato bloque data_pos = do
  node_to_delete ← leer (λ s. punteros s.datos bloque data_pos)
  lock_nodos
  cambiar (λ s. record s { datos = escribir_puntero s.datos bloque data_pos 0 })
  unlock_nodos
  lock_bitmap
  limpiar_bit node_to_delete
  unlock_bitmap

-- The inner loop: frees the blocks of data from `data_pos` down to `delete_upto`, which it keeps.
-- Entry -1 is out of bounds.
unfoldable pub liberar_hasta : ℕ → ℕ → ℕ → F (Unit {0})
liberar_hasta bloque delete_upto zero =
    if 0 == delete_upto then pure tt else (do liberar_dato bloque 0; fallar)
liberar_hasta bloque delete_upto (suc k) =
    if suc k == delete_upto
    then pure tt
    else (do liberar_dato bloque (suc k); liberar_hasta bloque delete_upto k)

-- Frees the block of pointers `pointer_pos` of node n.
unfoldable pub liberar_puntero : ℕ → ℕ → ℕ → F (Unit {0})
liberar_puntero n bloque pointer_pos = do
  lock_bitmap
  limpiar_bit bloque
  unlock_bitmap
  lock_nodos
  cambiar_nodo n
      (λ g. record g { indirect_blocks_array = escribir_en g.indirect_blocks_array pointer_pos 0 })
  unlock_nodos

-- The outer loop, with `m` for pointer_pos + 1. The inner loop leaves data_pos at its bound, and the
-- outer one stops once both positions are there.
unfoldable pub borrar_hasta : ℕ → ℕ → ℕ → ℕ → ℕ → F (Unit {0})
borrar_hasta n pointer_upto data_upto data_pos zero = pure tt
borrar_hasta n pointer_upto data_upto data_pos (suc pointer_pos) =
    if (data_pos == data_upto) && (pointer_pos == pointer_upto) then pure tt else (do
      g ← nodo n
      let bloque = g.indirect_blocks_array pointer_pos
      if pointer_pos == pointer_upto then liberar_hasta bloque data_upto data_pos else (do
        liberar_hasta bloque 0 data_pos
        liberar_puntero n bloque pointer_pos
        borrar_hasta n pointer_upto data_upto 0 pointer_pos))

-- The last position of the file, as the code finds it: `pointer_pos + 1` and `data_pos`.
abbrev pub ultima_posicion : ℕ → ℕ → ℕ → ℕ × ℕ
ultima_posicion file_size pointer_pos data_pos =
    if file_size % (bloque_size * punteros_a_bloques_datos) == 0
    then (pointer_pos, punteros_a_bloques_datos - 1)
    else (suc pointer_pos, if file_size % bloque_size == 0 then data_pos - 1 else data_pos)

unfoldable pub delete_nodes_upto : ℕ → ℕ → ℕ → F ℤ
delete_nodes_upto n pointer_upto data_upto = do
  g ← nodo n
  p ← setear_posicion g.file_size
  let u = ultima_posicion g.file_size p.0 p.1
  borrar_hasta n pointer_upto data_upto u.1 u.0
  pure (pos 0)

-- truncar_archivo of a node that the search found, by its size before.
module _ (e : Entorno) where
  unfoldable pub truncar_nodo : ℕ → ℕ → ℕ → F ℤ
  truncar_nodo fuel n size = do
    g ← nodo n
    respuesta ←
        (if ltb g.file_size size
          then get_new_space e fuel n (size - g.file_size)
          else (do p ← setear_posicion size; delete_nodes_upto n p.0 p.1))
    lock_nodos
    cambiar_nodo n (λ g. record g { file_size = size })
    unlock_nodos
    pure respuesta

  unfoldable pub truncar_archivo : ℕ → Option ℕ → ℕ → F ℤ
  truncar_archivo fuel none size = pure (negsuc 0)
  truncar_archivo fuel (some n) size = truncar_nodo fuel n size
