-- ===== src/Sac/Deletion.antt =====
-- Deleting: borrar_contenido, borrar_archivo and borrar_directorio of filesystem/sac_handlers.c.
use tp_sistemas_operativos_l.Common.{
  ℕ, zero, suc, ◌+◌, ◌*◌, ◌/◌, ◌%◌, ◌-◌, ℤ, pos, negsuc, Option, none, some, ◌==◌, not, ◌&&◌,
  if◌then◌else◌,
}
use tp_sistemas_operativos_l.Sac.State.{
  punteros, bloque_size, punteros_a_bloques_datos, max_number_of_files,
}
use tp_sistemas_operativos_l.Sac.Monad.{
  F, pure, sin_fuel, ◌>>=◌, ◌>>◌, leer, lock_bitmap, unlock_bitmap, nodo, cambiar_nodo,
}
use tp_sistemas_operativos_l.Sac.Blocks.{limpiar_bit}

-- Frees `m` blocks of data from entry `j` of a block of pointers on.
unfoldable pub liberar_datos : ℕ → ℕ → ℕ → F (Unit {0})
liberar_datos bloque j zero = pure tt
liberar_datos bloque j (suc m) = do
  b ← leer (λ s. punteros s.datos bloque j)
  limpiar_bit b
  liberar_datos bloque (suc j) m

-- Frees `m` full blocks of pointers of node n from the i-th on, each with its 1024 blocks of data.
unfoldable pub liberar_punteros : ℕ → ℕ → ℕ → F (Unit {0})
liberar_punteros n i zero = pure tt
liberar_punteros n i (suc m) = do
  g ← nodo n
  liberar_datos (g.indirect_blocks_array i) 0 punteros_a_bloques_datos
  limpiar_bit (g.indirect_blocks_array i)
  liberar_punteros n (suc i) m

abbrev pub tamanio_maximo : ℕ
tamanio_maximo = punteros_a_bloques_datos * bloque_size

-- ceil of a division by BLOQUE_SIZE of a number below 2^22; the float of the code is exact there.
abbrev pub bloques_de : ℕ → ℕ
bloques_de n = (n + (bloque_size - 1)) / bloque_size

unfoldable pub borrar_contenido : ℕ → ℕ → F (Unit {0})
borrar_contenido n tamanio = do
  lock_bitmap
  liberar_punteros n 0 (tamanio / tamanio_maximo)
  g ← nodo n
  let ultimo = g.indirect_blocks_array (tamanio / tamanio_maximo)
  liberar_datos ultimo 0 (bloques_de (tamanio % tamanio_maximo))
  limpiar_bit ultimo
  unlock_bitmap

-- nodoABorrar is node n of the table.
unfoldable pub borrar_nodo : ℕ → F ℤ
borrar_nodo n = do
  g ← nodo n
  if (g.state == 2)
      then pure tt
      else (if not (g.file_size == 0) then borrar_contenido n g.file_size else pure tt)
  cambiar_nodo n (λ g. record g { state = 0; file_size = 0 })
  pure (pos 0)

-- A position of -1 is `none`.
unfoldable pub borrar_archivo : Option ℕ → F ℤ
borrar_archivo none = pure (negsuc 0)
borrar_archivo (some n) = borrar_nodo n

-- What the code compares parent_dir_block with: the position of the node, which may be -1, and 2.
abbrev pub bloque_de_hijos : Option ℕ → ℕ
bloque_de_hijos none = 1
bloque_de_hijos (some n) = n + 2

-- The loop of borrar_directorio over `m` nodes from `curr_node` on, for the nodes below a block. `borrar`
-- deletes a directory.
unfoldable pub borrar_hijos : (ℕ → F ℤ) → ℕ → ℕ → ℕ → F (Unit {0})
borrar_hijos borrar padre curr_node zero = pure tt
borrar_hijos borrar padre curr_node (suc m) = do
  g ← nodo curr_node
  if not (g.state == 0) && (g.parent_dir_block == padre)
      then (do
        _ ← (if g.state == 1 then borrar_archivo (some curr_node) else borrar curr_node)
        pure tt)
      else pure tt
  borrar_hijos borrar padre (suc curr_node) m

-- borrar_directorio of the node at a position, on fuel for the depth of its calls.
unfoldable pub borrar_directorio : ℕ → Option ℕ → F ℤ
borrar_directorio zero o = sin_fuel
borrar_directorio (suc fuel) o = do
  _ ← borrar_archivo o
  borrar_hijos (λ n. borrar_directorio fuel (some n)) (bloque_de_hijos o) 0 max_number_of_files
  pure (pos 0)
