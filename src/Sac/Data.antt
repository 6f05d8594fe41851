-- ===== src/Sac/Data.antt =====
-- The bytes of the files: leer_archivo and escribir_archivo of filesystem/sac_handlers.c. The buffer
-- that leer_archivo fills is its second answer. A size fits in an int, which the answers are.
use Prim.Native.String.{String}
use text.Mathlib.Text.{◌==◌ as str_eq}
use tp_sistemas_operativos_l.Common.{
  ℕ, zero, suc, ◌+◌, ◌-◌, ◌*◌, ◌%◌, ◌^◌, ℤ, pos, negsuc, true, false, ◌&&◌, not, Option, none, some,
  List, [], ◌++◌, ◌==◌, ltb, leb, if◌then◌else◌, length,
}
use tp_sistemas_operativos_l.Sac.State.{
  punteros, direccion, GFile, Entorno, bloque_size, punteros_a_bloques_datos, blkindirect,
}
use tp_sistemas_operativos_l.Sac.Monad.{
  F, ok, deadlock, pure, fallar, sin_fuel, ◌>>=◌, ◌>>◌, leer, cambiar, nodo, cambiar_nodo,
}
use tp_sistemas_operativos_l.Sac.Search.{determine_nodo}
use tp_sistemas_operativos_l.Sac.Blocks.{
  cantidad_bloques_libres, get_bloque_vacio, setear_posicion, agregar_nodo,
}
use tp_sistemas_operativos_l.Muse.Clock.{drop}
use tp_sistemas_operativos_l.Muse.Heap.{copiar_de, copiar_en, take}

-- The node that determine_nodo gives: -1 is no node of the table.
unfoldable pub nodo_buscado : Option ℕ → F ℕ
nodo_buscado none = fallar
nodo_buscado (some n) = pure n

-- The mutex that diccionarioDeMutex has for a path.
unfoldable pub lock_path : String → F (Unit {0})
lock_path path s =
    if s.escribiendo path
    then deadlock
    else ok tt (record s { escribiendo = λ p. if str_eq p path then true else s.escribiendo p })

unfoldable pub unlock_path : String → F (Unit {0})
unlock_path path =
    cambiar (λ s. record s { escribiendo = λ p. if str_eq p path then false else s.escribiendo p })

-- How many bytes a turn of leer_archivo copies.
abbrev pub a_copiar : ℕ → ℕ
a_copiar tamanio = if ltb tamanio bloque_size then tamanio else bloque_size

-- How many bytes are to be read. The sum is a size_t.
abbrev pub a_leer : ℕ → ℕ → ℕ → ℕ
a_leer file_size size offset =
    if leb file_size ((offset + size) % 2 ^ 64) then file_size - offset else size

module _ (e : Entorno) where
  -- An access to n bytes of the mapped disk.
  unfoldable pub acceso : ℕ → ℕ → F (Unit {0})
  acceso desde n = if leb (desde + n) e.disk_size then pure tt else fallar

  unfoldable pub copiar_del_disco : ℕ → ℕ → F (List ℕ)
  copiar_del_disco desde n = do acceso desde n; leer (λ s. copiar_de s.datos desde n)

  -- memcpy of the first n bytes of a buffer.
  unfoldable pub copiar_al_disco : ℕ → ℕ → List ℕ → F (Unit {0})
  copiar_al_disco desde n buffer = do
    if leb n (length buffer) then pure tt else fallar
    acceso desde n
    cambiar (λ s. record s { datos = copiar_en s.datos desde (take n buffer) })

  -- The inner loop of leer_archivo, from entry `num` of a block of pointers on: the offset, the size
  -- that is left to read, and the bytes read.
  unfoldable pub leer_datos : ℕ → ℕ → ℕ → ℕ → ℕ → F (ℕ × ℕ × List ℕ)
  leer_datos zero num bloque offset tamanio = pure (offset, tamanio, [])
  leer_datos (suc vueltas) num bloque offset tamanio =
      if leb bloque_size offset
      then leer_datos vueltas (suc num) bloque (offset - bloque_size) tamanio
      else (do
        b ← leer (λ s. punteros s.datos bloque num)
        bs ← copiar_del_disco (direccion b offset) (a_copiar tamanio)
        if tamanio - a_copiar tamanio == 0 then pure (0, 0, bs) else (do
          r ← leer_datos vueltas (suc num) bloque 0 (tamanio - bloque_size)
          pure (r.0, r.1, bs ++ r.2)))

  -- The outer loop, from block of pointers q on. Its first access reads the entry of the block that its
  -- own number gives.
  unfoldable pub leer_bloques : ℕ → ℕ → GFile → ℕ → ℕ → F (List ℕ)
  leer_bloques zero q g offset tamanio = pure []
  leer_bloques (suc vueltas) q g offset tamanio =
      if ltb (bloque_size * 1024) offset
      then leer_bloques vueltas (suc q) g (offset - bloque_size * 1024) tamanio
      else (do
        acceso (direccion (g.indirect_blocks_array q) (4 * g.indirect_blocks_array q)) 4
        r ← leer_datos 1024 0 (g.indirect_blocks_array q) offset tamanio
        if r.1 == 0
            then pure r.2
            else (do bs ← leer_bloques vueltas (suc q) g r.0 r.1; pure (r.2 ++ bs)))

  unfoldable pub leer_archivo : String → ℕ → ℕ → F (ℕ × List ℕ)
  leer_archivo path size offset = do
    o ← leer (λ s. determine_nodo e s.tabla path)
    n ← nodo_buscado o
    g ← nodo n
    if leb g.file_size offset then pure (0, []) else (do
      bs ← leer_bloques blkindirect 0 g offset (a_leer g.file_size size offset)
      pure (a_leer g.file_size size offset, bs))

-- What a turn of escribir_archivo finds: a block to write in, the space that it takes to be left there
-- and the answer so far; no space; or a jump to the end with an answer.
pub data Lugar : Type 0 where
  en_bloque : ℕ → ℕ → ℤ → Lugar
  sin_espacio : Lugar
  ir_a_finalizar : ℤ → Lugar

-- How the loop of escribir_archivo ends.
pub data Fin : Type 0 where
  completo : Fin
  enospc : Fin
  finalizar : ℤ → Fin

-- space_in_block.
abbrev pub espacio_libre : ℕ → ℕ
espacio_libre file_size =
    if file_size == 0
    then bloque_size
    else (if bloque_size - file_size % bloque_size == bloque_size
        then 0
        else bloque_size - file_size % bloque_size)

-- What a write of the rest of the data adds to the size.
abbrev pub crecimiento : ℕ → ℕ → ℕ → ℕ
crecimiento file_size off tam =
    if leb file_size off
    then tam
    else (if leb file_size (off + tam) then (off + tam) - file_size else 0)

unfoldable pub crecer : ℕ → ℕ → F (Unit {0})
crecer n d = cambiar_nodo n (λ g. record g { file_size = (g.file_size + d) % 2 ^ 32 })

-- BLKINDIRECT * PUNTEROS_A_BLOQUES_DATOS * BLOQUE_SIZE in a uint32_t.
abbrev pub tamanio_maximo_teorico : ℕ
tamanio_maximo_teorico = (blkindirect * punteros_a_bloques_datos * bloque_size) % 2 ^ 32

-- -EFBIG.
abbrev pub menos_efbig : ℤ
menos_efbig = negsuc 26

unfoldable pub lugar_nuevo : ℕ → ℤ → F Lugar
lugar_nuevo b (pos zero) = pure (en_bloque b bloque_size (pos 0))
lugar_nuevo b (pos (suc k)) = pure (ir_a_finalizar (pos (suc k)))
lugar_nuevo b (negsuc k) = pure (ir_a_finalizar (negsuc k))

module _ (e : Entorno) where
  unfoldable pub agregar_lugar : ℕ → ℤ → ℤ → F Lugar
  agregar_lugar n respuesta (negsuc k) = pure (ir_a_finalizar respuesta)
  agregar_lugar n respuesta (pos b) = do r ← agregar_nodo e n (pos b); lugar_nuevo b r

  -- The branch that takes a new block.
  unfoldable pub bloque_nuevo : ℕ → ℤ → F Lugar
  bloque_nuevo n respuesta = do
    libres ← cantidad_bloques_libres e
    if libres == 0
        then pure sin_espacio
        else (do nuevo ← get_bloque_vacio e; agregar_lugar n respuesta nuevo)

  -- The branch that writes in a block of the file.
  unfoldable pub bloque_propio : GFile → ℕ → ℤ → F Lugar
  bloque_propio g off respuesta = do
    qp ← setear_posicion off
    b ← leer (λ s. punteros s.datos (g.indirect_blocks_array qp.0) qp.1)
    pure (en_bloque b (espacio_libre g.file_size) respuesta)

  unfoldable pub buscar_lugar : ℕ → ℕ → ℤ → F Lugar
  buscar_lugar n off respuesta = do
    g ← nodo n
    if leb (g.file_size + espacio_libre g.file_size) off && not (g.file_size == 0)
        then bloque_nuevo n respuesta
        else bloque_propio g off respuesta

  -- The writing of a turn, on node n, and the turns that follow. `posicion` is offset_in_block, which is
  -- 0 in them. The code's file_size is always that of the node.
  unfoldable pub escribir_en_lugar :
      (ℕ → ℕ → List ℕ → ℤ → F Fin) → ℕ → ℕ → ℕ → ℕ → List ℕ → Lugar → F Fin
  escribir_en_lugar seguir n posicion off tam buffer sin_espacio = pure enospc
  escribir_en_lugar seguir n posicion off tam buffer (ir_a_finalizar r) = pure (finalizar r)
  escribir_en_lugar seguir n posicion off tam buffer (en_bloque b espacio respuesta) =
      if leb bloque_size tam
      then (do
        copiar_al_disco e (direccion b 0) bloque_size buffer
        g ← nodo n
        crecer n (if leb g.file_size off then bloque_size else 0)
        seguir (off + bloque_size) (tam - bloque_size) (drop bloque_size buffer) respuesta)
      else (if leb tam espacio
          then (do
            copiar_al_disco e (direccion b posicion) tam buffer
            g ← nodo n
            crecer n (crecimiento g.file_size off tam)
            seguir off 0 buffer respuesta)
          else (do
            copiar_al_disco e (direccion b posicion) espacio buffer
            crecer n espacio
            seguir (off + espacio) (tam - espacio) (drop espacio buffer) respuesta))

  -- The loop of escribir_archivo.
  unfoldable pub escribir_desde : ℕ → ℕ → ℕ → ℕ → ℕ → List ℕ → ℤ → F Fin
  escribir_desde fuel n posicion off zero buffer respuesta = pure completo
  escribir_desde zero n posicion off (suc t) buffer respuesta = sin_fuel
  escribir_desde (suc fuel) n posicion off (suc t) buffer respuesta = do
    lugar ← buscar_lugar n off respuesta
    escribir_en_lugar (escribir_desde fuel n 0) n posicion off (suc t) buffer lugar

  -- The returns with -EFBIG and with -ENOSPC leave the mutex of the path locked.
  unfoldable pub terminar_escritura : ℕ → String → ℕ → Fin → F ℤ
  terminar_escritura n path size completo = do
    ahora ← leer (λ s. s.reloj)
    cambiar_nodo n (λ g. record g { modify_date = ahora })
    unlock_path path
    pure (pos size)
  terminar_escritura n path size enospc = pure (negsuc 27)
  terminar_escritura n path size (finalizar r) = do unlock_path path; pure r

  unfoldable pub escribir_archivo : ℕ → List ℕ → String → ℕ → ℕ → F ℤ
  escribir_archivo fuel buffer path size offset = do
    o ← leer (λ s. determine_nodo e s.tabla path)
    lock_path path
    n ← nodo_buscado o
    g ← nodo n
    if leb tamanio_maximo_teorico (g.file_size + size) then pure menos_efbig else (do
      fin ← escribir_desde fuel n (offset % bloque_size) offset size buffer (pos size)
      terminar_escritura n path size fin)
