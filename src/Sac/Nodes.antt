-- ===== src/Sac/Nodes.antt =====
-- Nodes of the table: crear_nuevo_nodo, renombrar_archivo, completar_lista_con_fileNames and
-- validarSiExiste of filesystem/sac_handlers.c.
use Prim.Native.String.{String}
use text.Mathlib.Text.{◌==◌ as str_eq}
use tp_sistemas_operativos_l.Common.{
  ℕ, zero, suc, ℤ, pos, negsuc, ◌&&◌, not, Option, none, some, List, [], ◌∷◌, ◌==◌, ltb,
  if◌then◌else◌,
}
use tp_sistemas_operativos_l.Sac.State.{GFile, Entorno, max_name_size}
use tp_sistemas_operativos_l.Sac.Monad.{
  F, pure, fallar, ◌>>=◌, ◌>>◌, leer, cambiar, lock_nodos, unlock_nodos, o_falla, cambiar_nodo,
}
use tp_sistemas_operativos_l.Sac.Search.{bloque_de, determine_nodo, validar_si_ya_existe_otro}
use tp_sistemas_operativos_l.Sac.Blocks.{en_cola, poner_ceros, get_bloque_vacio, agregar_nodo}

-- The first node whose state is 0.
unfoldable pub nodo_vacio : List GFile → Option ℕ
nodo_vacio [] = none
nodo_vacio (g ∷ gs) = if g.state == 0 then some 0 else en_cola (nodo_vacio gs)

abbrev pub ultimo : List String → Option String
ultimo [] = none
ultimo (x ∷ []) = some x
ultimo (x ∷ y ∷ xs) = ultimo (y ∷ xs)

-- EDQUOT and -EEXIST.
abbrev pub edquot : ℤ
edquot = pos 122

abbrev pub menos_eexist : ℤ
menos_eexist = negsuc 16

-- memset(bloqueDeDatos->bytes, 0, BLOQUE_SIZE) on block `b`; block -1 is before the disk.
unfoldable pub poner_en_cero : ℤ → F (Unit {0})
poner_en_cero (pos b) = cambiar (λ s. record s { datos = poner_ceros s.datos b })
poner_en_cero (negsuc b) = fallar

module _ (e : Entorno) where
  -- The parent of a node: the block of the directory, and 0 for a path of one name.
  unfoldable pub padre_nuevo : List GFile → String → List String → ℕ
  padre_nuevo tabla path (x ∷ y ∷ xs) =
      bloque_de e.inicio_nodos (determine_nodo e tabla (e.dirname path))
  padre_nuevo tabla path _ = 0

  -- A name of MAX_NAME_SIZE bytes or more runs over the fields after fname.
  unfoldable pub llenar_nodo : ℕ → String → ℕ → ℕ → F (Unit {0})
  llenar_nodo n filename padre tipo = do
    if ltb (e.strlen filename) max_name_size then pure tt else fallar
    ahora ← leer (λ s. s.reloj)
    cambiar_nodo n (λ g. record g {
      fname = filename;
      file_size = 0;
      parent_dir_block = padre;
      state = tipo;
      create_date = ahora;
      modify_date = ahora;
    })

  -- The first block of a new file.
  unfoldable pub primer_bloque : ℕ → F (Unit {0})
  primer_bloque n = do nuevo ← get_bloque_vacio e; _ ← agregar_nodo e n nuevo; poner_en_cero nuevo

  -- The part of crear_nuevo_nodo that follows the checks.
  unfoldable pub crear_nodo_en : ℕ → String → String → ℕ → F ℤ
  crear_nodo_en n path filename tipo = do
    padre ← leer (λ s. padre_nuevo s.tabla path (e.string_split path))
    llenar_nodo n filename padre tipo
    unlock_nodos
    if tipo == 1 then primer_bloque n else pure tt
    pure (pos 0)

  -- The returns with EDQUOT and with -EEXIST leave s_tablaDeNodos locked.
  unfoldable pub crear_si_hay : Option ℕ → String → String → ℕ → F ℤ
  crear_si_hay none path filename tipo = pure edquot
  crear_si_hay (some n) path filename tipo = do
    existe ← leer (λ s. validar_si_ya_existe_otro e s.tabla path filename)
    if existe then pure menos_eexist else crear_nodo_en n path filename tipo

  unfoldable pub crear_nuevo_nodo : String → ℕ → F ℤ
  crear_nuevo_nodo path tipo = do
    filename ← o_falla (ultimo (e.string_split path))
    lock_nodos
    vacio ← leer (λ s. nodo_vacio s.tabla)
    crear_si_hay vacio path filename tipo

  -- The writes of renombrar_archivo: node 0 as the new parent stands for the root.
  unfoldable pub renombrar_en : ℕ → String → ℕ → F ℤ
  renombrar_en n filename zero = do
    lock_nodos
    if ltb (e.strlen filename) max_name_size then pure tt else fallar
    cambiar_nodo n (λ g. record g { fname = filename; parent_dir_block = 0 })
    unlock_nodos
    pure (pos 0)
  renombrar_en n filename (suc i) = do
    lock_nodos
    if ltb (e.strlen filename) max_name_size then pure tt else fallar
    cambiar_nodo n (λ g. record g {
      fname = filename;
      parent_dir_block = bloque_de e.inicio_nodos (some (suc i));
    })
    unlock_nodos
    pure (pos 0)

  unfoldable pub renombrar_si_hay : ℕ → String → Option ℕ → F ℤ
  renombrar_si_hay n filename none = pure (negsuc 0)
  renombrar_si_hay n filename (some i) = renombrar_en n filename i

  unfoldable pub renombrar_archivo : ℕ → String → F ℤ
  renombrar_archivo n nuevo_path = do
    existe ← leer (λ s. validar_si_ya_existe_otro e s.tabla nuevo_path (e.basename nuevo_path))
    padre ← leer (λ s. determine_nodo e s.tabla (e.dirname nuevo_path))
    if existe then pure menos_eexist else renombrar_si_hay n (e.basename nuevo_path) padre

  -- What validarSiExiste answers: 0, or -ENOENT with the type of an error.
  unfoldable pub validar_si_existe : String → F ℤ
  validar_si_existe path = do
    o ← leer (λ s. determine_nodo e s.tabla path)
    pure (if str_eq path "/" then pos 0 else elim o [ none ↦ negsuc 1 | some i ↦ pos 0 ])

-- completar_lista_con_fileNames: the names of the live nodes under a block.
unfoldable pub completar_lista_con_file_names : List GFile → ℕ → List String
completar_lista_con_file_names [] nodo_padre = []
completar_lista_con_file_names (g ∷ gs) nodo_padre =
    if not (g.state == 0) && (g.parent_dir_block == nodo_padre)
    then g.fname ∷ completar_lista_con_file_names gs nodo_padre
    else completar_lista_con_file_names gs nodo_padre
