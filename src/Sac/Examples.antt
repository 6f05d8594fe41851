-- ===== src/Sac/Examples.antt =====
-- Runs of the file system server on a small disk.
use text.Mathlib.Text.{◌==◌ as str_eq}
use tp_sistemas_operativos_l.Common.{
  ℕ, suc, ◌≡◌, refl, pos, none, true, false, some, [], ◌∷◌, if◌then◌else◌, arith,
}
use tp_sistemas_operativos_l.Sac.State.{GFile, Entorno, Disco}
use tp_sistemas_operativos_l.Sac.Monad.{ok, fault}
use tp_sistemas_operativos_l.Sac.Search.{
  es_el_nodo_buscado, buscar_desde, buscar_nodo_por_nombre, determinar, determine_nodo, ya_existe,
}
use tp_sistemas_operativos_l.Sac.Blocks.{contar_libres}
use tp_sistemas_operativos_l.Sac.Nodes.{nodo_vacio, renombrar_archivo}
use tp_sistemas_operativos_l.Sac.Renaming.{renombrar_archivo-lost}
use tp_sistemas_operativos_l.Sac.Resize.{menos_enospc, truncar_archivo}
use tp_sistemas_operativos_l.Sac.Room.{
  Distintos, get_bloque_vacio-distinct, Toma, get_bloque_vacio-takes,
}
use tp_sistemas_operativos_l.Sac.Lookup.{Creado, crear_nuevo_nodo-determine_nodo}
use tp_sistemas_operativos_l.Sac.Growth.{truncar_archivo-refuses, truncar_archivo-same_size}

abbrev entorno : Entorno
entorno = record {
  string_split = λ path. if str_eq path "/a/b" then "a" ∷ "b" ∷ [] else "a" ∷ [];
  dirname = λ _. "/a";
  basename = λ _. "b";
  strlen = λ _. 1;
  inicio_nodos = 2;
  inicio_datos = 3;
  disk_size = 24576;
}

abbrev nodo_libre : GFile
nodo_libre = record {
  state = 0;
  fname = "";
  parent_dir_block = 0;
  file_size = 0;
  create_date = 0;
  modify_date = 0;
  indirect_blocks_array = λ _. 0;
}

abbrev directorio : GFile
directorio = record nodo_libre { state = 2; fname = "a" }

-- A file of one block, with room for 4000 bytes in a disk that has two blocks free.
abbrev archivo : ℕ → GFile
archivo size = record nodo_libre { state = 1; fname = "f"; file_size = size }

abbrev disco : ℕ → Disco
disco size = record {
  tabla = directorio ∷ nodo_libre ∷ archivo size ∷ [];
  bitmap = true ∷ true ∷ true ∷ false ∷ false ∷ [];
  datos = λ _. 0;
  reloj = 0;
  escribiendo = λ _. false;
  bloqueado_bitmap = false;
  bloqueado_nodos = false;
}

abbrev lleno : Disco
lleno = record (disco 0) { bitmap = true ∷ true ∷ true ∷ true ∷ [] }

get_bloque_vacio-takes_example : Toma entorno (disco 0)
unfolding contar_libres
get_bloque_vacio-takes_example =
    get_bloque_vacio-takes entorno (disco 0) refl (omega arith) (omega arith)

get_bloque_vacio-distinct_example : Distintos entorno (disco 0)
unfolding contar_libres
get_bloque_vacio-distinct_example =
    get_bloque_vacio-distinct entorno (disco 0) refl (omega arith) (omega arith)

crear_nuevo_nodo-determine_nodo_example : Creado entorno (disco 0) "/a/b" 1
unfolding es_el_nodo_buscado buscar_desde buscar_nodo_por_nombre determinar determine_nodo ya_existe
    nodo_vacio
crear_nuevo_nodo-determine_nodo_example =
    crear_nuevo_nodo-determine_nodo entorno (disco 0) "/a/b" "a" [] "b" 1 0 refl (omega arith)
      (omega arith) refl refl refl refl refl (omega arith) refl

truncar_archivo-refuses_example :
    truncar_archivo entorno 9 (some 2) 200 (disco 100)
    ≡ ok menos_enospc (record (disco 100) {
      tabla = directorio ∷ nodo_libre ∷ archivo 200 ∷ [];
      bloqueado_bitmap = false;
      bloqueado_nodos = false;
    })
unfolding contar_libres
truncar_archivo-refuses_example =
    truncar_archivo-refuses entorno 9 2 200 (disco 100) (archivo 100) refl refl refl (omega arith)
      (omega arith) (omega arith)

truncar_archivo-same_size_example : truncar_archivo entorno 9 (some 2) 4096 (disco 4096) ≡ fault
truncar_archivo-same_size_example =
    truncar_archivo-same_size entorno 9 2 (disco 4096) (archivo 4096) refl refl refl (omega arith)
      refl (omega arith)

renombrar_archivo-lost_example :
    (t : Disco) × (renombrar_archivo entorno (suc 1) "/a/b" (disco 0) ≡ ok (pos 0) t)
    × (determine_nodo entorno t.tabla "/a/b" ≡ none)
unfolding es_el_nodo_buscado buscar_desde buscar_nodo_por_nombre ya_existe
renombrar_archivo-lost_example =
    renombrar_archivo-lost entorno (disco 0) "/a/b" "a" "b" 1 (archivo 0) refl (omega arith)
      (omega arith) refl refl refl refl refl refl refl
