-- ===== src/Sac/DataExamples.antt =====
-- Runs of leer_archivo and escribir_archivo of filesystem/sac_handlers.c on a disk with one file, whose
-- block of pointers is block 3 and whose blocks are all block 4.
use tp_sistemas_operativos_l.Common.{
  ℕ, zero, suc, ◌%◌, ◌==◌, if◌then◌else◌, ◌≡◌, refl, true, false, List, [], ◌∷◌, arith,
}
use tp_sistemas_operativos_l.Sac.State.{punteros, palabra_en, GFile, Entorno, Disco}
use tp_sistemas_operativos_l.Sac.Monad.{ok, agotado}
use tp_sistemas_operativos_l.Sac.Search.{
  es_el_nodo_buscado, buscar_desde, buscar_nodo_por_nombre, determinar, determine_nodo,
}
use tp_sistemas_operativos_l.Sac.Data.{leer_archivo, escribir_archivo}
use tp_sistemas_operativos_l.Sac.FileReading.{leer_archivo-lem}
use tp_sistemas_operativos_l.Sac.FileWriting.{Guardado, escribir_archivo-leer_archivo}
use tp_sistemas_operativos_l.Sac.WriteErrors.{escribir_archivo-never_ends}
use tp_sistemas_operativos_l.Sac.Answers.{Cadenas}
use tp_sistemas_operativos_l.Sac.ReadBack.{Devuelto, sac_read-sac_write}
use tp_sistemas_operativos_l.Muse.Heap.{copiar_de}

abbrev entorno : Entorno
entorno = record {
  string_split = λ _. "f" ∷ [];
  dirname = λ _. "/";
  basename = λ _. "f";
  strlen = λ _. 1;
  inicio_nodos = 2;
  inicio_datos = 3;
  disk_size = 24576;
}

abbrev archivo : ℕ → GFile
archivo size = record {
  state = 1;
  fname = "f";
  parent_dir_block = 0;
  file_size = size;
  create_date = 0;
  modify_date = 0;
  indirect_blocks_array = λ _. 3;
}

-- Each word of the disk is 4.
abbrev disco : ℕ → Disco
disco size = record {
  tabla = archivo size ∷ [];
  bitmap = true ∷ true ∷ true ∷ true ∷ [];
  datos = λ a. if a % 4 == 0 then 4 else 0;
  reloj = 7;
  escribiendo = λ _. false;
  bloqueado_bitmap = false;
  bloqueado_nodos = false;
}

-- Every entry of every block of pointers.
cuatro : (b j : ℕ) → punteros (disco 0).datos b j ≡ 4
unfolding punteros palabra_en
cuatro b j = ground arith

leer_archivo-lem_example :
    leer_archivo entorno "/f" 9 3 (disco 6) ≡ ok (3, 0 ∷ 4 ∷ 0 ∷ []) (disco 6)
unfolding copiar_de es_el_nodo_buscado buscar_desde buscar_nodo_por_nombre determinar determine_nodo
    punteros palabra_en
leer_archivo-lem_example =
    leer_archivo-lem entorno "/f" 0 9 3 (disco 6) (archivo 6) refl refl
      (λ q h h'. record { entrada = omega arith; bloques = λ j hj. rw (cuatro 3 j) (omega arith) })
      (omega arith) (omega arith) (omega arith) (omega arith) (omega arith) (omega arith)

escribir_archivo-leer_archivo_example : Guardado entorno 1 (disco 100) "/f" 98 (5 ∷ 6 ∷ 7 ∷ [])
unfolding es_el_nodo_buscado buscar_desde buscar_nodo_por_nombre determinar determine_nodo punteros
    palabra_en
escribir_archivo-leer_archivo_example =
    escribir_archivo-leer_archivo entorno 0 (disco 100) "/f" 0 98 (archivo 100) (5 ∷ 6 ∷ 7 ∷ [])
      refl refl refl
      (record {
        algo = omega arith;
        parcial = omega arith;
        corto = omega arith;
        dentro = omega arith;
        espacio = omega arith;
        bloque = omega arith;
        disco = omega arith;
        tras_la_tabla = omega arith;
        aparte = λ q h h' e. omega (arith, e);
      })
      (λ q h h'. record { entrada = omega arith; bloques = λ j hj. rw (cuatro 3 j) (omega arith) })

escribir_archivo-never_ends_example :
    escribir_archivo entorno 1000 (1 ∷ []) "/f" 1 0 (disco 4096) ≡ agotado
unfolding es_el_nodo_buscado buscar_desde buscar_nodo_por_nombre determinar determine_nodo punteros
    palabra_en
escribir_archivo-never_ends_example =
    escribir_archivo-never_ends entorno 1000 (disco 4096) "/f" 0 0 0 (archivo 4096) (1 ∷ []) refl
      refl refl refl (omega arith) (omega arith) (omega arith) (omega arith)

abbrev cadenas : Cadenas
cadenas = record { texto = λ _. "/f"; caracteres = λ _. 47 ∷ 102 ∷ [] }

sac_read-sac_write_example : Devuelto entorno cadenas 1 (disco 100) "/f" 98 (5 ∷ 6 ∷ 7 ∷ [])
unfolding es_el_nodo_buscado buscar_desde buscar_nodo_por_nombre determinar determine_nodo punteros
    palabra_en
sac_read-sac_write_example =
    sac_read-sac_write entorno cadenas 0 (disco 100) "/f" 0 98 (archivo 100) (5 ∷ 6 ∷ 7 ∷ []) refl
      refl refl
      (record {
        algo = omega arith;
        parcial = omega arith;
        corto = omega arith;
        dentro = omega arith;
        espacio = omega arith;
        bloque = omega arith;
        disco = omega arith;
        tras_la_tabla = omega arith;
        aparte = λ q h h' e. omega (arith, e);
      })
      (λ q h h'. record { entrada = omega arith; bloques = λ j hj. rw (cuatro 3 j) (omega arith) })
      (record { ida_y_vuelta = refl; cabe = omega arith })

-- A table of free nodes.
abbrev libres : ℕ → List GFile
libres zero = []
libres (suc n) = record (archivo 0) { state = 0 } ∷ libres n

abbrev vacio : Disco
vacio = record (disco 0) { tabla = libres 1024 }
