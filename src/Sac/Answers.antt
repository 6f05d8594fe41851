-- ===== src/Sac/Answers.antt =====
-- The strings and the answers of filesystem/sac_handlers.c, as messages of utils_suse/message.h: the
-- numbers of the functions, tamano_malloc_list, lista_a_string, retornar_error, enviar_respuesta_basica
-- and validarSiExiste; and the places of the disk that filesystem/sac_servidor.c computes.
use Prim.Native.String.{String}
use tp_sistemas_operativos_l.Common.{
  ℕ, zero, suc, ◌+◌, ◌-◌, ◌*◌, ◌/◌, ◌%◌, ◌<◌, ◌≡◌, ◌≢◌, refl, ℤ, pos, negsuc, List, [], ◌∷◌, ◌++◌,
  length, length-append, arith,
}
use tp_sistemas_operativos_l.Sac.State.{Entorno, bloque_size, max_number_of_files, menos_uno32}
use tp_sistemas_operativos_l.Sac.Monad.{F, pure, ◌>>=◌}
use tp_sistemas_operativos_l.Sac.Nodes.{validar_si_existe}
use tp_sistemas_operativos_l.Sac.Blocks.{como_u32}
use tp_sistemas_operativos_l.Messages.Bytes.{bytes_de, ceros}
use tp_sistemas_operativos_l.Messages.Codec.{Arg, Function}

-- FuncType.
abbrev pub function_getattr : ℕ
function_getattr = 9

abbrev pub function_readdir : ℕ
function_readdir = 11

abbrev pub function_open : ℕ
function_open = 13

abbrev pub function_opendir : ℕ
function_opendir = 15

abbrev pub function_read : ℕ
function_read = 17

abbrev pub function_mknod : ℕ
function_mknod = 19

abbrev pub function_write : ℕ
function_write = 21

abbrev pub function_unlink : ℕ
function_unlink = 23

abbrev pub function_mkdir : ℕ
function_mkdir = 25

abbrev pub function_rmdir : ℕ
function_rmdir = 27

abbrev pub function_rta_getattr_nodoraiz : ℕ
function_rta_getattr_nodoraiz = 29

abbrev pub function_truncate : ℕ
function_truncate = 30

abbrev pub function_rename : ℕ
function_rename = 32

-- The answer to a function is the next number of the enum.
abbrev pub rta : ℕ → ℕ
rta t = suc t

-- What a char* and a text have to do with each other: the text of the bytes up to '\0', and the bytes of
-- a text before its '\0'.
pub record Cadenas : Type 0 where
  pub texto : List ℕ → String
  pub caracteres : String → List ℕ

abbrev pub con_nulo : List ℕ → List ℕ
con_nulo bs = bs ++ 0 ∷ []

-- An argument of type VAR_UINT32. Of its union, what the assignment to val_u32 does not write is 0.
abbrev pub arg_u32 : ℕ → Arg
arg_u32 n = record { type = 0; size = 4; valor = bytes_de 4 n ++ ceros 4 }

-- An argument of type VAR_CHAR_PTR.
abbrev pub arg_char_ptr : List ℕ → Arg
arg_char_ptr bs = record { type = 1; size = length bs; valor = bs }

abbrev pub retornar_error : Function
retornar_error = record { type = menos_uno32; args = arg_u32 menos_uno32 ∷ [] }

abbrev pub enviar_respuesta_basica : ℤ → ℕ → Function
enviar_respuesta_basica (pos zero) tipo = record { type = tipo; args = arg_u32 0 ∷ [] }
enviar_respuesta_basica (pos (suc k)) tipo = retornar_error
enviar_respuesta_basica (negsuc k) tipo = retornar_error

-- The answer of validarSiExiste, by what it found.
abbrev pub segun_existe : ℤ → ℕ → Function
segun_existe (pos k) tipo = record { type = tipo; args = arg_u32 0 ∷ [] }
segun_existe (negsuc k) tipo = record {
  type = menos_uno32;
  args = arg_u32 (como_u32 (negsuc 1)) ∷ [];
}

unfoldable pub responder_si_existe : Entorno → String → ℕ → F Function
responder_si_existe e path tipo = do r ← validar_si_existe e path; pure (segun_existe r tipo)

-- The lengths of the names, each with one more.
unfoldable pub tamano_malloc_list : List (List ℕ) → ℕ
tamano_malloc_list [] = 0
tamano_malloc_list (n ∷ ns) = length n + 1 + tamano_malloc_list ns

-- strcat of "/" and of each name.
unfoldable pub concatenar : List (List ℕ) → List ℕ
concatenar [] = []
concatenar (n ∷ ns) = (47 ∷ n) ++ concatenar ns

-- The string that lista_a_string writes, with its '\0'. An empty list writes nothing.
unfoldable pub lista_a_string : List (List ℕ) → List ℕ
lista_a_string [] = []
lista_a_string (n ∷ ns) = con_nulo (n ++ concatenar ns)

length-concatenar : (ns : List (List ℕ)) → length (concatenar ns) ≡ tamano_malloc_list ns
unfolding concatenar tamano_malloc_list
length-concatenar [] = refl
length-concatenar (n ∷ ns) = omega (arith, length-append n (concatenar ns), length-concatenar ns)

-- lista_a_string of any names, some or none, writes as many bytes as tamano_malloc_list asks of malloc.
pub length-lista_a_string :
    (ns : List (List ℕ)) → length (lista_a_string ns) ≡ tamano_malloc_list ns
unfolding lista_a_string tamano_malloc_list
length-lista_a_string [] = refl
length-lista_a_string (n ∷ ns) = omega (
  arith,
  length-append (n ++ concatenar ns) (0 ∷ []),
  length-append n (concatenar ns),
  length-concatenar ns,
)

-- cantidadDeBloquesBitmap: ceil of the size of the disk over what one block of the bitmap has bits for.
-- The doubles of the code are exact there.
abbrev pub cantidad_de_bloques_bitmap : ℕ → ℕ
cantidad_de_bloques_bitmap disk_size =
    (disk_size + (bloque_size * 8 * bloque_size - 1)) / (bloque_size * 8 * bloque_size)

abbrev pub inicio_tabla_de_nodos : ℕ → ℕ
inicio_tabla_de_nodos disk_size = 1 + cantidad_de_bloques_bitmap disk_size

abbrev pub inicio_bloques_de_datos : ℕ → ℕ
inicio_bloques_de_datos disk_size = inicio_tabla_de_nodos disk_size + max_number_of_files + 1

-- bitarray_get_max_bit: the bits of the blocks of the bitmap.
abbrev pub bits_totales : ℕ → ℕ
bits_totales disk_size = bloque_size * cantidad_de_bloques_bitmap disk_size * 8

-- On a disk whose size is not a multiple of 128 megabytes the bitmap that the server lays out has more
-- bits than the disk has blocks.
pub bits_totales-blocks :
    (disk_size : ℕ)
    → disk_size % (bloque_size * 8 * bloque_size) ≢ 0
    → disk_size / bloque_size < bits_totales disk_size
bits_totales-blocks disk_size h = omega (arith, h)
