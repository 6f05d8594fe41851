-- ===== src/Muse/Service.antt =====
-- The requests of the memory server, memoria/muse.c: the dispatch on the function of a message, the answer
-- of message_handler and the end of a client. The memory of messages, which liberarMemoria frees, is left
-- out, as are log lines.
use Prim.Native.String.{String}
use tp_sistemas_operativos_l.Common.{
  ℕ, ◌-◌, ◌%◌, ◌^◌, Option, none, some, List, [], ◌∷◌, ◌==◌, ltb, leb, if◌then◌else◌, length,
  get_elem?,
}
use tp_sistemas_operativos_l.Messages.Bytes.{de_bytes}
use tp_sistemas_operativos_l.Messages.Codec.{
  Arg, Function, Datos, llamada, Message, tam_data_function, create_message_header,
  create_function_message, create_response_message,
}
use tp_sistemas_operativos_l.Sac.Answers.{arg_u32}
use tp_sistemas_operativos_l.Muse.Monad.{M, pure, fallar, ◌>>=◌, no_nulo}
use tp_sistemas_operativos_l.Muse.Heap.{take}
use tp_sistemas_operativos_l.Muse.Segments.{search_program, programa, memory_free}
use tp_sistemas_operativos_l.Muse.Alloc.{memory_malloc}
use tp_sistemas_operativos_l.Muse.Data.{Respuesta, menos, bien, memory_get, memory_cpy}
use tp_sistemas_operativos_l.Muse.Mapping.{memory_map, memory_unmap}
use tp_sistemas_operativos_l.Muse.Sync.{memory_sync}

abbrev pub rta_function_get_error : ℕ
rta_function_get_error = 0

abbrev pub function_malloc : ℕ
function_malloc = 1

abbrev pub function_free : ℕ
function_free = 2

abbrev pub function_copy : ℕ
function_copy = 3

abbrev pub function_get : ℕ
function_get = 4

abbrev pub function_map : ℕ
function_map = 5

abbrev pub function_unmap : ℕ
function_unmap = 6

abbrev pub function_sync : ℕ
function_sync = 7

abbrev pub rta_function_get : ℕ
rta_function_get = 34

-- func_ret: a number, or the block of bytes that memory_get returns.
pub data Retorno : Type 0 where
  numero : ℕ → Retorno
  bloque_con : List ℕ → Retorno

-- args[i] and what its union holds: a val_u32, a val_sizet, or `n` bytes behind a val_voidptr.
unfoldable pub arg_nro : Function → ℕ → M Arg
arg_nro f i = no_nulo (get_elem? f.args i)

unfoldable pub arg_palabra : Function → ℕ → M ℕ
arg_palabra f i = do a ← arg_nro f i; pure (de_bytes (take 4 a.valor))

unfoldable pub arg_sizet : Function → ℕ → M ℕ
arg_sizet f i = do a ← arg_nro f i; pure (de_bytes (take 8 a.valor))

unfoldable pub arg_bytes : Function → ℕ → ℕ → M (List ℕ)
arg_bytes f i n = do
  a ← arg_nro f i
  if ltb (length a.valor) n then fallar else pure (take n a.valor)

-- A size passed as an int: memory_malloc does with a negative one what it does with zero.
abbrev pub tamanio_int : ℕ → ℕ
tamanio_int n = if ltb n (2 ^ 31) then n else 0

-- An int stored in func_ret.
abbrev pub en_palabra : Respuesta ℕ → Retorno
en_palabra (menos n) = numero (2 ^ 32 - n)
en_palabra (bien n) = numero n

abbrev pub en_retorno : Respuesta (List ℕ) → Retorno
en_retorno (menos n) = numero (2 ^ 32 - n)
en_retorno (bien bs) = bloque_con bs

-- The answers to FUNCTION_GET.
abbrev pub rta_error : ℕ → Function
rta_error n = record { type = rta_function_get_error; args = arg_u32 n ∷ [] }

abbrev pub rta_bytes : ℕ → List ℕ → Function
rta_bytes n bs = record {
  type = rta_function_get;
  args = record { type = 2; size = n; valor = bs } ∷ [];
}

-- `puntero` is the address of the block of memory_get, of which func_ret keeps 32 bits: one that has
-- more is the address of nothing, and from 2^32 - 4 on it passes for an error.
unfoldable pub rta_get : ℕ → ℕ → Retorno → M Function
rta_get puntero n (numero k) = pure (rta_error k)
rta_get puntero n (bloque_con bs) =
    if leb (2 ^ 32 - 4) (puntero % 2 ^ 32)
    then pure (rta_error (puntero % 2 ^ 32))
    else if ltb puntero (2 ^ 32)
    then pure (rta_bytes n bs)
    else fallar

abbrev pub como_res : Retorno → ℕ
como_res (numero n) = n
como_res (bloque_con bs) = 0

-- The data of a call.
unfoldable pub funcion_de : Datos → M Function
funcion_de (llamada f) = pure f
funcion_de _ = fallar

-- `texto` is the text of a char*, `abrir` what open and mmap find, `r` and `fuel` bound the loops.
module _ (texto : List ℕ → String) (abrir : String → Option (ℕ → ℕ)) (r fuel : ℕ) where
  unfoldable pub invoke_copy : Function → ℕ → M Retorno
  invoke_copy f pid = do
    dst ← arg_palabra f 0
    n ← arg_palabra f 2
    src ← arg_bytes f 1 n
    a ← memory_cpy r dst src pid
    pure (en_palabra a)

  unfoldable pub invoke_get : Function → ℕ → M Retorno
  invoke_get f pid = do
    src ← arg_palabra f 1
    n ← arg_sizet f 2
    a ← memory_get r src n pid
    pure (en_retorno a)

  unfoldable pub invoke_map : Function → ℕ → M Retorno
  invoke_map f pid = do
    path ← arg_nro f 0
    largo ← arg_sizet f 1
    flag ← arg_palabra f 2
    a ← memory_map (abrir (texto path.valor)) (texto path.valor) largo flag pid
    pure (en_palabra a)

  unfoldable pub invoke_sync : Function → ℕ → M Retorno
  invoke_sync f pid = do
    dir ← arg_palabra f 0
    largo ← arg_sizet f 1
    a ← memory_sync r dir largo pid
    pure (en_palabra a)

  unfoldable pub muse_invoke_function : Function → ℕ → M Retorno
  muse_invoke_function f pid =
      if f.type == function_malloc
      then (do
        size ← arg_palabra f 0
        n ← memory_malloc r fuel (tamanio_int size) pid
        pure (numero n))
      else if f.type == function_free
      then (do dir ← arg_palabra f 0; n ← memory_free r dir pid; pure (numero n))
      else if f.type == function_get
      then invoke_get f pid
      else if f.type == function_copy
      then invoke_copy f pid
      else if f.type == function_map
      then invoke_map f pid
      else if f.type == function_sync
      then invoke_sync f pid
      else if f.type == function_unmap
      then (do dir ← arg_palabra f 0; a ← memory_unmap dir pid; pure (en_palabra a))
      else pure (numero 0)

  unfoldable pub contestar_get : ℕ → Function → ℕ → M Message
  contestar_get puntero f pid = do
    res_get ← muse_invoke_function f pid
    n ← arg_palabra f 2
    g ← rta_get puntero n res_get
    pure (create_function_message (create_message_header 1 1 (tam_data_function g)) g)

  unfoldable pub contestar : Function → ℕ → M Message
  contestar f pid = do
    res ← muse_invoke_function f pid
    pure (create_response_message (create_message_header 2 2 4) (como_res res))

  -- The message that is sent, if any.
  unfoldable pub message_handler : ℕ → Message → M (Option Message)
  message_handler puntero m =
      if m.header.message_type == 1
      then (do
        f ← funcion_de m.datos
        rta ←
            if f.type == function_get
            then contestar_get puntero f m.header.caller_id
            else contestar f m.header.caller_id
        pure (some rta))
      else pure none

-- The leak of a client that closed: its program must be in the list.
unfoldable pub el_cliente_se_tomo_el_palo : ℕ → M ℕ
el_cliente_se_tomo_el_palo pid = do
  nro_prog ← search_program pid
  prog ← programa nro_prog
  pure prog.using_memory
