-- ===== src/Sac/Server.antt =====
-- The requests of the file system server, filesystem/sac_servidor.c: sac_server_..., the dispatch on the
-- function of a message, and message_handler on the bytes of a packet. The memory of messages, which
-- liberarMemoria frees, is left out, as are log lines.
use Prim.Native.String.{String}
use text.Mathlib.Text.{◌==◌ as str_eq}
use tp_sistemas_operativos_l.Common.{
  ℕ, zero, suc, ◌+◌, ◌-◌, ℤ, pos, negsuc, Option, none, some, List, [], ◌∷◌, ◌++◌, map, ◌==◌,
  if◌then◌else◌, length, get_elem?,
}
use tp_sistemas_operativos_l.Sac.State.{GFile, Entorno}
use tp_sistemas_operativos_l.Sac.Monad.{F, pure, fallar, ◌>>=◌, leer, nodo, o_falla}
use tp_sistemas_operativos_l.Sac.Search.{bloque_de, determine_nodo}
use tp_sistemas_operativos_l.Sac.Blocks.{como_u32}
use tp_sistemas_operativos_l.Sac.Nodes.{
  crear_nuevo_nodo, renombrar_archivo, completar_lista_con_file_names,
}
use tp_sistemas_operativos_l.Sac.Deletion.{borrar_archivo, borrar_directorio}
use tp_sistemas_operativos_l.Sac.Resize.{truncar_archivo}
use tp_sistemas_operativos_l.Sac.Data.{leer_archivo, escribir_archivo}
use tp_sistemas_operativos_l.Sac.Answers.{
  Cadenas, arg_u32, arg_char_ptr, retornar_error, enviar_respuesta_basica, responder_si_existe,
  lista_a_string, rta, function_getattr, function_readdir, function_open, function_opendir,
  function_read, function_mknod, function_write, function_unlink, function_mkdir, function_rmdir,
  function_rta_getattr_nodoraiz, function_truncate, function_rename,
}
use tp_sistemas_operativos_l.Messages.Bytes.{bytes_de, de_bytes, ceros}
use tp_sistemas_operativos_l.Messages.Codec.{
  Arg, Function, Message, llamada, respuesta, nada, tam_header, message_encode, message_decode,
  tam_data_function, create_message_header, create_function_message,
}
use tp_sistemas_operativos_l.Muse.Heap.{take}

-- S_IFREG | 0777 and S_IFDIR | 0777.
abbrev pub modo_archivo : ℕ
modo_archivo = 33279

abbrev pub modo_directorio : ℕ
modo_directorio = 16895

-- args[i], and its value as a val_u32.
unfoldable pub arg : Function → ℕ → F Arg
arg f i = o_falla (get_elem? f.args i)

abbrev pub val_u32 : Arg → ℕ
val_u32 a = de_bytes (take 4 a.valor)

-- A time stored in a val_u32 and sent with the size of a uint64_t.
abbrev pub arg_fecha : ℕ → Arg
arg_fecha t = record { type = 0; size = 8; valor = bytes_de 4 t ++ ceros 4 }

abbrev pub respuesta_getattr : GFile → Function
respuesta_getattr g = record {
  type = rta function_getattr;
  args =
      arg_u32 (if g.state == 1 then modo_archivo else modo_directorio)
      ∷ arg_u32 1
      ∷ arg_u32 g.file_size
      ∷ arg_fecha g.modify_date
      ∷ [];
}

-- The answer with `n` bytes of a buffer of zeros over which `bs` was written.
abbrev pub respuesta_read : ℕ → ℕ → List ℕ → Function
respuesta_read size n bs = record {
  type = rta function_read;
  args = arg_char_ptr (take n (bs ++ ceros size)) ∷ [];
}

-- The answer with the names. The one byte for a directory without nodes is the first of a null pointer.
abbrev pub respuesta_readdir : List (List ℕ) → Function
respuesta_readdir [] = record { type = rta function_readdir; args = arg_char_ptr (0 ∷ []) ∷ [] }
respuesta_readdir (n ∷ ns) = record {
  type = rta function_readdir;
  args = arg_char_ptr (lista_a_string (n ∷ ns)) ∷ [];
}

-- A position in the table: that of -1 is out of it, here after its end.
abbrev pub posicion_de : Option ℕ → List GFile → ℕ
posicion_de none tabla = length tabla
posicion_de (some n) tabla = n

module _ (e : Entorno) (c : Cadenas) (fuel : ℕ) where
  unfoldable pub texto_de : Function → ℕ → F String
  texto_de f i = do a ← arg f i; pure (c.texto a.valor)

  unfoldable pub getattr_de : Option ℕ → F Function
  getattr_de none = pure retornar_error
  getattr_de (some n) = do g ← nodo n; pure (respuesta_getattr g)

  unfoldable pub sac_server_getattr : String → F Function
  sac_server_getattr path = do
    o ← leer (λ s. determine_nodo e s.tabla path)
    if str_eq path "/"
        then pure (record {
          type = function_rta_getattr_nodoraiz;
          args = arg_u32 modo_directorio ∷ arg_u32 1 ∷ [];
        })
        else getattr_de o

  unfoldable pub sac_server_read : String → ℕ → ℕ → F Function
  sac_server_read path size offset = do
    r ← leer_archivo e path size offset
    pure (respuesta_read size r.0 r.1)

  unfoldable pub sac_server_write : String → List ℕ → ℕ → ℕ → F Function
  sac_server_write path buf size offset = do
    r ← escribir_archivo e fuel buf path size offset
    pure (record { type = rta function_write; args = arg_u32 (como_u32 r) ∷ [] })

  unfoldable pub sac_server_readdir : String → F Function
  sac_server_readdir path = do
    padre ← leer (λ s.
        if str_eq path "/" then 0 else bloque_de e.inicio_nodos (determine_nodo e s.tabla path))
    lista ← leer (λ s. completar_lista_con_file_names s.tabla padre)
    pure (respuesta_readdir (map c.caracteres lista))

  unfoldable pub sac_server_mknod : String → F Function
  sac_server_mknod path = do
    r ← crear_nuevo_nodo e path 1
    pure (enviar_respuesta_basica r (rta function_mknod))

  unfoldable pub sac_server_mkdir : String → F Function
  sac_server_mkdir path = do
    r ← crear_nuevo_nodo e path 2
    pure (enviar_respuesta_basica r (rta function_mkdir))

  unfoldable pub sac_server_unlink : String → F Function
  sac_server_unlink path = do
    o ← leer (λ s. determine_nodo e s.tabla path)
    r ← borrar_archivo o
    pure (enviar_respuesta_basica r (rta function_unlink))

  unfoldable pub sac_server_rmdir : String → F Function
  sac_server_rmdir path = do
    o ← leer (λ s. determine_nodo e s.tabla path)
    r ← borrar_directorio fuel o
    pure (enviar_respuesta_basica r (rta function_rmdir))

  unfoldable pub sac_server_truncate : String → ℕ → F Function
  sac_server_truncate path size = do
    o ← leer (λ s. determine_nodo e s.tabla path)
    r ← truncar_archivo e fuel o size
    pure (enviar_respuesta_basica r (rta function_truncate))

  unfoldable pub sac_server_rename : String → String → F Function
  sac_server_rename path nuevo_path = do
    n ← leer (λ s. posicion_de (determine_nodo e s.tabla path) s.tabla)
    r ← renombrar_archivo e n nuevo_path
    pure (enviar_respuesta_basica r (rta function_rename))

  unfoldable pub sac_server_open : String → F Function
  sac_server_open path = responder_si_existe e path (rta function_open)

  unfoldable pub sac_server_opendir : String → F Function
  sac_server_opendir path = responder_si_existe e path (rta function_opendir)

  -- The functions with a path alone. Another function gives an answer that nothing has filled.
  unfoldable pub con_path : ℕ → String → F Function
  con_path t path =
      if t == function_getattr
      then sac_server_getattr path
      else if t == function_readdir
      then sac_server_readdir path
      else if t == function_open
      then sac_server_open path
      else if t == function_opendir
      then sac_server_opendir path
      else if t == function_mknod
      then sac_server_mknod path
      else if t == function_unlink
      then sac_server_unlink path
      else if t == function_mkdir
      then sac_server_mkdir path
      else if t == function_rmdir
      then sac_server_rmdir path
      else fallar

  unfoldable pub fuse_invoke_function : Function → F Function
  fuse_invoke_function f =
      if f.type == function_read
      then (do
        path ← texto_de f 1
        size ← arg f 2
        offset ← arg f 0
        sac_server_read path (val_u32 size) (val_u32 offset))
      else if f.type == function_write
      then (do
        path ← texto_de f 1
        buf ← arg f 2
        offset ← arg f 0
        sac_server_write path buf.valor buf.size (val_u32 offset))
      else if f.type == function_truncate
      then (do path ← texto_de f 1; size ← arg f 0; sac_server_truncate path (val_u32 size))
      else if f.type == function_rename
      then (do path ← texto_de f 0; nuevo_path ← texto_de f 1; sac_server_rename path nuevo_path)
      else (do path ← texto_de f 0; con_path f.type path)

-- What send_message puts on the socket for a call: what message_encode writes over a buffer of zeros.
abbrev pub con_ceros : Option (List ℕ × ℤ) → ℕ → Option (List ℕ)
con_ceros none size = none
con_ceros (some (bs, n)) size = some (bs ++ ceros (size - length bs))

abbrev pub mensaje_de : Function → Message
mensaje_de f = create_function_message (create_message_header 1 1 (tam_data_function f)) f

unfoldable pub send_function : Function → F (List ℕ)
send_function f = o_falla (
    con_ceros (message_encode (mensaje_de f) (tam_header + tam_data_function f))
      (tam_header + tam_data_function f))

-- The data of a message that was decoded, seen as a Function.
unfoldable pub como_function : Option (Message × ℤ) → F Function
como_function none = fallar
como_function (some (m, n)) = elim m.datos [
  | llamada f ↦ pure f
  | respuesta r ↦ fallar
  | nada ↦ fallar
]

module _ (e : Entorno) (c : Cadenas) (fuel : ℕ) where
  -- message_handler: the packet that it sends, if any.
  unfoldable pub message_handler : Message → F (Option (List ℕ))
  message_handler m =
      if m.header.message_type == 1
      then (do
        f ← como_function (some (m, pos 0))
        frespuesta ← fuse_invoke_function e c fuel f
        bs ← send_function frespuesta
        pure (some bs))
      else pure none

  -- A turn of `handler` on a packet. One that is not a message frees what nothing has filled.
  unfoldable pub recibir_paquete : Option (Message × ℤ) → F (Option (List ℕ))
  recibir_paquete none = fallar
  recibir_paquete (some (m, pos (suc n))) = message_handler m
  recibir_paquete (some (m, pos zero)) = fallar
  recibir_paquete (some (m, negsuc n)) = fallar

  unfoldable pub handler : List ℕ → F (Option (List ℕ))
  handler packet = recibir_paquete (message_decode packet)
