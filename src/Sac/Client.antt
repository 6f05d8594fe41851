-- ===== src/Sac/Client.antt =====
-- The file system client, filesystem/sac_cliente.c: the callbacks of FUSE, each an exchange of messages
-- with the server. The socket delivers what is sent, if the client is connected; s_socket is held for the
-- exchange only, and the memory of messages and log lines are left out.
use Prim.Native.String.{String}
use tp_sistemas_operativos_l.Common.{
  ℕ, zero, suc, ◌^◌, ◌-◌, ℤ, pos, negsuc, Bool, Option, none, some, List, [], ◌∷◌, ◌==◌, ltb,
  if◌then◌else◌,
}
use tp_sistemas_operativos_l.Sac.State.{Entorno}
use tp_sistemas_operativos_l.Sac.Monad.{F, deadlock, pure, fallar, ◌>>=◌}
use tp_sistemas_operativos_l.Sac.Answers.{
  Cadenas, con_nulo, arg_u32, arg_char_ptr, rta, function_getattr, function_readdir, function_open,
  function_opendir, function_read, function_mknod, function_write, function_unlink, function_mkdir,
  function_rmdir, function_rta_getattr_nodoraiz, function_truncate, function_rename,
}
use tp_sistemas_operativos_l.Sac.Server.{arg, val_u32, send_function, como_function, handler}
use tp_sistemas_operativos_l.Messages.Codec.{Function, message_decode}
use tp_sistemas_operativos_l.Muse.Heap.{take}

-- EXIT_FAILURE, -1, -ENOENT and -EEXIST.
abbrev pub exit_failure : ℤ
exit_failure = pos 1

abbrev pub menos_uno : ℤ
menos_uno = negsuc 0

abbrev pub menos_enoent : ℤ
menos_enoent = negsuc 1

abbrev pub menos_eexist : ℤ
menos_eexist = negsuc 16

-- A uint32_t stored in an int.
abbrev pub como_int : ℕ → ℤ
como_int n = if ltb n (2 ^ 31) then pos n else negsuc (2 ^ 32 - n - 1)

-- The fields of a struct stat that are set.
pub record Stat : Type 0 where
  pub st_mode : ℕ
  pub st_nlink : ℕ
  pub st_size : ℕ
  pub st_mtim : ℕ

abbrev pub stat_cero : Stat
stat_cero = record { st_mode = 0; st_nlink = 0; st_size = 0; st_mtim = 0 }

-- How much of a packet a call reads: receive_message has a buffer of 999 bytes, receive_message_var takes
-- it whole.
abbrev pub en_999 : List ℕ → List ℕ
en_999 bs = take 999 bs

abbrev pub entero : List ℕ → List ℕ
entero bs = bs

-- Without an answer the client waits for ever.
unfoldable pub recibir : (List ℕ → List ℕ) → Option (List ℕ) → F Function
recibir leido none s = deadlock
recibir leido (some bs) s = como_function (message_decode (leido bs)) s

abbrev pub pedido_path : Cadenas → ℕ → String → Function
pedido_path c t path = record { type = t; args = arg_char_ptr (con_nulo (c.caracteres path)) ∷ [] }

module _ (e : Entorno) (c : Cadenas) (fuel : ℕ) (conectado : Bool) where
  -- send_call and the message that comes back; `none` where the socket refuses the call.
  unfoldable pub llamar : (List ℕ → List ℕ) → Function → F (Option Function)
  llamar leido f =
      if conectado
      then (do
        packet ← send_function f
        answer ← handler e c fuel packet
        r ← recibir leido answer
        pure (some r))
      else pure none

  -- The answer of a callback that returns a number: args[0] of an answer of the type that it waits for.
  unfoldable pub numero_de : ℕ → ℤ → Option Function → F ℤ
  numero_de t error none = pure exit_failure
  numero_de t error (some f) =
      if f.type == rta t then (do a ← arg f 0; pure (como_int (val_u32 a))) else pure error

  unfoldable pub send_path : ℕ → ℤ → String → F ℤ
  send_path t error path = do r ← llamar en_999 (pedido_path c t path); numero_de t error r

  unfoldable pub sac_open : String → F ℤ
  sac_open path = send_path function_open menos_enoent path

  unfoldable pub sac_opendir : String → F ℤ
  sac_opendir path = send_path function_opendir menos_enoent path

  unfoldable pub sac_mknod : String → F ℤ
  sac_mknod path = send_path function_mknod menos_uno path

  unfoldable pub sac_mkdir : String → F ℤ
  sac_mkdir path = send_path function_mkdir menos_uno path

  unfoldable pub sac_unlink : String → F ℤ
  sac_unlink path = send_path function_unlink menos_uno path

  unfoldable pub sac_rmdir : String → F ℤ
  sac_rmdir path = send_path function_rmdir menos_uno path

  unfoldable pub sac_truncate : String → ℕ → F ℤ
  sac_truncate path size = do
    r ← llamar entero (record {
      type = function_truncate;
      args = arg_u32 size ∷ arg_char_ptr (con_nulo (c.caracteres path)) ∷ [];
    })
    numero_de function_truncate menos_enoent r

  unfoldable pub sac_rename : String → String → F ℤ
  sac_rename path nuevo_path = do
    r ← llamar entero (record {
      type = function_rename;
      args =
          arg_char_ptr (con_nulo (c.caracteres path))
          ∷ arg_char_ptr (con_nulo (c.caracteres nuevo_path))
          ∷ [];
    })
    numero_de function_rename menos_eexist r

  unfoldable pub sac_write : String → List ℕ → ℕ → F ℤ
  sac_write path buf offset = do
    r ← llamar entero (record {
      type = function_write;
      args = arg_u32 offset ∷ arg_char_ptr (con_nulo (c.caracteres path)) ∷ arg_char_ptr buf ∷ [];
    })
    numero_de function_write menos_enoent r

  -- The number that sac_read answers, and the bytes that it copies.
  unfoldable pub leido : Option Function → F (ℤ × List ℕ)
  leido none = pure (exit_failure, [])
  leido (some f) =
      if f.type == rta function_read
      then (do a ← arg f 0; pure (como_int a.size, take a.size a.valor))
      else pure (menos_enoent, [])

  unfoldable pub sac_read : String → ℕ → ℕ → F (ℤ × List ℕ)
  sac_read path size offset = do
    r ← llamar entero (record {
      type = function_read;
      args = arg_u32 offset ∷ arg_char_ptr (con_nulo (c.caracteres path)) ∷ arg_u32 size ∷ [];
    })
    leido r

  unfoldable pub estado : Option Function → F (ℤ × Stat)
  estado none = pure (exit_failure, stat_cero)
  estado (some f) =
      if f.type == function_rta_getattr_nodoraiz
      then (do
        modo ← arg f 0
        links ← arg f 1
        pure (pos 0, record stat_cero { st_mode = val_u32 modo; st_nlink = val_u32 links }))
      else (if f.type == rta function_getattr
          then (do
            modo ← arg f 0
            links ← arg f 1
            size ← arg f 2
            fecha ← arg f 3
            pure (
              pos 0,
              record {
                st_mode = val_u32 modo;
                st_nlink = val_u32 links;
                st_size = val_u32 size;
                st_mtim = val_u32 fecha;
              },
            ))
          else pure (menos_enoent, stat_cero))

  unfoldable pub sac_getattr : String → F (ℤ × Stat)
  sac_getattr path = do r ← llamar en_999 (pedido_path c function_getattr path); estado r

  -- The names that sac_readdir gives to filler.
  unfoldable pub nombres : List ℕ → F (ℤ × List String)
  nombres [] = fallar
  nombres (zero ∷ bs) = pure (pos 0, [])
  nombres (suc b ∷ bs) = pure (pos 0, e.string_split (c.texto (suc b ∷ bs)))

  unfoldable pub listado : Option Function → F (ℤ × List String)
  listado none = pure (exit_failure, [])
  listado (some f) =
      if f.type == rta function_readdir
      then (do a ← arg f 0; nombres a.valor)
      else pure (menos_uno, [])

  unfoldable pub sac_readdir : String → F (ℤ × List String)
  sac_readdir path = do r ← llamar en_999 (pedido_path c function_readdir path); listado r
