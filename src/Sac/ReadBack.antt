-- ===== src/Sac/ReadBack.antt =====
-- The calls of sac_write and sac_read of filesystem/sac_cliente.c, one after the other, answered by
-- filesystem/sac_servidor.c.
use Prim.Native.String.{String}
use tp_sistemas_operativos_l.Common.{
  ℕ, suc, ◌%◌, ◌^◌, ◌<◌, ◌≡◌, refl, ap, pos, true, false, some, List, [], ◌∷◌, length, get_elem?,
  arith,
}
use tp_sistemas_operativos_l.Sac.State.{GFile, Entorno, Disco}
use tp_sistemas_operativos_l.Sac.Monad.{ok, pure, ◌>>=◌, and_then, o_falla}
use tp_sistemas_operativos_l.Sac.Search.{determine_nodo}
use tp_sistemas_operativos_l.Sac.Data.{leer_archivo, escribir_archivo}
use tp_sistemas_operativos_l.Sac.FileReading.{Alcanzable}
use tp_sistemas_operativos_l.Sac.FileWriting.{take_all, Cabe, escribir_archivo-leer_archivo}
use tp_sistemas_operativos_l.Sac.Answers.{
  Cadenas, arg_u32, arg_char_ptr, rta, function_read, function_write,
}
use tp_sistemas_operativos_l.Sac.Server.{
  arg, texto_de, sac_server_read, sac_server_write, fuse_invoke_function,
}
use tp_sistemas_operativos_l.Sac.Client.{numero_de, sac_write, leido, sac_read}
use tp_sistemas_operativos_l.Messages.Bytes.{ceros}
use tp_sistemas_operativos_l.Messages.Codec.{Function}
use tp_sistemas_operativos_l.Muse.Buffer.{take-append}
use tp_sistemas_operativos_l.Sac.Exchange.{
  llamar-run, val_u32-lem, como_int-lem, arg_u32-IsNormal, arg_char_ptr-IsNormal, EsCorta,
  pedido_write, pedido_read, pedido_write-Cabal, pedido_read-Cabal, un_argumento-Cabal,
}

-- sac_write answers the length of the data, and sac_read then gives the data.
pub record Devuelto (e : Entorno) (c : Cadenas) (fuel : ℕ) (s : Disco) (path : String) (off : ℕ)
    (bs : List ℕ) : Type 0 where
  pub disco : Disco
  pub escribe : sac_write e c fuel true path bs off s ≡ ok (pos (length bs)) disco
  pub lee : sac_read e c fuel true path (length bs) off disco ≡ ok (pos (length bs), bs) disco

module _ (e : Entorno) (c : Cadenas) (fuel : ℕ) where
  invoke-write :
      (s t : Disco) (path : String) (off : ℕ) (bs : List ℕ)
      → EsCorta c path (length bs)
      → off < 2 ^ 32
      → escribir_archivo e fuel bs path (length bs) off s ≡ ok (pos (length bs)) t
      → fuse_invoke_function e c fuel (pedido_write c path bs off) s
        ≡ ok (record { type = rta function_write; args = arg_u32 (length bs) ∷ [] }) t
  unfolding fuse_invoke_function texto_de arg sac_server_write ◌>>=◌ and_then pure o_falla
  invoke-write s t path off bs h ho r =
      let x = h.cabe in
      let z : length bs % 2 ^ 32 ≡ length bs = omega (arith, x) in
      rw (val_u32-lem off ho) (rw (h.ida_y_vuelta) (rw r (rw z refl)))

  invoke-read :
      (t : Disco) (path : String) (off : ℕ) (bs : List ℕ)
      → EsCorta c path (length bs)
      → off < 2 ^ 32
      → leer_archivo e path (length bs) off t ≡ ok (length bs, bs) t
      → fuse_invoke_function e c fuel (pedido_read c path (length bs) off) t
        ≡ ok (record { type = rta function_read; args = arg_char_ptr bs ∷ [] }) t
  unfolding fuse_invoke_function texto_de arg sac_server_read ◌>>=◌ and_then pure o_falla
  invoke-read t path off bs h ho r =
      let x = h.cabe in
      rw (val_u32-lem off ho) (
        rw (val_u32-lem (length bs) (omega (arith, x))) (
          rw (h.ida_y_vuelta) (
            rw r (
              ap (λ l. ok (record { type = rta function_read; args = arg_char_ptr l ∷ [] }) t)
                (take-append bs (ceros (length bs)))))))

  sac_write-run :
      (s t : Disco) (path : String) (off : ℕ) (bs : List ℕ)
      → EsCorta c path (length bs)
      → off < 2 ^ 32
      → escribir_archivo e fuel bs path (length bs) off s ≡ ok (pos (length bs)) t
      → sac_write e c fuel true path bs off s ≡ ok (pos (length bs)) t
  unfolding sac_write numero_de arg ◌>>=◌ and_then pure o_falla
  sac_write-run s t path off bs h ho r =
      let x = h.cabe in
      let g : Function = record { type = rta function_write; args = arg_u32 (length bs) ∷ [] } in
      let k =
        un_argumento-Cabal (rta function_write) (arg_u32 (length bs)) (omega arith)
          (arg_u32-IsNormal (length bs)) (omega arith) in
      rw
        (llamar-run e c fuel (pedido_write c path bs off) g s t (pedido_write-Cabal c path bs off h)
          k (invoke-write s t path off bs h ho r))
        (rw (val_u32-lem (length bs) (omega (arith, x)))
          (rw (como_int-lem (length bs) (omega (arith, x))) refl))

  sac_read-run :
      (t : Disco) (path : String) (off : ℕ) (bs : List ℕ)
      → EsCorta c path (length bs)
      → off < 2 ^ 32
      → leer_archivo e path (length bs) off t ≡ ok (length bs, bs) t
      → sac_read e c fuel true path (length bs) off t ≡ ok (pos (length bs), bs) t
  unfolding sac_read leido arg ◌>>=◌ and_then pure o_falla
  sac_read-run t path off bs h ho r =
      let x = h.cabe in
      let g : Function = record { type = rta function_read; args = arg_char_ptr bs ∷ [] } in
      let k =
        un_argumento-Cabal (rta function_read) (arg_char_ptr bs) (omega arith)
          (arg_char_ptr-IsNormal bs (omega (arith, x))) (omega (arith, x)) in
      rw
        (llamar-run e c fuel (pedido_read c path (length bs) off) g t t
          (pedido_read-Cabal c path (length bs) off h) k (invoke-read t path off bs h ho r))
        (rw (como_int-lem (length bs) (omega (arith, x)))
          (ap (λ l. ok (pos (length bs), l) t) (take_all bs)))

-- sac_write and then sac_read of the same bytes of a file, through the messages of both programs, on a
-- socket that delivers. Where the server has a node for the path and its mutex free, the bytes are some
-- but less than a block, start no later than the end of the file, fit in what its last block has left and
-- in the block they start in, the file is below 2^31 bytes, that block is in the disk after the table of
-- nodes and is none of the blocks of pointers that the read looks in, what those name is in the disk, and
-- the path is read as it is written and short: sac_write answers the number of the bytes, and sac_read
-- that number and the bytes.
pub sac_read-sac_write :
    (e : Entorno) (c : Cadenas) (fuel : ℕ) (s : Disco) (path : String) (n off : ℕ) (g : GFile)
    (bs : List ℕ)
    → determine_nodo e s.tabla path ≡ some n
    → get_elem? s.tabla n ≡ some g
    → s.escribiendo path ≡ false
    → Cabe e s g off (length bs)
    → Alcanzable e s g off (length bs)
    → EsCorta c path (length bs)
    → Devuelto e c (suc fuel) s path off bs
sac_read-sac_write e c fuel s path n off g bs hn hg hm hc hd h =
    let r = escribir_archivo-leer_archivo e fuel s path n off g bs hn hg hm hc hd in
    let ho : off < 2 ^ 32 = omega (arith, hc.corto, hc.dentro) in
    record {
      disco = r.disco;
      escribe = sac_write-run e c (suc fuel) s r.disco path off bs h ho r.escribe;
      lee = sac_read-run e c (suc fuel) r.disco path off bs h ho r.lee;
    }
