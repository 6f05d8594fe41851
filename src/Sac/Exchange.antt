-- ===== src/Sac/Exchange.antt =====
-- An exchange of messages between filesystem/sac_cliente.c and filesystem/sac_servidor.c through the
-- encoders of utils_suse/message.c.
use Prim.Native.String.{String}
use tp_sistemas_operativos_l.Common.{
  ℕ, suc, ◌+◌, ◌-◌, ◌^◌, ◌<◌, ◌≡◌, refl, ap, ◌∙◌, pos, true, some, List, [], ◌∷◌, ◌++◌, lt→ltb,
  length, arith,
}
use tp_sistemas_operativos_l.Sac.State.{Entorno, Disco}
use tp_sistemas_operativos_l.Sac.Monad.{ok, pure, ◌>>=◌, and_then, o_falla}
use tp_sistemas_operativos_l.Sac.Answers.{
  Cadenas, con_nulo, arg_u32, arg_char_ptr, function_read, function_write,
}
use tp_sistemas_operativos_l.Sac.Server.{
  val_u32, fuse_invoke_function, mensaje_de, send_function, como_function, message_handler,
  recibir_paquete, handler,
}
use tp_sistemas_operativos_l.Sac.Client.{como_int, entero, recibir, llamar}
use tp_sistemas_operativos_l.Messages.Bytes.{bytes_de, de_bytes, ceros}
use tp_sistemas_operativos_l.Messages.Codec.{
  Arg, Function, tam_header, message_decode, tam_data_function, tam_args, create_message_header,
  create_function_message,
}
use tp_sistemas_operativos_l.Messages.Reading.{length-bytes_de}
use tp_sistemas_operativos_l.Messages.RoundTrip.{IsNormal, IsNormalCall}
use tp_sistemas_operativos_l.Messages.Wire.{Viaja, message_decode-encode_call}

-- A function that the encoders take, in a message below 2^31 bytes.
pub record Cabal (f : Function) : Type 0 where
  pub normal : IsNormalCall f
  pub corta : tam_header + tam_data_function f < 2 ^ 31

pub viaje : (f : Function) → Cabal f → Viaja (mensaje_de f) (tam_header + tam_data_function f)
viaje f k =
    message_decode-encode_call 1 (tam_header + tam_data_function f) (omega arith) f k.normal k.corta
      (omega arith)

-- What is on the socket.
unfoldable pub paquete : (f : Function) → Cabal f → List ℕ
paquete f k =
    (viaje f k).bytes ++ ceros (tam_header + tam_data_function f - length (viaje f k).bytes)

pub send_function-run :
    (f : Function) (k : Cabal f) (s : Disco) → send_function f s ≡ ok (paquete f k) s
unfolding send_function paquete o_falla pure
send_function-run f k s = rw ((viaje f k).escrito) refl

pub message_decode-paquete :
    (f : Function) (k : Cabal f)
    → message_decode (paquete f k) ≡ some (mensaje_de f, pos (suc (6 + tam_data_function f)))
unfolding paquete create_function_message create_message_header
message_decode-paquete f k =
    (viaje f k).leido (ceros (tam_header + tam_data_function f - length (viaje f k).bytes))
    ∙ ap (λ n. some (mensaje_de f, pos n)) ((viaje f k).largo ∙ omega arith)

module _ (e : Entorno) (c : Cadenas) (fuel : ℕ) where
  -- A call that the server answers.
  pub llamar-run :
      (f g : Function) (s t : Disco)
      → Cabal f
      → Cabal g
      → fuse_invoke_function e c fuel f s ≡ ok g t
      → llamar e c fuel true entero f s ≡ ok (some g) t
  unfolding llamar handler recibir_paquete message_handler recibir como_function ◌>>=◌ and_then pure
      create_function_message create_message_header
  llamar-run f g s t kf kg h = rw (send_function-run f kf s) (
      rw (message_decode-paquete f kf)
        (rw h (rw (send_function-run g kg t) (rw (message_decode-paquete g kg) refl))))

pub val_u32-lem : (n : ℕ) → n < 2 ^ 32 → val_u32 (arg_u32 n) ≡ n
unfolding bytes_de de_bytes
val_u32-lem n h = omega (arith, h)

pub como_int-lem : (n : ℕ) → n < 2 ^ 31 → como_int n ≡ pos n
como_int-lem n h = rw (lt→ltb n (2 ^ 31) h) refl

pub arg_u32-IsNormal : (n : ℕ) → IsNormal (arg_u32 n)
arg_u32-IsNormal n = record {
  bytes = bytes_de 4 n;
  conocido = refl;
  largo = length-bytes_de 4 n;
  memoria = refl;
  corto = λ _. omega arith;
  cabe = omega arith;
}

pub arg_char_ptr-IsNormal : (bs : List ℕ) → length bs < 2 ^ 32 → IsNormal (arg_char_ptr bs)
arg_char_ptr-IsNormal bs h = record {
  bytes = bs;
  conocido = refl;
  largo = refl;
  memoria = refl;
  corto = λ p. absurd cc;
  cabe = h;
}

-- The path and the data of a call fit in a message.
pub record EsCorta (c : Cadenas) (path : String) (n : ℕ) : Type 0 where
  pub ida_y_vuelta : c.texto (con_nulo (c.caracteres path)) ≡ path
  pub cabe : length (con_nulo (c.caracteres path)) + n < 2 ^ 30

abbrev pub pedido_write : Cadenas → String → List ℕ → ℕ → Function
pedido_write c path buf offset = record {
  type = function_write;
  args = arg_u32 offset ∷ arg_char_ptr (con_nulo (c.caracteres path)) ∷ arg_char_ptr buf ∷ [];
}

abbrev pub pedido_read : Cadenas → String → ℕ → ℕ → Function
pedido_read c path size offset = record {
  type = function_read;
  args = arg_u32 offset ∷ arg_char_ptr (con_nulo (c.caracteres path)) ∷ arg_u32 size ∷ [];
}

pub pedido_write-Cabal :
    (c : Cadenas) (path : String) (buf : List ℕ) (offset : ℕ)
    → EsCorta c path (length buf)
    → Cabal (pedido_write c path buf offset)
unfolding tam_data_function tam_args
pedido_write-Cabal c path buf offset h =
    let x = h.cabe in
    record {
      normal = record {
        normal = (
          arg_u32-IsNormal offset,
          (
            arg_char_ptr-IsNormal (con_nulo (c.caracteres path)) (omega (arith, x)),
            (arg_char_ptr-IsNormal buf (omega (arith, x)), tt),
          ),
        );
        pocos = omega arith;
        corto = omega arith;
      };
      corta = omega (arith, x);
    }

pub pedido_read-Cabal :
    (c : Cadenas) (path : String) (size offset : ℕ)
    → EsCorta c path size
    → Cabal (pedido_read c path size offset)
unfolding tam_data_function tam_args
pedido_read-Cabal c path size offset h =
    let x = h.cabe in
    record {
      normal = record {
        normal = (
          arg_u32-IsNormal offset,
          (
            arg_char_ptr-IsNormal (con_nulo (c.caracteres path)) (omega (arith, x)),
            (arg_u32-IsNormal size, tt),
          ),
        );
        pocos = omega arith;
        corto = omega arith;
      };
      corta = omega (arith, x);
    }

pub un_argumento-Cabal :
    (t : ℕ) (a : Arg)
    → t < 256
    → IsNormal a
    → a.size < 2 ^ 30
    → Cabal (record { type = t; args = a ∷ [] })
unfolding tam_data_function tam_args
un_argumento-Cabal t a ht n ha = record {
  normal = record { normal = (n, tt); pocos = omega arith; corto = ht };
  corta = omega (arith, ha);
}
