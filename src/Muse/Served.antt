-- ===== src/Muse/Served.antt =====
-- What message_handler of memoria/muse.c answers to FUNCTION_COPY and FUNCTION_GET.
use Prim.Native.String.{String}
use tp_sistemas_operativos_l.Common.{
  ℕ, ◌-◌, ◌%◌, ◌^◌, ◌≤◌, ◌<◌, ◌≡◌, refl, false, Option, List, [], ◌∷◌, ltb, leb, length, arith,
}
use tp_sistemas_operativos_l.Messages.Bytes.{bytes_de, de_bytes}
use tp_sistemas_operativos_l.Messages.Codec.{
  Arg, Function, Message, tam_data_function, create_message_header, create_function_message,
  create_response_message,
}
use tp_sistemas_operativos_l.Sac.Answers.{arg_u32}
use tp_sistemas_operativos_l.Muse.State.{Muse}
use tp_sistemas_operativos_l.Muse.Monad.{ok, fault, fallar, pure, and_then, ◌>>=◌, no_nulo}
use tp_sistemas_operativos_l.Muse.Heap.{take}
use tp_sistemas_operativos_l.Muse.Data.{bien, memory_get}
use tp_sistemas_operativos_l.Muse.Service.{
  function_copy, function_get, arg_nro, arg_palabra, arg_sizet, rta_get, invoke_get,
  muse_invoke_function, contestar_get, funcion_de, message_handler,
}

-- The calls of muse_cpy and muse_get of libs/libMuse/libmuse.c, whose headers count their data in
-- different ways, and their answers.
abbrev pub pedido : ℕ → ℕ → Function → Message
pedido tam pid f = create_function_message (create_message_header 1 pid tam) f

abbrev pub funcion_copy : ℕ → List ℕ → Function
funcion_copy dst src = record {
  type = function_copy;
  args =
      arg_u32 dst ∷ record { type = 2; size = length src; valor = src } ∷ arg_u32 (length src) ∷ [];
}

abbrev pub funcion_get : Arg → ℕ → ℕ → Function
funcion_get a src n = record {
  type = function_get;
  args = a ∷ arg_u32 src ∷ record { type = 3; size = 8; valor = bytes_de 8 n } ∷ [];
}

abbrev pub rta_numero : ℕ → Message
rta_numero n = create_response_message (create_message_header 2 2 4) n

abbrev pub rta_de_get : Function → Message
rta_de_get f = create_function_message (create_message_header 1 1 (tam_data_function f)) f

palabra-lem : (n : ℕ) → n < 2 ^ 32 → de_bytes (take 4 (arg_u32 n).valor) ≡ n
unfolding bytes_de de_bytes
palabra-lem n h = omega (arith, h)

sizet-lem : (n : ℕ) → n < 2 ^ 32 → de_bytes (take 8 (bytes_de 8 n)) ≡ n
unfolding bytes_de de_bytes
sizet-lem n h = omega (arith, h)

corta-lem : (n : ℕ) → n < 2 ^ 32 → de_bytes (take 4 (bytes_de 8 n)) ≡ n
unfolding bytes_de de_bytes
corta-lem n h = omega (arith, h)

leb_no : (a b : ℕ) → b < a → leb a b ≡ false
leb_no a b h = ground arith

no_menor : (a b : ℕ) → b ≤ a → ltb a b ≡ false
no_menor a b h = ground arith

module _ (texto : List ℕ → String) (abrir : String → Option (ℕ → ℕ)) (r fuel : ℕ) where
  -- An address of 2^32 or more loses its high bits in func_ret: unless they leave one of the last four
  -- words, which pass for an error, the answer reads memory that is not that of the block.
  message_handler-truncated :
      (tam puntero src n pid : ℕ) (a : Arg) (bs : List ℕ) (s t : Muse)
      → 2 ^ 32 ≤ puntero
      → puntero % 2 ^ 32 < 2 ^ 32 - 4
      → src < 2 ^ 32
      → n < 2 ^ 32
      → memory_get r src n pid s ≡ ok (bien bs) t
      → message_handler texto abrir r fuel puntero (pedido tam pid (funcion_get a src n)) s ≡ fault
  unfolding message_handler contestar_get muse_invoke_function invoke_get arg_palabra arg_sizet
      arg_nro no_nulo funcion_de pure and_then ◌>>=◌ rta_get create_function_message
      create_message_header fallar
  message_handler-truncated tam puntero src n pid a bs s t hp hq hs hn e = rw (palabra-lem src hs) (
      rw (sizet-lem n hn) (
        rw e (
          rw (corta-lem n hn) (
            rw (leb_no (2 ^ 32 - 4) (puntero % 2 ^ 32) hq)
              (rw (no_menor puntero (2 ^ 32) hp) refl)))))
