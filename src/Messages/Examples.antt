-- ===== src/Messages/Examples.antt =====
-- A call of two arguments, and a response, over a buffer of a hundred bytes.
use tp_sistemas_operativos_l.Common.{ℕ, ◌≡◌, refl, some, List, [], ◌∷◌, arith, length}
use tp_sistemas_operativos_l.Messages.Codec.{
  Arg, Function, create_message_header, create_function_message, create_response_message,
  tam_data_function, tam_args, function_encode,
}
use tp_sistemas_operativos_l.Messages.RoundTrip.{
  IsNormal, IsNormalCall, function_encode-tam_data_function,
}
use tp_sistemas_operativos_l.Messages.Wire.{
  Viaja, message_decode-encode_call, message_decode-encode_response,
}

abbrev numero : Arg
numero = record { type = 0; size = 4; valor = 1 ∷ 2 ∷ 0 ∷ 0 ∷ 0 ∷ 0 ∷ 0 ∷ 0 ∷ [] }

abbrev texto : Arg
texto = record { type = 1; size = 3; valor = 97 ∷ 98 ∷ 0 ∷ [] }

abbrev pedido : Function
pedido = record { type = 17; args = numero ∷ texto ∷ [] }

numero-IsNormal : IsNormal numero
numero-IsNormal = record {
  bytes = 1 ∷ 2 ∷ 0 ∷ 0 ∷ [];
  conocido = refl;
  largo = refl;
  memoria = refl;
  corto = λ h. omega arith;
  cabe = omega arith;
}

texto-IsNormal : IsNormal texto
texto-IsNormal = record {
  bytes = 97 ∷ 98 ∷ 0 ∷ [];
  conocido = refl;
  largo = refl;
  memoria = refl;
  corto = λ h. omega arith;
  cabe = omega arith;
}

pedido-IsNormalCall : IsNormalCall pedido
pedido-IsNormalCall = record {
  normal = (numero-IsNormal, (texto-IsNormal, tt));
  pocos = omega arith;
  corto = omega arith;
}

function_encode-tam_data_function_example :
    (bs : List ℕ) × (function_encode pedido ≡ some bs) × (length bs ≡ tam_data_function pedido)
function_encode-tam_data_function_example =
    function_encode-tam_data_function pedido pedido-IsNormalCall

message_decode-encode_call_example :
    Viaja
      (create_function_message (create_message_header 1 9 (tam_data_function pedido)) pedido)
      100
unfolding tam_data_function tam_args
message_decode-encode_call_example =
    message_decode-encode_call 9 100 (omega arith) pedido pedido-IsNormalCall (omega arith)
      (omega arith)

message_decode-encode_response_example :
    Viaja (create_response_message (create_message_header 2 9 4) 77) 100
message_decode-encode_response_example =
    message_decode-encode_response 9 100 (omega arith) 77 (omega arith) (omega arith)
