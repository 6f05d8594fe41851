-- ===== src/Messages/Wire.antt =====
-- Whole messages, from message_encode to message_decode.
use tp_sistemas_operativos_l.Common.{
  ℕ, ◌+◌, ◌^◌, ◌≤◌, ◌<◌, ◌≡◌, refl, ap, ◌∙◌, pos, some, List, [], ◌++◌, length, length-append, true,
  arith,
}
use tp_sistemas_operativos_l.Messages.Bytes.{bytes_de}
use tp_sistemas_operativos_l.Messages.Codec.{
  Function, MessageHeader, Message, llamada, respuesta, tam_header, header_encode, min_size_int,
  tras_header, message_function_encode, message_function_return_encode, cuerpo_encode,
  message_encode, header_decode, cuerpo_decode, message_decode, tam_data_function,
  create_message_header, create_function_message, create_response_message,
}
use tp_sistemas_operativos_l.Messages.Reading.{
  length-pasar, Lee, Lee-bind, Lee-map, leer_num-Lee, length-bytes_de,
}
use tp_sistemas_operativos_l.Messages.RoundTrip.{
  IsNormalCall, function_bytes, function-encode, function-Lee, length-function, ltb_no,
}

-- The fields of a header fit in their places.
pub record IsHeader (h : MessageHeader) : Type 0 where
  pub tipo : h.message_type < 256
  pub caller : h.caller_id < 2 ^ 16
  pub datos : tam_header + h.data_size < 2 ^ 31

length-header : (h : MessageHeader) → length (header_encode h) ≡ tam_header
unfolding header_encode bytes_de
length-header h = refl

header-Lee : (h : MessageHeader) → IsHeader h → Lee header_decode (header_encode h) h
unfolding header_decode header_encode
header-Lee h i = Lee-bind _ (leer_num-Lee 1 h.message_type (omega (arith, i.tipo))) (
    Lee-bind _ (leer_num-Lee 2 h.caller_id (omega (arith, i.caller))) (
      Lee-map
        (λ d. record { message_type = h.message_type; caller_id = h.caller_id; data_size = d })
        (leer_num-Lee 4 h.data_size (omega (arith, i.datos)))))

min_size-eq : (d : ℕ) → tam_header + d < 2 ^ 31 → min_size_int d ≡ tam_header + d
min_size-eq d h = ground arith

-- A message goes through: it is written whole, the answer counts its bytes, and the decoder gives it
-- back from a buffer that starts with them, with the same answer.
pub record Viaja (m : Message) (buffer_size : ℕ) : Type 0 where
  pub bytes : List ℕ
  pub escrito : message_encode m buffer_size ≡ some (bytes, pos (length bytes))
  pub largo : length bytes ≡ tam_header + m.header.data_size
  pub leido : (rest : List ℕ) → message_decode (bytes ++ rest) ≡ some (m, pos (length bytes))

decode-Lee :
    (m : Message) (bs : List ℕ) (rest : List ℕ)
    → IsHeader m.header
    → Lee (cuerpo_decode m.header) bs (m, true)
    → message_decode ((header_encode m.header ++ bs) ++ rest)
      ≡ some (m, pos (length (header_encode m.header ++ bs)))
unfolding message_decode
decode-Lee m bs rest i l =
    let k = Lee-bind cuerpo_decode (header-Lee m.header i) l in
    rw (k.run [] rest)
      (ap (λ n. some (m, pos n)) (length-pasar (header_encode m.header ++ bs) [] ∙ omega arith))

encode-ok :
    (h : MessageHeader) (bs : List ℕ) (buffer_size : ℕ)
    → length bs ≡ h.data_size
    → tam_header + h.data_size ≤ buffer_size
    → tras_header (header_encode h) buffer_size (some (bs, pos (length bs)))
      ≡ some (header_encode h ++ bs, pos (length (header_encode h ++ bs)))
encode-ok h bs size e le =
    let l = length-append (header_encode h) bs in
    let k = length-header h in
    rw (ltb_no size (length (header_encode h ++ bs)) (omega (arith, l, k, le, e)))
      (ap (λ n. some (header_encode h ++ bs, pos n)) (omega (arith, l, k)))

module _ (caller_id buffer_size : ℕ) (caller : caller_id < 2 ^ 16) where
  -- A call whose header counts the bytes of its function (by tamDataFunction) goes through any buffer
  -- that holds the header and that count, for a caller of two bytes, fewer than ten arguments of known
  -- types, a function type of one byte, and a count that keeps the sum below 2^31.
  pub message_decode-encode_call :
      (f : Function)
      → IsNormalCall f
      → tam_header + tam_data_function f < 2 ^ 31
      → tam_header + tam_data_function f ≤ buffer_size
      → Viaja
          (create_function_message (create_message_header 1 caller_id (tam_data_function f)) f)
          buffer_size
  unfolding create_function_message create_message_header message_encode cuerpo_encode
      message_function_encode cuerpo_decode
  message_decode-encode_call f n fits le =
      let h : MessageHeader = record {
        message_type = 1;
        caller_id = caller_id;
        data_size = tam_data_function f;
      } in
      let bs = function_bytes f n in
      let e = length-function f n in
      record {
        bytes = header_encode h ++ bs;
        escrito = rw (ltb_no buffer_size (tam_header + tam_data_function f) le) (
            rw (min_size-eq (tam_data_function f) fits) (
              rw (ltb_no buffer_size (tam_header + tam_data_function f) le)
                (rw (function-encode f n) (encode-ok h bs buffer_size e le))));
        largo = omega (arith, length-append (header_encode h) bs, length-header h, e);
        leido = λ rest.
            decode-Lee (record { header = h; datos = llamada f }) bs rest
              (record { tipo = omega arith; caller = caller; datos = fits })
              (Lee-map (λ g. (record { header = h; datos = llamada g }, true)) (function-Lee f n));
      }

  -- A response of four bytes goes through any buffer of eleven bytes or more, for a caller of two bytes.
  pub message_decode-encode_response :
      (r : ℕ)
      → r < 2 ^ 32
      → tam_header + 4 ≤ buffer_size
      → Viaja (create_response_message (create_message_header 2 caller_id 4) r) buffer_size
  unfolding create_response_message create_message_header message_encode cuerpo_encode
      message_function_return_encode cuerpo_decode
  message_decode-encode_response r small le =
      let h : MessageHeader = record { message_type = 2; caller_id = caller_id; data_size = 4 } in
      let bs = bytes_de 4 r in
      let e = length-bytes_de 4 r in
      record {
        bytes = header_encode h ++ bs;
        escrito = rw (ltb_no buffer_size (tam_header + 4) le) (encode-ok h bs buffer_size e le);
        largo = omega (arith, length-append (header_encode h) bs, length-header h, e);
        leido = λ rest.
            decode-Lee (record { header = h; datos = respuesta r }) bs rest
              (record { tipo = omega arith; caller = caller; datos = omega arith })
              (Lee-map (λ v. (record { header = h; datos = respuesta v }, true))
                (leer_num-Lee 4 r (omega (arith, small))));
      }
