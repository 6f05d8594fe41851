-- ===== src/Messages/Codec.antt =====
-- The encoders and decoders of utils_suse/message.c. A buffer is the list of its bytes; an answer of -1
-- that moves a cursor back is written out.
use tp_sistemas_operativos_l.Common.{
  ℕ, zero, suc, ◌+◌, ◌-◌, ◌%◌, ◌^◌, ℤ, pos, negsuc, Bool, true, false, ◌||◌, ◌&&◌, Option, some,
  none, List, [], ◌∷◌, ◌++◌, ◌==◌, ltb, if◌then◌else◌, length,
}
use tp_sistemas_operativos_l.Messages.Bytes.{
  bytes_de, ceros, primeros, Cursor, P, pure, fallar, ◌>>=◌, ◌>>◌, leer_bytes, leer_num, volver,
}

-- `valor` is the memory that memcpy reads or writes: the eight bytes of the union for VAR_UINT32 and
-- VAR_SIZE_T, what the pointer points to for VAR_CHAR_PTR and VAR_VOID_PTR.
pub record Arg : Type 0 where
  pub type : ℕ
  pub size : ℕ
  pub valor : List ℕ

-- `args` are the first num_args of the ten. An enum is its bit pattern.
pub record Function : Type 0 where
  pub type : ℕ
  pub args : List Arg

pub record MessageHeader : Type 0 where
  pub message_type : ℕ
  pub caller_id : ℕ
  pub data_size : ℕ

-- What `data` points to.
pub data Datos : Type 0 where
  llamada : Function → Datos
  respuesta : ℕ → Datos
  nada : Datos

pub record Message : Type 0 where
  pub header : MessageHeader
  pub datos : Datos

abbrev pub en_union : ℕ → Bool
en_union t = (t == 0) || (t == 3)

abbrev pub en_puntero : ℕ → Bool
en_puntero t = (t == 1) || (t == 2)

-- sizeof(uint8_t) + sizeof(uint16_t) + sizeof(uint32_t).
abbrev pub tam_header : ℕ
tam_header = 7

abbrev pub max_args : ℕ
max_args = 10

-- Two pieces written one after the other.
abbrev pub tras : Option (List ℕ) → Option (List ℕ) → Option (List ℕ)
tras none q = none
tras (some xs) none = none
tras (some xs) (some ys) = some (xs ++ ys)

unfoldable pub header_encode : MessageHeader → List ℕ
header_encode h = bytes_de 1 h.message_type ++ (bytes_de 2 h.caller_id ++ bytes_de 4 h.data_size)

-- A type that is none of the four writes no value.
unfoldable pub function_arg_encode : Arg → Option (List ℕ)
function_arg_encode a =
    tras (some (bytes_de 1 a.type ++ bytes_de 4 a.size))
      (if en_union a.type || en_puntero a.type then primeros a.size a.valor else some [])

unfoldable pub args_encode : List Arg → Option (List ℕ)
args_encode [] = some []
args_encode (a ∷ as') = tras (function_arg_encode a) (args_encode as')

-- A function of more than ten arguments is read out of its array.
unfoldable pub function_encode : Function → Option (List ℕ)
function_encode f =
    if ltb max_args (length f.args)
    then none
    else tras (some (bytes_de 1 f.type ++ bytes_de 1 (length f.args))) (args_encode f.args)

-- The int that min_size is, converted to the size_t of the test.
abbrev pub min_size_int : ℕ → ℕ
min_size_int data_size =
    let w = (tam_header + data_size) % 2 ^ 32 in if ltb w (2 ^ 31) then w else 2 ^ 64 - (2 ^ 32 - w)

-- What a body encoder leaves: the bytes that it wrote, and its answer.
abbrev pub con_largo : Option (List ℕ) → Option (List ℕ × ℤ)
con_largo none = none
con_largo (some bs) = some (bs, pos (length bs))

unfoldable pub message_function_encode : MessageHeader → Datos → ℕ → Option (List ℕ × ℤ)
message_function_encode h (llamada f) buffer_size =
    if ltb buffer_size (min_size_int h.data_size)
    then some ([], negsuc 0)
    else con_largo (function_encode f)
message_function_encode h _ buffer_size = none

unfoldable pub message_function_return_encode : MessageHeader → Datos → ℕ → Option (List ℕ × ℤ)
message_function_return_encode h (respuesta r) buffer_size =
    if ltb buffer_size (min_size_int h.data_size)
    then some ([], negsuc 0)
    else con_largo (some (bytes_de 4 r))
message_function_return_encode h _ buffer_size = none

-- result += r, for a result of seven.
abbrev pub mas_header : ℤ → ℤ
mas_header (pos n) = pos (tam_header + n)
mas_header (negsuc n) = pos (tam_header - suc n)

-- The header and a body in the buffer; writing past the buffer is out of bounds.
abbrev pub tras_header : List ℕ → ℕ → Option (List ℕ × ℤ) → Option (List ℕ × ℤ)
tras_header hs buffer_size none = none
tras_header hs buffer_size (some (bs, r)) =
    if ltb buffer_size (length (hs ++ bs)) then none else some (hs ++ bs, mas_header r)

-- switch(msg->header.message_type).
unfoldable pub cuerpo_encode : Message → ℕ → Option (List ℕ × ℤ)
cuerpo_encode m buffer_size =
    let h = m.header in
    if h.message_type == 1
    then tras_header (header_encode h) buffer_size (message_function_encode h m.datos buffer_size)
    else if h.message_type == 3
    then tras_header (header_encode h) buffer_size (some ([], pos 0))
    else if h.message_type == 2
    then tras_header (header_encode h) buffer_size
        (message_function_return_encode h m.datos buffer_size)
    else some (header_encode h, negsuc 0)

-- What message_encode writes into a buffer of `buffer_size` bytes, and what it answers.
unfoldable pub message_encode : Message → ℕ → Option (List ℕ × ℤ)
message_encode m buffer_size =
    if ltb buffer_size (tam_header + m.header.data_size)
    then some ([], negsuc 0)
    else cuerpo_encode m buffer_size

unfoldable pub header_decode : P MessageHeader
header_decode = do
  t ← leer_num 1
  c ← leer_num 2
  d ← leer_num 4
  pure (record { message_type = t; caller_id = c; data_size = d })

-- The value of a decoded argument: `size` bytes over a union that was zero, or a block of that size.
abbrev pub valor_leido : ℕ → ℕ → List ℕ → List ℕ
valor_leido t size bs = if en_union t then bs ++ ceros (8 - size) else bs

-- An unknown type answers -1, which the caller adds to its cursor: the five bytes read and one more.
unfoldable pub function_arg_decode : P Arg
function_arg_decode = do
  t ← leer_num 1
  size ← leer_num 4
  if en_puntero t || (en_union t && ltb size 9)
      then (do
        bs ← leer_bytes size
        pure (record { type = t; size = size; valor = valor_leido t size bs }))
      else (if en_union t
          then fallar
          else (do volver 6; pure (record { type = t; size = size; valor = ceros 8 })))

unfoldable pub args_decode : ℕ → P (List Arg)
args_decode zero = pure []
args_decode (suc n) = do a ← function_arg_decode; as' ← args_decode n; pure (a ∷ as')

-- The block that malloc gives holds nine arguments and a part of the tenth.
unfoldable pub message_function_decode : P Function
message_function_decode = do
  t ← leer_num 1
  num_args ← leer_num 1
  if ltb num_args max_args
      then (do as' ← args_decode num_args; pure (record { type = t; args = as' }))
      else fallar

unfoldable pub cuerpo_decode : MessageHeader → P (Message × Bool)
cuerpo_decode h =
    if h.message_type == 1
    then (do f ← message_function_decode; pure (record { header = h; datos = llamada f }, true))
    else if h.message_type == 3
    then pure (record { header = h; datos = nada }, true)
    else if h.message_type == 2
    then (do r ← leer_num 4; pure (record { header = h; datos = respuesta r }, true))
    else pure (record { header = h; datos = nada }, false)

-- How far the cursor has moved, or -1 for an unknown message type.
abbrev pub resultado : Option ((Message × Bool) × Cursor) → Option (Message × ℤ)
resultado none = none
resultado (some ((m, b), c)) = some (m, if b then pos (length c.atras) else negsuc 0)

unfoldable pub message_decode : List ℕ → Option (Message × ℤ)
message_decode buffer =
    resultado ((do h ← header_decode; cuerpo_decode h) (record { atras = []; adelante = buffer }))

-- tamDataFunction of filesystem/sac_handlers.c.
unfoldable pub tam_args : List Arg → ℕ
tam_args [] = 0
tam_args (a ∷ as') = 1 + 4 + a.size + tam_args as'

unfoldable pub tam_data_function : Function → ℕ
tam_data_function f = 1 + 1 + tam_args f.args

unfoldable pub create_message_header : ℕ → ℕ → ℕ → MessageHeader
create_message_header message_type caller_id data_size = record {
  message_type = message_type;
  caller_id = caller_id;
  data_size = data_size;
}

unfoldable pub create_function_message : MessageHeader → Function → Message
create_function_message header f = record { header = header; datos = llamada f }

unfoldable pub create_response_message : MessageHeader → ℕ → Message
create_response_message header response = record { header = header; datos = respuesta response }
