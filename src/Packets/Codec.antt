-- ===== src/Packets/Codec.antt =====
-- The packets and the values in them of utils_suse/libraries.c. An int is four bytes, the lowest first. A
-- string is the list of its bytes before '\0'. The socket delivers what is sent.
use tp_sistemas_operativos_l.Common.{
  ℕ, zero, suc, ◌+◌, ◌-◌, ◌*◌, ◌%◌, ◌^◌, ℤ, pos, negsuc, Option, none, some, List, [], ◌∷◌, ◌++◌,
  ltb, if◌then◌else◌, length,
}
use tp_sistemas_operativos_l.Messages.Bytes.{
  bytes_de, Cursor, P, pure, fallar, ◌>>=◌, leer_bytes, leer_num,
}

-- sizeof(int).
abbrev pub tam_int : ℕ
tam_int = 4

-- The bits of an int, and the int of 32 bits.
abbrev pub bits_de : ℤ → ℕ
bits_de (pos n) = n % 2 ^ 32
bits_de (negsuc n) = 2 ^ 32 - 1 - n % 2 ^ 32

abbrev pub int_de : ℕ → ℤ
int_de n = if ltb n (2 ^ 31) then pos n else negsuc (2 ^ 32 - n - 1)

-- A buffer of `tamanio` bytes, of which those before the displacement are written.
pub record Buffer : Type 0 where
  pub tamanio : ℕ
  pub escrito : List ℕ

abbrev pub W : Type 0
W = Buffer → Option Buffer

abbrev pub y_luego : Option Buffer → W → Option Buffer
y_luego none w = none
y_luego (some b) w = w b

-- memcpy to the displacement, which moves past it; `none` is a write past the end of the buffer.
unfoldable pub poner : List ℕ → W
poner bs b =
    if ltb b.tamanio (length (b.escrito ++ bs))
    then none
    else some (record b { escrito = b.escrito ++ bs })

unfoldable pub size_of_string : List ℕ → ℕ
size_of_string s = length s + 1

-- The bytes of a string in memory.
abbrev pub con_nulo : List ℕ → List ℕ
con_nulo s = s ++ 0 ∷ []

unfoldable pub serializar_int : ℤ → W
serializar_int valor = poner (bytes_de tam_int (bits_de valor))

unfoldable pub serializar_string : List ℕ → W
serializar_string valor b =
    y_luego (serializar_int (pos (size_of_string valor)) b) (poner (con_nulo valor))

-- list_iterate.
unfoldable pub serializar_todos : List (List ℕ) → W
serializar_todos [] b = some b
serializar_todos (s ∷ ss) b = y_luego (serializar_string s b) (serializar_todos ss)

unfoldable pub serializar_lista_strings : List (List ℕ) → W
serializar_lista_strings lista b =
    y_luego (serializar_int (pos (length lista)) b) (serializar_todos lista)

unfoldable pub tamanio_strings : List (List ℕ) → ℕ
tamanio_strings [] = 0
tamanio_strings (s ∷ ss) = size_of_string s + tamanio_strings ss

unfoldable pub size_of_list_of_strings_to_serialize : List (List ℕ) → ℕ
size_of_list_of_strings_to_serialize lista =
    length lista * tam_int + tam_int + tamanio_strings lista

unfoldable pub deserializar_int : P ℤ
deserializar_int = do n ← leer_num tam_int; pure (int_de n)

-- What malloc and memcpy make of a size; a negative one is no size of a block.
unfoldable pub leer_tamanio : ℤ → P (List ℕ)
leer_tamanio (pos n) = leer_bytes n
leer_tamanio (negsuc n) = fallar

-- The block with the string and its '\0'.
unfoldable pub deserializar_string : P (List ℕ)
deserializar_string = do n ← deserializar_int; leer_tamanio n

unfoldable pub deserializar_varios : ℕ → P (List (List ℕ))
deserializar_varios zero = pure []
deserializar_varios (suc n) = do s ← deserializar_string; ss ← deserializar_varios n; pure (s ∷ ss)

-- The loop of deserializar_lista_strings makes no turn for a negative size.
unfoldable pub deserializar_hasta : ℤ → P (List (List ℕ))
deserializar_hasta (pos n) = deserializar_varios n
deserializar_hasta (negsuc n) = pure []

unfoldable pub deserializar_lista_strings : P (List (List ℕ))
deserializar_lista_strings = do n ← deserializar_int; deserializar_hasta n

-- t_paquete.
pub record Paquete : Type 0 where
  pub codigo_operacion : ℤ
  pub tamanio : ℤ
  pub datos : List ℕ

-- What `enviar` puts on the socket; `datos` are the `tamanio` bytes of the block.
unfoldable pub enviar : ℤ → ℤ → List ℕ → List ℕ
enviar codigo_operacion tamanio datos =
    bytes_de tam_int (bits_de codigo_operacion) ++ (bytes_de tam_int (bits_de tamanio) ++ datos)

-- The packet of a connection that was closed. Nothing fills the block that it has for its data.
abbrev pub paquete_vacio : Paquete
paquete_vacio = record { codigo_operacion = negsuc 0; tamanio = pos 0; datos = [] }

unfoldable pub recibir_paquete_de : P Paquete
recibir_paquete_de = do
  codigo ← deserializar_int
  n ← deserializar_int
  bs ← leer_tamanio n
  pure (record { codigo_operacion = codigo; tamanio = n; datos = bs })

-- `recibir` on the bytes that come: the packet, and what is left on the socket.
unfoldable pub recibir_de : List ℕ → Option (Paquete × Cursor)
recibir_de [] = some (paquete_vacio, record { atras = []; adelante = [] })
recibir_de (b ∷ bs) = recibir_paquete_de (record { atras = []; adelante = b ∷ bs })

abbrev pub al_principio : List ℕ → Cursor
al_principio bs = record { atras = []; adelante = bs }

abbrev pub cop_generico : ℤ
cop_generico = pos 0

-- The packet of a buffer that was filled.
abbrev pub enviar_buffer : ℕ → Option Buffer → Option (List ℕ)
enviar_buffer tamanio none = none
enviar_buffer tamanio (some b) = some (enviar cop_generico (pos tamanio) b.escrito)

unfoldable pub enviar_listado_de_strings : List (List ℕ) → Option (List ℕ)
enviar_listado_de_strings listado =
    let tamanio = size_of_list_of_strings_to_serialize listado in
    enviar_buffer tamanio
      (serializar_lista_strings listado (record { tamanio = tamanio; escrito = [] }))

-- What a decoder reads, and what is left on the socket.
abbrev pub con_resto : {A : Type 0} → List ℕ → Option (A × Cursor) → Option (A × List ℕ)
con_resto resto none = none
con_resto resto (some (r, _)) = some (r, resto)

-- The answer of a decoder on the data of a packet.
abbrev pub de_paquete : {A : Type 0} → P A → Option (Paquete × Cursor) → Option (A × List ℕ)
de_paquete p none = none
de_paquete p (some (q, c)) = con_resto c.adelante (p (al_principio q.datos))

-- The list, and what is left on the socket.
unfoldable pub recibir_listado_de_strings : List ℕ → Option (List (List ℕ) × List ℕ)
recibir_listado_de_strings bs = de_paquete deserializar_lista_strings (recibir_de bs)

unfoldable pub recibir_int : Option (Paquete × Cursor) → Option (ℤ × List ℕ)
recibir_int = de_paquete deserializar_int
