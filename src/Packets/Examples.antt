-- ===== src/Packets/Examples.antt =====
-- Tests of the packets of utils_suse/libraries.c.
use tp_sistemas_operativos_l.Common.{
  ℕ, ◌≡◌, refl, ◌*◌, ◌+◌, pos, negsuc, none, some, List, [], ◌∷◌, ◌++◌, length, map, arith,
}
use tp_sistemas_operativos_l.Messages.Bytes.{
  bytes_de, de_bytes, leer_num, leer_bytes, seguir, ◌>>=◌,
}
use tp_sistemas_operativos_l.Packets.Codec.{
  tam_int, tamanio_strings, size_of_string, poner, deserializar_int, leer_tamanio,
  recibir_paquete_de, con_nulo, size_of_list_of_strings_to_serialize, enviar, recibir_de,
  recibir_int, enviar_listado_de_strings, recibir_listado_de_strings, serializar_int,
}
use tp_sistemas_operativos_l.Packets.RoundTrip.{recibir-enviar_listado}

abbrev listado : List (List ℕ)
listado = (97 ∷ 98 ∷ []) ∷ [] ∷ []

tamanio_listado : size_of_list_of_strings_to_serialize listado ≡ 16
unfolding size_of_list_of_strings_to_serialize tamanio_strings size_of_string
tamanio_listado = refl

recibir-enviar_listado_example :
    (bs : List ℕ) × (enviar_listado_de_strings listado ≡ some bs)
    × (length bs ≡ 2 * tam_int + size_of_list_of_strings_to_serialize listado)
    × (recibir_listado_de_strings (bs ++ 7 ∷ []) ≡ some (map con_nulo listado, 7 ∷ []))
recibir-enviar_listado_example =
    recibir-enviar_listado listado (7 ∷ []) (omega (arith, tamanio_listado))

-- A packet with the int -2.
int_negativo :
    recibir_int (recibir_de (enviar (pos 12) (pos 4) (254 ∷ 255 ∷ 255 ∷ 255 ∷ [])))
    ≡ some (negsuc 1, [])
unfolding recibir_int recibir_de recibir_paquete_de enviar bytes_de deserializar_int leer_num
    leer_bytes de_bytes leer_tamanio ◌>>=◌ seguir
int_negativo = refl

-- An int in a buffer of three bytes.
sin_lugar : serializar_int (pos 5) (record { tamanio = 3; escrito = [] }) ≡ none
unfolding serializar_int poner bytes_de
sin_lugar = refl
