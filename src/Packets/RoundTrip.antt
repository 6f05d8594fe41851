-- ===== src/Packets/RoundTrip.antt =====
-- What enviar_listado_de_strings of utils_suse/libraries.c puts on a socket, recibir_listado_de_strings
-- reads back.
use tp_sistemas_operativos_l.Common.{
  ℕ, ◌+◌, ◌*◌, ◌%◌, ◌^◌, ◌≤◌, ◌<◌, ◌≡◌, refl, sym, ap, ◌∙◌, subst, pos, false, some, List, [], ◌∷◌,
  ◌++◌, map, ltb, lt→ltb, length, length-append, arith,
}
use mathlib.Core.List.{append-nil, append_assoc}
use tp_sistemas_operativos_l.Messages.Bytes.{bytes_de, Cursor, P, leer_bytes}
use tp_sistemas_operativos_l.Messages.Reading.{
  pasar, Lee, Lee-pure, Lee-bind, Lee-map, Lee-eq, leer_bytes-Lee, leer_num-Lee, length-bytes_de,
}
use tp_sistemas_operativos_l.Packets.Codec.{
  tam_int, Buffer, poner, size_of_string, con_nulo, serializar_int, serializar_string,
  serializar_todos, serializar_lista_strings, tamanio_strings, size_of_list_of_strings_to_serialize,
  deserializar_int, leer_tamanio, deserializar_string, deserializar_varios, deserializar_hasta,
  deserializar_lista_strings, Paquete, cop_generico, enviar, recibir_paquete_de, recibir_de,
  al_principio, con_resto, de_paquete, enviar_listado_de_strings, recibir_listado_de_strings,
}

-- The bytes of a string and of a list of them.
abbrev bytes_string : List ℕ → List ℕ
bytes_string s = bytes_de tam_int (length s + 1) ++ con_nulo s

abbrev bytes_varios : List (List ℕ) → List ℕ
bytes_varios [] = []
bytes_varios (s ∷ ss) = bytes_string s ++ bytes_varios ss

abbrev bytes_lista : List (List ℕ) → List ℕ
bytes_lista ss = bytes_de tam_int (length ss) ++ bytes_varios ss

length-string : (s : List ℕ) → length (bytes_string s) ≡ tam_int + (length s + 1)
length-string s = omega (
  arith,
  length-append (bytes_de tam_int (length s + 1)) (con_nulo s),
  length-append s (0 ∷ []),
  length-bytes_de tam_int (length s + 1),
)

length-varios :
    (ss : List (List ℕ)) → length (bytes_varios ss) ≡ length ss * tam_int + tamanio_strings ss
unfolding tamanio_strings size_of_string
length-varios [] = refl
length-varios (s ∷ ss) =
    omega
      (arith, length-append (bytes_string s) (bytes_varios ss), length-string s, length-varios ss)

length-lista :
    (ss : List (List ℕ)) → length (bytes_lista ss) ≡ size_of_list_of_strings_to_serialize ss
unfolding size_of_list_of_strings_to_serialize
length-lista ss = omega (
  arith,
  length-append (bytes_de tam_int (length ss)) (bytes_varios ss),
  length-bytes_de tam_int (length ss),
  length-varios ss,
)

length-lista-parts :
    (ss : List (List ℕ))
    → size_of_list_of_strings_to_serialize ss ≡ length ss * tam_int + tam_int + tamanio_strings ss
unfolding size_of_list_of_strings_to_serialize
length-lista-parts ss = refl

ltb_no : (a b : ℕ) → b ≤ a → ltb a b ≡ false
ltb_no a b h = ground arith

poner-run :
    (bs : List ℕ) (b : Buffer)
    → length b.escrito + length bs ≤ b.tamanio
    → poner bs b ≡ some (record b { escrito = b.escrito ++ bs })
unfolding poner
poner-run bs b h =
    rw (ltb_no b.tamanio (length (b.escrito ++ bs)) (omega (arith, h, length-append b.escrito bs)))
      refl

serializar_int-run :
    (n : ℕ) (b : Buffer)
    → n < 2 ^ 31
    → length b.escrito + tam_int ≤ b.tamanio
    → serializar_int (pos n) b ≡ some (record b { escrito = b.escrito ++ bytes_de tam_int n })
unfolding serializar_int
serializar_int-run n b hn h =
    let e : n % 2 ^ 32 ≡ n = omega (arith, hn) in
    rw e (poner-run (bytes_de tam_int n) b (omega (arith, h, length-bytes_de tam_int n)))

serializar_string-run :
    (s : List ℕ) (b : Buffer)
    → length s + 1 < 2 ^ 31
    → length b.escrito + length (bytes_string s) ≤ b.tamanio
    → serializar_string s b ≡ some (record b { escrito = b.escrito ++ bytes_string s })
unfolding serializar_string size_of_string
serializar_string-run s b hs h =
    let l = length-string s in
    let k = length-bytes_de tam_int (length s + 1) in
    let b' = record b { escrito = b.escrito ++ bytes_de tam_int (length s + 1) } in
    rw (serializar_int-run (length s + 1) b hs (omega (arith, h, l))) (
      poner-run (con_nulo s) b' (
        omega (
          arith,
          h,
          l,
          k,
          length-append b.escrito (bytes_de tam_int (length s + 1)),
          length-append s (0 ∷ []),
        ))
      ∙ ap (λ x. some (record b { escrito = x }))
          (append_assoc b.escrito (bytes_de tam_int (length s + 1)) (con_nulo s)))

serializar_todos-run :
    (ss : List (List ℕ)) (b : Buffer)
    → tamanio_strings ss < 2 ^ 31
    → length b.escrito + length (bytes_varios ss) ≤ b.tamanio
    → serializar_todos ss b ≡ some (record b { escrito = b.escrito ++ bytes_varios ss })
unfolding serializar_todos tamanio_strings size_of_string
serializar_todos-run [] b hs h =
    ap (λ x. some (record b { escrito = x })) (sym (append-nil b.escrito))
serializar_todos-run (s ∷ ss) b hs h =
    let l = length-append (bytes_string s) (bytes_varios ss) in
    let b' = record b { escrito = b.escrito ++ bytes_string s } in
    rw (serializar_string-run s b (omega (arith, hs)) (omega (arith, h, l))) (
      serializar_todos-run ss b' (omega (arith, hs))
        (omega (arith, h, l, length-append b.escrito (bytes_string s)))
      ∙ ap (λ x. some (record b { escrito = x }))
          (append_assoc b.escrito (bytes_string s) (bytes_varios ss)))

deserializar_int-Lee : (n : ℕ) → n < 2 ^ 31 → Lee deserializar_int (bytes_de tam_int n) (pos n)
unfolding deserializar_int
deserializar_int-Lee n h =
    Lee-eq (Lee-map _ (leer_num-Lee tam_int n (omega (arith, h)))) (rw (lt→ltb n (2 ^ 31) h) refl)

deserializar_string-Lee :
    (s : List ℕ) → length s + 1 < 2 ^ 31 → Lee deserializar_string (bytes_string s) (con_nulo s)
unfolding deserializar_string leer_tamanio
deserializar_string-Lee s h = Lee-bind _ (deserializar_int-Lee (length s + 1) h) (
    subst (λ n. Lee (leer_bytes n) (con_nulo s) (con_nulo s)) (length-append s (0 ∷ []))
      (leer_bytes-Lee (con_nulo s)))

deserializar_varios-Lee :
    (ss : List (List ℕ))
    → tamanio_strings ss < 2 ^ 31
    → Lee (deserializar_varios (length ss)) (bytes_varios ss) (map con_nulo ss)
unfolding deserializar_varios tamanio_strings size_of_string
deserializar_varios-Lee [] h = Lee-pure []
deserializar_varios-Lee (s ∷ ss) h =
    Lee-bind _ (deserializar_string-Lee s (omega (arith, h)))
      (Lee-map _ (deserializar_varios-Lee ss (omega (arith, h))))

deserializar_lista-Lee :
    (ss : List (List ℕ))
    → size_of_list_of_strings_to_serialize ss < 2 ^ 31
    → Lee deserializar_lista_strings (bytes_lista ss) (map con_nulo ss)
unfolding deserializar_lista_strings deserializar_hasta size_of_list_of_strings_to_serialize
deserializar_lista-Lee ss h =
    Lee-bind _ (deserializar_int-Lee (length ss) (omega (arith, h)))
      (deserializar_varios-Lee ss (omega (arith, h)))

paquete_listado : List (List ℕ) → Paquete
paquete_listado ss = record {
  codigo_operacion = cop_generico;
  tamanio = pos (size_of_list_of_strings_to_serialize ss);
  datos = bytes_lista ss;
}

-- The packet of the list.
abbrev bytes_paquete : List (List ℕ) → List ℕ
bytes_paquete ss =
    bytes_de tam_int 0
    ++ (bytes_de tam_int (size_of_list_of_strings_to_serialize ss) ++ bytes_lista ss)

recibir-Lee :
    (ss : List (List ℕ))
    → size_of_list_of_strings_to_serialize ss < 2 ^ 31
    → Lee recibir_paquete_de (bytes_paquete ss) (paquete_listado ss)
unfolding recibir_paquete_de leer_tamanio paquete_listado
recibir-Lee ss h =
    let n = size_of_list_of_strings_to_serialize ss in
    Lee-bind _ (deserializar_int-Lee 0 (omega arith)) (
      Lee-bind _ (deserializar_int-Lee n h) (
        Lee-map _ (
          subst (λ k. Lee (leer_bytes k) (bytes_lista ss) (bytes_lista ss)) (length-lista ss)
            (leer_bytes-Lee (bytes_lista ss)))))

enviar_listado-run :
    (ss : List (List ℕ))
    → size_of_list_of_strings_to_serialize ss < 2 ^ 31
    → enviar_listado_de_strings ss ≡ some (bytes_paquete ss)
unfolding enviar_listado_de_strings serializar_lista_strings enviar
enviar_listado-run ss h =
    let n = size_of_list_of_strings_to_serialize ss in
    let m = bytes_de tam_int (length ss) in
    let l = length-lista-parts ss in
    let lm = length-bytes_de tam_int (length ss) in
    let e0 : 0 % 2 ^ 32 ≡ 0 = refl in
    let e : n % 2 ^ 32 ≡ n = omega (arith, h) in
    rw
      (serializar_int-run (length ss) (record { tamanio = n; escrito = [] }) (omega (arith, h, l))
        (omega (arith, h, l)))
      (rw
        (serializar_todos-run ss (record { tamanio = n; escrito = m }) (omega (arith, h, l))
          (omega (arith, h, l, lm, length-varios ss)))
        (rw e refl))

length-bytes_paquete :
    (ss : List (List ℕ))
    → length (bytes_paquete ss) ≡ 2 * tam_int + size_of_list_of_strings_to_serialize ss
length-bytes_paquete ss =
    let n = size_of_list_of_strings_to_serialize ss in
    omega (
      arith,
      length-append (bytes_de tam_int 0) (bytes_de tam_int n ++ bytes_lista ss),
      length-append (bytes_de tam_int n) (bytes_lista ss),
      length-bytes_de tam_int 0,
      length-bytes_de tam_int n,
      length-lista ss,
    )

recibir_de-bytes_paquete :
    (ss : List (List ℕ)) (rest : List ℕ)
    → recibir_de (bytes_paquete ss ++ rest)
      ≡ recibir_paquete_de (al_principio (bytes_paquete ss ++ rest))
unfolding recibir_de bytes_de
recibir_de-bytes_paquete ss rest = refl

-- What a decoder reads from the data of a packet.
de_paquete-Lee :
    {A : Type 0} (p : P A) (q : Paquete) (c : Cursor) (r : A)
    → Lee p q.datos r
    → de_paquete p (some (q, c)) ≡ some (r, c.adelante)
de_paquete-Lee p q c r l =
    let e =
      subst (λ x. p (al_principio x) ≡ some (r, record { atras = pasar q.datos []; adelante = [] }))
        (append-nil q.datos) (l.run [] []) in
    ap (con_resto c.adelante) e

recibir_listado-run :
    (ss : List (List ℕ)) (rest : List ℕ)
    → size_of_list_of_strings_to_serialize ss < 2 ^ 31
    → recibir_listado_de_strings (bytes_paquete ss ++ rest) ≡ some (map con_nulo ss, rest)
unfolding recibir_listado_de_strings paquete_listado
recibir_listado-run ss rest h =
    ap (de_paquete deserializar_lista_strings)
      (recibir_de-bytes_paquete ss rest ∙ (recibir-Lee ss h).run [] rest)
    ∙ de_paquete-Lee deserializar_lista_strings (paquete_listado ss)
        (record { atras = pasar (bytes_paquete ss) []; adelante = rest }) (map con_nulo ss)
        (deserializar_lista-Lee ss h)

-- A list of strings whose packet takes less than 2^31 bytes: enviar_listado_de_strings writes within the
-- buffer that size_of_list_of_strings_to_serialize gives it, and fills it, and recibir_listado_de_strings
-- takes from the socket that packet and no more and answers the strings, each with its '\0'.
pub recibir-enviar_listado :
    (ss : List (List ℕ)) (rest : List ℕ)
    → 2 * tam_int + size_of_list_of_strings_to_serialize ss < 2 ^ 31
    → (bs : List ℕ) × (enviar_listado_de_strings ss ≡ some bs)
      × (length bs ≡ 2 * tam_int + size_of_list_of_strings_to_serialize ss)
      × (recibir_listado_de_strings (bs ++ rest) ≡ some (map con_nulo ss, rest))
recibir-enviar_listado ss rest h =
    let h' : size_of_list_of_strings_to_serialize ss < 2 ^ 31 = omega (arith, h) in
    (
      bytes_paquete ss,
      enviar_listado-run ss h',
      length-bytes_paquete ss,
      recibir_listado-run ss rest h',
    )
