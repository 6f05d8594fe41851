-- ===== src/Sac/FileWriting.antt =====
-- escribir_archivo of filesystem/sac_handlers.c inside a block, and leer_archivo after it.
use Prim.Native.String.{String}
use text.Mathlib.Text.{◌==◌ as str_eq}
use text.Mathlib.TextPositions.{eq_refl}
use tp_sistemas_operativos_l.Common.{
  ℕ, suc, ◌+◌, ◌%◌, ◌^◌, ◌≤◌, ◌<◌, ◌≡◌, ◌≢◌, ◌*◌, subst, sym, refl, ap, ◌∙◌, pos, true, false, some,
  List, [], ◌∷◌, leb, if◌then◌else◌, length, set, set-set, get-set, get_elem?, arith,
}
use tp_sistemas_operativos_l.Sac.State.{punteros, direccion, GFile, Entorno, Disco, bloque_size}
use tp_sistemas_operativos_l.Sac.Monad.{
  ok, pure, ◌>>=◌, and_then, leer, cambiar, nodo, cambiar_nodo, o_falla,
}
use tp_sistemas_operativos_l.Sac.Search.{determine_nodo}
use tp_sistemas_operativos_l.Sac.Blocks.{puntero_de, dato_de}
use tp_sistemas_operativos_l.Sac.Growth.{setear-ok}
use tp_sistemas_operativos_l.Sac.Data.{
  a_copiar, a_leer, acceso, nodo_buscado, lock_path, unlock_path, copiar_al_disco, espacio_libre,
  crecimiento, crecer, completo, en_bloque, bloque_propio, buscar_lugar, escribir_en_lugar,
  escribir_desde, terminar_escritura, escribir_archivo, leer_archivo,
}
use tp_sistemas_operativos_l.Sac.FileBytes.{byte_del_archivo, copiar_de-same}
use tp_sistemas_operativos_l.Sac.FileReading.{fila, Alcanzable, leer_archivo-lem}
use tp_sistemas_operativos_l.Sac.Memory.{punteros-copiar_en}
use tp_sistemas_operativos_l.Sac.SameNames.{con_tamanio, determine_nodo-same}
use tp_sistemas_operativos_l.Muse.Heap.{copiar_de, copiar_en, take}
use tp_sistemas_operativos_l.Muse.Metadata.{copiar_de-copiar_en}

-- The block of data of an offset of a file, and where its byte is in the disk.
abbrev pub bloque_del_dato : Disco → GFile → ℕ → ℕ
bloque_del_dato s g off = punteros s.datos (g.indirect_blocks_array (puntero_de off)) (dato_de off)

abbrev pub lugar_de : Disco → GFile → ℕ → ℕ
lugar_de s g off = direccion (bloque_del_dato s g off) (off % bloque_size)

abbrev pub tamanio_nuevo : GFile → ℕ → ℕ → ℕ
tamanio_nuevo g off tam = (g.file_size + crecimiento g.file_size off tam) % 2 ^ 32

-- The disk after a write inside a block.
abbrev pub escrito : Disco → ℕ → GFile → String → ℕ → List ℕ → Disco
escrito s n g path off bs = record s {
  tabla = set s.tabla n (con_tamanio g (tamanio_nuevo g off (length bs)) s.reloj);
  datos = copiar_en s.datos (lugar_de s g off) bs;
  escribiendo =
      λ p. if str_eq p path then false else (if str_eq p path then true else s.escribiendo p);
}

pub take_all : (bs : List ℕ) → take (length bs) bs ≡ bs
take_all [] = refl
take_all (b ∷ bs) = ap (λ z. b ∷ z) (take_all bs)

leb-true : (a b : ℕ) → a ≤ b → leb a b ≡ true
leb-true a b h = ground arith

leb-false : (a b : ℕ) → b < a → leb a b ≡ false
leb-false a b h = ground arith

-- A write of less than a block that fits in the space after the file's end and in the block that it
-- starts in, and does not start after the end of the file. The block that it writes is after the table of
-- nodes and is none of the blocks of pointers that a read of the bytes looks in.
pub record Cabe (e : Entorno) (s : Disco) (g : GFile) (off tam : ℕ) : Type 0 where
  pub algo : 0 < tam
  pub parcial : tam < bloque_size
  pub corto : g.file_size < 2 ^ 31
  pub dentro : off ≤ g.file_size
  pub espacio : tam ≤ espacio_libre g.file_size
  pub bloque : off % bloque_size + tam ≤ bloque_size
  pub disco : lugar_de s g off + tam ≤ e.disk_size
  pub tras_la_tabla : e.inicio_nodos + length s.tabla ≤ bloque_del_dato s g off
  pub aparte :
      (q : ℕ)
      → q * fila < off + tam
      → off ≤ q * fila + fila
      → g.indirect_blocks_array q ≢ bloque_del_dato s g off

module _ (e : Entorno) where
  buscar_lugar-run :
      (s : Disco) (n off tam : ℕ) (g : GFile)
      → get_elem? s.tabla n ≡ some g
      → Cabe e s g off tam
      → buscar_lugar e n off (pos tam) s
        ≡ ok
            (en_bloque
              (punteros s.datos (g.indirect_blocks_array (puntero_de off)) (dato_de off))
              (espacio_libre g.file_size)
              (pos tam))
            s
  unfolding buscar_lugar bloque_propio ◌>>=◌ and_then pure leer nodo o_falla
  buscar_lugar-run s n off tam g hg c =
      let d = c.dentro in
      let x = c.espacio in
      let y = c.algo in
      let a : leb (g.file_size + espacio_libre g.file_size) off ≡ false =
        leb-false _ _ (omega (arith, d, x, y)) in
      rw hg (rw a (rw (setear-ok off s (omega (arith, c.corto, d))) refl))

  escribir_desde-run :
      (fuel : ℕ) (s : Disco) (n off : ℕ) (g : GFile) (b : ℕ) (bs : List ℕ)
      → get_elem? s.tabla n ≡ some g
      → Cabe e s g off (length (b ∷ bs))
      → escribir_desde e
          (suc fuel)
          n
          (off % bloque_size)
          off
          (length (b ∷ bs))
          (b ∷ bs)
          (pos (length (b ∷ bs)))
          s
        ≡ ok completo (record s {
          tabla = set s.tabla n (record g { file_size = tamanio_nuevo g off (length (b ∷ bs)) });
          datos = copiar_en s.datos (lugar_de s g off) (b ∷ bs);
        })
  unfolding escribir_desde escribir_en_lugar copiar_al_disco acceso crecer ◌>>=◌ and_then pure leer
      nodo o_falla cambiar cambiar_nodo
  escribir_desde-run fuel s n off g b bs hg c =
      rw (buscar_lugar-run s n off (length (b ∷ bs)) g hg c) (
        rw (leb-false bloque_size (length (b ∷ bs)) c.parcial) (
          rw (leb-true (length (b ∷ bs)) (espacio_libre g.file_size) c.espacio) (
            rw (leb-true (length (b ∷ bs)) (length (b ∷ bs)) (omega arith))
              (rw (leb-true _ e.disk_size c.disco) (rw (take_all bs) (rw hg (rw hg refl)))))))

  escribir_archivo-run :
      (fuel : ℕ) (s : Disco) (path : String) (n off : ℕ) (g : GFile) (b : ℕ) (bs : List ℕ)
      → determine_nodo e s.tabla path ≡ some n
      → get_elem? s.tabla n ≡ some g
      → s.escribiendo path ≡ false
      → Cabe e s g off (length (b ∷ bs))
      → escribir_archivo e (suc fuel) (b ∷ bs) path (length (b ∷ bs)) off s
        ≡ ok (pos (length (b ∷ bs))) (escrito s n g path off (b ∷ bs))
  unfolding escribir_archivo terminar_escritura lock_path unlock_path nodo_buscado ◌>>=◌ and_then
      pure leer nodo o_falla cambiar cambiar_nodo
  escribir_archivo-run fuel s path n off g b bs hn hg hm c =
      let chico =
        leb-false 4194304000 (g.file_size + length (b ∷ bs)) (omega (arith, c.corto, c.parcial)) in
      let t : Disco = record s {
        escribiendo = λ p. if str_eq p path then true else s.escribiendo p;
      } in
      let r = escribir_desde-run fuel t n off g b bs hg (record {
        algo = c.algo;
        parcial = c.parcial;
        corto = c.corto;
        dentro = c.dentro;
        espacio = c.espacio;
        bloque = c.bloque;
        disco = c.disco;
        tras_la_tabla = c.tras_la_tabla;
        aparte = c.aparte;
      }) in
      let nuevo = record g { file_size = tamanio_nuevo g off (length (b ∷ bs)) } in
      rw hn (
        rw hm (
          rw hg (
            rw chico (
              rw r (
                rw (get-set s.tabla n g nuevo hg) (
                  ap
                    (λ l.
                      ok (pos (length (b ∷ bs)))
                        (record (escrito s n g path off (b ∷ bs)) { tabla = l }))
                    (set-set s.tabla n nuevo
                      (con_tamanio g (tamanio_nuevo g off (length (b ∷ bs))) s.reloj))))))))

  -- The blocks of pointers that a read of the bytes looks in are as they were.
  punteros-escrito :
      (s : Disco) (n off q j : ℕ) (g : GFile) (path : String) (bs : List ℕ)
      → Cabe e s g off (length bs)
      → q * fila < off + length bs
      → off ≤ q * fila + fila
      → j < 1024
      → punteros (escrito s n g path off bs).datos (g.indirect_blocks_array q) j
        ≡ punteros s.datos (g.indirect_blocks_array q) j
  punteros-escrito s n off q j g path bs c h h' hj =
      punteros-copiar_en s.datos bs (bloque_del_dato s g off) (off % bloque_size)
        (g.indirect_blocks_array q) j c.bloque hj (c.aparte q h h')

  copiar-escrito :
      (s : Disco) (n off : ℕ) (g : GFile) (path : String) (bs : List ℕ) (z : ℕ)
      → Cabe e s g off (length bs)
      → copiar_de
          (byte_del_archivo (escrito s n g path off bs) (con_tamanio g z s.reloj))
          off
          (length bs)
        ≡ bs
  copiar-escrito s n off g path bs z k =
      let t = escrito s n g path off bs in
      let h = k.bloque in
      copiar_de-same (byte_del_archivo t (con_tamanio g z s.reloj)) t.datos off (lugar_de s g off)
        (length bs)
        (λ j hj.
          let a : puntero_de (off + j) ≡ puntero_de off = omega (arith, h, hj) in
          let b : dato_de (off + j) ≡ dato_de off = omega (arith, h, hj) in
          let c : (off + j) % bloque_size ≡ off % bloque_size + j = omega (arith, h, hj) in
          let m : (p : ℕ)
              → direccion p (off % bloque_size + j) ≡ direccion p (off % bloque_size) + j =
            λ p. omega arith in
          let w =
            punteros-escrito s n off (puntero_de off) (dato_de off) g path bs k
              (omega (arith, k.algo)) (omega arith) (omega arith) in
          rw (byte_del_archivo, a)
            (rw b (
              rw c (
                ap (λ p. t.datos (direccion p (off % bloque_size + j))) w
                ∙ ap t.datos (m (bloque_del_dato s g off))))))
      ∙ copiar_de-copiar_en bs s.datos (lugar_de s g off)

-- A write, and a read of what was written.
pub record Guardado (e : Entorno) (fuel : ℕ) (s : Disco) (path : String) (off : ℕ) (bs : List ℕ)
    : Type 0 where
  pub disco : Disco
  pub escribe : escribir_archivo e fuel bs path (length bs) off s ≡ ok (pos (length bs)) disco
  pub lee : leer_archivo e path (length bs) off disco ≡ ok (length bs, bs) disco
  pub libre : disco.escribiendo path ≡ false
  pub fecha :
      (n : ℕ) × (g : GFile) × (determine_nodo e disco.tabla path ≡ some n)
      × (get_elem? disco.tabla n ≡ some g)
      × (g.modify_date ≡ s.reloj)

module _ (e : Entorno) where
  -- Writing bytes in a file that a path names, and reading them back. Where the mutex of the path is
  -- free, the bytes are some but less than a block, they start no later than the end of the file, fit in
  -- what its last block has left and in the block they start in, the file is below 2^31 bytes, the block
  -- is in the disk after the table of nodes and is none of the blocks of pointers that the read looks in,
  -- and what those name is in the disk: one turn of the loop is enough for escribir_archivo to answer the
  -- number of the bytes and to unlock the mutex, the file then has the date of the write, and leer_archivo
  -- at the same offset answers that number and those bytes.
  pub escribir_archivo-leer_archivo :
      (fuel : ℕ) (s : Disco) (path : String) (n off : ℕ) (g : GFile) (bs : List ℕ)
      → determine_nodo e s.tabla path ≡ some n
      → get_elem? s.tabla n ≡ some g
      → s.escribiendo path ≡ false
      → Cabe e s g off (length bs)
      → Alcanzable e s g off (length bs)
      → Guardado e (suc fuel) s path off bs
  escribir_archivo-leer_archivo fuel s path n off g [] hn hg hm c hd =
      absurd (omega (arith, c.algo))
  escribir_archivo-leer_archivo fuel s path n off g (b ∷ bs) hn hg hm c hd =
      let ds = b ∷ bs in
      let l = length ds in
      let z = tamanio_nuevo g off l in
      let t = escrito s n g path off ds in
      let g' = con_tamanio g z s.reloj in
      let x = c.corto in
      let y = c.dentro in
      let v = c.parcial in
      let lz : off < z = ground arith in
      let la : a_leer z l off ≡ l = ground arith in
      let lc : a_copiar l ≡ l = ground arith in
      let nt : determine_nodo e t.tabla path ≡ some n =
        determine_nodo-same g z s.reloj e n s.tabla path hg ∙ hn in
      let gt : get_elem? t.tabla n ≡ some g' = get-set s.tabla n g g' hg in
      let r =
        leer_archivo-lem e path n l off t g' nt gt
          (rw la (λ q h h'. record {
            entrada = (hd q h h').entrada;
            bloques = λ j hj.
                subst (λ b. direccion b bloque_size ≤ e.disk_size)
                  (sym (punteros-escrito e s n off q j g path ds c h h' hj))
                  ((hd q h h').bloques j hj);
          }))
          c.algo lz (omega (arith, v)) (omega (arith, x, y)) (rw la (rw lc c.bloque))
          (rw la (omega (arith, x, y, v))) in
      record {
        disco = t;
        escribe = escribir_archivo-run e fuel s path n off g b bs hn hg hm c;
        lee =
            r
            ∙ (λ i. ok (la i, copiar_de (byte_del_archivo t g') off (la i)) t)
            ∙ ap (λ w. ok (l, w) t) (copiar-escrito e s n off g path ds z c);
        libre = rw (eq_refl path) refl;
        fecha = (n, g', nt, gt, refl);
      }
