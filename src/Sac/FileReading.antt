-- ===== src/Sac/FileReading.antt =====
-- leer_archivo of filesystem/sac_handlers.c against the bytes of the file.
use Prim.Native.String.{String}
use tp_sistemas_operativos_l.Common.{
  ℕ, zero, suc, ◌+◌, ◌-◌, ◌*◌, ◌%◌, ◌^◌, ◌≤◌, ◌<◌, ◌≡◌, refl, sym, ap, ◌∙◌, true, false, some, ◌++◌,
  ◌==◌, ltb, leb, leb→le, ltb→lt, Bool-cases, inl, inr, get_elem?, arith,
}
use tp_sistemas_operativos_l.Sac.State.{direccion, GFile, Entorno, Disco, bloque_size, blkindirect}
use tp_sistemas_operativos_l.Sac.Monad.{ok, pure, ◌>>=◌, and_then, leer, nodo, o_falla}
use tp_sistemas_operativos_l.Sac.Search.{determine_nodo}
use tp_sistemas_operativos_l.Sac.Data.{
  a_copiar, a_leer, acceso, nodo_buscado, leer_bloques, leer_archivo,
}
use tp_sistemas_operativos_l.Sac.FileBytes.{
  byte_de_bloque, byte_del_archivo, copiar_de-append, copiar-fila, BloquesEnDisco, leer_datos-ends,
  leer_datos-continues,
}
use tp_sistemas_operativos_l.Muse.Heap.{copiar_de}

-- What leer_archivo reads of the disk for a block of pointers of a file is in the disk.
pub record EnDisco (e : Entorno) (s : Disco) (g : GFile) (q : ℕ) : Type 0 where
  pub entrada :
      direccion (g.indirect_blocks_array q) (4 * g.indirect_blocks_array q) + 4 ≤ e.disk_size
  pub bloques : BloquesEnDisco e s (g.indirect_blocks_array q)

-- The bytes that one block of pointers holds.
abbrev pub fila : ℕ
fila = bloque_size * 1024

-- What leer_archivo reads of the disk for `tam` bytes from `off` on: the blocks of pointers that hold
-- them, and the one before if `off` is where one starts.
abbrev pub Alcanzable : Entorno → Disco → GFile → ℕ → ℕ → Type 0
Alcanzable e s g off tam = (q : ℕ) → q * fila < off + tam → off ≤ q * fila + fila → EnDisco e s g q

leb-true : (a b : ℕ) → a ≤ b → leb a b ≡ true
leb-true a b h = ground arith

leb-false : (a b : ℕ) → b < a → leb a b ≡ false
leb-false a b h = ground arith

module _ (e : Entorno) where
  -- A read that stays in blocks of data: the part of the turn that it starts in has no end of a block.
  leer_bloques-lem :
      (k q off tam : ℕ) (s : Disco) (g : GFile)
      → Alcanzable e s g (q * fila + off) tam
      → off % bloque_size + a_copiar tam ≤ bloque_size
      → off + tam ≤ fila * k
      → 0 < tam
      → leer_bloques e k q g off tam s
        ≡ ok (copiar_de (byte_del_archivo s g) (q * fila + off) tam) s
  unfolding leer_bloques ◌>>=◌ and_then pure acceso
  leer_bloques-lem zero q off tam s g hd hc ht hp = absurd (omega (arith, ht, hp))
  leer_bloques-lem (suc k) q off tam s g hd hc ht hp = elim (Bool-cases (ltb fila off)) [
    | inl m ↦
        let lo = ltb→lt fila off m in
        let w : (off - fila) % bloque_size ≡ off % bloque_size = omega (arith, lo) in
        let z : suc q * fila + (off - fila) ≡ q * fila + off = omega (arith, lo) in
        rw m (
          leer_bloques-lem k (suc q) (off - fila) tam s g
            (λ p h h'. hd p (omega (arith, h, lo)) (omega (arith, h', lo))) (omega (arith, hc, w))
            (omega (arith, ht, lo)) hp
          ∙ ap (λ x. ok (copiar_de (byte_del_archivo s g) x tam) s) z)
    | inr m ↦
        let lo : off ≤ fila = ground arith in
        let d = hd q (omega (arith, hp)) (omega (arith, lo)) in
        let b = g.indirect_blocks_array q in
        let v = leb-true (direccion b (4 * b) + 4) e.disk_size d.entrada in
        let c = byte_de_bloque s b in
        let cero : 0 * bloque_size + off ≡ off = omega arith in
        elim (Bool-cases (leb (off + tam) fila)) [
          | inl n ↦
              let hn = leb→le (off + tam) fila n in
              let r =
                leer_datos-ends e 1024 0 b off tam s d.bloques (omega arith) hc hn hp
                ∙ ap (λ x. ok (0, 0, copiar_de c x tam) s) cero in
              rw m (rw v (rw r (ap (λ x. ok x s) (copiar-fila s g q off tam hn))))
          | inr n ↦
              let hn : fila < off + tam = ground arith in
              let r =
                leer_datos-continues e 1024 0 b off tam s d.bloques (omega arith) hc lo hn
                ∙ ap (λ x. ok (0, (off + tam) - fila, copiar_de c x (fila - off)) s) cero in
              let y : ((off + tam) - fila == 0) ≡ false = ground arith in
              let i =
                leer_bloques-lem k (suc q) 0 ((off + tam) - fila) s g
                  (λ p h h'. hd p (omega (arith, h, hn)) (omega (arith, h', lo))) (ground arith)
                  (omega (arith, ht, hn)) (omega (arith, hn)) in
              let z : suc q * fila + 0 ≡ q * fila + off + (fila - off) = omega (arith, lo) in
              let u : (fila - off) + ((off + tam) - fila) ≡ tam = omega (arith, lo, hn) in
              let f = byte_del_archivo s g in
              rw m (
                rw v (
                  rw r (
                    rw y (
                      rw i (
                        ap (λ x. ok x s)
                          ((λ t.
                              copiar-fila s g q off (fila - off) (omega (arith, lo)) t
                              ++ copiar_de f (z t) ((off + tam) - fila))
                            ∙ sym (
                                copiar_de-append f (q * fila + off) (fila - off)
                                  ((off + tam) - fila))
                            ∙ ap (copiar_de f (q * fila + off)) u))))))
        ]
  ]

  -- Reading `size` bytes from `offset`, both below 2^32, of a file that a path names, where the bytes to
  -- read, which are `size` of them or those that the file still has, are more than none, lie below the
  -- 1000 blocks of pointers of 1024 blocks each, and either start at a multiple of BLOQUE_SIZE or end in
  -- the block they start in, and where what the blocks of pointers that are read name is in the disk: leer_archivo
  -- answers the number of the bytes, fills the buffer with the bytes of the file one by one, as
  -- setear_posicion finds each, and changes nothing.
  pub leer_archivo-lem :
      (path : String) (n size offset : ℕ) (s : Disco) (g : GFile)
      → determine_nodo e s.tabla path ≡ some n
      → get_elem? s.tabla n ≡ some g
      → Alcanzable e s g offset (a_leer g.file_size size offset)
      → 0 < size
      → offset < g.file_size
      → size < 2 ^ 32
      → offset < 2 ^ 32
      → offset % bloque_size + a_copiar (a_leer g.file_size size offset) ≤ bloque_size
      → offset + a_leer g.file_size size offset ≤ bloque_size * 1024 * blkindirect
      → leer_archivo e path size offset s
        ≡ ok
            (
              a_leer g.file_size size offset,
              copiar_de (byte_del_archivo s g) offset (a_leer g.file_size size offset),
            )
            s
  unfolding leer_archivo ◌>>=◌ and_then pure leer nodo o_falla nodo_buscado
  leer_archivo-lem path n size offset s g hn hg hd hs ho hs32 ho32 hc ht =
      let r =
        leer_bloques-lem blkindirect 0 offset (a_leer g.file_size size offset) s g
          (λ q h h'. hd q (omega (arith, h)) (omega (arith, h'))) hc ht (ground arith)
        ∙ ap (λ x. ok (copiar_de (byte_del_archivo s g) x (a_leer g.file_size size offset)) s)
            (omega arith) in
      rw hn (rw hg (rw (leb-false g.file_size offset ho) (rw r refl)))
