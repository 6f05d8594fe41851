-- ===== src/Sac/Growth.antt =====
-- The edges of truncar_archivo: a growth that fits in the last block, and a size that does not change.
use tp_sistemas_operativos_l.Common.{
  ℕ, zero, suc, ◌-◌, ◌*◌, ◌%◌, ◌^◌, ◌≤◌, ◌<◌, ◌≡◌, refl, ◌≢◌, ◌⊎◌, inl, inr, true, false, some, ltb,
  lt→ltb, ◌==◌, ==_refl, length, set, get_elem?, arith, Bool-cases,
}
use tp_sistemas_operativos_l.Sac.State.{
  punteros, Entorno, Disco, GFile, bloque_size, punteros_a_bloques_datos,
}
use tp_sistemas_operativos_l.Sac.Monad.{
  F, ◌>>◌, ok, fault, ◌>>=◌, and_then, leer, cambiar, pure, fallar, o_falla, nodo, cambiar_nodo,
  lock_bitmap, unlock_bitmap, lock_nodos, unlock_nodos,
}
use tp_sistemas_operativos_l.Sac.Blocks.{
  contar_libres, limpiar_bit, cantidad_bloques_libres, setear_posicion, puntero_de, dato_de,
  escribir_puntero,
}
use tp_sistemas_operativos_l.Sac.Room.{ltb-false}
use tp_sistemas_operativos_l.Sac.Resize.{
  resta_size, espacio_en_bloque, menos_enospc, get_new_space, liberar_dato, liberar_hasta,
  borrar_hasta, delete_nodes_upto, truncar_nodo, truncar_archivo,
}

pub resta_size-below : (a b : ℕ) → a < b → resta_size a b ≡ 2 ^ 64 - (b - a)
resta_size-below a b h = ground arith

espacio-bound : (a : ℕ) → espacio_en_bloque a ≤ bloque_size
espacio-bound a = omega arith

module _ (e : Entorno) where
  get_new_space-refuses :
      (fuel n size : ℕ) (s : Disco) (g : GFile)
      → s.bloqueado_bitmap ≡ false
      → get_elem? s.tabla n ≡ some g
      → size < espacio_en_bloque g.file_size
      → contar_libres (e.inicio_datos - 1) s.bitmap * bloque_size < 2 ^ 63
      → get_new_space e fuel n size s ≡ ok menos_enospc (record s { bloqueado_bitmap = false })
  unfolding get_new_space cantidad_bloques_libres nodo leer ◌>>=◌ and_then pure o_falla lock_bitmap
      unlock_bitmap cambiar
  get_new_space-refuses fuel n size s g hb hg hs hl =
      let r = resta_size-below size (espacio_en_bloque g.file_size) hs in
      let c =
        lt→ltb (contar_libres (e.inicio_datos - 1) s.bitmap * bloque_size)
          (2 ^ 64 - (espacio_en_bloque g.file_size - size))
          (omega (arith, hl, espacio-bound g.file_size)) in
      rw hg (rw hb (rw r (rw c refl)))

  -- Growing a file by fewer bytes than its last block has left, on a disk with any free space (below
  -- 2^63 bytes) and nothing locked: truncar_archivo answers -ENOSPC, and sets the new size all the
  -- same.
  pub truncar_archivo-refuses :
      (fuel n size : ℕ) (s : Disco) (g : GFile)
      → s.bloqueado_bitmap ≡ false
      → s.bloqueado_nodos ≡ false
      → get_elem? s.tabla n ≡ some g
      → g.file_size < size
      → size - g.file_size < espacio_en_bloque g.file_size
      → contar_libres (e.inicio_datos - 1) s.bitmap * bloque_size < 2 ^ 63
      → truncar_archivo e fuel (some n) size s
        ≡ ok menos_enospc (record s {
          tabla = set s.tabla n (record g { file_size = size });
          bloqueado_bitmap = false;
          bloqueado_nodos = false;
        })
  unfolding truncar_archivo truncar_nodo nodo leer ◌>>=◌ and_then pure o_falla lock_nodos
      unlock_nodos cambiar cambiar_nodo
  truncar_archivo-refuses fuel n size s g hb hn hg hlt hs hl =
      let r = get_new_space-refuses fuel n (size - g.file_size) s g hb hg hs hl in
      rw hg (rw (lt→ltb g.file_size size hlt) (rw r (rw hn (rw hg refl))))

-- The disk after one block of data is freed.
abbrev pub sin_dato : ℕ → ℕ → Disco → Disco
sin_dato b p s = record s {
  datos = escribir_puntero s.datos b p 0;
  bitmap = set s.bitmap (punteros s.datos b p) false;
  bloqueado_bitmap = false;
  bloqueado_nodos = false;
}

liberar_dato-cases :
    (b p : ℕ) (s : Disco)
    → s.bloqueado_bitmap ≡ false
    → s.bloqueado_nodos ≡ false
    → (liberar_dato b p s ≡ fault) ⊎ (liberar_dato b p s ≡ ok tt (sin_dato b p s))
unfolding liberar_dato leer ◌>>=◌ and_then lock_nodos unlock_nodos lock_bitmap unlock_bitmap cambiar
    limpiar_bit fallar
liberar_dato-cases b p s hb hn = elim (Bool-cases (ltb (punteros s.datos b p) (length s.bitmap))) [
  | inl m ↦ inr (rw hn (rw hb (rw m refl)))
  | inr m ↦ inl (rw hn (rw hb (rw m refl)))
]

liberar_dato-fault :
    (b p : ℕ) (s : Disco) (m : F (Unit {0}))
    → s.bloqueado_bitmap ≡ false
    → s.bloqueado_nodos ≡ false
    → m (sin_dato b p s) ≡ fault
    → (liberar_dato b p >> m) s ≡ fault
unfolding ◌>>=◌ and_then
liberar_dato-fault b p s m hb hn h = elim (liberar_dato-cases b p s hb hn) [
  | inl q ↦ rw q refl
  | inr q ↦ rw q h
]

eq_false : (a b : ℕ) → a < b → (a == b) ≡ false
eq_false a b h = ground arith

liberar_hasta-fault :
    (b upto p : ℕ) (s : Disco)
    → s.bloqueado_bitmap ≡ false
    → s.bloqueado_nodos ≡ false
    → p < upto
    → liberar_hasta b upto p s ≡ fault
unfolding liberar_hasta fallar
liberar_hasta-fault b upto zero s hb hn h =
    rw (eq_false 0 upto h) (liberar_dato-fault b 0 s fallar hb hn refl)
liberar_hasta-fault b upto (suc p) s hb hn h = rw (eq_false (suc p) upto h) (
    liberar_dato-fault b (suc p) s (liberar_hasta b upto p) hb hn
      (liberar_hasta-fault b upto p (sin_dato b (suc p) s) refl refl (omega (arith, h))))

borrar_hasta-fault :
    (n q upto p : ℕ) (s : Disco) (g : GFile)
    → s.bloqueado_bitmap ≡ false
    → s.bloqueado_nodos ≡ false
    → get_elem? s.tabla n ≡ some g
    → p < upto
    → borrar_hasta n q upto p (suc q) s ≡ fault
unfolding borrar_hasta nodo leer ◌>>=◌ and_then pure o_falla
borrar_hasta-fault n q upto p s g hb hn hg h =
    rw (eq_false p upto h)
      (rw hg (rw (==_refl q) (liberar_hasta-fault (g.indirect_blocks_array q) upto p s hb hn h)))

pub setear-ok :
    (o : ℕ) (s : Disco) → o < 2 ^ 31 → setear_posicion o s ≡ ok (puntero_de o, dato_de o) s
unfolding setear_posicion pure
setear-ok o s h = rw (lt→ltb o (2 ^ 31) h) refl

module _ (e : Entorno) where
  -- Truncating a file to the size that it has, where the size is a multiple of BLOQUE_SIZE but not of
  -- 1024 blocks, with nothing locked: delete_nodes_upto starts below the position where it should
  -- stop and runs down out of the array.
  pub truncar_archivo-same_size :
      (fuel n : ℕ) (s : Disco) (g : GFile)
      → s.bloqueado_bitmap ≡ false
      → s.bloqueado_nodos ≡ false
      → get_elem? s.tabla n ≡ some g
      → g.file_size < 2 ^ 31
      → g.file_size % bloque_size ≡ 0
      → g.file_size % (bloque_size * punteros_a_bloques_datos) ≢ 0
      → truncar_archivo e fuel (some n) g.file_size s ≡ fault
  unfolding truncar_archivo truncar_nodo nodo leer ◌>>=◌ and_then pure o_falla delete_nodes_upto
  truncar_archivo-same_size fuel n s g hb hn hg hs hz hk =
      let o = g.file_size in
      let a : (o % (bloque_size * punteros_a_bloques_datos) == 0) ≡ false = ground arith in
      let b : (o % bloque_size == 0) ≡ true = ground arith in
      let d : dato_de o - 1 < dato_de o = ground arith in
      rw hg (
        rw (ltb-false o o (omega arith)) (
          rw (setear-ok o s hs) (
            rw hg (
              rw (setear-ok o s hs) (
                rw a (
                  rw b (
                    rw
                      (borrar_hasta-fault n (puntero_de o) (dato_de o) (dato_de o - 1) s g hb hn hg
                        d)
                      refl)))))))
