-- ===== src/Sac/WriteErrors.antt =====
-- The writes of escribir_archivo of filesystem/sac_handlers.c that fail or do not end.
use Prim.Native.String.{String}
use text.Mathlib.Text.{◌==◌ as str_eq}
use text.Mathlib.TextPositions.{eq_refl}
use tp_sistemas_operativos_l.Common.{
  ℕ, zero, suc, ◌+◌, ◌-◌, ◌%◌, ◌^◌, ◌≤◌, ◌<◌, ◌≡◌, ◌≢◌, refl, ℤ, pos, true, false, ◌&&◌, not, some,
  List, ◌==◌, leb, if◌then◌else◌, length, set, get-set, get_elem?, arith,
}
use tp_sistemas_operativos_l.Sac.State.{punteros, direccion, GFile, Entorno, Disco, bloque_size}
use tp_sistemas_operativos_l.Sac.Monad.{
  ok, deadlock, agotado, pure, ◌>>=◌, and_then, leer, cambiar, nodo, cambiar_nodo, o_falla,
  sin_fuel, lock_bitmap, unlock_bitmap,
}
use tp_sistemas_operativos_l.Sac.Search.{determine_nodo}
use tp_sistemas_operativos_l.Sac.Blocks.{
  puntero_de, dato_de, contar_libres, cantidad_bloques_libres,
}
use tp_sistemas_operativos_l.Sac.Growth.{setear-ok}
use tp_sistemas_operativos_l.Sac.Resize.{menos_enospc}
use tp_sistemas_operativos_l.Sac.Data.{
  acceso, nodo_buscado, lock_path, copiar_al_disco, espacio_libre, crecer, tamanio_maximo_teorico,
  menos_efbig, sin_espacio, bloque_nuevo, bloque_propio, buscar_lugar, escribir_en_lugar,
  escribir_desde, terminar_escritura, escribir_archivo,
}
use tp_sistemas_operativos_l.Sac.FileWriting.{lugar_de}
use tp_sistemas_operativos_l.Muse.Heap.{copiar_en}

leb-true : (a b : ℕ) → a ≤ b → leb a b ≡ true
leb-true a b h = ground arith

leb-false : (a b : ℕ) → b < a → leb a b ≡ false
leb-false a b h = ground arith

-- The disk with the mutex of a path locked.
abbrev pub tomado : Disco → String → Disco
tomado s path = record s { escribiendo = λ p. if str_eq p path then true else s.escribiendo p }

module _ (e : Entorno) where
  escribir_archivo-locked :
      (fuel : ℕ) (s : Disco) (path : String) (buffer : List ℕ) (size off : ℕ)
      → escribir_archivo e fuel buffer path size off (tomado s path) ≡ deadlock
  unfolding escribir_archivo ◌>>=◌ and_then leer lock_path
  escribir_archivo-locked fuel s path buffer size off = rw (eq_refl path) refl

  -- A write that would take a file that a path names to 4194304000 bytes or more, with the mutex of the
  -- path free: escribir_archivo answers -EFBIG, and any later write of that path deadlocks.
  pub escribir_archivo-too_big :
      (fuel fuel' : ℕ) (s : Disco) (path : String) (n size off size' off' : ℕ) (g : GFile)
      (buffer buffer' : List ℕ)
      → determine_nodo e s.tabla path ≡ some n
      → get_elem? s.tabla n ≡ some g
      → s.escribiendo path ≡ false
      → tamanio_maximo_teorico ≤ g.file_size + size
      → (t : Disco) × (escribir_archivo e fuel buffer path size off s ≡ ok menos_efbig t)
        × (escribir_archivo e fuel' buffer' path size' off' t ≡ deadlock)
  unfolding escribir_archivo ◌>>=◌ and_then leer lock_path nodo_buscado pure nodo o_falla
  escribir_archivo-too_big fuel fuel' s path n size off size' off' g buffer buffer' hn hg hm hs = (
    tomado s path,
    rw hn (rw hm (rw hg (rw (leb-true 4194304000 (g.file_size + size) hs) refl))),
    escribir_archivo-locked fuel' s path buffer' size' off',
  )

  bloque_nuevo-full :
      (s : Disco) (n : ℕ) (r : ℤ)
      → s.bloqueado_bitmap ≡ false
      → contar_libres (e.inicio_datos - 1) s.bitmap ≡ 0
      → bloque_nuevo e n r s ≡ ok sin_espacio (record s { bloqueado_bitmap = false })
  unfolding bloque_nuevo cantidad_bloques_libres lock_bitmap unlock_bitmap ◌>>=◌ and_then leer
      cambiar pure
  bloque_nuevo-full s n r hb hc = rw hb (rw hc refl)

  -- A write at the end of a file that a path names, on a disk without free blocks, where the file ends
  -- at the end of a block and is below 2^31 bytes, the data is some and below 2^31 bytes, and the
  -- mutexes of the path and of the bitmap are free: escribir_archivo answers -ENOSPC in its first turn,
  -- and any later write of that path deadlocks.
  pub escribir_archivo-full :
      (fuel fuel' : ℕ) (s : Disco) (path : String) (n tam size' off' : ℕ) (g : GFile)
      (buffer buffer' : List ℕ)
      → determine_nodo e s.tabla path ≡ some n
      → get_elem? s.tabla n ≡ some g
      → s.escribiendo path ≡ false
      → s.bloqueado_bitmap ≡ false
      → contar_libres (e.inicio_datos - 1) s.bitmap ≡ 0
      → g.file_size % bloque_size ≡ 0
      → g.file_size ≢ 0
      → g.file_size < 2 ^ 31
      → tam < 2 ^ 30
      → (t : Disco) × (escribir_archivo e (suc fuel) buffer path (suc tam) g.file_size s
          ≡ ok menos_enospc t)
        × (escribir_archivo e fuel' buffer' path size' off' t ≡ deadlock)
  unfolding escribir_archivo ◌>>=◌ and_then leer lock_path nodo_buscado pure nodo o_falla
      escribir_desde escribir_en_lugar buscar_lugar terminar_escritura
  escribir_archivo-full fuel fuel' s path n tam size' off' g buffer buffer' hn hg hm hb hc hz hp hs
        ht =
      let a : leb 4194304000 (g.file_size + suc tam) ≡ false =
        leb-false _ _ (omega (arith, hs, ht)) in
      let b : (leb (g.file_size + espacio_libre g.file_size) g.file_size && not (g.file_size == 0))
          ≡ true =
        ground arith in
      let r = bloque_nuevo-full (tomado s path) n (pos (suc tam)) hb hc in
      (
        record (tomado s path) { bloqueado_bitmap = false },
        rw hn (rw hm (rw hg (rw a (rw hg (rw b (rw r refl)))))),
        escribir_archivo-locked fuel' (record s { bloqueado_bitmap = false }) path buffer' size'
            off',
      )

  -- A turn that writes nothing.
  turno_vacio :
      (fuel : ℕ) (s : Disco) (n posicion off tam : ℕ) (g : GFile) (buffer : List ℕ) (r : ℤ)
      → get_elem? s.tabla n ≡ some g
      → g.file_size % bloque_size ≡ 0
      → g.file_size < 2 ^ 31
      → off < g.file_size
      → suc tam < bloque_size
      → posicion ≤ off % bloque_size
      → lugar_de s g off ≤ e.disk_size
      → escribir_desde e fuel n posicion off (suc tam) buffer r s ≡ agotado
  unfolding escribir_desde sin_fuel escribir_en_lugar buscar_lugar bloque_propio copiar_al_disco
      acceso crecer ◌>>=◌ and_then pure leer nodo o_falla cambiar cambiar_nodo copiar_en
  turno_vacio zero s n posicion off tam g buffer r hg hz hs ho ht hp hd = refl
  turno_vacio (suc fuel) s n posicion off tam g buffer r hg hz hs ho ht hp hd =
      let a : leb (g.file_size + espacio_libre g.file_size) off ≡ false = ground arith in
      let z : espacio_libre g.file_size ≡ 0 = ground arith in
      let g' = record g { file_size = (g.file_size + 0) % 2 ^ 32 } in
      let d = punteros s.datos (g.indirect_blocks_array (puntero_de off)) (dato_de off) in
      let t = record s { tabla = set s.tabla n g' } in
      let p : off + 0 ≡ off = omega arith in
      let q : suc tam - 0 ≡ suc tam = omega arith in
      let i : (g.file_size + 0) % 2 ^ 32 ≡ g.file_size = omega (arith, hs) in
      rw hg (
        rw a (
          rw (setear-ok off s (omega (arith, hs, ho))) (
            rw z (
              rw (leb-false bloque_size (suc tam) ht) (
                rw (leb-true (direccion d posicion + 0) e.disk_size (omega (arith, hd, hp))) (
                  rw (leb-false (suc tam) 0 (omega arith)) (
                    rw (leb-true 0 (length buffer) (omega arith)) (
                      rw hg (
                        rw p (
                          rw q (
                            turno_vacio fuel t n 0 off tam g' buffer r (get-set s.tabla n g g' hg)
                              (omega (arith, i, hz)) (omega (arith, i, hs)) (omega (arith, i, ho))
                              ht (omega arith) hd)))))))))))

  -- A write of less than a block that starts inside a file that a path names, where the size of the file
  -- is a multiple of BLOQUE_SIZE below 2^31, the mutex of the path is free, and the block is in the disk:
  -- no number of turns is enough for escribir_archivo to return.
  pub escribir_archivo-never_ends :
      (fuel : ℕ) (s : Disco) (path : String) (n off tam : ℕ) (g : GFile) (buffer : List ℕ)
      → determine_nodo e s.tabla path ≡ some n
      → get_elem? s.tabla n ≡ some g
      → s.escribiendo path ≡ false
      → g.file_size % bloque_size ≡ 0
      → g.file_size < 2 ^ 31
      → off < g.file_size
      → suc tam < bloque_size
      → lugar_de s g off ≤ e.disk_size
      → escribir_archivo e fuel buffer path (suc tam) off s ≡ agotado
  unfolding escribir_archivo ◌>>=◌ and_then leer lock_path nodo_buscado pure nodo o_falla
  escribir_archivo-never_ends fuel s path n off tam g buffer hn hg hm hz hs ho ht hd =
      let a : leb 4194304000 (g.file_size + suc tam) ≡ false =
        leb-false _ _ (omega (arith, hs, ht)) in
      rw hn (
        rw hm (
          rw hg (
            rw a (
              rw
                (turno_vacio fuel (tomado s path) n (off % bloque_size) off tam g buffer
                  (pos (suc tam)) hg hz hs ho ht (omega arith) hd)
                refl))))
