-- ===== src/Sac/FileBytes.antt =====
-- The bytes of a file, one by one, against the loops of leer_archivo of filesystem/sac_handlers.c.
use tp_sistemas_operativos_l.Common.{
  ℕ, zero, suc, ◌+◌, ◌-◌, ◌*◌, ◌/◌, ◌%◌, ◌≤◌, ◌<◌, ◌≡◌, refl, sym, ap, ◌∙◌, true, false, ◌∷◌, ◌++◌,
  ◌==◌, leb, leb→le, if◌then◌else◌, Bool-cases, inl, inr, arith,
}
use tp_sistemas_operativos_l.Sac.State.{punteros, direccion, GFile, Entorno, Disco, bloque_size}
use tp_sistemas_operativos_l.Sac.Monad.{ok, pure, ◌>>=◌, and_then, leer}
use tp_sistemas_operativos_l.Sac.Blocks.{puntero_de, dato_de}
use tp_sistemas_operativos_l.Sac.Data.{a_copiar, acceso, copiar_del_disco, leer_datos}
use tp_sistemas_operativos_l.Muse.Heap.{copiar_de}

-- Byte i of the file that a block of pointers holds.
abbrev pub byte_de_bloque : Disco → ℕ → ℕ → ℕ
byte_de_bloque s b i = s.datos (direccion (punteros s.datos b (i / bloque_size)) (i % bloque_size))

-- Byte i of a file: the block of pointers and the entry of it that setear_posicion gives.
abbrev pub byte_del_archivo : Disco → GFile → ℕ → ℕ
byte_del_archivo s g i = s.datos (
    direccion (punteros s.datos (g.indirect_blocks_array (puntero_de i)) (dato_de i))
      (i % bloque_size))

pub copiar_de-append :
    (f : ℕ → ℕ) (i m n : ℕ) → copiar_de f i (m + n) ≡ copiar_de f i m ++ copiar_de f (i + m) n
unfolding copiar_de
copiar_de-append f i zero n =
    let p : i ≡ i + 0 = omega arith in
    let q : 0 + n ≡ n = omega arith in λ t. copiar_de f (p t) (q t)
copiar_de-append f i (suc m) n =
    let p : suc m + n ≡ suc (m + n) = omega arith in
    let q : suc i + m ≡ i + suc m = omega arith in
    ap (copiar_de f i) p
    ∙ ap (λ z. f i ∷ z)
        (copiar_de-append f (suc i) m n ∙ ap (λ z. copiar_de f (suc i) m ++ copiar_de f z n) q)

-- A block, and what follows it.
juntar :
    (f : ℕ → ℕ) (num off n m : ℕ)
    → off ≡ 0
    → bloque_size + n ≡ m
    → copiar_de f (num * bloque_size + off) bloque_size ++ copiar_de f (suc num * bloque_size + 0) n
      ≡ copiar_de f (num * bloque_size + off) m
juntar f num off n m ho hm =
    let v : suc num * bloque_size + 0 ≡ num * bloque_size + off + bloque_size = omega (arith, ho) in
    ap (λ i. copiar_de f (num * bloque_size + off) bloque_size ++ copiar_de f i n) v
    ∙ sym (copiar_de-append f (num * bloque_size + off) bloque_size n)
    ∙ ap (copiar_de f (num * bloque_size + off)) hm

pub copiar_de-same :
    (f g : ℕ → ℕ) (i k n : ℕ)
    → ((j : ℕ) → j < n → f (i + j) ≡ g (k + j))
    → copiar_de f i n ≡ copiar_de g k n
unfolding copiar_de
copiar_de-same f g i k zero h = refl
copiar_de-same f g i k (suc n) h =
    let a : f i ≡ g k = ap f (omega arith) ∙ h 0 (omega arith) ∙ ap g (omega arith) in
    let b =
      copiar_de-same f g (suc i) (suc k) n
        (λ j hj. ap f (omega arith) ∙ h (suc j) (omega (arith, hj)) ∙ ap g (omega arith)) in
    λ t. a t ∷ b t

-- A copy inside a block.
pub copiar-bloque :
    (s : Disco) (b num o n : ℕ)
    → o + n ≤ bloque_size
    → copiar_de s.datos (direccion (punteros s.datos b num) o) n
      ≡ copiar_de (byte_de_bloque s b) (num * bloque_size + o) n
copiar-bloque s b num o n h =
    copiar_de-same s.datos (byte_de_bloque s b) (direccion (punteros s.datos b num) o)
      (num * bloque_size + o) n
      (λ j hj.
        let p : (num * bloque_size + o + j) / bloque_size ≡ num = omega (arith, h, hj) in
        let q : (num * bloque_size + o + j) % bloque_size ≡ o + j = omega (arith, h, hj) in
        rw (byte_de_bloque, p) (rw q (ap s.datos (omega arith))))

-- A copy inside the part of a file that a block of pointers holds.
pub copiar-fila :
    (s : Disco) (g : GFile) (q o n : ℕ)
    → o + n ≤ bloque_size * 1024
    → copiar_de (byte_de_bloque s (g.indirect_blocks_array q)) o n
      ≡ copiar_de (byte_del_archivo s g) (q * (bloque_size * 1024) + o) n
copiar-fila s g q o n h =
    copiar_de-same (byte_de_bloque s (g.indirect_blocks_array q)) (byte_del_archivo s g) o
      (q * (bloque_size * 1024) + o) n
      (λ j hj.
        let i = q * (bloque_size * 1024) + o + j in
        let a : puntero_de i ≡ q = omega (arith, h, hj) in
        let b : dato_de i ≡ (o + j) / bloque_size = omega (arith, h, hj) in
        let c : i % bloque_size ≡ (o + j) % bloque_size = omega (arith, h, hj) in
        rw (byte_del_archivo, byte_de_bloque, a) (rw b (rw c refl)))

-- The blocks that an entry of the block of pointers `b` names are in the disk.
abbrev pub BloquesEnDisco : Entorno → Disco → ℕ → Type 0
BloquesEnDisco e s b =
    (j : ℕ) → j < 1024 → direccion (punteros s.datos b j) bloque_size ≤ e.disk_size

leb-true : (a b : ℕ) → a ≤ b → leb a b ≡ true
leb-true a b h = ground arith

leb-false : (a b : ℕ) → b < a → leb a b ≡ false
leb-false a b h = ground arith

module _ (e : Entorno) where
  pub copiar_del_disco-run :
      (s : Disco) (b num o n : ℕ)
      → BloquesEnDisco e s b
      → num < 1024
      → o + n ≤ bloque_size
      → copiar_del_disco e (direccion (punteros s.datos b num) o) n s
        ≡ ok (copiar_de (byte_de_bloque s b) (num * bloque_size + o) n) s
  unfolding copiar_del_disco acceso ◌>>=◌ and_then leer pure
  copiar_del_disco-run s b num o n hd hn h =
      let x = hd num hn in
      rw (leb-true (direccion (punteros s.datos b num) o + n) e.disk_size (omega (arith, x, h)))
        (rw (copiar-bloque s b num o n h) refl)

  -- A turn of the inner loop that copies.
  turno :
      (k num b off tam : ℕ) (s : Disco)
      → BloquesEnDisco e s b
      → num < 1024
      → off < bloque_size
      → off % bloque_size + a_copiar tam ≤ bloque_size
      → leer_datos e (suc k) num b off tam s ≡ (
          let bs = copiar_de (byte_de_bloque s b) (num * bloque_size + off) (a_copiar tam) in
          (if tam - a_copiar tam == 0 then pure (0, 0, bs) else (do
            r ← leer_datos e k (suc num) b 0 (tam - bloque_size)
            pure (r.0, r.1, bs ++ r.2)))
            s)
  unfolding leer_datos ◌>>=◌ and_then leer pure
  turno k num b off tam s hd hn ho hc =
      let m : off % bloque_size ≡ off = omega (arith, ho) in
      let c : off + a_copiar tam ≤ bloque_size = omega (arith, m, hc) in
      rw (leb-false bloque_size off ho)
        (rw (copiar_del_disco-run s b num off (a_copiar tam) hd hn c) refl)

  -- A read that ends in the block of pointers.
  pub leer_datos-ends :
      (k num b off tam : ℕ) (s : Disco)
      → BloquesEnDisco e s b
      → num + k ≤ 1024
      → off % bloque_size + a_copiar tam ≤ bloque_size
      → off + tam ≤ bloque_size * k
      → 0 < tam
      → leer_datos e k num b off tam s
        ≡ ok (0, 0, copiar_de (byte_de_bloque s b) (num * bloque_size + off) tam) s
  unfolding leer_datos ◌>>=◌ and_then leer pure
  leer_datos-ends zero num b off tam s hd hk hc ht hp = absurd (omega (arith, ht, hp))
  leer_datos-ends (suc k) num b off tam s hd hk hc ht hp = elim (Bool-cases (leb bloque_size off)) [
    | inl m ↦
        let lo = leb→le bloque_size off m in
        let w : (off - bloque_size) % bloque_size ≡ off % bloque_size = omega (arith, lo) in
        let z : suc num * bloque_size + (off - bloque_size) ≡ num * bloque_size + off =
          omega (arith, lo) in
        rw m (
          leer_datos-ends k (suc num) b (off - bloque_size) tam s hd (omega (arith, hk))
            (omega (arith, hc, w)) (omega (arith, ht, lo)) hp
          ∙ ap (λ x. ok (0, 0, copiar_de (byte_de_bloque s b) x tam) s) z)
    | inr m ↦
        let lo : off < bloque_size = ground arith in
        turno k num b off tam s hd (omega (arith, hk)) lo hc
        ∙ elim (Bool-cases (leb tam bloque_size)) [
          | inl n ↦
              let x : a_copiar tam ≡ tam = ground arith in
              let y : (tam - tam == 0) ≡ true = ground arith in rw x (rw y refl)
          | inr n ↦
              let x : a_copiar tam ≡ bloque_size = ground arith in
              let y : (tam - bloque_size == 0) ≡ false = ground arith in
              let o : off ≡ 0 = omega (arith, lo, hc, x) in
              let r =
                leer_datos-ends k (suc num) b 0 (tam - bloque_size) s hd (omega (arith, hk))
                  (ground arith) (omega (arith, ht, o)) (ground arith) in
              let z : bloque_size + (tam - bloque_size) ≡ tam = ground arith in
              rw x (
                rw y (
                  rw r (
                    ap (λ l. ok (0, 0, l) s)
                      (juntar (byte_de_bloque s b) num off (tam - bloque_size) tam o z))))
        ]
  ]

  -- A read that goes on after the block of pointers.
  pub leer_datos-continues :
      (k num b off tam : ℕ) (s : Disco)
      → BloquesEnDisco e s b
      → num + k ≤ 1024
      → off % bloque_size + a_copiar tam ≤ bloque_size
      → off ≤ bloque_size * k
      → bloque_size * k < off + tam
      → leer_datos e k num b off tam s
        ≡ ok
            (
              0,
              (off + tam) - bloque_size * k,
              copiar_de (byte_de_bloque s b) (num * bloque_size + off) (bloque_size * k - off),
            )
            s
  unfolding leer_datos ◌>>=◌ and_then leer pure copiar_de
  leer_datos-continues zero num b off tam s hd hk hc ho ht =
      let x : off ≡ 0 = omega (arith, ho) in
      let y : tam ≡ (off + tam) - bloque_size * 0 = omega (arith, ho) in
      let z : 0 ≡ bloque_size * 0 - off = omega arith in
      λ t. ok (x t, y t, copiar_de (byte_de_bloque s b) (num * bloque_size + off) (z t)) s
  leer_datos-continues (suc k) num b off tam s hd hk hc ho ht =
      elim (Bool-cases (leb bloque_size off)) [
        | inl m ↦
            let lo = leb→le bloque_size off m in
            let w : (off - bloque_size) % bloque_size ≡ off % bloque_size = omega (arith, lo) in
            let z : suc num * bloque_size + (off - bloque_size) ≡ num * bloque_size + off =
              omega (arith, lo) in
            let y : (off - bloque_size + tam) - bloque_size * k
                ≡ (off + tam) - bloque_size * suc k =
              omega (arith, lo) in
            let v : bloque_size * k - (off - bloque_size) ≡ bloque_size * suc k - off =
              omega (arith, lo) in
            rw m (
              leer_datos-continues k (suc num) b (off - bloque_size) tam s hd (omega (arith, hk))
                (omega (arith, hc, w)) (omega (arith, ho, lo)) (omega (arith, ht, lo))
              ∙ (λ t. ok (0, y t, copiar_de (byte_de_bloque s b) (z t) (v t)) s))
        | inr m ↦
            let lo : off < bloque_size = ground arith in
            let o' : off ≡ 0 = ground arith in
            let x : a_copiar tam ≡ bloque_size = ground arith in
            let y : (tam - bloque_size == 0) ≡ false = ground arith in
            let r =
              leer_datos-continues k (suc num) b 0 (tam - bloque_size) s hd (omega (arith, hk))
                (ground arith) (omega arith) (omega (arith, ht, o')) in
            let z : bloque_size + (bloque_size * k - 0) ≡ bloque_size * suc k - off =
              omega (arith, o') in
            let v : (0 + (tam - bloque_size)) - bloque_size * k
                ≡ (off + tam) - bloque_size * suc k =
              omega (arith, ht, o') in
            turno k num b off tam s hd (omega (arith, hk)) lo hc
            ∙ rw x (
                rw y (
                  rw r (λ t.
                    ok
                      (
                        0,
                        v t,
                        juntar (byte_de_bloque s b) num off (bloque_size * k - 0)
                            (bloque_size * suc k - off) o' z t,
                      )
                      s)))
      ]
