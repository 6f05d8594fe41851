-- ===== src/Sac/Room.antt =====
-- Taking blocks from the bitmap: get_bloque_vacio against the count of cantidad_bloques_libres.
use tp_sistemas_operativos_l.Common.{
  ℕ, ℤ, subst, ◌∙◌, zero, suc, sym, ◌+◌, ◌≢◌, ◌-◌, ◌≤◌, ◌<◌, ◌≡◌, refl, ap, ◌⊎◌, inl, inr, pos,
  negsuc, Bool, true, false, some, none, List, [], ◌∷◌, ltb, length, set, get_elem?, arith,
}
use tp_sistemas_operativos_l.Sac.State.{Entorno, Disco}
use tp_sistemas_operativos_l.Sac.Monad.{
  F, ok, deadlock, ◌>>=◌, and_then, leer, cambiar, pure, lock_bitmap, unlock_bitmap,
}
use tp_sistemas_operativos_l.Sac.Blocks.{
  en_cola, primer_libre, contar_libres, ocupar, get_bloque_vacio,
}

-- What the search from position k says of a list of bits.
pub record Hallado (k : ℕ) (bs : List Bool) : Type 0 where
  pub lugar : ℕ
  pub primero : primer_libre k bs ≡ some lugar
  pub desde : k ≤ lugar
  pub libre : get_elem? bs lugar ≡ some false
  pub resto : suc (contar_libres k (set bs lugar true)) ≡ contar_libres k bs

abbrev pub Busqueda : ℕ → List Bool → Type 0
Busqueda k bs = ((primer_libre k bs ≡ none) × (contar_libres k bs ≡ 0)) ⊎ Hallado k bs

-- A used bit in front.
tras_uno : (bs : List Bool) → Busqueda 0 bs → Busqueda 0 (true ∷ bs)
unfolding primer_libre contar_libres
tras_uno bs (inl (p, q)) = inl (ap (en_cola) p, q)
tras_uno bs (inr h) = inr record {
  lugar = suc h.lugar;
  primero = ap (en_cola) h.primero;
  desde = omega arith;
  libre = h.libre;
  resto = h.resto;
}

-- A bit that is skipped.
tras_salto : (k : ℕ) (b : Bool) (bs : List Bool) → Busqueda k bs → Busqueda (suc k) (b ∷ bs)
unfolding primer_libre contar_libres
tras_salto k b bs (inl (p, q)) = inl (ap (en_cola) p, q)
tras_salto k b bs (inr h) = inr record {
  lugar = suc h.lugar;
  primero = ap (en_cola) h.primero;
  desde = omega (arith, h.desde);
  libre = h.libre;
  resto = h.resto;
}

pub primer_libre-cases : (k : ℕ) (bs : List Bool) → Busqueda k bs
unfolding primer_libre contar_libres
primer_libre-cases k [] = inl (refl, refl)
primer_libre-cases zero (false ∷ bs) =
    inr record { lugar = 0; primero = refl; desde = omega arith; libre = refl; resto = refl }
primer_libre-cases zero (true ∷ bs) = tras_uno bs (primer_libre-cases 0 bs)
primer_libre-cases (suc k) (b ∷ bs) = tras_salto k b bs (primer_libre-cases k bs)

-- What get_bloque_vacio does to a disk with room.
pub record Toma (e : Entorno) (s : Disco) : Type 0 where
  pub bloque : ℕ
  pub de_datos : e.inicio_datos - 1 ≤ bloque
  pub estaba_libre : get_elem? s.bitmap bloque ≡ some false
  pub corre :
      get_bloque_vacio e s
      ≡ ok (pos bloque) (record s { bitmap = set s.bitmap bloque true; bloqueado_bitmap = false })
  pub queda_uno_menos :
      suc (contar_libres (e.inicio_datos - 1) (set s.bitmap bloque true))
      ≡ contar_libres (e.inicio_datos - 1) s.bitmap

pub ltb-false : (a b : ℕ) → b ≤ a → ltb a b ≡ false
ltb-false a b h = ground arith

module _ (e : Entorno) where
  Busqueda-Toma :
      (s : Disco)
      → s.bloqueado_bitmap ≡ false
      → e.inicio_datos - 1 ≤ length s.bitmap
      → 0 < contar_libres (e.inicio_datos - 1) s.bitmap
      → Busqueda (e.inicio_datos - 1) s.bitmap
      → Toma e s
  unfolding get_bloque_vacio ◌>>=◌ and_then leer lock_bitmap ocupar cambiar unlock_bitmap pure
  Busqueda-Toma s libre cabe hay (inl (p, q)) = absurd (omega (arith, hay, q))
  Busqueda-Toma s libre cabe hay (inr h) = record {
    bloque = h.lugar;
    de_datos = h.desde;
    estaba_libre = h.libre;
    corre = rw libre (rw (ltb-false _ _ cabe) (rw h.primero refl));
    queda_uno_menos = h.resto;
  }

  lleno_segun :
      (s : Disco)
      → s.bloqueado_bitmap ≡ false
      → e.inicio_datos - 1 ≤ length s.bitmap
      → contar_libres (e.inicio_datos - 1) s.bitmap ≡ 0
      → Busqueda (e.inicio_datos - 1) s.bitmap
      → get_bloque_vacio e s ≡ ok (negsuc 0) (record s { bloqueado_bitmap = true })
  unfolding get_bloque_vacio ◌>>=◌ and_then leer lock_bitmap ocupar pure
  lleno_segun s libre cabe lleno (inl (p, q)) = rw libre (rw (ltb-false _ _ cabe) (rw p refl))
  lleno_segun s libre cabe lleno (inr h) = absurd (omega (arith, lleno, h.resto))

  con_lock : (t : Disco) → t.bloqueado_bitmap ≡ true → get_bloque_vacio e t ≡ deadlock
  unfolding get_bloque_vacio ◌>>=◌ and_then lock_bitmap
  con_lock t h = rw h refl

  -- On a disk with room, with the bitmap unlocked, get_bloque_vacio returns a position of the data
  -- area whose bit was 0; it sets that bit, changes nothing else, leaves the bitmap unlocked, and the
  -- count of free blocks goes down by one.
  pub get_bloque_vacio-takes :
      (s : Disco)
      → s.bloqueado_bitmap ≡ false
      → e.inicio_datos - 1 ≤ length s.bitmap
      → 0 < contar_libres (e.inicio_datos - 1) s.bitmap
      → Toma e s
  get_bloque_vacio-takes s libre cabe hay =
      Busqueda-Toma s libre cabe hay (primer_libre-cases (e.inicio_datos - 1) s.bitmap)

  -- On a full disk, with the bitmap unlocked, get_bloque_vacio returns -1 and leaves the bitmap
  -- locked, so a second call deadlocks.
  pub get_bloque_vacio-full :
      (s : Disco)
      → s.bloqueado_bitmap ≡ false
      → e.inicio_datos - 1 ≤ length s.bitmap
      → contar_libres (e.inicio_datos - 1) s.bitmap ≡ 0
      → (get_bloque_vacio e s ≡ ok (negsuc 0) (record s { bloqueado_bitmap = true }))
        × ((get_bloque_vacio e >>= λ _. get_bloque_vacio e) s ≡ deadlock)
  unfolding ◌>>=◌ and_then
  get_bloque_vacio-full s libre cabe lleno =
      let h = lleno_segun s libre cabe lleno (primer_libre-cases (e.inicio_datos - 1) s.bitmap) in
      (h, rw h (con_lock _ refl))

get_elem-set :
    (bs : List Bool) (i : ℕ) {b : Bool}
    → get_elem? bs i ≡ some b
    → get_elem? (set bs i true) i ≡ some true
get_elem-set [] i h = cc
get_elem-set (b ∷ bs) zero h = refl
get_elem-set (b ∷ bs) (suc i) h = get_elem-set bs i h

length-set : (bs : List Bool) (i : ℕ) → length (set bs i true) ≡ length bs
length-set [] i = refl
length-set (b ∷ bs) zero = refl
length-set (b ∷ bs) (suc i) = ap suc (length-set bs i)

-- Two calls in a row.
abbrev pub dos_bloques : Entorno → F (ℤ × ℤ)
dos_bloques e = do a ← get_bloque_vacio e; b ← get_bloque_vacio e; pure (a, b)

-- Two calls give two blocks, an unlocked bitmap and two fewer free blocks.
abbrev pub Distintos : Entorno → Disco → Type 0
Distintos e s =
    (i : ℕ) × (j : ℕ) × (t : Disco) × (dos_bloques e s ≡ ok (pos i, pos j) t)
    × (i ≢ j)
    × (t.bloqueado_bitmap ≡ false)
    × (2 + contar_libres (e.inicio_datos - 1) t.bitmap
        ≡ contar_libres (e.inicio_datos - 1) s.bitmap)

module _ (e : Entorno) where
  -- On a disk with two free blocks or more, with the bitmap unlocked, two calls of get_bloque_vacio in
  -- a row return two different blocks, leave the bitmap unlocked and two fewer free blocks.
  pub get_bloque_vacio-distinct :
      (s : Disco)
      → s.bloqueado_bitmap ≡ false
      → e.inicio_datos - 1 ≤ length s.bitmap
      → 1 < contar_libres (e.inicio_datos - 1) s.bitmap
      → Distintos e s
  unfolding ◌>>=◌ and_then pure
  get_bloque_vacio-distinct s libre cabe hay =
      let u = get_bloque_vacio-takes e s libre cabe (omega (arith, hay)) in
      let s' = record s { bitmap = set s.bitmap u.bloque true; bloqueado_bitmap = false } in
      let l = length-set s.bitmap u.bloque in
      let v =
        get_bloque_vacio-takes e s' refl (omega (arith, cabe, l))
          (omega (arith, hay, u.queda_uno_menos)) in
      (
        u.bloque,
        v.bloque,
        record s' { bitmap = set s'.bitmap v.bloque true; bloqueado_bitmap = false },
        rw u.corre (rw v.corre refl),
        (λ p.
            let a = get_elem-set s.bitmap u.bloque u.estaba_libre in
            let b : get_elem? (set s.bitmap u.bloque true) u.bloque ≡ some false =
              subst (λ k. get_elem? (set s.bitmap u.bloque true) k ≡ some false) (sym p)
                v.estaba_libre in
            let c : some true ≡ some false = sym a ∙ b in cc),
        refl,
        omega (arith, u.queda_uno_menos, v.queda_uno_menos),
      )
