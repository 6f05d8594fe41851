-- ===== src/Muse/Walk.antt =====
-- The walks over the blocks of a heap segment: ultima_metadata_segmento and
-- proxima_metadata_libre_con_size against functions of the list of blocks.
use tp_sistemas_operativos_l.Common.{
  ℕ, zero, suc, ◌+◌, ◌<◌, ◌≤◌, ◌≡◌, refl, sym, ap, ◌∙◌, ◌⊎◌, inl, inr, Bool, true, false, ◌&&◌,
  Bool-cases, Option, none, some, List, [], ◌∷◌, ==_refl, leb, leb→le, length, if◌then◌else◌, arith,
}
use tp_sistemas_operativos_l.Muse.State.{HeapMetadata, Segment, Muse}
use tp_sistemas_operativos_l.Muse.Monad.{
  Outcome, ok, fault, deadlock, agotado, pure, and_then, ◌>>=◌,
}
use tp_sistemas_operativos_l.Muse.Metadata.{distinto}
use tp_sistemas_operativos_l.Muse.Heap.{
  siguiente_de, buscar_metadata_por_direccion, ultima_metadata_segmento, probar_ultima,
  proxima_metadata_libre_con_size,
}

-- The address after a block, without the wrap.
abbrev pub tras : ℕ → HeapMetadata → ℕ
tras dir m = m.size + 5 + dir

-- From `dir` to the limit of the segment the blocks are `bs`: each metadata is read without a change of
-- the state, and the addresses are 32-bit words.
abbrev pub Bloques : ℕ → Muse → Segment → ℕ → List HeapMetadata → Type 0
Bloques r s seg dir [] = ⊥
Bloques r s seg dir (m ∷ []) =
    (buscar_metadata_por_direccion r dir seg s ≡ ok m s)
    × (tras dir m < 4294967296)
    × (tras dir m ≡ seg.limit)
Bloques r s seg dir (m ∷ k ∷ ms) =
    (buscar_metadata_por_direccion r dir seg s ≡ ok m s)
    × (tras dir m < 4294967296)
    × (tras dir m < seg.limit)
    × Bloques r s seg (tras dir m) (k ∷ ms)

-- The address of the last block.
abbrev pub ultima_de : ℕ → List HeapMetadata → ℕ
ultima_de dir [] = dir
ultima_de dir (m ∷ []) = dir
ultima_de dir (m ∷ k ∷ ms) = ultima_de (tras dir m) (k ∷ ms)

siguiente_lem :
    (m : HeapMetadata) (dir : ℕ) → tras dir m < 4294967296 → siguiente_de m dir ≡ tras dir m
unfolding siguiente_de
siguiente_lem m dir h = omega (arith, h)

-- With fuel for the blocks, ultima_metadata_segmento gives the address of the last one, and the state is
-- as it was.
pub ultima_metadata_segmento-ultima_de :
    (r fuel : ℕ) (s : Muse) (seg : Segment) (dir : ℕ) (bs : List HeapMetadata)
    → Bloques r s seg dir bs
    → length bs ≤ fuel
    → ultima_metadata_segmento r fuel dir seg s ≡ ok (ultima_de dir bs) s
unfolding ultima_metadata_segmento pure ◌>>=◌ and_then
ultima_metadata_segmento-ultima_de r fuel s seg dir [] b h = absurd b
ultima_metadata_segmento-ultima_de r zero s seg dir (m ∷ ms) b h = absurd (omega (arith, h))
ultima_metadata_segmento-ultima_de r (suc fuel) s seg dir (m ∷ []) (b, w, l) h =
    rw (b, siguiente_lem m dir w, l, ==_refl seg.limit) refl
ultima_metadata_segmento-ultima_de r (suc fuel) s seg dir (m ∷ k ∷ ms) (b, w, l, c) h =
    rw (b, siguiente_lem m dir w, distinto (tras dir m) seg.limit (λ e. omega (arith, l, e)))
      (ultima_metadata_segmento-ultima_de r fuel s seg (tras dir m) (k ∷ ms) c (omega (arith, h)))

ultima_de-after :
    (r : ℕ) (s : Muse) (seg : Segment) (dir : ℕ) (bs : List HeapMetadata)
    → Bloques r s seg dir bs
    → dir ≤ ultima_de dir bs
ultima_de-after r s seg dir [] b = absurd b
ultima_de-after r s seg dir (m ∷ []) b = omega arith
ultima_de-after r s seg dir (m ∷ k ∷ ms) b =
    let z = ultima_de-after r s seg (tras dir m) (k ∷ ms) b.3 in omega (arith, z)

-- The block that proxima_metadata_libre_con_size takes: the first that is free and has room, except that
-- the last block alone is not asked whether it is free, and the one before the last is not looked at.
abbrev pub ajuste : ℕ → List HeapMetadata → ℕ → Option ℕ
ajuste dir [] size = none
ajuste dir (m ∷ []) size = if leb size m.size then some dir else none
ajuste dir (m ∷ k ∷ []) size = if k.is_free && leb size k.size then some (tras dir m) else none
ajuste dir (m ∷ k ∷ l ∷ ms) size =
    if m.is_free && leb size m.size then some dir else ajuste (tras dir m) (k ∷ l ∷ ms) size

module _ (r : ℕ) (s : Muse) (seg : Segment) (size u : ℕ)
    (hu : ultima_metadata_segmento r r seg.base seg s ≡ ok u s) where
  proxima-desde :
      (fuel dir : ℕ) (bs : List HeapMetadata)
      → Bloques r s seg dir bs
      → ultima_de dir bs ≡ u
      → length bs ≤ fuel
      → proxima_metadata_libre_con_size r fuel dir seg size s ≡ ok (ajuste dir bs size) s
  unfolding proxima_metadata_libre_con_size probar_ultima pure ◌>>=◌ and_then
  proxima-desde fuel dir [] b e h = absurd b
  proxima-desde zero dir (m ∷ ms) b e h = absurd (omega (arith, h))
  proxima-desde (suc fuel) dir (m ∷ []) (b, w, l) e h =
      rw (b, hu) (rw (sym e) (rw (==_refl dir) refl))
  proxima-desde (suc fuel) dir (m ∷ k ∷ []) (b, w, l, c) e h =
      rw (b, hu)
        (rw (sym e) (
          rw
            (
              distinto dir (tras dir m) (λ z. omega (arith, z)),
              siguiente_lem m dir w,
              ==_refl (tras dir m),
            )
            (rw c.0 refl)))
  proxima-desde (suc fuel) dir (m ∷ k ∷ l ∷ ms) (b, w, g, c) e h =
      let z = ultima_de-after r s seg (tras (tras dir m) k) (l ∷ ms) c.3 in
      let e' : ultima_de (tras (tras dir m) k) (l ∷ ms) ≡ u = e in
      let d1 = distinto dir u (λ x. omega (arith, x, z, e')) in
      let d2 = distinto u (tras dir m) (λ x. omega (arith, x, z, e')) in
      elim (Bool-cases (m.is_free && leb size m.size)) [
        | inl t ↦ rw (b, hu) (rw (d1, siguiente_lem m dir w, d2, t) refl)
        | inr t ↦
            rw (b, hu)
              (rw (d1, siguiente_lem m dir w, d2, t)
                (proxima-desde fuel (tras dir m) (k ∷ l ∷ ms) c e (omega (arith, h))))
      ]

-- The address that proxima_metadata_libre_con_size gives on a row of blocks that can be read, no more
-- than the bounds: that of the block that `ajuste` takes. The state is as it was.
pub proxima_metadata_libre_con_size-ajuste :
    (r fuel : ℕ) (s : Muse) (seg : Segment) (bs : List HeapMetadata) (size : ℕ)
    → Bloques r s seg seg.base bs
    → length bs ≤ r
    → length bs ≤ fuel
    → proxima_metadata_libre_con_size r fuel seg.base seg size s ≡ ok (ajuste seg.base bs size) s
proxima_metadata_libre_con_size-ajuste r fuel s seg bs size b hr hf =
    proxima-desde r s seg size (ultima_de seg.base bs)
      (ultima_metadata_segmento-ultima_de r r s seg seg.base bs b hr) fuel seg.base bs b refl hf

-- The first block that is free and has room.
abbrev pub primer_ajuste : ℕ → List HeapMetadata → ℕ → Option ℕ
primer_ajuste dir [] size = none
primer_ajuste dir (m ∷ ms) size =
    if m.is_free && leb size m.size then some dir else primer_ajuste (tras dir m) ms size

-- A lone block is free, and of several the one before the last is taken or too small.
abbrev pub SinSaltos : ℕ → List HeapMetadata → Type 0
SinSaltos size [] = Unit
SinSaltos size (m ∷ []) = m.is_free ≡ true
SinSaltos size (m ∷ k ∷ []) = (m.is_free && leb size m.size) ≡ false
SinSaltos size (m ∷ k ∷ l ∷ ms) = SinSaltos size (k ∷ l ∷ ms)

ajuste-primer_ajuste :
    (dir : ℕ) (bs : List HeapMetadata) (size : ℕ)
    → SinSaltos size bs
    → ajuste dir bs size ≡ primer_ajuste dir bs size
ajuste-primer_ajuste dir [] size h = refl
ajuste-primer_ajuste dir (m ∷ []) size h = rw h refl
ajuste-primer_ajuste dir (m ∷ k ∷ []) size h = rw h refl
ajuste-primer_ajuste dir (m ∷ k ∷ l ∷ ms) size h =
    rw (ajuste-primer_ajuste (tras dir m) (k ∷ l ∷ ms) size h) refl

-- First fit. Where a segment is a row of blocks that can be read, with no more blocks than the bounds, a
-- lone block is free, and of several the one before the last is taken or too small,
-- proxima_metadata_libre_con_size from its base returns, changes nothing, and gives the address of the
-- first block that is free and has room, or -1 where there is none.
pub proxima_metadata_libre_con_size-primer_ajuste :
    (r fuel : ℕ) (s : Muse) (seg : Segment) (bs : List HeapMetadata) (size : ℕ)
    → Bloques r s seg seg.base bs
    → length bs ≤ r
    → length bs ≤ fuel
    → SinSaltos size bs
    → proxima_metadata_libre_con_size r fuel seg.base seg size s
      ≡ ok (primer_ajuste seg.base bs size) s
proxima_metadata_libre_con_size-primer_ajuste r fuel s seg bs size b hr hf h =
    proxima_metadata_libre_con_size-ajuste r fuel s seg bs size b hr hf
    ∙ ap (λ o. ok o s) (ajuste-primer_ajuste seg.base bs size h)

-- A block at an address of the row.
abbrev pub BloqueEn : ℕ → List HeapMetadata → ℕ → HeapMetadata → Type 0
BloqueEn dir [] d x = ⊥
BloqueEn dir (m ∷ ms) d x = ((dir ≡ d) × (m ≡ x)) ⊎ BloqueEn (tras dir m) ms d x

-- The last block of the row.
abbrev pub LibreAlFinal : List HeapMetadata → Type 0
LibreAlFinal [] = Unit
LibreAlFinal (m ∷ []) = m.is_free ≡ true
LibreAlFinal (m ∷ k ∷ ms) = LibreAlFinal (k ∷ ms)

tiene_lugar : (b : Bool) (n m : ℕ) → (b && leb n m) ≡ true → (b ≡ true) × (n ≤ m)
tiene_lugar true n m h = (refl, leb→le n m h)
tiene_lugar false n m h = absurd (cc)

ajuste-fits :
    (dir : ℕ) (bs : List HeapMetadata) (size d : ℕ)
    → LibreAlFinal bs
    → ajuste dir bs size ≡ some d
    → (x : HeapMetadata) × BloqueEn dir bs d x × (x.is_free ≡ true) × (size ≤ x.size)
ajuste-fits dir [] size d f h = absurd (cc)
ajuste-fits dir (m ∷ []) size d f h = elim (Bool-cases (leb size m.size)) [
  | inl t ↦
      (let i : some dir ≡ some d = sym (rw t refl) ∙ h in
        (m, inl (ground (arith, i), refl), f, leb→le size m.size t))
  | inr t ↦ (let i : none ≡ some d = sym (rw t refl) ∙ h in absurd (cc))
]
ajuste-fits dir (m ∷ k ∷ []) size d f h = elim (Bool-cases (k.is_free && leb size k.size)) [
  | inl t ↦
      (let i : some (tras dir m) ≡ some d = sym (rw t refl) ∙ h in
        let (a, b) = tiene_lugar k.is_free size k.size t in
        (k, inr (inl (ground (arith, i), refl)), a, b))
  | inr t ↦ (let i : none ≡ some d = sym (rw t refl) ∙ h in absurd (cc))
]
ajuste-fits dir (m ∷ k ∷ l ∷ ms) size d f h = elim (Bool-cases (m.is_free && leb size m.size)) [
  | inl t ↦
      (let i : some dir ≡ some d = sym (rw t refl) ∙ h in
        let (a, b) = tiene_lugar m.is_free size m.size t in
        (m, inl (ground (arith, i), refl), a, b))
  | inr t ↦
      (let (x, i, a, b) = ajuste-fits (tras dir m) (k ∷ l ∷ ms) size d f (sym (rw t refl) ∙ h) in
        (x, inr i, a, b))
]

-- The value of an outcome.
valor : {A : Type 0} → A → Outcome A → A
valor a (ok b s) = b
valor a fault = a
valor a deadlock = a
valor a agotado = a

-- Where a segment is a row of blocks that can be read, with no more blocks than the bounds, and the last one
-- of them is free, what proxima_metadata_libre_con_size gives is the
-- address of a block of the segment that is free and has room.
pub proxima_metadata_libre_con_size-fits :
    (r fuel : ℕ) (s t : Muse) (seg : Segment) (bs : List HeapMetadata) (size d : ℕ)
    → Bloques r s seg seg.base bs
    → length bs ≤ r
    → length bs ≤ fuel
    → LibreAlFinal bs
    → proxima_metadata_libre_con_size r fuel seg.base seg size s ≡ ok (some d) t
    → (x : HeapMetadata) × BloqueEn seg.base bs d x × (x.is_free ≡ true) × (size ≤ x.size)
unfolding valor
proxima_metadata_libre_con_size-fits r fuel s t seg bs size d b hr hf l h =
    ajuste-fits seg.base bs size d l (
      ap (valor none)
        (sym (proxima_metadata_libre_con_size-ajuste r fuel s seg bs size b hr hf) ∙ h))

-- Where a segment is a row of two blocks and the last one is taken or too small,
-- proxima_metadata_libre_con_size gives -1, also where the first block is free and has room.
pub proxima_metadata_libre_con_size-skips :
    (r fuel : ℕ) (s : Muse) (seg : Segment) (m k : HeapMetadata) (size : ℕ)
    → Bloques r s seg seg.base (m ∷ k ∷ [])
    → 2 ≤ r
    → 2 ≤ fuel
    → m.is_free ≡ true
    → size ≤ m.size
    → (k.is_free && leb size k.size) ≡ false
    → proxima_metadata_libre_con_size r fuel seg.base seg size s ≡ ok none s
proxima_metadata_libre_con_size-skips r fuel s seg m k size b hr hf fr hs sin =
    proxima_metadata_libre_con_size-ajuste r fuel s seg (m ∷ k ∷ []) size b hr hf
    ∙ ap (λ c. ok (if c then some (tras seg.base m) else none) s) sin
