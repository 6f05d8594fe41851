-- ===== src/Muse/Metadata.antt =====
-- What modificar_metadata writes, buscar_metadata_por_direccion reads.
use tp_sistemas_operativos_l.Common.{
  ℕ, zero, suc, ◌+◌, ◌-◌, ◌*◌, ◌/◌, ◌%◌, ◌<◌, ◌≤◌, ◌≡◌, ◌≢◌, refl, ap, ◌∙◌, subst, inl, inr, Bool,
  true, false, not, Bool-cases, some, List, [], ◌∷◌, ◌++◌, ◌==◌, ==_iff, ltb, ltb→lt, length,
  get_elem?, if◌then◌else◌, arith,
}
use tp_sistemas_operativos_l.Muse.State.{Page, HeapMetadata, Segment, Muse}
use tp_sistemas_operativos_l.Muse.Monad.{
  ok, pure, and_then, ◌>>=◌, leer, cambiar, no_nulo, pagina, escribir,
}
use tp_sistemas_operativos_l.Muse.Clock.{drop}
use tp_sistemas_operativos_l.Muse.NewPage.{escribir-same, escribir-other}
use tp_sistemas_operativos_l.Muse.Heap.{
  resta, bytes_de, metadata_de, copiar_de, copiar_en, escribir_bytes, take, frame_de_pagina,
  resto_cortado, buscar_metadata_por_direccion, escribir_cortada, modificar_metadata,
}

bit : (b : Bool) → not ((if b then 1 else 0) == 0) ≡ b
bit true = refl
bit false = refl

pub distinto : (a b : ℕ) → a ≢ b → (a == b) ≡ false
distinto a b h = elim (Bool-cases (a == b)) [ inl e ↦ absurd (h ((==_iff a b).0 e)) | inr e ↦ e ]

-- The bytes of a metadata give it back, if its size is a 32-bit word.
pub metadata_de-bytes_de :
    (m : HeapMetadata) → m.size < 4294967296 → metadata_de (bytes_de m) ≡ some m
unfolding metadata_de bytes_de
metadata_de-bytes_de m h =
    let a = m.size in
    let e : a % 256
          + 256 * (a / 256 % 256)
          + 65536 * (a / 65536 % 256)
          + 16777216 * (a / 16777216 % 256)
        ≡ a =
      omega (arith, h) in
    λ i. some (record { size = e i; is_free = bit m.is_free i })

pub copiar_en-before : (bs : List ℕ) (f : ℕ → ℕ) (o i : ℕ) → i < o → copiar_en f o bs i ≡ f i
unfolding copiar_en
copiar_en-before [] f o i h = refl
copiar_en-before (b ∷ bs) f o i h =
    copiar_en-before bs (escribir f o b) (suc o) i (omega (arith, h))
    ∙ escribir-other f o b i (distinto i o (λ e. omega (arith, h, e)))

pub copiar_en-after :
    (bs : List ℕ) (f : ℕ → ℕ) (o i : ℕ) → o + length bs ≤ i → copiar_en f o bs i ≡ f i
unfolding copiar_en
copiar_en-after [] f o i h = refl
copiar_en-after (b ∷ bs) f o i h =
    copiar_en-after bs (escribir f o b) (suc o) i (omega (arith, h))
    ∙ escribir-other f o b i (distinto i o (λ e. omega (arith, h, e)))

-- What was copied into a frame is copied back from it.
pub copiar_de-copiar_en :
    (bs : List ℕ) (f : ℕ → ℕ) (o : ℕ) → copiar_de (copiar_en f o bs) o (length bs) ≡ bs
unfolding copiar_de copiar_en
copiar_de-copiar_en [] f o = refl
copiar_de-copiar_en (b ∷ bs) f o =
    rw (copiar_en-before bs (escribir f o b) (suc o) o (omega arith))
      (rw (escribir-same f o b) (ap (λ z. b ∷ z) (copiar_de-copiar_en bs (escribir f o b) (suc o))))

-- The page is in its place, present, on frame `fr`.
abbrev pub EnFrame : Muse → Segment → ℕ → ℕ → Type 0
EnFrame s seg nro fr =
    (n : ℕ) × (p : Page) × (get_elem? seg.page_table nro ≡ some n)
    × (s.paginas n ≡ some p)
    × (p.is_present ≡ true)
    × (p.fr ≡ fr)

frame_de_pagina-run :
    (r : ℕ) (s : Muse) (seg : Segment) (nro fr : ℕ)
    → EnFrame s seg nro fr
    → frame_de_pagina r seg nro s ≡ ok fr s
unfolding frame_de_pagina no_nulo pagina leer pure ◌>>=◌ and_then
frame_de_pagina-run r s seg nro fr (n, p, h, e, pr, f) = rw (h, e, pr) (ap (λ z. ok z s) f)

-- What the memory is after a write.
abbrev pub escrita : Muse → ℕ → ℕ → List ℕ → Muse
escrita s fr o bs = record s {
  main_memory = escribir s.main_memory fr (copiar_en (s.main_memory fr) o bs);
}

abbrev pub nro_de : Muse → Segment → ℕ → ℕ
nro_de s seg dir = resta dir seg.base / s.page_size

abbrev pub offset_de : Muse → Segment → ℕ → ℕ
offset_de s seg dir = resta dir seg.base % s.page_size

module _ (r : ℕ) (s : Muse) (seg : Segment) (dir fr : ℕ)
    (h : EnFrame s seg (nro_de s seg dir) fr) where
  buscar-whole :
      ltb s.page_size (offset_de s seg dir + 5) ≡ false
      → buscar_metadata_por_direccion r dir seg s
        ≡ no_nulo (metadata_de (copiar_de (s.main_memory fr) (offset_de s seg dir) 5)) s
  unfolding buscar_metadata_por_direccion leer ◌>>=◌ and_then
  buscar-whole c = rw (frame_de_pagina-run r s seg (nro_de s seg dir) fr h, c) refl

  modificar-whole :
      ltb s.page_size (offset_de s seg dir + 5) ≡ false
      → (size : ℕ) (b : Bool)
      → modificar_metadata r dir seg size b s
        ≡ ok tt
            (escrita s fr (offset_de s seg dir) (bytes_de (record { size = size; is_free = b })))
  unfolding modificar_metadata escribir_bytes cambiar leer ◌>>=◌ and_then
  modificar-whole c size b = rw (frame_de_pagina-run r s seg (nro_de s seg dir) fr h, c) refl

  module _ (fr2 : ℕ) (h2 : EnFrame s seg (suc (nro_de s seg dir)) fr2) where
    buscar-cut :
        ltb s.page_size (offset_de s seg dir + 5) ≡ true
        → buscar_metadata_por_direccion r dir seg s
          ≡ no_nulo
              (metadata_de (
                copiar_de
                  (s.main_memory fr)
                  (offset_de s seg dir)
                  (s.page_size - offset_de s seg dir)
                ++ copiar_de (s.main_memory fr2) 0 (5 - (s.page_size - offset_de s seg dir))))
              s
    unfolding buscar_metadata_por_direccion resto_cortado leer pure ◌>>=◌ and_then
    buscar-cut c =
        rw (frame_de_pagina-run r s seg (nro_de s seg dir) fr h, c)
          (rw (frame_de_pagina-run r s seg (suc (nro_de s seg dir)) fr2 h2) refl)

    modificar-cut :
        ltb s.page_size (offset_de s seg dir + 5) ≡ true
        → (size : ℕ) (b : Bool)
        → (let bs = bytes_de (record { size = size; is_free = b }) in
            let cortada = s.page_size - offset_de s seg dir in
            modificar_metadata r dir seg size b s
            ≡ ok tt (
                escrita
                  (escrita s fr (offset_de s seg dir) (take cortada bs))
                  fr2
                  0
                  (drop cortada bs)))
    unfolding modificar_metadata escribir_cortada escribir_bytes cambiar leer pure ◌>>=◌ and_then
    modificar-cut c size b =
        rw (frame_de_pagina-run r s seg (nro_de s seg dir) fr h, c)
          (rw (frame_de_pagina-run r s seg (suc (nro_de s seg dir)) fr2 h2) refl)

pub length-take {ℓ} : {A : Type ℓ} (n : ℕ) (xs : List A) → n ≤ length xs → length (take n xs) ≡ n
length-take zero xs h = refl
length-take (suc n) [] h = absurd (omega (arith, h))
length-take (suc n) (x ∷ xs) h = ap suc (length-take n xs (omega (arith, h)))

pub length-drop {ℓ} : {A : Type ℓ} (n : ℕ) (xs : List A) → length (drop n xs) ≡ length xs - n
length-drop zero xs = omega arith
length-drop (suc n) [] = omega arith
length-drop (suc n) (x ∷ xs) = length-drop n xs ∙ omega arith

pub take-drop {ℓ} : {A : Type ℓ} (n : ℕ) (xs : List A) → take n xs ++ drop n xs ≡ xs
take-drop zero xs = refl
take-drop (suc n) [] = refl
take-drop (suc n) (x ∷ xs) = ap (λ z. x ∷ z) (take-drop n xs)

-- A list that was written in two frames.
cortada_lem :
    (f g : ℕ → ℕ) (o c : ℕ) (bs : List ℕ)
    → c ≤ length bs
    → copiar_de (copiar_en f o (take c bs)) o c
        ++ copiar_de (copiar_en g 0 (drop c bs)) 0 (length bs - c)
      ≡ bs
cortada_lem f g o c bs h =
    let a : copiar_de (copiar_en f o (take c bs)) o c ≡ take c bs =
      subst (λ n. copiar_de (copiar_en f o (take c bs)) o n ≡ take c bs) (length-take c bs h)
        (copiar_de-copiar_en (take c bs) f o) in
    let b : copiar_de (copiar_en g 0 (drop c bs)) 0 (length bs - c) ≡ drop c bs =
      subst (λ n. copiar_de (copiar_en g 0 (drop c bs)) 0 n ≡ drop c bs) (length-drop c bs)
        (copiar_de-copiar_en (drop c bs) g 0) in
    rw (a, b) (take-drop c bs)

leida-whole :
    (s : Muse) (fr o : ℕ) (m : HeapMetadata)
    → m.size < 4294967296
    → metadata_de (copiar_de ((escrita s fr o (bytes_de m)).main_memory fr) o 5) ≡ some m
unfolding bytes_de
leida-whole s fr o m h =
    ap (λ f. metadata_de (copiar_de f o 5)) (escribir-same s.main_memory fr _)
    ∙ ap metadata_de (copiar_de-copiar_en (bytes_de m) (s.main_memory fr) o)
    ∙ metadata_de-bytes_de m h

leida-cut :
    (s : Muse) (fr fr2 o c : ℕ) (m : HeapMetadata)
    → m.size < 4294967296
    → c ≤ 5
    → fr ≢ fr2
    → (let t = escrita s fr o (take c (bytes_de m)) in
        let u = escrita t fr2 0 (drop c (bytes_de m)) in
        metadata_de (copiar_de (u.main_memory fr) o c ++ copiar_de (u.main_memory fr2) 0 (5 - c))
        ≡ some m)
unfolding bytes_de
leida-cut s fr fr2 o c m h k ne =
    let t = escrita s fr o (take c (bytes_de m)) in
    let B = copiar_en (t.main_memory fr2) 0 (drop c (bytes_de m)) in
    let e1 : escribir t.main_memory fr2 B fr
        ≡ copiar_en (s.main_memory fr) o (take c (bytes_de m)) =
      escribir-other t.main_memory fr2 B fr (distinto fr fr2 ne)
      ∙ escribir-same s.main_memory fr _ in
    ap
      (λ f. metadata_de (copiar_de f o c ++ copiar_de (escribir t.main_memory fr2 B fr2) 0 (5 - c)))
      e1
    ∙ ap
        (λ g. metadata_de (
          copiar_de (copiar_en (s.main_memory fr) o (take c (bytes_de m))) o c
          ++ copiar_de g 0 (5 - c)))
        (escribir-same t.main_memory fr2 B)
    ∙ ap metadata_de (cortada_lem (s.main_memory fr) (t.main_memory fr2) o c (bytes_de m) k)
    ∙ metadata_de-bytes_de m h

-- Where the page of an address is present, and, if the metadata is cut by its end, the next page too, on
-- another frame, modificar_metadata returns, and buscar_metadata_por_direccion then gives the size, which
-- is a 32-bit word, and the bit that were written; the pages stay as they are.
pub buscar_metadata_por_direccion-modificar_metadata :
    (r : ℕ) (s : Muse) (seg : Segment) (dir fr : ℕ)
    → EnFrame s seg (nro_de s seg dir) fr
    → (ltb s.page_size (offset_de s seg dir + 5) ≡ true
        → (fr2 : ℕ) × EnFrame s seg (suc (nro_de s seg dir)) fr2 × (fr ≢ fr2))
    → (m : HeapMetadata) → m.size < 4294967296
    → (t : Muse) × (modificar_metadata r dir seg m.size m.is_free s ≡ ok tt t)
      × (buscar_metadata_por_direccion r dir seg t ≡ ok m t)
      × (t.paginas ≡ s.paginas)
unfolding no_nulo pure
buscar_metadata_por_direccion-modificar_metadata r s seg dir fr h h2 m hm =
    elim (Bool-cases (ltb s.page_size (offset_de s seg dir + 5))) [
      | inl c ↦
          (let (fr2, e2, ne) = h2 c in
            let bs = bytes_de m in
            let n = s.page_size - offset_de s seg dir in
            let t = escrita (escrita s fr (offset_de s seg dir) (take n bs)) fr2 0 (drop n bs) in
            (
              t,
              modificar-cut r s seg dir fr h fr2 e2 c m.size m.is_free,
              buscar-cut r t seg dir fr h fr2 e2 c
                  ∙ ap (λ o. no_nulo o t)
                      (leida-cut s fr fr2 (offset_de s seg dir) n m hm
                        (omega (arith, ltb→lt s.page_size (offset_de s seg dir + 5) c)) ne),
              refl,
            ))
      | inr c ↦
          (let t = escrita s fr (offset_de s seg dir) (bytes_de m) in
            (
              t,
              modificar-whole r s seg dir fr h c m.size m.is_free,
              buscar-whole r t seg dir fr h c
                  ∙ ap (λ o. no_nulo o t) (leida-whole s fr (offset_de s seg dir) m hm),
              refl,
            ))
    ]
