-- ===== src/Muse/Run.antt =====
-- The loops of dame_nro_frame_reemplazado run the searches of Choice: the monad against the reference.
use tp_sistemas_operativos_l.Common.{
  ℕ, suc, ◌≡◌, refl, sym, ap, ◌∙◌, inl, inr, true, false, ◌&&◌, Bool-cases, Option, none, some,
  List, [], ◌∷◌, ◌++◌, All,
}
use tp_sistemas_operativos_l.Muse.State.{Page, Segment, Muse}
use tp_sistemas_operativos_l.Muse.Monad.{
  Outcome, ok, fault, deadlock, agotado, M, pure, and_then, ◌>>=◌, leer, cambiar, no_nulo, pagina,
  guardar_pagina,
}
use tp_sistemas_operativos_l.Muse.Frames.{se_hace_la_vistima}
use tp_sistemas_operativos_l.Muse.Clock.{
  drop, Paso, uno, dos, candidata, pasar_de_largo, elegir, recorrer_paginas, mover_reloj,
  recorrer_segmentos,
}
use tp_sistemas_operativos_l.Muse.Choice.{
  Paginas, visitar, luego, tras_pasar, Definida, Conserva-Definida, paso_a_paso, visitar-chosen,
  visitar-passed, tras_pasar-Conserva,
}
use tp_sistemas_operativos_l.Muse.Search.{visitar-Conserva}

-- The state with another store of pages.
abbrev pub con : Muse → Paginas → Muse
con s f = record s { paginas = f }

abbrev pub mover : ℕ → ℕ → ℕ → M (Option ℕ)
mover g i nro_frame = mover_reloj g (i, nro_frame)

-- What the loop over pages does after its search: `i` is the place of the victim.
abbrev pub tras_paginas : ℕ → Option ℕ × Paginas → M (Option (ℕ × ℕ))
tras_paginas i (none, f) s = ok none (con s f)
tras_paginas i (some n, f) s = elegir n i (con s f)

abbrev pub tras_segmentos : ℕ → ℕ → Option ℕ × Paginas → M (Option ℕ)
tras_segmentos g i (none, f) s = ok none (con s f)
tras_segmentos g i (some n, f) s = and_then (se_hace_la_vistima n (con s f)) (mover g i)

tras_paginas-con :
    (i : ℕ) (x : Option ℕ × Paginas) (s : Muse) (f : Paginas)
    → tras_paginas i x (con s f) ≡ tras_paginas i x s
tras_paginas-con i (none, g) s f = refl
tras_paginas-con i (some n, g) s f = refl

tras_segmentos-con :
    (g i : ℕ) (x : Option ℕ × Paginas) (s : Muse) (f : Paginas)
    → tras_segmentos g i x (con s f) ≡ tras_segmentos g i x s
tras_segmentos-con g i (none, h) s f = refl
tras_segmentos-con g i (some n, h) s f = refl

pasar_de_largo_lem :
    (paso : Paso) (n : ℕ) (p : Page) (s : Muse)
    → pasar_de_largo paso n p s ≡ ok tt (con s (tras_pasar paso n p s.paginas))
unfolding pasar_de_largo pure guardar_pagina cambiar
pasar_de_largo_lem uno n p s = refl
pasar_de_largo_lem dos n p s = elim (Bool-cases p.is_present) [
  | inl c ↦ rw c refl
  | inr c ↦ rw c refl
]

-- The loop at its first page.
module _ (paso : Paso) (n : ℕ) (ns : List ℕ) (j : ℕ) (s : Muse) (p : Page)
    (h : s.paginas n ≡ some p) where
  recorrer-chosen :
      (p.is_present && candidata paso p) ≡ true → recorrer_paginas paso (n ∷ ns) j s ≡ elegir n j s
  unfolding recorrer_paginas pure ◌>>=◌ and_then pagina leer no_nulo
  recorrer-chosen c = rw (h, recorrer_paginas) (rw (c, recorrer_paginas) refl)

  recorrer-passed :
      (p.is_present && candidata paso p) ≡ false
      → recorrer_paginas paso (n ∷ ns) j s
        ≡ recorrer_paginas paso ns (suc j) (con s (tras_pasar paso n p s.paginas))
  unfolding recorrer_paginas pure ◌>>=◌ and_then pagina leer no_nulo
  recorrer-passed c =
      rw (h, recorrer_paginas) (rw (c, recorrer_paginas) (rw (pasar_de_largo_lem paso n p s) refl))

pub recorrer_paginas_lem :
    (paso : Paso) (ns : List ℕ) (j : ℕ) (s : Muse)
    → All (Definida s.paginas) ns
    → (i : ℕ) × (recorrer_paginas paso ns j s ≡ tras_paginas i (visitar paso ns s.paginas) s)
unfolding recorrer_paginas visitar pure
recorrer_paginas_lem paso [] j s d = (0, refl)
recorrer_paginas_lem paso (n ∷ ns) j s d = elim (paso_a_paso paso n ns s.paginas d) [
  | inl (v, c) ↦ (j, recorrer-chosen paso n ns j s d.0.0 d.0.1 c ∙ rw v refl)
  | inr (v, c) ↦
      (let s' = con s (tras_pasar paso n d.0.0 s.paginas) in
        let d' = Conserva-Definida ns (tras_pasar-Conserva paso n s.paginas d.0.0 d.0.1) d.1 in
        let (i, e) = recorrer_paginas_lem paso ns (suc j) s' d' in
        (
          i,
          recorrer-passed paso n ns j s d.0.0 d.0.1 c
              ∙ e
              ∙ tras_paginas-con i (visitar paso ns s'.paginas) s s'.paginas
              ∙ ap (λ z. tras_paginas i z s) (sym v),
        ))
]

All_left : (f : Paginas) (xs ys : List ℕ) → All (Definida f) (xs ++ ys) → All (Definida f) xs
All_left f [] ys d = tt
All_left f (x ∷ xs) ys d = (d.0, All_left f xs ys d.1)

All_right : (f : Paginas) (xs ys : List ℕ) → All (Definida f) (xs ++ ys) → All (Definida f) ys
All_right f [] ys d = d
All_right f (x ∷ xs) ys d = All_right f xs ys d.1

pub visitar-append :
    (paso : Paso) (xs ys : List ℕ) (f : Paginas)
    → All (Definida f) xs
    → visitar paso (xs ++ ys) f ≡ luego (visitar paso xs f) (visitar paso ys)
unfolding visitar
visitar-append paso [] ys f d = refl
visitar-append paso (n ∷ ns) ys f d = elim (paso_a_paso paso n ns f d) [
  | inl (v, c) ↦
      (visitar-chosen paso n (ns ++ ys) f d.0.0 d.0.1 c
        ∙ ap (λ z. luego z (visitar paso ys)) (sym v))
  | inr (v, c) ↦
      (visitar-passed paso n (ns ++ ys) f d.0.0 d.0.1 c
        ∙ visitar-append paso ns ys (tras_pasar paso n d.0.0 f)
            (Conserva-Definida ns (tras_pasar-Conserva paso n f d.0.0 d.0.1) d.1)
        ∙ ap (λ z. luego z (visitar paso ys)) (sym v))
]

-- The pages of a list of segments, from a page of the first one on.
abbrev pub paginas_desde : List Segment → ℕ → List ℕ
paginas_desde [] j = []
paginas_desde (seg ∷ segs) j = drop j seg.page_table ++ paginas_desde segs 0

-- What the loop over the segments does with the result of the loop over the pages of the first.
abbrev pub seguir_con : Paso → List Segment → ℕ → Option (ℕ × ℕ) → M (Option ℕ)
seguir_con paso segs g none = recorrer_segmentos paso segs (suc g) 0
seguir_con paso segs g (some x) = mover_reloj g x

abbrev pub Recorre : Paso → List Segment → ℕ → ℕ → Muse → Type 0
Recorre paso segs g j s =
    (k l : ℕ) × (recorrer_segmentos paso segs g j s
      ≡ tras_segmentos k l (visitar paso (paginas_desde segs j) s.paginas) s)

primera_victima :
    (o : Outcome ℕ) (i : ℕ) (k : Option (ℕ × ℕ) → M (Option ℕ))
    → and_then (and_then o (λ fr. pure (some (i, fr)))) k ≡ and_then o (λ fr. k (some (i, fr)))
unfolding and_then pure
primera_victima (ok a s) i k = refl
primera_victima fault i k = refl
primera_victima deadlock i k = refl
primera_victima agotado i k = refl

tras_primero :
    (paso : Paso) (segs : List Segment) (g i : ℕ) (s : Muse) (x : Option ℕ × Paginas)
    → Recorre paso segs (suc g) 0 (con s x.1)
    → (k l : ℕ) × (and_then (tras_paginas i x s) (seguir_con paso segs g)
        ≡ tras_segmentos k l (luego x (visitar paso (paginas_desde segs 0))) s)
unfolding and_then elegir ◌>>=◌
tras_primero paso segs g i s (none, f) (k, l, e) =
    (k, l, e ∙ tras_segmentos-con k l (visitar paso (paginas_desde segs 0) f) s f)
tras_primero paso segs g i s (some n, f) r =
    (g, i, primera_victima (se_hace_la_vistima n (con s f)) i (seguir_con paso segs g))

recorrer_abre :
    (paso : Paso) (seg : Segment) (segs : List Segment) (g j : ℕ) (s : Muse)
    → recorrer_segmentos paso (seg ∷ segs) g j s
      ≡ and_then (recorrer_paginas paso (drop j seg.page_table) j s) (seguir_con paso segs g)
unfolding ◌>>=◌ recorrer_segmentos
recorrer_abre paso seg segs g j s = refl

pub recorrer_segmentos_lem :
    (paso : Paso) (segs : List Segment) (g j : ℕ) (s : Muse)
    → All (Definida s.paginas) (paginas_desde segs j)
    → Recorre paso segs g j s
unfolding recorrer_segmentos visitar pure
recorrer_segmentos_lem paso [] g j s d = (0, 0, refl)
recorrer_segmentos_lem paso (seg ∷ segs) g j s d =
    let xs = drop j seg.page_table in
    let ys = paginas_desde segs 0 in
    let dx = All_left s.paginas xs ys d in
    let x = visitar paso xs s.paginas in
    let (i, e) = recorrer_paginas_lem paso xs j s dx in
    let dy =
      Conserva-Definida ys (visitar-Conserva paso xs s.paginas dx) (All_right s.paginas xs ys d) in
    let (k, l, t) =
      tras_primero paso segs g i s x (recorrer_segmentos_lem paso segs (suc g) 0 (con s x.1) dy) in
    (
      k,
      l,
      recorrer_abre paso seg segs g j s
          ∙ ap (λ z. and_then z (seguir_con paso segs g)) e
          ∙ t
          ∙ ap (λ z. tras_segmentos k l z s) (sym (visitar-append paso xs ys s.paginas dx)),
    )
