-- ===== src/Muse/Writing.antt =====
-- What memory_cpy writes on a heap, memory_get reads.
use tp_sistemas_operativos_l.Common.{
  ℕ, suc, ◌+◌, ◌≤◌, ◌≡◌, ◌≢◌, refl, sym, ap, ◌∙◌, subst, true, some, List, [], ◌∷◌, ◌==◌, get_elem?,
  length, Bool-cases, inl, inr, ==_iff, arith,
}
use tp_sistemas_operativos_l.Muse.State.{Page, Segment, Muse}
use tp_sistemas_operativos_l.Muse.Monad.{
  ok, pure, and_then, ◌>>=◌, leer, cambiar, no_nulo, pagina, guardar_pagina, escribir,
}
use tp_sistemas_operativos_l.Muse.Clock.{drop}
use tp_sistemas_operativos_l.Muse.NewPage.{escribir-same, escribir-other}
use tp_sistemas_operativos_l.Muse.Heap.{copiar_de, copiar_en, escribir_bytes, take}
use tp_sistemas_operativos_l.Muse.Metadata.{
  EnFrame, distinto, escrita, copiar_de-copiar_en, length-take, length-drop, take-drop,
}
use tp_sistemas_operativos_l.Muse.Data.{escribir_paginas}
use tp_sistemas_operativos_l.Muse.Reading.{EnFrames, contenido, frame_de-run}

-- The state after a page of the buffer: page `n`, which is `p`, on frame `fr`.
abbrev pub tras_pagina : Muse → ℕ → Page → ℕ → List ℕ → Muse
tras_pagina s n p fr bs =
    escrita (record s { paginas = escribir s.paginas n (some (record p { is_modify = true })) }) fr
      0 bs

-- A page that is present stays so, on its frame.
tras_pagina-EnFrame :
    (s : Muse) (seg : Segment) (n : ℕ) (p : Page) (fr : ℕ) (bs : List ℕ) (nro fr2 : ℕ)
    → s.paginas n ≡ some p
    → EnFrame s seg nro fr2
    → EnFrame (tras_pagina s n p fr bs) seg nro fr2
tras_pagina-EnFrame s seg n p fr bs nro fr2 hp (m, q, h, e, pr, f) = elim (Bool-cases (m == n)) [
  | inl c ↦
      (let d : some q ≡ some p = sym e ∙ ap s.paginas ((==_iff m n).0 c) ∙ hp in
        (
          m,
          record p { is_modify = true },
          h,
          rw c refl,
          ground (arith, d, pr),
          ground (arith, d, f),
        ))
  | inr c ↦ (m, q, h, escribir-other s.paginas n _ m c ∙ e, pr, f)
]

tras_pagina-EnFrames :
    (s : Muse) (seg : Segment) (n : ℕ) (p : Page) (fr : ℕ) (bs : List ℕ) (nro : ℕ) (frs : List ℕ)
    → s.paginas n ≡ some p
    → EnFrames s seg nro frs
    → EnFrames (tras_pagina s n p fr bs) seg nro frs
tras_pagina-EnFrames s seg n p fr bs nro [] hp h = tt
tras_pagina-EnFrames s seg n p fr bs nro (g ∷ frs) hp (h, hs) = (
  tras_pagina-EnFrame s seg n p fr bs nro g hp h,
  tras_pagina-EnFrames s seg n p fr bs (suc nro) frs hp hs,
)

-- No frame twice.
abbrev pub Falta : ℕ → List ℕ → Type 0
Falta fr [] = Unit
Falta fr (g ∷ frs) = (fr ≢ g) × Falta fr frs

abbrev pub Distintos : List ℕ → Type 0
Distintos [] = Unit
Distintos (fr ∷ frs) = Falta fr frs × Distintos frs

-- What a loop over the pages of `frs` leaves of a state.
abbrev pub Queda : Muse → Muse → Segment → ℕ → List ℕ → Type 0
Queda s t seg nro frs =
    (t.held ≡ s.held)
    × (t.program_list ≡ s.program_list)
    × (t.page_size ≡ s.page_size)
    × ((g : ℕ) → Falta g frs → t.main_memory g ≡ s.main_memory g)
    × ((k : ℕ) (gs : List ℕ) → EnFrames s seg k gs → EnFrames t seg k gs)

-- The bytes of as many pages.
abbrev pub bytes_en : ℕ → List ℕ → ℕ
bytes_en page_size [] = 0
bytes_en page_size (fr ∷ frs) = page_size + bytes_en page_size frs

vacia : (bs : List ℕ) → length bs ≡ 0 → [] ≡ bs
vacia [] h = refl
vacia (b ∷ bs) h = absurd (omega (arith, h))

module _ (r : ℕ) (seg : Segment) where
  escribir-primera :
      (s : Muse) (nro fr cuantas : ℕ) (bs : List ℕ) (n : ℕ) (p : Page)
      → get_elem? seg.page_table nro ≡ some n
      → s.paginas n ≡ some p
      → p.is_present ≡ true
      → p.fr ≡ fr
      → escribir_paginas r seg nro (suc cuantas) bs s
        ≡ escribir_paginas r seg
            (suc nro)
            cuantas
            (drop s.page_size bs)
            (tras_pagina s n p fr (take s.page_size bs))
  unfolding escribir_paginas escribir_bytes no_nulo pagina guardar_pagina leer cambiar pure ◌>>=◌
      and_then
  escribir-primera s nro fr cuantas bs n p h e pr f =
      let s1 = record s { paginas = escribir s.paginas n (some (record p { is_modify = true })) } in
      let e1 : EnFrame s1 seg nro fr =
        (n, record p { is_modify = true }, h, escribir-same s.paginas n _, pr, f) in
      rw h (rw e (rw (frame_de-run r s1 seg nro fr e1) refl))

  pub escribir_paginas-Queda :
      (frs : List ℕ) (s : Muse) (nro : ℕ) (bs : List ℕ)
      → EnFrames s seg nro frs
      → Distintos frs
      → length bs ≡ bytes_en s.page_size frs
      → (t : Muse) × (escribir_paginas r seg nro (length frs) bs s ≡ ok tt t)
        × (contenido t frs ≡ bs)
        × Queda s t seg nro frs
  unfolding escribir_paginas pure
  escribir_paginas-Queda [] s nro bs h d l =
      (s, refl, vacia bs l, (refl, refl, refl, (λ g x. refl), λ k gs x. x))
  escribir_paginas-Queda (fr ∷ frs) s nro bs ((n, p, g, e, pr, f), hs) (fa, d) l =
      let s2 = tras_pagina s n p fr (take s.page_size bs) in
      let (t, e2, c, (q1, q2, q3, q4, q5)) =
        escribir_paginas-Queda frs s2 (suc nro) (drop s.page_size bs)
          (tras_pagina-EnFrames s seg n p fr (take s.page_size bs) (suc nro) frs e hs) d
          (length-drop s.page_size bs ∙ omega (arith, l)) in
      (
        t,
        escribir-primera s nro fr (length frs) bs n p g e pr f ∙ e2,
        (let k : s.page_size ≤ length bs = omega (arith, l) in
            let a : copiar_de (copiar_en (s.main_memory fr) 0 (take s.page_size bs)) 0 s.page_size
                ≡ take s.page_size bs =
              subst
                (λ z.
                  copiar_de (copiar_en (s.main_memory fr) 0 (take s.page_size bs)) 0 z
                  ≡ take s.page_size bs)
                (length-take s.page_size bs k)
                (copiar_de-copiar_en (take s.page_size bs) (s.main_memory fr) 0) in
            rw (q3, q4 fr fa, escribir-same s.main_memory fr, a, c) (take-drop s.page_size bs)),
        (
          q1,
          q2,
          q3,
          (λ x (ne, fx). q4 x fx ∙ escribir-other s.main_memory fr _ x (distinto x fr ne)),
          λ k gs x. q5 k gs (tras_pagina-EnFrames s seg n p fr (take s.page_size bs) k gs e x),
        ),
      )
