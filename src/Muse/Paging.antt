-- ===== src/Muse/Paging.antt =====
-- page_with_free_size of memoria/main_memory.c and the frames of the pages that are present.
use tp_sistemas_operativos_l.Common.{
  ℕ, suc, ◌≡◌, ◌≢◌, refl, sym, ap, ◌∙◌, inl, inr, true, false, none, some, Option-cases, ltb,
  length, get_elem?, set, Bool-cases, ◌==◌, ==_iff, arith,
}
use tp_sistemas_operativos_l.Muse.State.{Page, Segment, Muse}
use tp_sistemas_operativos_l.Muse.Monad.{ok}
use tp_sistemas_operativos_l.Muse.Frames.{primer_frame}
use tp_sistemas_operativos_l.Muse.Clock.{dame_nro_frame_reemplazado, page_with_free_size}
use tp_sistemas_operativos_l.Muse.Choice.{Paginas, elige, Esta, Definida, Conserva}
use tp_sistemas_operativos_l.Muse.Run.{con}
use tp_sistemas_operativos_l.Muse.Victim.{reloj_en}
use tp_sistemas_operativos_l.Muse.Eviction.{
  tras_victima, primer_frame-bound, primer_frame-set, get_elem?-set, length-set,
}
use tp_sistemas_operativos_l.Muse.Replacement.{
  segmentos_de, paginas_de, por_delante, EnMarco, Libres, Presente, eleccion-Conserva,
  eleccion-undefined, eleccion-finds, dame-victim,
}
use tp_sistemas_operativos_l.Muse.NewPage.{
  nueva, page_with_free_size-free, page_with_free_size-busy, Exclusivo, SoloEn, escribir-other,
  escribir-same, escribir-undefined, escribir-Definida, distinta, nueva-SoloEn, antes,
}

-- The hypotheses on a state where a frame is replaced.
module _ (s : Muse) (seg : Segment) (wf : (m : ℕ) → Esta m (paginas_de s) → EnMarco s m)
    (lib : Libres s) (hs : get_elem? (segmentos_de s) s.segmento_clock ≡ some seg) (m : ℕ)
    (hm : Esta m (paginas_de s)) (pm : Presente s m) where
  -- Where a page of the segments is present, the clock is on a segment, the pages that are present are on
  -- frames that exist and the mutexes are free, dame_nro_frame_reemplazado ends within four turns of its
  -- loop. It evicts the page that the four searches of the reference choose, which is a page of the
  -- segments that is present, and gives its frame: the copy is in the first free place of the swap file,
  -- or, if there is none, the frame is only marked free.
  pub dame_nro_frame_reemplazado-elige :
      (fuel : ℕ)
      → (n : ℕ) × (p : Page) × (k l : ℕ) × ((elige (por_delante s) (paginas_de s) s.paginas).0
          ≡ some n)
        × Esta n (paginas_de s)
        × ((elige (por_delante s) (paginas_de s) s.paginas).1 n ≡ some p)
        × (p.is_present ≡ true)
        × (dame_nro_frame_reemplazado (suc (suc (suc (suc fuel)))) s
            ≡ ok p.fr (
                reloj_en k l (
                  tras_victima n p
                    (primer_frame s.bitmap_swap_file)
                    (con s (elige (por_delante s) (paginas_de s) s.paginas).1))))
  dame_nro_frame_reemplazado-elige fuel =
      let (n, h) = eleccion-finds s seg wf lib hs m hm pm in
      let (p, k, l, i, e, pr, b, r) = dame-victim s seg wf lib hs fuel n h in
      (n, p, k, l, h, i, e, pr, r)

module _ (s : Muse) (seg : Segment) (wf : (m : ℕ) → Esta m (paginas_de s) → EnMarco s m)
    (lib : Libres s) (hs : get_elem? (segmentos_de s) s.segmento_clock ≡ some seg) (m : ℕ)
    (hm : Esta m (paginas_de s)) (pm : Presente s m) (hf : s.paginas s.fresh ≡ none) where
  defs : (a : ℕ) → Esta a (paginas_de s) → Definida s.paginas a
  defs a i = let (p, e, _) = wf a i in (p, e)

  nueva_libre :
      Exclusivo s
      → (i : ℕ) → primer_frame s.bitmap ≡ some i
      → SoloEn (paginas_de s) s.fresh (nueva i s)
  nueva_libre ex i h =
      nueva-SoloEn i s (paginas_de s) (primer_frame-bound s.bitmap i h) hf defs (λ a p ha e pr z.
        let r : some false ≡ some true =
          sym (ex.0 a p ha e pr) ∙ ap (get_elem? s.bitmap) z ∙ primer_frame-set s.bitmap i h in
        absurd (ground (arith, r)))

  -- After the eviction of `n` no page that is present is on its frame.
  nueva_reemplazada :
      Exclusivo s
      → (n c k l : ℕ) (p : Page) (g : Paginas) → Conserva s.paginas g
      → g s.fresh ≡ none
      → Esta n (paginas_de s)
      → g n ≡ some p
      → p.is_present ≡ true
      → ltb p.fr (length s.bitmap) ≡ true
      → SoloEn
          (paginas_de s)
          s.fresh
          (nueva p.fr (reloj_en k l (tras_victima n p (some c) (con s g))))
  nueva_reemplazada ex n c k l p g cg gf i e pr b =
      let fuera : Page = record p { fr = c; is_present = false } in
      nueva-SoloEn p.fr (reloj_en k l (tras_victima n p (some c) (con s g))) (paginas_de s)
        (rw (length-set s.bitmap p.fr true) b) (escribir-undefined g n s.fresh fuera p e gf)
        (λ a ha.
          escribir-Definida g n a fuera
            (let (q, eq) = defs a ha in let (u, r) = cg a q eq in (record q { is_used = u }, r)))
        (λ a q ha ea pa z. elim (Bool-cases (a == n)) [
          | inl d ↦
              (let r : some fuera ≡ some q = sym (rw d refl) ∙ ea in
                let w : q.is_present ≡ false = ground (arith, r) in absurd (cc))
          | inr d ↦
              (let (q0, f0, r0, w0) =
                  antes s g a q cg (defs a ha) (sym (escribir-other g n _ a d) ∙ ea) pa in
                let (p0, f1, r1, w1) = antes s g n p cg (defs n i) e pr in
                let y = ex.1 a n q0 p0 ha i f0 f1 r0 r1 (w0 ∙ z ∙ sym w1) in
                let w : true ≡ false = sym ((==_iff a n).1 y) ∙ d in absurd (cc))
        ])

  -- Where a page of the segments is present, the clock is on a segment, the mutexes are free, the number
  -- of the next page is new and the swap file has a free place; the pages that are present are on frames
  -- that exist and are taken, no two on one: then page_with_free_size returns a page that is present, on a
  -- frame that is taken and that no page of the segments is on.
  pub page_with_free_size-SoloEn :
      Exclusivo s
      → (c : ℕ) → primer_frame s.bitmap_swap_file ≡ some c
      → (fuel : ℕ)
      → (n : ℕ) × (t : Muse) × (page_with_free_size (suc (suc (suc (suc fuel)))) s ≡ ok n t)
        × SoloEn (paginas_de s) n t
  page_with_free_size-SoloEn ex c hc fuel = elim (Option-cases (primer_frame s.bitmap)) [
    | inl h ↦
        (let (n, hn) = eleccion-finds s seg wf lib hs m hm pm in
          let (p, k, l, i, e, pr, b, r) = dame-victim s seg wf lib hs fuel n hn in
          let g = (elige (por_delante s) (paginas_de s) s.paginas).1 in
          let t = reloj_en k l (tras_victima n p (some c) (con s g)) in
          let r' = r ∙ ap (λ o. ok p.fr (reloj_en k l (tras_victima n p o (con s g)))) hc in
          (
            s.fresh,
            nueva p.fr t,
            page_with_free_size-busy (suc (suc (suc (suc fuel)))) p.fr s t lib h r' lib
                (get_elem?-set s.bitmap p.fr true b) (rw (length-set s.bitmap p.fr true) b),
            nueva_reemplazada ex n c k l p g (eleccion-Conserva s seg wf lib hs)
                (eleccion-undefined s seg wf lib hs s.fresh hf) i e pr b,
          ))
    | inr (i, h) ↦ (
      s.fresh,
      nueva i s,
      page_with_free_size-free (suc (suc (suc (suc fuel)))) i s lib h,
      nueva_libre ex i h,
    )
  ]

  -- Where a page of the segments is present, the clock is on a segment, the mutexes are free, the number
  -- of the next page is new and the pages that are present are on frames that exist, but no frame and no
  -- place of the swap file is free, page_with_free_size returns a page on a frame that a page of the
  -- segments is still on: both are present, and nothing was written to the swap file.
  pub page_with_free_size-shared :
      primer_frame s.bitmap ≡ none
      → primer_frame s.bitmap_swap_file ≡ none
      → (fuel : ℕ)
      → (n a : ℕ) × (t : Muse) × (p q : Page) × (page_with_free_size (suc (suc (suc (suc fuel)))) s
          ≡ ok n t)
        × Esta a (paginas_de s)
        × (t.paginas a ≡ some p)
        × (t.paginas n ≡ some q)
        × (p.is_present ≡ true)
        × (q.is_present ≡ true)
        × (p.fr ≡ q.fr)
        × (a ≢ n)
        × (t.swap_file ≡ s.swap_file)
  page_with_free_size-shared h hc fuel =
      let (a, ha) = eleccion-finds s seg wf lib hs m hm pm in
      let (p, k, l, i, e, pr, b, r) = dame-victim s seg wf lib hs fuel a ha in
      let g = (elige (por_delante s) (paginas_de s) s.paginas).1 in
      let t = reloj_en k l (record s { paginas = g; bitmap = set s.bitmap p.fr true }) in
      let r' = r ∙ ap (λ o. ok p.fr (reloj_en k l (tras_victima a p o (con s g)))) hc in
      let gf = eleccion-undefined s seg wf lib hs s.fresh hf in
      (
        s.fresh,
        a,
        nueva p.fr t,
        p,
        record { is_modify = false; is_used = true; is_present = true; fr = p.fr },
        page_with_free_size-busy (suc (suc (suc (suc fuel)))) p.fr s t lib h r' lib
            (get_elem?-set s.bitmap p.fr true b) (rw (length-set s.bitmap p.fr true) b),
        i,
        escribir-other g s.fresh _ a (distinta g a s.fresh p e gf) ∙ e,
        escribir-same g s.fresh _,
        pr,
        refl,
        refl,
        (λ z. let w : some p ≡ none = sym e ∙ ap g z ∙ gf in absurd (cc)),
        refl,
      )
