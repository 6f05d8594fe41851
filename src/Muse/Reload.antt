-- ===== src/Muse/Reload.antt =====
-- A page that was evicted comes back with its content.
use tp_sistemas_operativos_l.Common.{
  ℕ, zero, suc, ◌≡◌, refl, ap, ◌∙◌, inl, inr, Bool, true, false, none, some, List, [], ◌∷◌, ◌==◌,
  ==_iff, Bool-cases, ltb, ltb→lt, lt→ltb, length, get_elem?, set, arith,
}
use tp_sistemas_operativos_l.Muse.State.{Page, Muse}
use tp_sistemas_operativos_l.Muse.Monad.{
  ok, pure, and_then, ◌>>=◌, leer, cambiar, no_nulo, tiene, soltar, mutex_eq, tomar_mutex,
  soltar_mutex, locked, pagina, escribir, guardar_pagina, poner_bit, poner_bit_swap,
}
use tp_sistemas_operativos_l.Muse.Frames.{
  bits_libres, primer_frame, number_of_free_frames_upcm, liberar_frame_swap, se_hace_la_vistima,
}
use tp_sistemas_operativos_l.Muse.Eviction.{
  tras_expulsion, se_hace_la_vistima-room, primer_frame-bound, get_elem?-set, length-set,
}
use tp_sistemas_operativos_l.Muse.Replacement.{Libres}
use tp_sistemas_operativos_l.Muse.NewPage.{
  nueva, page_with_free_size-free, escribir-same, escribir-other, escribir-undefined, distinta,
}
use tp_sistemas_operativos_l.Muse.Loading.{
  cargar_frame, presentar, traer_a_libre, traer_si_hay, traer, obtener_data_marco_heap,
}

-- A bit that is set is counted, and the search finds one.
bits_libres-set :
    (bs : List Bool) (i : ℕ)
    → ltb i (length bs) ≡ true
    → (n : ℕ) × (bits_libres (set bs i true) ≡ suc n)
unfolding bits_libres
bits_libres-set [] i h = absurd (omega (arith, ltb→lt i 0 h))
bits_libres-set (b ∷ bs) zero h = (bits_libres bs, refl)
bits_libres-set (true ∷ bs) (suc i) h = (bits_libres (set bs i true), refl)
bits_libres-set (false ∷ bs) (suc i) h =
    bits_libres-set bs i (lt→ltb i (length bs) (omega (arith, ltb→lt (suc i) (suc (length bs)) h)))

primer_frame-set :
    (bs : List Bool) (i : ℕ)
    → ltb i (length bs) ≡ true
    → (j : ℕ) × (primer_frame (set bs i true) ≡ some j)
unfolding primer_frame
primer_frame-set [] i h = absurd (omega (arith, ltb→lt i 0 h))
primer_frame-set (b ∷ bs) zero h = (0, refl)
primer_frame-set (true ∷ bs) (suc i) h = (0, refl)
primer_frame-set (false ∷ bs) (suc i) h =
    let (j, e) =
      primer_frame-set bs i
        (lt→ltb i (length bs) (omega (arith, ltb→lt (suc i) (suc (length bs)) h))) in
    (suc j, rw e refl)

no_cero : (c : ℕ) → (suc c == 0) ≡ false
no_cero c = elim (Bool-cases (suc c == 0)) [
  | inl h ↦ absurd (omega (arith, (==_iff (suc c) 0).0 h))
  | inr h ↦ h
]

-- The state after page `n`, which is `p`, has come to the free frame `i`.
abbrev pub tras_traer : ℕ → Page → ℕ → Muse → Muse
tras_traer n p i s =
    let t = nueva i s in
    record t {
      bitmap_swap_file = set s.bitmap_swap_file p.fr true;
      bitmap = set t.bitmap i false;
      paginas =
          escribir t.paginas n (some (record p { fr = i; is_present = true; is_used = true }));
      main_memory = escribir s.main_memory i (s.swap_file p.fr);
    }

module _ (n : ℕ) (p : Page) (s : Muse) (hp : s.paginas n ≡ some p) (lib : Libres s)
    (hf : s.paginas s.fresh ≡ none) (hk : ltb p.fr (length s.bitmap_swap_file) ≡ true) (i : ℕ)
    (hi : primer_frame s.bitmap ≡ some i) where
  sigue : (nueva i s).paginas n ≡ some p
  sigue = escribir-other s.paginas s.fresh _ n (distinta s.paginas n s.fresh p hp hf) ∙ hp

  traer_a_libre-run : (fuel : ℕ) → traer_a_libre fuel n s ≡ ok tt (tras_traer n p i s)
  unfolding traer_a_libre presentar cargar_frame liberar_frame_swap guardar_pagina poner_bit
      poner_bit_swap pagina no_nulo locked tomar_mutex soltar_mutex soltar mutex_eq tiene leer
      cambiar pure ◌>>=◌ and_then
  traer_a_libre-run fuel =
      let b : ltb i (length (set s.bitmap i false)) ≡ true =
        rw (length-set s.bitmap i false) (primer_frame-bound s.bitmap i hi) in
      rw (hp, page_with_free_size-free fuel i s lib hi, lib.3, hk, escribir-same s.paginas s.fresh)
        (rw (lib.2, b, sigue) refl)

  contar-run : number_of_free_frames_upcm s ≡ ok (bits_libres s.bitmap) s
  unfolding number_of_free_frames_upcm locked tomar_mutex soltar_mutex soltar mutex_eq tiene leer
      cambiar pure ◌>>=◌ and_then
  contar-run = rw lib.2 (rw lib.3 refl)

  obtener-run :
      p.is_present ≡ false
      → (c : ℕ) → bits_libres s.bitmap ≡ suc c
      → (fuel : ℕ) → obtener_data_marco_heap fuel n s ≡ ok i (tras_traer n p i s)
  unfolding obtener_data_marco_heap traer traer_si_hay pagina no_nulo leer pure ◌>>=◌ and_then
  obtener-run pr c hc fuel =
      rw
        (
          hp,
          pr,
          contar-run,
          hc,
          no_cero c,
          contar-run,
          hc,
          lt→ltb 0 (suc c) (omega arith),
          traer_a_libre-run fuel,
          escribir-same (nueva i s).paginas n,
        )
        refl

-- Where page `n` is on a frame that exists, the mutexes are free, the number of the next page is
-- new and the swap file has a free place, se_hace_la_vistima moves the page out, and
-- obtener_data_marco_heap right after it brings it back: it gives the frame that the page is present on,
-- with the content that the first frame had, and its place in the swap file is free again.
pub obtener_data_marco_heap-se_hace_la_vistima :
    (s : Muse) (n k : ℕ) (p : Page)
    → s.paginas n ≡ some p
    → ltb p.fr (length s.bitmap) ≡ true
    → Libres s
    → s.paginas s.fresh ≡ none
    → primer_frame s.bitmap_swap_file ≡ some k
    → (fuel : ℕ)
    → (t u : Muse) × (fr : ℕ) × (se_hace_la_vistima n s ≡ ok p.fr t)
      × (obtener_data_marco_heap fuel n t ≡ ok fr u)
      × ((o : ℕ) → u.main_memory fr o ≡ s.main_memory p.fr o)
      × (u.paginas n ≡ some (record p { fr = fr; is_present = true; is_used = true }))
      × (get_elem? u.bitmap fr ≡ some false)
      × (get_elem? u.bitmap_swap_file k ≡ some true)
obtener_data_marco_heap-se_hace_la_vistima s n k p hp b lib hf hk fuel =
    let t = tras_expulsion n p k s in
    let p' : Page = record p { fr = k; is_present = false } in
    let bk = primer_frame-bound s.bitmap_swap_file k hk in
    let bk' : ltb k (length (set s.bitmap_swap_file k false)) ≡ true =
      rw (length-set s.bitmap_swap_file k false) bk in
    let (c, hc) = bits_libres-set s.bitmap p.fr b in
    let (i, hi) = primer_frame-set s.bitmap p.fr b in
    let bi : ltb i (length (set s.bitmap p.fr true)) ≡ true =
      primer_frame-bound (set s.bitmap p.fr true) i hi in
    let bi' : ltb i (length (set (set s.bitmap p.fr true) i false)) ≡ true =
      rw (length-set (set s.bitmap p.fr true) i false) bi in
    let hp' : t.paginas n ≡ some p' = escribir-same s.paginas n (some p') in
    let hf' : t.paginas s.fresh ≡ none = escribir-undefined s.paginas n s.fresh p' p hp hf in
    (
      t,
      tras_traer n p' i t,
      i,
      se_hace_la_vistima-room n p s hp lib.1 lib.2 lib.3 b k hk,
      obtener-run n p' t hp' lib hf' bk' i hi refl c hc fuel,
      (λ o.
          ap (λ z. z o) (escribir-same s.main_memory i _)
          ∙ ap (λ z. z o) (escribir-same s.swap_file k _)),
      escribir-same (nueva i t).paginas n _,
      get_elem?-set (set (set s.bitmap p.fr true) i false) i false bi',
      get_elem?-set (set s.bitmap_swap_file k false) k true bk',
    )
