-- ===== src/Muse/Examples.antt =====
-- Runs of page_with_free_size: a segment of two pages on the two frames of the memory.
use tp_sistemas_operativos_l.Common.{
  ℕ, zero, suc, ◌≡◌, ◌≢◌, refl, sym, ap, ◌∙◌, subst, inl, inr, Bool, true, false, Option, none,
  some, List, [], ◌∷◌, get_elem?, arith,
}
use tp_sistemas_operativos_l.Muse.State.{Page, Segment, Muse}
use tp_sistemas_operativos_l.Muse.Monad.{ok, tiene}
use tp_sistemas_operativos_l.Muse.Frames.{primer_frame}
use tp_sistemas_operativos_l.Muse.Clock.{
  lista_de_segmentos, page_with_free_size, dame_nro_frame_reemplazado,
}
use tp_sistemas_operativos_l.Muse.Choice.{elige, Esta}
use tp_sistemas_operativos_l.Muse.Run.{con}
use tp_sistemas_operativos_l.Muse.Victim.{reloj_en}
use tp_sistemas_operativos_l.Muse.Eviction.{tras_victima}
use tp_sistemas_operativos_l.Muse.Replacement.{
  segmentos_de, paginas_de, por_delante, EnMarco, Libres,
}
use tp_sistemas_operativos_l.Muse.NewPage.{Exclusivo, SoloEn}
use tp_sistemas_operativos_l.Muse.Paging.{
  dame_nro_frame_reemplazado-elige, page_with_free_size-SoloEn, page_with_free_size-shared,
}

abbrev usada : ℕ → Page
usada i = record { is_modify = true; is_used = true; is_present = true; fr = i }

abbrev dos_paginas : ℕ → Option Page
dos_paginas zero = some (usada 0)
dos_paginas (suc zero) = some (usada 1)
dos_paginas (suc (suc n)) = none

abbrev segmento : Segment
segmento = record {
  is_heap = true;
  base = 0;
  limit = 64;
  page_table = 0 ∷ 1 ∷ [];
  archivo_mapeado = 0;
  tipo_map = 0;
  tam_archivo_mmap = 0;
}

-- The state with a swap file.
abbrev llena : List Bool → Muse
llena swap = record {
  page_size = 32;
  main_memory = λ fr i. i;
  swap_file = λ fr i. 0;
  bitmap = false ∷ false ∷ [];
  bitmap_swap_file = swap;
  paginas = dos_paginas;
  fresh = 2;
  program_list = record { pid = 7; segment_table = segmento ∷ []; using_memory = 0 } ∷ [];
  archivos = λ a. none;
  pagina_clock = 0;
  lista_archivos_mmap = [];
  fresh_archivo = 0;
  segmento_clock = 0;
  held = [];
}

module _ (swap : List Bool) where
  llena-EnMarco : (m : ℕ) → Esta m (paginas_de (llena swap)) → EnMarco (llena swap) m
  unfolding lista_de_segmentos
  llena-EnMarco m (inl e) = subst (EnMarco (llena swap)) e (usada 0, refl, λ _. refl)
  llena-EnMarco m (inr (inl e)) = subst (EnMarco (llena swap)) e (usada 1, refl, λ _. refl)
  llena-EnMarco m (inr (inr b)) = absurd b

  llena-Libres : Libres (llena swap)
  unfolding tiene
  llena-Libres = (refl, refl, refl, refl)

  llena-en_reloj : get_elem? (segmentos_de (llena swap)) 0 ≡ some segmento
  unfolding lista_de_segmentos
  llena-en_reloj = refl

  llena-Esta : Esta 0 (paginas_de (llena swap))
  unfolding lista_de_segmentos
  llena-Esta = inl refl

  -- A page of the segments is on the frame of its number.
  en_su_frame :
      (a : ℕ) (p : Page) → Esta a (paginas_de (llena swap)) → dos_paginas a ≡ some p → p.fr ≡ a
  unfolding lista_de_segmentos
  en_su_frame a p (inl e) h =
      (let r : some (usada 0) ≡ some p = ap dos_paginas e ∙ h in ground (arith, r, e))
  en_su_frame a p (inr (inl e)) h =
      (let r : some (usada 1) ≡ some p = ap dos_paginas e ∙ h in ground (arith, r, e))
  en_su_frame a p (inr (inr b)) h = absurd b

  tomado :
      (a : ℕ) → Esta a (paginas_de (llena swap)) → get_elem? (false ∷ false ∷ []) a ≡ some false
  unfolding lista_de_segmentos
  tomado a (inl e) = subst (λ x. get_elem? (false ∷ false ∷ []) x ≡ some false) e refl
  tomado a (inr (inl e)) = subst (λ x. get_elem? (false ∷ false ∷ []) x ≡ some false) e refl
  tomado a (inr (inr b)) = absurd b

  llena-Exclusivo : Exclusivo (llena swap)
  llena-Exclusivo = (
    λ a p ha e pr. ap (get_elem? (false ∷ false ∷ [])) (en_su_frame a p ha e) ∙ tomado a ha,
    λ a b p q ha hb e f pr qr w. sym (en_su_frame a p ha e) ∙ w ∙ en_su_frame b q hb f,
  )

dame_nro_frame_reemplazado-elige_example :
    (n : ℕ) × (p : Page) × (k l : ℕ) × ((elige
        (por_delante (llena (true ∷ [])))
        (paginas_de (llena (true ∷ [])))
        dos_paginas).0
      ≡ some n)
    × Esta n (paginas_de (llena (true ∷ [])))
    × ((elige (por_delante (llena (true ∷ []))) (paginas_de (llena (true ∷ []))) dos_paginas).1 n
        ≡ some p)
    × (p.is_present ≡ true)
    × (dame_nro_frame_reemplazado 4 (llena (true ∷ []))
        ≡ ok p.fr (
            reloj_en k l (
              tras_victima n p (primer_frame (true ∷ [])) (
                con
                  (llena (true ∷ []))
                  (elige
                    (por_delante (llena (true ∷ [])))
                    (paginas_de (llena (true ∷ [])))
                    dos_paginas).1))))
dame_nro_frame_reemplazado-elige_example =
    dame_nro_frame_reemplazado-elige (llena (true ∷ [])) segmento (llena-EnMarco (true ∷ []))
      (llena-Libres (true ∷ [])) (llena-en_reloj (true ∷ [])) 0 (llena-Esta (true ∷ []))
      (usada 0, refl, refl) 0

page_with_free_size-SoloEn_example :
    (n : ℕ) × (t : Muse) × (page_with_free_size 4 (llena (true ∷ [])) ≡ ok n t)
    × SoloEn (paginas_de (llena (true ∷ []))) n t
unfolding primer_frame
page_with_free_size-SoloEn_example =
    page_with_free_size-SoloEn (llena (true ∷ [])) segmento (llena-EnMarco (true ∷ []))
      (llena-Libres (true ∷ [])) (llena-en_reloj (true ∷ [])) 0 (llena-Esta (true ∷ []))
      (usada 0, refl, refl) refl (llena-Exclusivo (true ∷ [])) 0 refl 0

page_with_free_size-shared_example :
    (n a : ℕ) × (t : Muse) × (p q : Page) × (page_with_free_size 4 (llena (false ∷ [])) ≡ ok n t)
    × Esta a (paginas_de (llena (false ∷ [])))
    × (t.paginas a ≡ some p)
    × (t.paginas n ≡ some q)
    × (p.is_present ≡ true)
    × (q.is_present ≡ true)
    × (p.fr ≡ q.fr)
    × (a ≢ n)
    × (t.swap_file ≡ (llena (false ∷ [])).swap_file)
unfolding primer_frame
page_with_free_size-shared_example =
    page_with_free_size-shared (llena (false ∷ [])) segmento (llena-EnMarco (false ∷ []))
      (llena-Libres (false ∷ [])) (llena-en_reloj (false ∷ [])) 0 (llena-Esta (false ∷ []))
      (usada 0, refl, refl) refl refl refl 0
