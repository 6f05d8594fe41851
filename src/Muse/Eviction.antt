-- ===== src/Muse/Eviction.antt =====
-- se_hace_la_vistima of memoria/main_memory.c, with room in the swap file and without.
use tp_sistemas_operativos_l.Common.{
  ℕ, zero, suc, ◌≡◌, refl, sym, ap, ◌∙◌, Bool, true, false, Option, none, some, Option-cases, inl,
  inr, subst, List, [], ◌∷◌, ltb, ltb→lt, lt→ltb, ◌≢◌, length, get_elem?, set, arith,
}
use tp_sistemas_operativos_l.Muse.State.{Page, Mutex, bitmap_heap, bitmap_mmap, mm, Muse}
use tp_sistemas_operativos_l.Muse.Monad.{
  ok, pure, and_then, ◌>>=◌, leer, cambiar, no_nulo, tiene, soltar, mutex_eq, tomar_mutex,
  soltar_mutex, locked, pagina, escribir, guardar_pagina, poner_bit, poner_bit_swap,
}
use tp_sistemas_operativos_l.Muse.Frames.{
  en_cola, primer_frame, frame_swap_libre, tomar_swap, copiar_a_swap, mandar_al_swap,
  marcar_victima, se_hace_la_vistima,
}

pub primer_frame-bound :
    (bs : List Bool) (i : ℕ) → primer_frame bs ≡ some i → ltb i (length bs) ≡ true
unfolding primer_frame
primer_frame-bound [] i h = absurd (cc)
primer_frame-bound (true ∷ bs) i h = ground (arith, h)
primer_frame-bound (false ∷ bs) i h = elim (Option-cases (primer_frame bs)) [
  | inl c ↦ (let z : none ≡ some i = sym (ap en_cola c) ∙ h in absurd (cc))
  | inr (j, c) ↦
      (let z : some (suc j) ≡ some i = sym (ap en_cola c) ∙ h in
        let e : suc j ≡ i = grind arith in
        let r = ltb→lt j (length bs) (primer_frame-bound bs j c) in
        lt→ltb i (suc (length bs)) (omega (arith, e, r)))
]

-- The first bit that is set is set.
pub primer_frame-set :
    (bs : List Bool) (i : ℕ) → primer_frame bs ≡ some i → get_elem? bs i ≡ some true
unfolding primer_frame
primer_frame-set [] i h = absurd (cc)
primer_frame-set (true ∷ bs) zero h = refl
primer_frame-set (true ∷ bs) (suc i) h = absurd (ground (arith, h))
primer_frame-set (false ∷ bs) i h = elim (Option-cases (primer_frame bs)) [
  | inl c ↦ (let z : none ≡ some i = sym (ap en_cola c) ∙ h in absurd (cc))
  | inr (j, c) ↦
      (let z : some (suc j) ≡ some i = sym (ap en_cola c) ∙ h in
        let e : suc j ≡ i = grind arith in
        subst (λ x. get_elem? (false ∷ bs) x ≡ some true) e (primer_frame-set bs j c))
]

pub get_elem?-set {ℓ} :
    {A : Type ℓ} (xs : List A) (i : ℕ) (v : A)
    → ltb i (length xs) ≡ true
    → get_elem? (set xs i v) i ≡ some v
get_elem?-set [] i v h = absurd (omega (arith, ltb→lt i 0 h))
get_elem?-set (x ∷ xs) zero v h = refl
get_elem?-set (x ∷ xs) (suc i) v h =
    get_elem?-set xs i v (lt→ltb i (length xs) (omega (arith, ltb→lt (suc i) (suc (length xs)) h)))

pub length-set {ℓ} : {A : Type ℓ} (xs : List A) (i : ℕ) (v : A) → length (set xs i v) ≡ length xs
length-set [] i v = refl
length-set (x ∷ xs) zero v = refl
length-set (x ∷ xs) (suc i) v = ap suc (length-set xs i v)

abbrev pub Libre : Mutex → Muse → Type 0
Libre m s = tiene m s.held ≡ false

-- The state after the eviction of page `n`, which is `p`, to place `k` of the swap file.
abbrev pub tras_expulsion : ℕ → Page → ℕ → Muse → Muse
tras_expulsion n p k s = record s {
  bitmap = set s.bitmap p.fr true;
  bitmap_swap_file = set s.bitmap_swap_file k false;
  swap_file = escribir s.swap_file k (s.main_memory p.fr);
  paginas = escribir s.paginas n (some (record p { fr = k; is_present = false }));
}

-- On the place that was found: without one, the frame is marked free and the page stays.
abbrev pub tras_victima : ℕ → Page → Option ℕ → Muse → Muse
tras_victima n p none s = record s { bitmap = set s.bitmap p.fr true }
tras_victima n p (some k) s = tras_expulsion n p k s

module _ (n : ℕ) (p : Page) (s : Muse) (hp : s.paginas n ≡ some p) (h1 : Libre mm s)
    (h2 : Libre bitmap_heap s) (h3 : Libre bitmap_mmap s)
    (hb : ltb p.fr (length s.bitmap) ≡ true) where
  pub se_hace_la_vistima-room :
      (k : ℕ)
      → primer_frame s.bitmap_swap_file ≡ some k
      → se_hace_la_vistima n s ≡ ok p.fr (tras_expulsion n p k s)
  unfolding se_hace_la_vistima marcar_victima mandar_al_swap copiar_a_swap frame_swap_libre
      tomar_swap poner_bit poner_bit_swap guardar_pagina pagina locked tomar_mutex soltar_mutex
      soltar mutex_eq no_nulo leer cambiar pure ◌>>=◌ and_then
  se_hace_la_vistima-room k hk =
      let hs = primer_frame-bound s.bitmap_swap_file k hk in
      rw (hp, h1, h2, hb, h3, hk, hs) (rw (h1, hp) refl)

  pub se_hace_la_vistima-full :
      primer_frame s.bitmap_swap_file ≡ none
      → se_hace_la_vistima n s ≡ ok p.fr (record s { bitmap = set s.bitmap p.fr true })
  unfolding se_hace_la_vistima marcar_victima mandar_al_swap copiar_a_swap frame_swap_libre
      tomar_swap poner_bit guardar_pagina pagina locked tomar_mutex soltar_mutex soltar mutex_eq
      no_nulo leer cambiar pure ◌>>=◌ and_then
  se_hace_la_vistima-full hk = rw (hp, h1, h2, hb, h3, hk) refl

  pub se_hace_la_vistima-run :
      se_hace_la_vistima n s ≡ ok p.fr (tras_victima n p (primer_frame s.bitmap_swap_file) s)
  se_hace_la_vistima-run = elim (Option-cases (primer_frame s.bitmap_swap_file)) [
    | inl c ↦ se_hace_la_vistima-full c ∙ ap (λ o. ok p.fr (tras_victima n p o s)) (sym c)
    | inr (k, c) ↦ se_hace_la_vistima-room k c ∙ ap (λ o. ok p.fr (tras_victima n p o s)) (sym c)
  ]

pub get_elem?-set_other {ℓ} :
    {A : Type ℓ} (xs : List A) (i j : ℕ) (v : A) → i ≢ j → get_elem? (set xs i v) j ≡ get_elem? xs j
get_elem?-set_other [] i j v h = refl
get_elem?-set_other (x ∷ xs) zero zero v h = absurd (h refl)
get_elem?-set_other (x ∷ xs) zero (suc j) v h = refl
get_elem?-set_other (x ∷ xs) (suc i) zero v h = refl
get_elem?-set_other (x ∷ xs) (suc i) (suc j) v h = get_elem?-set_other xs i j v (λ e. h (ap suc e))
