-- ===== src/Muse/NewPage.antt =====
-- A page on a frame that page_with_free_size of memoria/main_memory.c finds or frees.
use tp_sistemas_operativos_l.Common.{
  ℕ, suc, ◌≡◌, ◌≢◌, refl, sym, ap, ◌∙◌, inl, inr, true, false, none, some, List, ◌∷◌, ltb, length,
  get_elem?, set, Bool-cases, ◌==◌, ==_iff, ==_refl, arith,
}
use tp_sistemas_operativos_l.Muse.State.{Page, bitmap_heap, mm, Muse}
use tp_sistemas_operativos_l.Muse.Monad.{
  ok, pure, and_then, ◌>>=◌, leer, cambiar, no_nulo, tiene, soltar, mutex_eq, tomar_mutex,
  soltar_mutex, locked, escribir, guardar_pagina, poner_bit,
}
use tp_sistemas_operativos_l.Muse.Frames.{primer_frame}
use tp_sistemas_operativos_l.Muse.Clock.{
  dame_nro_frame_reemplazado, pagina_nueva, tomar_reemplazado, tomar_libre, page_with_free_size,
}
use tp_sistemas_operativos_l.Muse.Choice.{Paginas, Esta, Definida, Conserva}
use tp_sistemas_operativos_l.Muse.Eviction.{Libre, primer_frame-bound, get_elem?-set}
use tp_sistemas_operativos_l.Muse.Replacement.{paginas_de, Libres}

-- The state after a new page on frame `i`.
abbrev pub nueva : ℕ → Muse → Muse
nueva i s = record s {
  bitmap = set s.bitmap i false;
  paginas =
      escribir s.paginas s.fresh
        (some (record { is_modify = false; is_used = true; is_present = true; fr = i }));
  fresh = suc s.fresh;
}

pub pagina_nueva-run :
    (i : ℕ) (s : Muse)
    → Libre mm s
    → ltb i (length s.bitmap) ≡ true
    → pagina_nueva i s ≡ ok s.fresh (nueva i s)
unfolding pagina_nueva locked tomar_mutex soltar_mutex soltar mutex_eq poner_bit guardar_pagina leer
    cambiar pure ◌>>=◌ and_then
pagina_nueva-run i s h b = rw (b, h) refl

pub page_with_free_size-free :
    (fuel i : ℕ) (s : Muse)
    → Libres s
    → primer_frame s.bitmap ≡ some i
    → page_with_free_size fuel s ≡ ok s.fresh (nueva i s)
unfolding page_with_free_size tomar_libre locked tomar_mutex soltar_mutex soltar mutex_eq tiene leer
    cambiar pure ◌>>=◌ and_then
page_with_free_size-free fuel i s lib h =
    let b = primer_frame-bound s.bitmap i h in
    rw (lib.2, h)
      (rw (lib.2, pagina_nueva-run i (record s { held = bitmap_heap ∷ s.held }) lib.1 b) refl)

pub page_with_free_size-busy :
    (fuel fr : ℕ) (s t : Muse)
    → Libres s
    → primer_frame s.bitmap ≡ none
    → dame_nro_frame_reemplazado fuel s ≡ ok fr t
    → Libres t
    → get_elem? t.bitmap fr ≡ some true
    → ltb fr (length t.bitmap) ≡ true
    → page_with_free_size fuel s ≡ ok t.fresh (nueva fr t)
unfolding page_with_free_size tomar_libre tomar_reemplazado locked tomar_mutex soltar_mutex soltar
    mutex_eq tiene no_nulo leer cambiar pure ◌>>=◌ and_then
page_with_free_size-busy fuel fr s t lib h r libt g b =
    rw (lib.2, h)
      (rw (r, libt.2, g)
        (rw (pagina_nueva-run fr (record t { held = bitmap_heap ∷ t.held }) libt.1 b) refl))

-- The pages of the segments that are present are on frames that are taken, no two of them on one frame.
abbrev pub Exclusivo : Muse → Type 0
Exclusivo s =
    ((a : ℕ) (p : Page)
      → Esta a (paginas_de s)
      → s.paginas a ≡ some p
      → p.is_present ≡ true
      → get_elem? s.bitmap p.fr ≡ some false)
    × ((a b : ℕ) (p q : Page)
        → Esta a (paginas_de s)
        → Esta b (paginas_de s)
        → s.paginas a ≡ some p
        → s.paginas b ≡ some q
        → p.is_present ≡ true
        → q.is_present ≡ true
        → p.fr ≡ q.fr
        → a ≡ b)

-- Page `n` of the state is present, on a frame that is taken and that no page of `ids` is on.
abbrev pub SoloEn : List ℕ → ℕ → Muse → Type 0
SoloEn ids n t =
    (q : Page) × (t.paginas n ≡ some q)
    × (q.is_present ≡ true)
    × (get_elem? t.bitmap q.fr ≡ some false)
    × ((a : ℕ) (p : Page) → Esta a ids → t.paginas a ≡ some p → p.is_present ≡ true → p.fr ≢ q.fr)

pub escribir-other {ℓ} :
    {A : Type ℓ} (f : ℕ → A) (i : ℕ) (v : A) (j : ℕ) → (j == i) ≡ false → escribir f i v j ≡ f j
escribir-other f i v j h = rw h refl

pub escribir-same {ℓ} : {A : Type ℓ} (f : ℕ → A) (i : ℕ) (v : A) → escribir f i v i ≡ v
escribir-same f i v = rw (==_refl i) refl

pub escribir-undefined :
    (f : Paginas) (n m : ℕ) (v p : Page)
    → f n ≡ some p
    → f m ≡ none
    → escribir f n (some v) m ≡ none
escribir-undefined f n m v p h e = elim (Bool-cases (m == n)) [
  | inl d ↦ (let z : some p ≡ none = sym h ∙ ap f (sym ((==_iff m n).0 d)) ∙ e in absurd (cc))
  | inr d ↦ escribir-other f n (some v) m d ∙ e
]

pub escribir-Definida :
    (f : Paginas) (n a : ℕ) (v : Page) → Definida f a → Definida (escribir f n (some v)) a
escribir-Definida f n a v (p, e) = elim (Bool-cases (a == n)) [
  | inl d ↦ (v, rw d refl)
  | inr d ↦ (p, escribir-other f n (some v) a d ∙ e)
]

pub distinta : (f : Paginas) (a n : ℕ) (p : Page) → f a ≡ some p → f n ≡ none → (a == n) ≡ false
distinta f a n p h e = elim (Bool-cases (a == n)) [
  | inl d ↦ (let z : some p ≡ none = sym h ∙ ap f ((==_iff a n).0 d) ∙ e in absurd (cc))
  | inr d ↦ d
]

-- A new page on a frame that no page is on.
pub nueva-SoloEn :
    (i : ℕ) (s : Muse) (ids : List ℕ)
    → ltb i (length s.bitmap) ≡ true
    → s.paginas s.fresh ≡ none
    → ((a : ℕ) → Esta a ids → Definida s.paginas a)
    → ((a : ℕ) (p : Page) → Esta a ids → s.paginas a ≡ some p → p.is_present ≡ true → p.fr ≢ i)
    → SoloEn ids s.fresh (nueva i s)
nueva-SoloEn i s ids b hf df h = (
  record { is_modify = false; is_used = true; is_present = true; fr = i },
  rw (==_refl s.fresh) refl,
  refl,
  get_elem?-set s.bitmap i false b,
  λ a p ha e pr. elim (Bool-cases (a == s.fresh)) [
    | inl c ↦
        (let (z, k) = df a ha in
          let w : none ≡ some z = sym hf ∙ ap s.paginas (sym ((==_iff a s.fresh).0 c)) ∙ k in
          absurd (cc))
    | inr c ↦ h a p ha (sym (escribir-other s.paginas s.fresh _ a c) ∙ e) pr
  ],
)

-- What the searches of the clock leave of a page: it is present, and on its frame, as it was.
pub antes :
    (s : Muse) (f : Paginas) (a : ℕ) (p : Page)
    → Conserva s.paginas f
    → Definida s.paginas a
    → f a ≡ some p
    → p.is_present ≡ true
    → (p0 : Page) × (s.paginas a ≡ some p0) × (p0.is_present ≡ true) × (p0.fr ≡ p.fr)
antes s f a p c (p0, e0) e pr =
    let (u, k) = c a p0 e0 in
    let z : some (record p0 { is_used = u }) ≡ some p = sym k ∙ e in
    (p0, e0, ground (arith, z, pr), ground (arith, z))
