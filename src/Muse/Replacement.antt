-- ===== src/Muse/Replacement.antt =====
-- dame_nro_frame_reemplazado of memoria/main_memory.c as a whole.
use tp_sistemas_operativos_l.Common.{
  ℕ, zero, suc, ◌≡◌, refl, sym, ap, ◌∙◌, ◌⊎◌, inl, inr, true, Option, none, some, List, [], ◌∷◌,
  ◌++◌, ltb, length, get_elem?, All, arith,
}
use tp_sistemas_operativos_l.Muse.State.{Page, Segment, bitmap_heap, bitmap_mmap, mm, clock, Muse}
use tp_sistemas_operativos_l.Muse.Monad.{
  ok, pure, and_then, ◌>>=◌, leer, cambiar, no_nulo, tiene, soltar, mutex_eq, tomar_mutex,
  soltar_mutex, locked,
}
use tp_sistemas_operativos_l.Muse.Frames.{primer_frame}
use tp_sistemas_operativos_l.Muse.Clock.{drop, lista_de_segmentos, dame_nro_frame_reemplazado}
use tp_sistemas_operativos_l.Muse.Choice.{Paginas, elige, Esta, Definida, Conserva}
use tp_sistemas_operativos_l.Muse.Turns.{elige-Bueno, elige-finds}
use tp_sistemas_operativos_l.Muse.Run.{con, paginas_desde}
use tp_sistemas_operativos_l.Muse.Victim.{reloj_en, victima, vueltas_lem}
use tp_sistemas_operativos_l.Muse.Eviction.{Libre, tras_victima, se_hace_la_vistima-run}

pub Esta-left : (m : ℕ) (xs ys : List ℕ) → Esta m xs → Esta m (xs ++ ys)
Esta-left m [] ys i = absurd i
Esta-left m (x ∷ xs) ys (inl e) = inl e
Esta-left m (x ∷ xs) ys (inr i) = inr (Esta-left m xs ys i)

pub Esta-right : (m : ℕ) (xs ys : List ℕ) → Esta m ys → Esta m (xs ++ ys)
Esta-right m [] ys i = i
Esta-right m (x ∷ xs) ys i = inr (Esta-right m xs ys i)

pub Esta-either : (m : ℕ) (xs ys : List ℕ) → Esta m (xs ++ ys) → Esta m xs ⊎ Esta m ys
Esta-either m [] ys i = inr i
Esta-either m (x ∷ xs) ys (inl e) = inl (inl e)
Esta-either m (x ∷ xs) ys (inr i) = elim (Esta-either m xs ys i) [
  | inl a ↦ inl (inr a)
  | inr b ↦ inr b
]

Esta-drop : (m j : ℕ) (xs : List ℕ) → Esta m (drop j xs) → Esta m xs
Esta-drop m zero xs i = i
Esta-drop m (suc j) [] i = i
Esta-drop m (suc j) (x ∷ xs) i = inr (Esta-drop m j xs i)

-- The pages from the hand of the clock on are pages of the segments.
Esta-desde :
    (m g j : ℕ) (T : List Segment)
    → Esta m (paginas_desde (drop g T) j)
    → Esta m (paginas_desde T 0)
Esta-desde m zero j [] i = i
Esta-desde m zero j (seg ∷ T) i =
    elim (Esta-either m (drop j seg.page_table) (paginas_desde T 0) i) [
      | inl a ↦ Esta-left m seg.page_table (paginas_desde T 0) (Esta-drop m j seg.page_table a)
      | inr b ↦ Esta-right m seg.page_table (paginas_desde T 0) b
    ]
Esta-desde m (suc g) j [] i = i
Esta-desde m (suc g) j (seg ∷ T) i =
    Esta-right m seg.page_table (paginas_desde T 0) (Esta-desde m g j T i)

todas : (f : Paginas) (ids : List ℕ) → ((m : ℕ) → Esta m ids → Definida f m) → All (Definida f) ids
todas f [] h = tt
todas f (x ∷ xs) h = (h x (inl refl), todas f xs (λ m i. h m (inr i)))

-- The segments and the pages that the clock goes over, and those that it has before it.
abbrev pub segmentos_de : Muse → List Segment
segmentos_de s = lista_de_segmentos s.program_list

abbrev pub paginas_de : Muse → List ℕ
paginas_de s = paginas_desde (segmentos_de s) 0

abbrev pub por_delante : Muse → List ℕ
por_delante s = paginas_desde (drop s.segmento_clock (segmentos_de s)) (suc s.pagina_clock)

-- A page of the store, on a frame that exists if it is present.
abbrev pub EnMarco : Muse → ℕ → Type 0
EnMarco s m =
    (p : Page) × (s.paginas m ≡ some p) × (p.is_present ≡ true → ltb p.fr (length s.bitmap) ≡ true)

-- The unlock of the clock after an eviction.
soltar_reloj :
    (o : Option ℕ) (n : ℕ) (p : Page) (k l : ℕ) (s : Muse) (f : Paginas)
    → (let t = tras_victima n p o (record s { paginas = f; held = clock ∷ s.held }) in
        record t { segmento_clock = k; pagina_clock = l; held = soltar clock t.held })
      ≡ reloj_en k l (tras_victima n p o (con s f))
unfolding soltar mutex_eq
soltar_reloj none n p k l s f = refl
soltar_reloj (some c) n p k l s f = refl

-- The mutexes that the replacement takes are not held.
abbrev pub Libres : Muse → Type 0
Libres s = Libre clock s × Libre mm s × Libre bitmap_heap s × Libre bitmap_mmap s

-- A page that is present.
abbrev pub Presente : Muse → ℕ → Type 0
Presente s m = (p : Page) × (s.paginas m ≡ some p) × (p.is_present ≡ true)

module _ (s : Muse) (seg : Segment) (wf : (m : ℕ) → Esta m (paginas_de s) → EnMarco s m)
    (lib : Libres s) (hs : get_elem? (segmentos_de s) s.segmento_clock ≡ some seg) where
  defs : (m : ℕ) → Esta m (paginas_de s) → Definida s.paginas m
  defs m i = let (p, e, _) = wf m i in (p, e)

  inc : (m : ℕ) → Esta m (por_delante s) → Esta m (paginas_de s)
  inc m i = Esta-desde m s.segmento_clock (suc s.pagina_clock) (segmentos_de s) i

  d : All (Definida s.paginas) (paginas_de s)
  d = todas s.paginas (paginas_de s) defs

  dr : All (Definida s.paginas) (por_delante s)
  dr = todas s.paginas (por_delante s) (λ m i. defs m (inc m i))

  abbrev eleccion : Option ℕ × Paginas
  eleccion = elige (por_delante s) (paginas_de s) s.paginas

  -- The victim is a page of the segments, present, on a frame that exists.
  pub eleccion-Presente :
      (n : ℕ)
      → eleccion.0 ≡ some n
      → Esta n (paginas_de s)
        × ((p : Page) × (eleccion.1 n ≡ some p)
            × (p.is_present ≡ true)
            × (ltb p.fr (length s.bitmap) ≡ true))
  eleccion-Presente n h =
      let (c, b, _) = elige-Bueno (por_delante s) (paginas_de s) s.paginas inc d dr in
      let (i, (q, e, pr)) = b n h in
      let (p, ep, m) = wf n i in
      let (u, k) = c n p ep in
      let z : some (record p { is_used = u }) ≡ some q = sym k ∙ e in
      let pr' : p.is_present ≡ true = ground (arith, z, pr) in
      (i, (record p { is_used = u }, k, pr', m pr'))

  dame_abre :
      (fuel n : ℕ)
      → eleccion.0 ≡ some n
      → (k l : ℕ) × (dame_nro_frame_reemplazado (suc (suc (suc (suc fuel)))) s
          ≡ and_then
              (victima n k l (record s { paginas = eleccion.1; held = clock ∷ s.held }))
              (λ fr t. ok fr (record t { held = soltar clock t.held })))
  unfolding dame_nro_frame_reemplazado locked tomar_mutex soltar_mutex no_nulo leer cambiar pure
      ◌>>=◌ and_then
  dame_abre fuel n h =
      let (k, l, e) =
        vueltas_lem fuel (segmentos_de s) (drop s.segmento_clock (segmentos_de s)) s.segmento_clock
          (suc s.pagina_clock) (record s { held = clock ∷ s.held }) dr d n h in
      (
        k,
        l,
        rw (lib.0, hs)
            (ap (λ o. and_then o (λ a t. ok a (record t { held = soltar clock t.held }))) e),
      )

  pub eleccion-Conserva : Conserva s.paginas eleccion.1
  eleccion-Conserva = (elige-Bueno (por_delante s) (paginas_de s) s.paginas inc d dr).0

  pub eleccion-undefined : (m : ℕ) → s.paginas m ≡ none → eleccion.1 m ≡ none
  eleccion-undefined = (elige-Bueno (por_delante s) (paginas_de s) s.paginas inc d dr).2

  pub eleccion-finds :
      (m : ℕ) → Esta m (paginas_de s) → Presente s m → (n : ℕ) × (eleccion.0 ≡ some n)
  eleccion-finds m i (q, e, pr) =
      elige-finds (por_delante s) (paginas_de s) s.paginas inc d dr m q i e pr

  -- With a place in the swap file or without, the victim of the four searches is evicted.
  pub dame-victim :
      (fuel n : ℕ)
      → eleccion.0 ≡ some n
      → (p : Page) × (k l : ℕ) × Esta n (paginas_de s)
        × (eleccion.1 n ≡ some p)
        × (p.is_present ≡ true)
        × (ltb p.fr (length s.bitmap) ≡ true)
        × (dame_nro_frame_reemplazado (suc (suc (suc (suc fuel)))) s
            ≡ ok p.fr (
                reloj_en k l
                  (tras_victima n p (primer_frame s.bitmap_swap_file) (con s eleccion.1))))
  unfolding and_then soltar mutex_eq tiene
  dame-victim fuel n h =
      let (i, (p, e, pr, b)) = eleccion-Presente n h in
      let (k, l, r) = dame_abre fuel n h in
      let t = record s { paginas = eleccion.1; held = clock ∷ s.held } in
      (
        p,
        k,
        l,
        i,
        e,
        pr,
        b,
        r
            ∙ rw (se_hace_la_vistima-run n p t e lib.1 lib.2 lib.3 b) (
                ap (ok p.fr) (soltar_reloj (primer_frame s.bitmap_swap_file) n p k l s eleccion.1)),
      )
