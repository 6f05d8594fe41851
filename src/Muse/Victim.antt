-- ===== src/Muse/Victim.antt =====
-- The turns of dame_nro_frame_reemplazado run the four searches of Choice.
use tp_sistemas_operativos_l.Common.{
  ℕ, suc, ◌≡◌, refl, sym, ap, ◌∙◌, subst, Option, none, some, List, All, arith,
}
use tp_sistemas_operativos_l.Muse.State.{Segment, Muse}
use tp_sistemas_operativos_l.Muse.Monad.{
  Outcome, ok, fault, deadlock, agotado, M, pure, and_then, ◌>>=◌, cambiar,
}
use tp_sistemas_operativos_l.Muse.Frames.{se_hace_la_vistima}
use tp_sistemas_operativos_l.Muse.Clock.{
  Paso, uno, dos, paso_siguiente, mover_reloj, recorrer_segmentos, vueltas,
}
use tp_sistemas_operativos_l.Muse.Choice.{
  Paginas, visitar, luego, elige, Definida, Conserva-Definida,
}
use tp_sistemas_operativos_l.Muse.Search.{visitar-Conserva}
use tp_sistemas_operativos_l.Muse.Run.{con, tras_segmentos, paginas_desde, recorrer_segmentos_lem}

-- The hand of the clock at a victim.
abbrev pub reloj_en : ℕ → ℕ → Muse → Muse
reloj_en k l s = record s { segmento_clock = k; pagina_clock = l }

abbrev pub victima : ℕ → ℕ → ℕ → M ℕ
victima n k l s = and_then (se_hace_la_vistima n s) (λ fr t. ok fr (reloj_en k l t))

-- An outcome that evicts the page that a search gives, if it gives one.
abbrev pub Cumple : Option ℕ × Paginas → Outcome ℕ → Muse → Type 0
Cumple x o s = (n : ℕ) → x.0 ≡ some n → (k l : ℕ) × (o ≡ victima n k l (con s x.1))

luego-luego :
    (x : Option ℕ × Paginas) (k h : Paginas → Option ℕ × Paginas)
    → luego (luego x k) h ≡ luego x (λ f. luego (k f) h)
luego-luego (none, f) k h = refl
luego-luego (some n, f) k h = refl

-- What a turn does with the result of its loop.
abbrev seguir_vuelta : ℕ → Paso → List Segment → Option ℕ → M ℕ
seguir_vuelta fuel paso todos none = vueltas fuel (paso_siguiente paso) todos todos 0 0
seguir_vuelta fuel paso todos (some fr) = pure fr

vuelta_abre :
    (fuel : ℕ) (paso : Paso) (todos segs : List Segment) (g j : ℕ) (s : Muse)
    → vueltas (suc fuel) paso todos segs g j s
      ≡ and_then (recorrer_segmentos paso segs g j s) (seguir_vuelta fuel paso todos)
unfolding ◌>>=◌ vueltas
vuelta_abre fuel paso todos segs g j s = refl

primera_victima :
    (o : Outcome ℕ) (g i fuel : ℕ) (paso : Paso) (todos : List Segment)
    → and_then (and_then o (λ fr. mover_reloj g (i, fr))) (seguir_vuelta fuel paso todos)
      ≡ and_then o (λ fr t. ok fr (reloj_en g i t))
unfolding and_then pure mover_reloj ◌>>=◌ cambiar
primera_victima (ok a s) g i fuel paso todos = refl
primera_victima fault g i fuel paso todos = refl
primera_victima deadlock g i fuel paso todos = refl
primera_victima agotado g i fuel paso todos = refl

tras_vuelta :
    (fuel : ℕ) (paso : Paso) (todos : List Segment) (g i : ℕ) (s : Muse) (x : Option ℕ × Paginas)
    (k : Paginas → Option ℕ × Paginas)
    → Cumple (k x.1) (vueltas fuel (paso_siguiente paso) todos todos 0 0 (con s x.1)) s
    → Cumple (luego x k) (and_then (tras_segmentos g i x s) (seguir_vuelta fuel paso todos)) s
unfolding and_then
tras_vuelta fuel paso todos g i s (none, f) k r n h = r n h
tras_vuelta fuel paso todos g i s (some m, f) k r n h =
    let e : m ≡ n = ground (arith, h) in
    (
      g,
      i,
      primera_victima (se_hace_la_vistima m (con s f)) g i fuel paso todos
          ∙ ap (λ z. victima z g i (con s f)) e,
    )

-- A turn and the searches after it.
vuelta :
    (fuel : ℕ) (paso : Paso) (todos segs : List Segment) (g j : ℕ) (s : Muse)
    (k : Paginas → Option ℕ × Paginas)
    → All (Definida s.paginas) (paginas_desde segs j)
    → All (Definida s.paginas) (paginas_desde todos 0)
    → ((f : Paginas)
        → All (Definida f) (paginas_desde todos 0)
        → Cumple (k f) (vueltas fuel (paso_siguiente paso) todos todos 0 0 (con s f)) s)
    → Cumple
        (luego (visitar paso (paginas_desde segs j) s.paginas) k)
        (vueltas (suc fuel) paso todos segs g j s)
        s
vuelta fuel paso todos segs g j s k d dt r n h =
    let x = visitar paso (paginas_desde segs j) s.paginas in
    let (a, b, e) = recorrer_segmentos_lem paso segs g j s d in
    let dx =
      Conserva-Definida (paginas_desde todos 0)
        (visitar-Conserva paso (paginas_desde segs j) s.paginas d) dt in
    let (p, q, t) = tras_vuelta fuel paso todos a b s x k (r x.1 dx) n h in
    (
      p,
      q,
      vuelta_abre fuel paso todos segs g j s
          ∙ ap (λ z. and_then z (seguir_vuelta fuel paso todos)) e
          ∙ t,
    )

luego_fin : (x : Option ℕ × Paginas) → luego x (λ f. (none, f)) ≡ x
luego_fin (none, f) = refl
luego_fin (some n, f) = refl

-- The turns over all the segments, the last one first.
module _ (fuel : ℕ) (T : List Segment) (s : Muse) where
  abbrev ts : List ℕ
  ts = paginas_desde T 0

  turno4 :
      (f : Paginas)
      → All (Definida f) ts
      → Cumple (visitar dos ts f) (vueltas (suc fuel) dos T T 0 0 (con s f)) s
  turno4 f d =
      subst (λ z. Cumple z (vueltas (suc fuel) dos T T 0 0 (con s f)) s)
        (luego_fin (visitar dos ts f))
        (vuelta fuel dos T T 0 0 (con s f) (λ g. (none, g)) d d (λ g _ n h. absurd (cc)))

  turno3 :
      (f : Paginas)
      → All (Definida f) ts
      → Cumple
          (luego (visitar uno ts f) (visitar dos ts))
          (vueltas (suc (suc fuel)) uno T T 0 0 (con s f))
          s
  unfolding paso_siguiente
  turno3 f d = vuelta (suc fuel) uno T T 0 0 (con s f) (visitar dos ts) d d turno4

  turno2 :
      (f : Paginas)
      → All (Definida f) ts
      → Cumple
          (luego (visitar dos ts f) (λ g. luego (visitar uno ts g) (visitar dos ts)))
          (vueltas (suc (suc (suc fuel))) dos T T 0 0 (con s f))
          s
  unfolding paso_siguiente
  turno2 f d =
      vuelta (suc (suc fuel)) dos T T 0 0 (con s f) (λ g. luego (visitar uno ts g) (visitar dos ts))
        d d turno3

-- Four turns are enough for the victim of the four searches.
pub vueltas_lem :
    (fuel : ℕ) (todos segs : List Segment) (g j : ℕ) (s : Muse)
    → All (Definida s.paginas) (paginas_desde segs j)
    → All (Definida s.paginas) (paginas_desde todos 0)
    → Cumple
        (elige (paginas_desde segs j) (paginas_desde todos 0) s.paginas)
        (vueltas (suc (suc (suc (suc fuel)))) uno todos segs g j s)
        s
unfolding elige paso_siguiente
vueltas_lem fuel todos segs g j s d dt =
    let ts = paginas_desde todos 0 in
    let v = visitar uno (paginas_desde segs j) s.paginas in
    let e : luego (luego (luego v (visitar dos ts)) (visitar uno ts)) (visitar dos ts)
        ≡ luego v (λ f. luego (visitar dos ts f) (λ g. luego (visitar uno ts g) (visitar dos ts))) =
      luego-luego (luego v (visitar dos ts)) (visitar uno ts) (visitar dos ts)
      ∙ luego-luego v (visitar dos ts) (λ g. luego (visitar uno ts g) (visitar dos ts)) in
    subst (λ z. Cumple z (vueltas (suc (suc (suc (suc fuel)))) uno todos segs g j s) s) (sym e)
      (vuelta (suc (suc (suc fuel))) uno todos segs g j s
        (λ f. luego (visitar dos ts f) (λ g. luego (visitar uno ts g) (visitar dos ts))) d dt
        (turno2 fuel todos s))
