-- ===== src/Muse/Search.antt =====
-- What a search of Choice keeps, finds and clears.
use tp_sistemas_operativos_l.Common.{
  ℕ, ◌≡◌, refl, sym, ap, ◌∙◌, inl, inr, true, false, ◌&&◌, none, some, List, [], ◌∷◌, All, arith,
}
use tp_sistemas_operativos_l.Muse.State.{Page}
use tp_sistemas_operativos_l.Muse.Clock.{Paso, dos, candidata}
use tp_sistemas_operativos_l.Muse.Choice.{
  Paginas, tras_pasar, visitar, Esta, Definida, visitar-chosen, Conserva, Conserva-refl,
  Conserva-trans, tras_pasar-Conserva, tras_pasar-unused, tras_pasar-used, tras_pasar-undefined,
  resto-Definida, paso_a_paso,
}

-- What is proved of every search by its steps.
module _ (paso : Paso) where
  pub visitar-Conserva :
      (ids : List ℕ) (f : Paginas) → All (Definida f) ids → Conserva f (visitar paso ids f).1
  unfolding visitar
  visitar-Conserva [] f d = Conserva-refl f
  visitar-Conserva (n ∷ ns) f d = elim (paso_a_paso paso n ns f d) [
    | inl (e, c) ↦ rw e (Conserva-refl f)
    | inr (e, c) ↦ rw e (
        Conserva-trans (tras_pasar-Conserva paso n f d.0.0 d.0.1)
          (visitar-Conserva ns (tras_pasar paso n d.0.0 f) (resto-Definida paso n ns f d)))
  ]

  pub visitar-unused :
      (ids : List ℕ) (f : Paginas) (m : ℕ) (q : Page)
      → All (Definida f) ids
      → f m ≡ some q
      → q.is_used ≡ false
      → (visitar paso ids f).1 m ≡ some q
  unfolding visitar
  visitar-unused [] f m q d e u = e
  visitar-unused (n ∷ ns) f m q d e u = elim (paso_a_paso paso n ns f d) [
    | inl (v, c) ↦ rw v e
    | inr (v, c) ↦ rw v (
        visitar-unused ns (tras_pasar paso n d.0.0 f) m q (resto-Definida paso n ns f d)
          (tras_pasar-unused paso n m f d.0.0 q d.0.1 e u) u)
  ]

  -- No page is made.
  pub visitar-undefined :
      (ids : List ℕ) (f : Paginas) (m : ℕ)
      → All (Definida f) ids
      → f m ≡ none
      → (visitar paso ids f).1 m ≡ none
  unfolding visitar
  visitar-undefined [] f m d e = e
  visitar-undefined (n ∷ ns) f m d e = elim (paso_a_paso paso n ns f d) [
    | inl (v, c) ↦ rw v e
    | inr (v, c) ↦ rw v (
        visitar-undefined ns (tras_pasar paso n d.0.0 f) m (resto-Definida paso n ns f d)
          (tras_pasar-undefined paso n m f d.0.0 d.0.1 e))
  ]

  -- A search finds a page if one that it accepts, and that is not used, is in its list.
  pub visitar-finds :
      (ids : List ℕ) (f : Paginas) (m : ℕ) (q : Page)
      → All (Definida f) ids
      → Esta m ids
      → f m ≡ some q
      → q.is_used ≡ false
      → (q.is_present && candidata paso q) ≡ true
      → (k : ℕ) × ((visitar paso ids f).0 ≡ some k)
  visitar-finds [] f m q d i e u c = absurd i
  visitar-finds (n ∷ ns) f m q d (inl i) e u c =
      (n, rw (visitar-chosen paso n ns f q (ap f i ∙ e) c) refl)
  visitar-finds (n ∷ ns) f m q d (inr i) e u c = elim (paso_a_paso paso n ns f d) [
    | inl (v, _) ↦ (n, rw v refl)
    | inr (v, _) ↦ rw v (
        visitar-finds ns (tras_pasar paso n d.0.0 f) m q (resto-Definida paso n ns f d) i
          (tras_pasar-unused paso n m f d.0.0 q d.0.1 e u) u c)
  ]

  -- The page that a search gives is in its list, and the step accepts it.
  pub visitar-found :
      (ids : List ℕ) (f : Paginas) (m : ℕ)
      → All (Definida f) ids
      → (visitar paso ids f).0 ≡ some m
      → Esta m ids
        × ((q : Page) × ((visitar paso ids f).1 m ≡ some q)
            × ((q.is_present && candidata paso q) ≡ true))
  unfolding visitar
  visitar-found [] f m d h = absurd (cc)
  visitar-found (n ∷ ns) f m d h = elim (paso_a_paso paso n ns f d) [
    | inl (v, c) ↦
        (let k : some n ≡ some m = sym (ap (λ z. z.0) v) ∙ h in
          let i : n ≡ m = grind arith in
          (inl i, (d.0.0, ap (λ z. z.1 m) v ∙ ap f (sym i) ∙ d.0.1, c)))
    | inr (v, c) ↦
        (let r =
            visitar-found ns (tras_pasar paso n d.0.0 f) m (resto-Definida paso n ns f d)
              (sym (ap (λ z. z.0) v) ∙ h) in
          (inr r.0, (r.1.0, ap (λ z. z.1 m) v ∙ r.1.1, r.1.2)))
  ]

-- Step 2 that finds nothing leaves no page of its list used.
pub visitar-clears :
    (ids : List ℕ) (f : Paginas) (m : ℕ) (q : Page)
    → All (Definida f) ids
    → (visitar dos ids f).0 ≡ none
    → Esta m ids
    → f m ≡ some q
    → q.is_present ≡ true
    → (visitar dos ids f).1 m ≡ some (record q { is_used = false })
visitar-clears [] f m q d h i e c = absurd i
visitar-clears (n ∷ ns) f m q d h (inl i) e c =
    elim (paso_a_paso dos n ns f ((q, ap f i ∙ e), d.1)) [
      | inl (v, _) ↦ (let k : some n ≡ none = sym (ap (λ z. z.0) v) ∙ h in absurd (cc))
      | inr (v, _) ↦
          (ap (λ z. z.1 m) v
            ∙ visitar-unused dos ns (tras_pasar dos n q f) m (record q { is_used = false })
                (resto-Definida dos n ns f ((q, ap f i ∙ e), d.1))
                (ap (tras_pasar dos n q f) (sym i) ∙ tras_pasar-used n f q c) refl)
    ]
visitar-clears (n ∷ ns) f m q d h (inr i) e c = elim (paso_a_paso dos n ns f d) [
  | inl (v, _) ↦ (let k : some n ≡ none = sym (ap (λ z. z.0) v) ∙ h in absurd (cc))
  | inr (v, _) ↦
      (let (u, k) = tras_pasar-Conserva dos n f d.0.0 d.0.1 m q e in
        ap (λ z. z.1 m) v
        ∙ visitar-clears ns (tras_pasar dos n d.0.0 f) m (record q { is_used = u })
            (resto-Definida dos n ns f d) (sym (ap (λ z. z.0) v) ∙ h) i k c)
]
