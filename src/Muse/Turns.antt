-- ===== src/Muse/Turns.antt =====
-- Four searches find a victim where a page is present: the choice of the clock algorithm.
use tp_sistemas_operativos_l.Common.{
  ℕ, ◌≡◌, refl, sym, ap, ◌∙◌, inl, inr, Bool, true, false, ◌&&◌, Bool-cases, Option, none, some,
  List, All,
}
use tp_sistemas_operativos_l.Muse.State.{Page}
use tp_sistemas_operativos_l.Muse.Clock.{Paso, uno, dos, candidata}
use tp_sistemas_operativos_l.Muse.Choice.{
  Paginas, visitar, luego, elige, Esta, Definida, Conserva, Conserva-trans, Conserva-Definida,
}
use tp_sistemas_operativos_l.Muse.Search.{
  visitar-Conserva, visitar-unused, visitar-undefined, visitar-finds, visitar-found, visitar-clears,
}

pub luego-none :
    (x : Option ℕ × Paginas) (g : Paginas → Option ℕ × Paginas) → x.0 ≡ none → luego x g ≡ g x.1
luego-none (none, f) g h = refl
luego-none (some n, f) g h = absurd (cc)

pub luego-some :
    (x : Option ℕ × Paginas) (g : Paginas → Option ℕ × Paginas) (n : ℕ)
    → x.0 ≡ some n
    → luego x g ≡ x
luego-some (none, f) g n h = absurd (cc)
luego-some (some n, f) g m h = refl

luego-finds :
    (x : Option ℕ × Paginas) (g : Paginas → Option ℕ × Paginas)
    → (x.0 ≡ none → (k : ℕ) × ((g x.1).0 ≡ some k))
    → (k : ℕ) × ((luego x g).0 ≡ some k)
luego-finds (none, f) g h = h refl
luego-finds (some n, f) g h = (n, refl)

-- No search found a victim.
luego-nada :
    (x : Option ℕ × Paginas) (g : Paginas → Option ℕ × Paginas)
    → (luego x g).0 ≡ none
    → (x.0 ≡ none) × (luego x g ≡ g x.1)
luego-nada (none, f) g h = (refl, refl)
luego-nada (some n, f) g h = absurd (cc)

-- A search of `todos` that started from the store `f`.
abbrev pub Bueno : List ℕ → Paginas → Option ℕ × Paginas → Type 0
Bueno todos f x =
    Conserva f x.1
    × ((m : ℕ)
        → x.0 ≡ some m
        → Esta m todos × ((q : Page) × (x.1 m ≡ some q) × (q.is_present ≡ true)))
    × ((m : ℕ) → f m ≡ none → x.1 m ≡ none)

and_left : (a b : Bool) → (a && b) ≡ true → a ≡ true
and_left true b h = refl
and_left false b h = h

visitar-Bueno :
    (paso : Paso) (ids todos : List ℕ) (f : Paginas)
    → ((m : ℕ) → Esta m ids → Esta m todos)
    → All (Definida f) ids
    → Bueno todos f (visitar paso ids f)
visitar-Bueno paso ids todos f inc d = (
  visitar-Conserva paso ids f d,
  λ m h. let r = visitar-found paso ids f m d h in (inc m r.0, (r.1.0, r.1.1, and_left _ _ r.1.2)),
  λ m e. visitar-undefined paso ids f m d e,
)

luego-Bueno :
    (todos : List ℕ) (f : Paginas) (x : Option ℕ × Paginas) (k : Paginas → Option ℕ × Paginas)
    → Bueno todos f x
    → ((g : Paginas) → Conserva f g → Bueno todos g (k g))
    → Bueno todos f (luego x k)
luego-Bueno todos f (none, g) k b s =
    let c = s g b.0 in (Conserva-trans b.0 c.0, c.1, λ m e. c.2 m (b.2 m e))
luego-Bueno todos f (some n, g) k b s = b

module _ (resto todos : List ℕ) (f : Paginas) (inc : (m : ℕ) → Esta m resto → Esta m todos)
    (d : All (Definida f) todos) (dr : All (Definida f) resto) where
  -- Whatever the four searches give, it is a page of the list that is present; used bits aside, no page
  -- has changed.
  pub elige-Bueno : Bueno todos f (elige resto todos f)
  unfolding elige
  elige-Bueno =
      luego-Bueno todos f _ _
        (luego-Bueno todos f _ _
          (luego-Bueno todos f _ _ (visitar-Bueno uno resto todos f inc dr) (otra dos)) (otra uno))
        (otra dos)
    where
      otra : (paso : Paso) (g : Paginas) → Conserva f g → Bueno todos g (visitar paso todos g)
      otra paso g c = visitar-Bueno paso todos todos g (λ m i. i) (Conserva-Definida todos c d)

  -- The last search finds a page that is present, when the three before it have not.
  ultima-finds :
      (m : ℕ) (q : Page) (g : Paginas)
      → Conserva f g
      → Esta m todos
      → f m ≡ some q
      → q.is_present ≡ true
      → (visitar dos todos g).0 ≡ none
      → (visitar uno todos (visitar dos todos g).1).0 ≡ none
      → (k : ℕ) × ((visitar dos todos (visitar uno todos (visitar dos todos g).1).1).0 ≡ some k)
  unfolding candidata
  ultima-finds m q g c i e pr h2 h3 =
      let q0 : Page = record q { is_used = false } in
      let dg = Conserva-Definida todos c d in
      let d2 = Conserva-Definida todos (visitar-Conserva dos todos g dg) dg in
      let e2 : (visitar dos todos g).1 m ≡ some q0 =
        visitar-clears todos g m (record q { is_used = (c m q e).0 }) dg h2 i (c m q e).1 pr in
      let e3 = visitar-unused uno todos (visitar dos todos g).1 m q0 d2 e2 refl in
      let d3 = Conserva-Definida todos (visitar-Conserva uno todos _ d2) d2 in
      elim (Bool-cases q.is_modify) [
        | inl b ↦ visitar-finds dos todos _ m q0 d3 i e3 refl (rw (pr, b) refl)
        | inr b ↦
            (let (k, r) = visitar-finds uno todos _ m q0 d2 i e2 refl (rw (pr, b) refl) in
              let z : none ≡ some k = sym h3 ∙ r in absurd (cc))
      ]

  -- Where a page is present, one of the four searches finds a victim.
  pub elige-finds :
      (m : ℕ) (q : Page)
      → Esta m todos
      → f m ≡ some q
      → q.is_present ≡ true
      → (k : ℕ) × ((elige resto todos f).0 ≡ some k)
  unfolding elige
  elige-finds m q i e c =
      let v1 = visitar uno resto f in
      let v2 = luego v1 (visitar dos todos) in
      let v3 = luego v2 (visitar uno todos) in
      luego-finds v3 (visitar dos todos) λ h.
        let (h2, r3) = luego-nada v2 (visitar uno todos) h in
        let (h1, r2) = luego-nada v1 (visitar dos todos) h2 in
        let s2 : (visitar dos todos v1.1).0 ≡ none = sym (ap (λ z. z.0) r2) ∙ h2 in
        let s3 : (visitar uno todos (visitar dos todos v1.1).1).0 ≡ none =
          ap (λ z. (visitar uno todos z.1).0) (sym r2) ∙ sym (ap (λ z. z.0) r3) ∙ h in
        let (k, r) = ultima-finds m q v1.1 (visitar-Conserva uno resto f dr) i e c s2 s3 in
        (
          k,
          ap (λ z. (visitar dos todos z.1).0) r3
              ∙ ap (λ z. (visitar dos todos (visitar uno todos z.1).1).0) r2
              ∙ r,
        )
