-- ===== src/Muse/Choice.antt =====
-- The clock algorithm as a search in a list of pages: the reference for dame_nro_frame_reemplazado.
use tp_sistemas_operativos_l.Common.{
  ℕ, ◌≡◌, refl, sym, ap, ◌∙◌, ◌⊎◌, inl, inr, Bool, true, false, ◌&&◌, Bool-cases, Option, none,
  some, List, [], ◌∷◌, ◌==◌, ==_iff, ==_refl, if◌then◌else◌, All, arith,
}
use tp_sistemas_operativos_l.Muse.State.{Page}
use tp_sistemas_operativos_l.Muse.Monad.{escribir}
use tp_sistemas_operativos_l.Muse.Clock.{Paso, uno, dos, candidata}

abbrev pub Paginas : Type 0
Paginas = ℕ → Option Page

-- The store after a page that is not chosen.
abbrev pub tras_pasar : Paso → ℕ → Page → Paginas → Paginas
tras_pasar uno n p f = f
tras_pasar dos n p f =
    if p.is_present then escribir f n (some (record p { is_used = false })) else f

-- The first page of the list that the step accepts, and the store when the search ends.
unfoldable pub visitar : Paso → List ℕ → Paginas → Option ℕ × Paginas
visitar paso [] f = (none, f)
visitar paso (n ∷ ns) f = elim (f n) [
  | none ↦ (none, f)
  | some p ↦ (elim (p.is_present && candidata paso p) [
    | true ↦ (some n, f)
    | false ↦ visitar paso ns (tras_pasar paso n p f)
  ])
]

-- The next search, if there is no victim yet.
abbrev pub luego : Option ℕ × Paginas → (Paginas → Option ℕ × Paginas) → Option ℕ × Paginas
luego (some n, f) g = (some n, f)
luego (none, f) g = g f

-- Step 1 over the pages from the hand on, then steps 2, 1 and 2 over all.
unfoldable pub elige : List ℕ → List ℕ → Paginas → Option ℕ × Paginas
elige resto todos f =
    luego (luego (luego (visitar uno resto f) (visitar dos todos)) (visitar uno todos))
      (visitar dos todos)

abbrev pub Esta : ℕ → List ℕ → Type 0
Esta n [] = ⊥
Esta n (k ∷ ks) = (k ≡ n) ⊎ Esta n ks

abbrev pub Definida : Paginas → ℕ → Type 0
Definida f n = (p : Page) × (f n ≡ some p)

module _ (paso : Paso) (n : ℕ) (ns : List ℕ) (f : Paginas) (p : Page) (h : f n ≡ some p) where
  pub visitar-chosen :
      (p.is_present && candidata paso p) ≡ true → visitar paso (n ∷ ns) f ≡ (some n, f)
  unfolding visitar
  visitar-chosen c = rw (h, visitar) (rw (c, visitar) refl)

  pub visitar-passed :
      (p.is_present && candidata paso p) ≡ false
      → visitar paso (n ∷ ns) f ≡ visitar paso ns (tras_pasar paso n p f)
  unfolding visitar
  visitar-passed c = rw (h, visitar) (rw (c, visitar) refl)

-- The second store differs from the first in used bits only.
abbrev pub Conserva : Paginas → Paginas → Type 0
Conserva f g =
    (m : ℕ) (q : Page) → f m ≡ some q → (u : Bool) × (g m ≡ some (record q { is_used = u }))

pub Conserva-refl : (f : Paginas) → Conserva f f
Conserva-refl f m q h = (q.is_used, h)

pub Conserva-trans : {f g k : Paginas} → Conserva f g → Conserva g k → Conserva f k
Conserva-trans a b m q h = let (u, e) = a m q h in b m (record q { is_used = u }) e

apagar-Conserva :
    (n : ℕ) (f : Paginas) (p : Page)
    → f n ≡ some p
    → Conserva f (escribir f n (some (record p { is_used = false })))
apagar-Conserva n f p h m q e = elim (Bool-cases (m == n)) [
  | inl c ↦
      (let d = (==_iff m n).0 c in
        let i : some p ≡ some q = sym h ∙ ap f (sym d) ∙ e in (false, rw c (ground (arith, i))))
  | inr c ↦ (q.is_used, rw c e)
]

si-Conserva : (b : Bool) (f g : Paginas) → Conserva f g → Conserva f (if b then g else f)
si-Conserva true f g c = c
si-Conserva false f g c = Conserva-refl f

si-at :
    (b : Bool) (f g : Paginas) (m : ℕ) {z : Option Page}
    → f m ≡ z
    → g m ≡ z
    → (if b then g else f) m ≡ z
si-at true f g m p q = q
si-at false f g m p q = p

si_true {ℓ} : {A : Type ℓ} (b : Bool) (x y : A) → b ≡ true → (if b then x else y) ≡ x
si_true true x y h = refl
si_true false x y h = absurd (cc)

pub tras_pasar-Conserva :
    (paso : Paso) (n : ℕ) (f : Paginas) (p : Page)
    → f n ≡ some p
    → Conserva f (tras_pasar paso n p f)
tras_pasar-Conserva uno n f p h = Conserva-refl f
tras_pasar-Conserva dos n f p h = si-Conserva p.is_present f _ (apagar-Conserva n f p h)

apagar-unused :
    (n m : ℕ) (f : Paginas) (p q : Page)
    → f n ≡ some p
    → f m ≡ some q
    → q.is_used ≡ false
    → escribir f n (some (record p { is_used = false })) m ≡ some q
apagar-unused n m f p q h e u = elim (Bool-cases (m == n)) [
  | inl d ↦
      rw d
        (let i : some p ≡ some q = sym h ∙ ap f (sym ((==_iff m n).0 d)) ∙ e in ground (arith, i))
  | inr d ↦ rw d e
]

-- A page that is not used is not changed.
pub tras_pasar-unused :
    (paso : Paso) (n m : ℕ) (f : Paginas) (p q : Page)
    → f n ≡ some p
    → f m ≡ some q
    → q.is_used ≡ false
    → tras_pasar paso n p f m ≡ some q
tras_pasar-unused uno n m f p q h e u = e
tras_pasar-unused dos n m f p q h e u = si-at p.is_present f _ m e (apagar-unused n m f p q h e u)

pub tras_pasar-used :
    (n : ℕ) (f : Paginas) (p : Page)
    → p.is_present ≡ true
    → tras_pasar dos n p f n ≡ some (record p { is_used = false })
tras_pasar-used n f p c =
    ap (λ g. g n) (si_true p.is_present (escribir f n (some (record p { is_used = false }))) f c)
    ∙ si_true (n == n) _ _ (==_refl n)

pub Conserva-Definida :
    {f g : Paginas} (ids : List ℕ) → Conserva f g → All (Definida f) ids → All (Definida g) ids
Conserva-Definida [] c d = tt
Conserva-Definida (n ∷ ns) c d =
    let (p, e) = d.0 in
    let (u, k) = c n p e in ((record p { is_used = u }, k), Conserva-Definida ns c d.1)

apagar-undefined :
    (n m : ℕ) (f : Paginas) (p : Page)
    → f n ≡ some p
    → f m ≡ none
    → escribir f n (some (record p { is_used = false })) m ≡ none
apagar-undefined n m f p h e = elim (Bool-cases (m == n)) [
  | inl d ↦ (let i : some p ≡ none = sym h ∙ ap f (sym ((==_iff m n).0 d)) ∙ e in absurd (cc))
  | inr d ↦ rw d e
]

pub tras_pasar-undefined :
    (paso : Paso) (n m : ℕ) (f : Paginas) (p : Page)
    → f n ≡ some p
    → f m ≡ none
    → tras_pasar paso n p f m ≡ none
tras_pasar-undefined uno n m f p h e = e
tras_pasar-undefined dos n m f p h e = si-at p.is_present f _ m e (apagar-undefined n m f p h e)

-- The search after its first page.
module _ (paso : Paso) (n : ℕ) (ns : List ℕ) (f : Paginas) (d : All (Definida f) (n ∷ ns)) where
  pub resto-Definida : All (Definida (tras_pasar paso n d.0.0 f)) ns
  resto-Definida = Conserva-Definida ns (tras_pasar-Conserva paso n f d.0.0 d.0.1) d.1

  -- The two cases of a search, on the test of its first page.
  pub paso_a_paso :
      (visitar paso (n ∷ ns) f ≡ (some n, f)) × ((d.0.0.is_present && candidata paso d.0.0) ≡ true)
      ⊎ (visitar paso (n ∷ ns) f ≡ visitar paso ns (tras_pasar paso n d.0.0 f))
        × ((d.0.0.is_present && candidata paso d.0.0) ≡ false)
  paso_a_paso = elim (Bool-cases (d.0.0.is_present && candidata paso d.0.0)) [
    | inl c ↦ inl (visitar-chosen paso n ns f d.0.0 d.0.1 c, c)
    | inr c ↦ inr (visitar-passed paso n ns f d.0.0 d.0.1 c, c)
  ]
