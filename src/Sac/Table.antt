-- ===== src/Sac/Table.antt =====
-- Searches in the table of nodes: buscar_nodo_por_nombre before and after a free node is overwritten.
use Prim.Native.String.{String}
use text.Mathlib.Text.{◌==◌ as str_eq}
use tp_sistemas_operativos_l.Common.{
  ℕ, zero, suc, ◌+◌, ◌^◌, ◌≤◌, ◌<◌, ◌≡◌, refl, ap, inl, inr, Bool, true, false, ◌&&◌, ◌==◌,
  Bool-cases, Option, some, none, List, [], ◌∷◌, length, set, get_elem?, arith,
}
use tp_sistemas_operativos_l.Sac.State.{GFile}
use tp_sistemas_operativos_l.Sac.Search.{es_el_nodo_buscado, buscar_desde, bloque_de, ya_existe}
use tp_sistemas_operativos_l.Sac.Blocks.{en_cola}
use tp_sistemas_operativos_l.Sac.Nodes.{nodo_vacio}

pub buscar_desde-bounds :
    (i : ℕ) (t : List GFile) (f : String) (par k : ℕ)
    → buscar_desde i t f par ≡ some k
    → (i ≤ k) × (k < i + length t)
unfolding buscar_desde
buscar_desde-bounds i [] f par k h = absurd (cc)
buscar_desde-bounds i (g ∷ gs) f par k h = elim (Bool-cases (es_el_nodo_buscado g f par)) [
  | inl m ↦ (let q : some i ≡ some k = rw m at h in (grind arith, grind arith))
  | inr m ↦
      (let r = buscar_desde-bounds (suc i) gs f par k (rw m at h) in
        (omega (arith, r.0), omega (arith, r.1)))
]

sin_cero : (o : Option ℕ) → en_cola o ≡ some 0 → ⊥
sin_cero none h = cc
sin_cero (some k) h = grind arith

tras_cola : (o : Option ℕ) (n : ℕ) → en_cola o ≡ some (suc n) → o ≡ some n
tras_cola none n h = absurd (cc)
tras_cola (some k) n h = ap some (grind arith)

y_false : (a b : Bool) → b ≡ false → (a && b) ≡ false
y_false true b h = h
y_false false b h = refl

-- Node n of the table is free.
abbrev pub Libre : List GFile → ℕ → Type 0
Libre [] n = ⊥
Libre (g ∷ gs) zero = (g.state == 0) ≡ true
Libre (g ∷ gs) (suc n) = Libre gs n

pub nodo_vacio-Libre : (t : List GFile) (n : ℕ) → nodo_vacio t ≡ some n → Libre t n
unfolding nodo_vacio
nodo_vacio-Libre [] n h = absurd (cc)
nodo_vacio-Libre (g ∷ gs) zero h = elim (Bool-cases (g.state == 0)) [
  | inl m ↦ m
  | inr m ↦ absurd (sin_cero (nodo_vacio gs) (rw m at h))
]
nodo_vacio-Libre (g ∷ gs) (suc n) h = elim (Bool-cases (g.state == 0)) [
  | inl m ↦ (let q : some 0 ≡ some (suc n) = rw m at h in absurd (grind arith))
  | inr m ↦ nodo_vacio-Libre gs n (tras_cola (nodo_vacio gs) n (rw m at h))
]

pub ya_existe-cons :
    (g : GFile) (gs : List GFile) (par : ℕ) (f : String)
    → ya_existe (g ∷ gs) par f ≡ false
    → (es_el_nodo_buscado g f par ≡ false) × (ya_existe gs par f ≡ false)
unfolding ya_existe es_el_nodo_buscado
ya_existe-cons g gs par f y = elim (Bool-cases ((g.parent_dir_block == par) && str_eq g.fname f)) [
  | inl m ↦ (let q : true ≡ false = rw m at y in absurd (cc))
  | inr m ↦ (y_false _ _ m, rw m at y)
]

module _ (nuevo : GFile) where
  -- A free node that is overwritten by one that does not match is not seen by a search.
  pub buscar_desde-set_other :
      (i n : ℕ) (t : List GFile) (f : String) (par : ℕ)
      → Libre t n
      → es_el_nodo_buscado nuevo f par ≡ false
      → buscar_desde i (set t n nuevo) f par ≡ buscar_desde i t f par
  unfolding buscar_desde es_el_nodo_buscado
  buscar_desde-set_other i n [] f par h m = refl
  buscar_desde-set_other i zero (g ∷ gs) f par h m = rw m (rw h refl)
  buscar_desde-set_other i (suc n) (g ∷ gs) f par h m =
      rw (buscar_desde-set_other (suc i) n gs f par h m) refl

  -- It is found when it matches and no node, free or not, has its parent and its name.
  pub buscar_desde-set_new :
      (i n : ℕ) (t : List GFile) (f : String) (par : ℕ)
      → Libre t n
      → es_el_nodo_buscado nuevo f par ≡ true
      → ya_existe t par f ≡ false
      → buscar_desde i (set t n nuevo) f par ≡ some (i + n)
  unfolding buscar_desde ya_existe es_el_nodo_buscado
  buscar_desde-set_new i n [] f par h m y = absurd h
  buscar_desde-set_new i zero (g ∷ gs) f par h m y = rw m (ap some (omega arith))
  buscar_desde-set_new i (suc n) (g ∷ gs) f par h m y =
      let r = ya_existe-cons g gs par f y in
      rw r.0 (rw (buscar_desde-set_new (suc i) n gs f par h m r.1) (ap some (omega arith)))

pub buscar_desde-none :
    (i : ℕ) (t : List GFile) (f : String) (par : ℕ)
    → ya_existe t par f ≡ false
    → buscar_desde i t f par ≡ none
unfolding buscar_desde ya_existe es_el_nodo_buscado
buscar_desde-none i [] f par y = refl
buscar_desde-none i (g ∷ gs) f par y =
    let r = ya_existe-cons g gs par f y in rw r.0 (buscar_desde-none (suc i) gs f par r.1)

pub Libre-bound : (t : List GFile) (n : ℕ) → Libre t n → n < length t
Libre-bound [] n h = absurd h
Libre-bound (g ∷ gs) zero h = omega arith
Libre-bound (g ∷ gs) (suc n) h = omega (arith, Libre-bound gs n h)

pub Libre-get : (t : List GFile) (n : ℕ) → Libre t n → (g : GFile) × (get_elem? t n ≡ some g)
Libre-get [] n h = absurd h
Libre-get (g ∷ gs) zero h = (g, refl)
Libre-get (g ∷ gs) (suc n) h = Libre-get gs n h

pub bloque_de-lem : (ini i : ℕ) → i + ini < 2 ^ 32 → bloque_de ini (some i) ≡ i + ini
unfolding bloque_de
bloque_de-lem ini i h = omega (arith, h)
