-- ===== src/Sac/Walk.antt =====
-- The walk of determine_nodo along a path, with one more name at its end.
use Prim.Native.String.{String}
use tp_sistemas_operativos_l.Common.{
  ℕ, ◌+◌, ◌^◌, ◌≤◌, ◌<◌, ◌≡◌, refl, sym, ap, ◌∙◌, ◌⊎◌, inl, inr, true, false, Bool-cases,
  Option-cases, some, none, List, [], ◌∷◌, ◌++◌, length, set, arith,
}
use tp_sistemas_operativos_l.Sac.State.{GFile}
use tp_sistemas_operativos_l.Sac.Search.{
  es_el_nodo_buscado, buscar_desde, buscar_nodo_por_nombre, bloque_de, determinar_desde, determinar,
  ya_existe,
}
use tp_sistemas_operativos_l.Sac.Table.{
  Libre, buscar_desde-bounds, buscar_desde-set_other, buscar_desde-set_new, buscar_desde-none,
  Libre-bound, bloque_de-lem,
}

-- Where a walk may stop: at the block of a node.
abbrev pub Termina : ℕ → List String → ℕ → Type 0
Termina ini [] par = ini ≤ par
Termina ini (x ∷ xs) par = Unit

termina : (ini : ℕ) (xs : List String) (par : ℕ) → ini ≤ par → Termina ini xs par
termina ini [] par h = h
termina ini (x ∷ xs) par h = tt

determinar-paso :
    (ini : ℕ) (t : List GFile) (x : String) (xs : List String) (par k : ℕ)
    → buscar_desde 0 t x par ≡ some k
    → determinar_desde ini t (x ∷ xs) par ≡ determinar_desde ini t xs (bloque_de ini (some k))
unfolding determinar_desde buscar_nodo_por_nombre
determinar-paso ini t x xs par k h = rw (h, determinar_desde) refl

pub determinar-falla :
    (ini : ℕ) (t : List GFile) (x : String) (xs : List String) (par : ℕ)
    → buscar_desde 0 t x par ≡ none
    → determinar_desde ini t (x ∷ xs) par ≡ none
unfolding determinar_desde buscar_nodo_por_nombre
determinar-falla ini t x xs par h = rw (h, determinar_desde) refl

module _ (ini n d : ℕ) (t : List GFile) (nuevo : GFile) (name : String) (libre : Libre t n)
    (cabe : length t + ini < 2 ^ 32)
    (clave : (f : String) (par : ℕ)
      → es_el_nodo_buscado nuevo f par ≡ true
      → (par ≡ d + ini) × (f ≡ name))
    (propio : es_el_nodo_buscado nuevo name (d + ini) ≡ true)
    (unico : ya_existe t (d + ini) name ≡ false) where
  search_old :
      (f : String) (par k : ℕ)
      → buscar_desde 0 t f par ≡ some k
      → buscar_desde 0 (set t n nuevo) f par ≡ some k
  search_old f par k h = elim (Bool-cases (es_el_nodo_buscado nuevo f par)) [
    | inl m ↦
        (let c = clave f par m in
          let v = buscar_desde-none 0 t name (d + ini) unico in
          let w = c.0 in let x = c.1 in absurd (cc))
    | inr m ↦ buscar_desde-set_other nuevo 0 n t f par libre m ∙ h
  ]

  walk :
      (xs : List String) (par : ℕ)
      → Termina ini xs par
      → determinar_desde ini t xs par ≡ some d
      → determinar_desde ini (set t n nuevo) (xs ++ name ∷ []) par ≡ some n
  unfolding determinar_desde buscar_nodo_por_nombre
  walk [] par fin h =
      let p : par ≡ d + ini = grind arith in
      let s = buscar_desde-set_new nuevo 0 n t name (d + ini) libre propio unico in
      let b = bloque_de-lem ini (0 + n) (omega (arith, cabe, Libre-bound t n libre)) in
      rw p (
        determinar-paso ini (set t n nuevo) name [] (d + ini) (0 + n) s
        ∙ ap some (omega (arith, b)))
  walk (x ∷ xs) par fin h = elim (Option-cases (buscar_desde 0 t x par)) [
    | inl m ↦ (let q = determinar-falla ini t x xs par m in absurd (cc))
    | inr (k, m) ↦
        (let b = buscar_desde-bounds 0 t x par k m in
          let c = bloque_de-lem ini k (omega (arith, cabe, b.1)) in
          determinar-paso ini (set t n nuevo) x (xs ++ name ∷ []) par k (search_old x par k m)
          ∙ (walk xs (bloque_de ini (some k)) (termina ini xs _ (omega (arith, c)))
              (sym (determinar-paso ini t x xs par k m) ∙ h)))
  ]

  sin_raiz :
      (p : String)
      → 0 < ini
      → (es_el_nodo_buscado nuevo p 0 ≡ true) ⊎ (es_el_nodo_buscado nuevo p 0 ≡ false)
      → es_el_nodo_buscado nuevo p 0 ≡ false
  sin_raiz p hi (inl m) = let c = clave p 0 m in absurd (omega (arith, c.0, hi))
  sin_raiz p hi (inr m) = m

  pub walk_all :
      (p : String) (ps : List String)
      → d < length t
      → 0 < ini
      → determinar ini t (p ∷ ps) ≡ some d
      → determinar ini (set t n nuevo) (p ∷ ps ++ name ∷ []) ≡ some n
  unfolding determinar buscar_nodo_por_nombre determinar_desde
  walk_all p [] hd hi h =
      let b = bloque_de-lem ini d (omega (arith, cabe, hd)) in
      rw (search_old p 0 d h)
        (walk [] (bloque_de ini (some d)) (omega (arith, b)) (ap some (omega (arith, b))))
  walk_all p (q ∷ qs) hd hi h =
      let m = buscar_desde-set_other nuevo 0 n t p 0 libre (sin_raiz p hi (Bool-cases _)) in
      rw m (walk (q ∷ qs) (bloque_de ini (buscar_desde 0 t p 0)) tt h)
