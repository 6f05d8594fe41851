-- ===== src/Sac/SameNames.antt =====
-- determine_nodo of filesystem/sac_handlers.c after a change of a node that keeps its name and place.
use Prim.Native.String.{String}
use tp_sistemas_operativos_l.Common.{
  ℕ, zero, suc, ◌≡◌, refl, sym, ap, ◌∙◌, Option, none, some, List, [], ◌∷◌, if◌then◌else◌, set,
  get_elem?,
}
use tp_sistemas_operativos_l.Sac.State.{GFile, Entorno}
use tp_sistemas_operativos_l.Sac.Search.{
  es_el_nodo_buscado, buscar_desde, buscar_nodo_por_nombre, bloque_de, determinar_desde, determinar,
  determine_nodo,
}

-- Another size and another date, which no search reads.
abbrev pub con_tamanio : GFile → ℕ → ℕ → GFile
con_tamanio g size fecha = record g { file_size = size; modify_date = fecha }

casos_iguales :
    {f g : ℕ → Option ℕ}
    → ((i : ℕ) → f i ≡ g i)
    → (o : Option ℕ) → elim o [ none ↦ none | some i ↦ f i ] ≡ elim o [ none ↦ none | some i ↦ g i ]
casos_iguales h none = refl
casos_iguales h (some i) = h i

module _ (g : GFile) (size fecha : ℕ) where
  buscar-same :
      (i n : ℕ) (t : List GFile) (f : String) (padre : ℕ)
      → get_elem? t n ≡ some g
      → buscar_desde i (set t n (con_tamanio g size fecha)) f padre ≡ buscar_desde i t f padre
  unfolding buscar_desde es_el_nodo_buscado
  buscar-same i n [] f padre h = refl
  buscar-same i zero (x ∷ xs) f padre h =
      ap (λ z. buscar_desde i (elim z [ none ↦ x ∷ xs | some y ↦ y ∷ xs ]) f padre) (sym h)
  buscar-same i (suc n) (x ∷ xs) f padre h =
      ap (λ z. if es_el_nodo_buscado x f padre then some i else z)
        (buscar-same (suc i) n xs f padre h)

  determinar_desde-same :
      (ini n : ℕ) (t : List GFile) (fs : List String) (padre : ℕ)
      → get_elem? t n ≡ some g
      → determinar_desde ini (set t n (con_tamanio g size fecha)) fs padre
        ≡ determinar_desde ini t fs padre
  unfolding determinar_desde buscar_nodo_por_nombre
  determinar_desde-same ini n t [] padre h = refl
  determinar_desde-same ini n t (f ∷ fs) padre h =
      ap
        (λ o. elim o [
          | none ↦ none
          | some i ↦
              determinar_desde ini (set t n (con_tamanio g size fecha)) fs (bloque_de ini (some i))
        ])
        (buscar-same 0 n t f padre h)
      ∙ casos_iguales (λ i. determinar_desde-same ini n t fs (bloque_de ini (some i)) h)
          (buscar_desde 0 t f padre)

  pub determine_nodo-same :
      (e : Entorno) (n : ℕ) (t : List GFile) (path : String)
      → get_elem? t n ≡ some g
      → determine_nodo e (set t n (con_tamanio g size fecha)) path ≡ determine_nodo e t path
  unfolding determine_nodo determinar buscar_nodo_por_nombre
  determine_nodo-same e n t path h = go (e.string_split path)
    where
      go :
          (fs : List String)
          → determinar e.inicio_nodos (set t n (con_tamanio g size fecha)) fs
            ≡ determinar e.inicio_nodos t fs
      go [] = refl
      go (f ∷ []) = buscar-same 0 n t f 0 h
      go (f ∷ f' ∷ fs) =
          ap
            (λ o.
              determinar_desde e.inicio_nodos (set t n (con_tamanio g size fecha)) (f' ∷ fs)
                (bloque_de e.inicio_nodos o))
            (buscar-same 0 n t f 0 h)
          ∙ (determinar_desde-same e.inicio_nodos n t (f' ∷ fs)
              (bloque_de e.inicio_nodos (buscar_desde 0 t f 0)) h)
