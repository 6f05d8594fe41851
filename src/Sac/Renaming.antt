-- ===== src/Sac/Renaming.antt =====
-- renombrar_archivo into the directory that is node 0 of the table.
use Prim.Native.String.{String}
use text.Mathlib.Text.{◌==◌ as str_eq}
use tp_sistemas_operativos_l.Common.{
  ℕ, zero, suc, ◌^◌, ◌<◌, ◌≡◌, refl, ◌∙◌, inl, inr, pos, true, false, ◌&&◌, ◌==◌, Bool-cases, some,
  none, List, [], ◌∷◌, ltb, set, get_elem?, arith,
}
use tp_sistemas_operativos_l.Sac.State.{GFile, Entorno, Disco, max_name_size}
use tp_sistemas_operativos_l.Sac.Monad.{
  ok, ◌>>=◌, and_then, leer, cambiar, pure, o_falla, nodo, cambiar_nodo, lock_nodos, unlock_nodos,
}
use tp_sistemas_operativos_l.Sac.Search.{
  es_el_nodo_buscado, buscar_desde, buscar_nodo_por_nombre, bloque_de, determinar, determine_nodo,
  ya_existe, validar_si_ya_existe_otro,
}
use tp_sistemas_operativos_l.Sac.Nodes.{renombrar_en, renombrar_si_hay, renombrar_archivo}
use tp_sistemas_operativos_l.Sac.Table.{buscar_desde-bounds, buscar_desde-none, bloque_de-lem}
use tp_sistemas_operativos_l.Sac.Walk.{determinar-falla}

ya_existe-set :
    (t : List GFile) (n : ℕ) (nuevo : GFile) (par : ℕ) (f : String)
    → (nuevo.parent_dir_block == par) ≡ false
    → ya_existe t par f ≡ false
    → ya_existe (set t n nuevo) par f ≡ false
unfolding ya_existe
ya_existe-set [] n nuevo par f h y = refl
ya_existe-set (g ∷ gs) zero nuevo par f h y =
    rw h (elim (Bool-cases ((g.parent_dir_block == par) && str_eq g.fname f)) [
      | inl m ↦ (let q : true ≡ false = rw m at y in cc)
      | inr m ↦ rw m at y
    ])
ya_existe-set (g ∷ gs) (suc n) nuevo par f h y =
    elim (Bool-cases ((g.parent_dir_block == par) && str_eq g.fname f)) [
      | inl m ↦ (let q : true ≡ false = rw m at y in cc)
      | inr m ↦ rw m (ya_existe-set gs n nuevo par f h (rw m at y))
    ]

-- A search that stops at node 0 does not see a change of another node.
buscar-cero :
    (t : List GFile) (n : ℕ) (nuevo : GFile) (f : String) (par : ℕ)
    → buscar_desde 0 t f par ≡ some 0
    → buscar_desde 0 (set t (suc n) nuevo) f par ≡ some 0
unfolding buscar_desde
buscar-cero [] n nuevo f par h = h
buscar-cero (g ∷ gs) n nuevo f par h = elim (Bool-cases (es_el_nodo_buscado g f par)) [
  | inl m ↦ rw m refl
  | inr m ↦ (let b = buscar_desde-bounds 1 gs f par 0 (rw m at h) in absurd (omega (arith, b.0)))
]

module _ (e : Entorno) where
  -- Moving node n + 1 to a new name in the directory that is node 0 of the table, a directory of the
  -- root: the new path splits into the names p and name, dirname gives p and basename gives name, the
  -- search of p in the root gives node 0, the name is short enough and no node of the table has it
  -- under that directory, and the table is unlocked. renombrar_archivo answers 0, and the new path
  -- then leads nowhere.
  pub renombrar_archivo-lost :
      (s : Disco) (path p name : String) (n : ℕ) (g : GFile)
      → s.bloqueado_nodos ≡ false
      → 0 < e.inicio_nodos
      → e.inicio_nodos < 2 ^ 32
      → e.string_split path ≡ p ∷ name ∷ []
      → e.string_split (e.dirname path) ≡ p ∷ []
      → e.basename path ≡ name
      → ltb (e.strlen name) max_name_size ≡ true
      → buscar_nodo_por_nombre s.tabla p 0 ≡ some 0
      → get_elem? s.tabla (suc n) ≡ some g
      → ya_existe s.tabla e.inicio_nodos name ≡ false
      → (t : Disco) × (renombrar_archivo e (suc n) path s ≡ ok (pos 0) t)
        × (determine_nodo e t.tabla path ≡ none)
  unfolding renombrar_archivo renombrar_si_hay renombrar_en leer ◌>>=◌ and_then pure lock_nodos
      unlock_nodos cambiar cambiar_nodo nodo o_falla validar_si_ya_existe_otro determine_nodo
      determinar buscar_nodo_por_nombre
  renombrar_archivo-lost s path p name n g hl hi hb hs hd hn hc hp hg hy =
      let nuevo : GFile = record g { fname = name; parent_dir_block = 0 } in
      let b : bloque_de e.inicio_nodos (some 0) ≡ e.inicio_nodos =
        bloque_de-lem e.inicio_nodos 0 (omega (arith, hb)) ∙ omega arith in
      let y = ya_existe-set s.tabla (suc n) nuevo e.inicio_nodos name (ground arith) hy in
      let z = buscar_desde-none 0 (set s.tabla (suc n) nuevo) name e.inicio_nodos y in
      (
        record s { tabla = set s.tabla (suc n) nuevo; bloqueado_nodos = false },
        rw hn (rw hd (rw hp (rw b (rw hy (rw hl (rw hc (rw hg refl))))))),
        rw hs (
            rw (buscar-cero s.tabla n nuevo p 0 hp) (
              rw b (
                determinar-falla e.inicio_nodos (set s.tabla (suc n) nuevo) name [] e.inicio_nodos
                  z))),
      )
