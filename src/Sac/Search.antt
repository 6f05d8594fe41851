-- ===== src/Sac/Search.antt =====
-- Finding nodes by name: esElNodoBuscado, buscar_nodo_por_nombre, determine_nodo and
-- validar_si_ya_existe_otro of filesystem/sac_handlers.c. An int answer that is -1 or an index of
-- the table is an Option, `none` for -1.
use Prim.Native.String.{String}
use text.Mathlib.Text.{◌==◌ as str_eq}
use tp_sistemas_operativos_l.Common.{
  ℕ, suc, ◌+◌, ◌-◌, ◌%◌, ◌^◌, Bool, true, false, ◌&&◌, not, Option, none, some, List, [], ◌∷◌, ◌==◌,
  if◌then◌else◌,
}
use tp_sistemas_operativos_l.Sac.State.{GFile, Entorno, menos_uno32}

unfoldable pub es_el_nodo_buscado : GFile → String → ℕ → Bool
es_el_nodo_buscado g filename nodo_padre =
    not (g.state == 0) && ((g.parent_dir_block == nodo_padre) && str_eq g.fname filename)

-- The loop of buscar_nodo_por_nombre from node i on.
unfoldable pub buscar_desde : ℕ → List GFile → String → ℕ → Option ℕ
buscar_desde i [] filename nodo_padre = none
buscar_desde i (g ∷ gs) filename nodo_padre =
    if es_el_nodo_buscado g filename nodo_padre
    then some i
    else buscar_desde (suc i) gs filename nodo_padre

-- The table has MAX_NUMBER_OF_FILES nodes.
unfoldable pub buscar_nodo_por_nombre : List GFile → String → ℕ → Option ℕ
buscar_nodo_por_nombre tabla filename nodo_padre = buscar_desde 0 tabla filename nodo_padre

-- An int converted to the uint32_t ptrGBloque, -1 included, plus bloqueInicioTablaDeNodos.
unfoldable pub bloque_de : ℕ → Option ℕ → ℕ
bloque_de inicio none = (menos_uno32 + inicio) % 2 ^ 32
bloque_de inicio (some i) = (i + inicio) % 2 ^ 32

-- The loop of determine_nodo after its first turn, from the block of the parent. What it answers is
-- the block of the last node less bloqueInicioTablaDeNodos.
unfoldable pub determinar_desde : ℕ → List GFile → List String → ℕ → Option ℕ
determinar_desde inicio tabla [] padre = some (padre - inicio)
determinar_desde inicio tabla (filename ∷ resto) padre =
    elim (buscar_nodo_por_nombre tabla filename padre) [
      | none ↦ none
      | some i ↦ determinar_desde inicio tabla resto (bloque_de inicio (some i))
    ]

unfoldable pub determinar : ℕ → List GFile → List String → Option ℕ
determinar inicio tabla [] = some 0
determinar inicio tabla (filename ∷ []) = buscar_nodo_por_nombre tabla filename 0
determinar inicio tabla (filename ∷ otro ∷ resto) =
    determinar_desde inicio tabla (otro ∷ resto)
      (bloque_de inicio (buscar_nodo_por_nombre tabla filename 0))

unfoldable pub determine_nodo : Entorno → List GFile → String → Option ℕ
determine_nodo e tabla path = determinar e.inicio_nodos tabla (e.string_split path)

-- Whether a node of the table, free or not, has that parent and that name.
unfoldable pub ya_existe : List GFile → ℕ → String → Bool
ya_existe [] bloque_padre filename = false
ya_existe (g ∷ gs) bloque_padre filename =
    if (g.parent_dir_block == bloque_padre) && str_eq g.fname filename
    then true
    else ya_existe gs bloque_padre filename

-- True where the code returns -EEXIST.
unfoldable pub validar_si_ya_existe_otro : Entorno → List GFile → String → String → Bool
validar_si_ya_existe_otro e tabla path filename =
    ya_existe tabla (bloque_de e.inicio_nodos (determine_nodo e tabla (e.dirname path))) filename
