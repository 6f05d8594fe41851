-- ===== src/Sac/Lookup.antt =====
-- Lookups after a creation: crear_nuevo_nodo followed by determine_nodo.
use Prim.Native.String.{String}
use text.Mathlib.TextPositions.{eq_refl}
use text.Mathlib.TextEquality.{eq_iff}
use tp_sistemas_operativos_l.Common.{
  ℕ, ◌+◌, ◌^◌, ◌<◌, ◌≡◌, refl, sym, pos, Bool, true, false, ◌&&◌, ==_iff, ==_refl, some, List, [],
  ◌∷◌, ◌++◌, ltb, length, set, get_elem?, arith,
}
use tp_sistemas_operativos_l.Sac.State.{GFile, Entorno, Disco, max_name_size}
use tp_sistemas_operativos_l.Sac.Monad.{
  ok, ◌>>=◌, and_then, leer, cambiar, pure, o_falla, nodo, cambiar_nodo, lock_nodos, unlock_nodos,
}
use tp_sistemas_operativos_l.Sac.Search.{
  es_el_nodo_buscado, bloque_de, determine_nodo, ya_existe, validar_si_ya_existe_otro,
}
use tp_sistemas_operativos_l.Sac.Nodes.{
  nodo_vacio, ultimo, padre_nuevo, llenar_nodo, crear_nodo_en, crear_si_hay, crear_nuevo_nodo,
}
use tp_sistemas_operativos_l.Sac.Table.{nodo_vacio-Libre, Libre-get, bloque_de-lem}
use tp_sistemas_operativos_l.Sac.Walk.{walk_all}

ultimo-append : (xs : List String) (x : String) → ultimo (xs ++ x ∷ []) ≡ some x
ultimo-append [] x = refl
ultimo-append (y ∷ []) x = refl
ultimo-append (y ∷ z ∷ xs) x = ultimo-append (z ∷ xs) x

padre_nuevo-append :
    (e : Entorno) (t : List GFile) (path : String) (p : String) (ps : List String) (x : String)
    → padre_nuevo e t path (p ∷ ps ++ x ∷ [])
      ≡ bloque_de e.inicio_nodos (determine_nodo e t (e.dirname path))
unfolding padre_nuevo
padre_nuevo-append e t path p [] x = refl
padre_nuevo-append e t path p (q ∷ qs) x = refl

-- The node that crear_nuevo_nodo writes.
abbrev pub directorio_nuevo : GFile → String → ℕ → ℕ → GFile
directorio_nuevo g name padre ahora = record g {
  fname = name;
  file_size = 0;
  parent_dir_block = padre;
  state = 2;
  create_date = ahora;
  modify_date = ahora;
}

and_true : (a b : Bool) → (a && b) ≡ true → (a ≡ true) × (b ≡ true)
and_true true b h = (refl, h)
and_true false b h = absurd (cc)

directorio-clave :
    (g : GFile) (name : String) (padre ahora : ℕ) (f : String) (par : ℕ)
    → es_el_nodo_buscado (directorio_nuevo g name padre ahora) f par ≡ true
    → (par ≡ padre) × (f ≡ name)
unfolding es_el_nodo_buscado
directorio-clave g name padre ahora f par h =
    let r = and_true _ _ h in (sym ((==_iff padre par).0 r.0), sym ((eq_iff name f).0 r.1))

directorio-propio :
    (g : GFile) (name : String) (padre ahora : ℕ)
    → es_el_nodo_buscado (directorio_nuevo g name padre ahora) name padre ≡ true
unfolding es_el_nodo_buscado
directorio-propio g name padre ahora = rw (==_refl padre) (eq_refl name)

-- A directory made, and found again.
pub record Creado (e : Entorno) (s : Disco) (path : String) (n : ℕ) : Type 0 where
  pub disco : Disco
  pub corre : crear_nuevo_nodo e path 2 s ≡ ok (pos 0) disco
  pub hallado : determine_nodo e disco.tabla path ≡ some n
  pub suelto : disco.bloqueado_nodos ≡ false

module _ (e : Entorno) where
  crear_nodo_en-directorio :
      (s : Disco) (path p : String) (ps : List String) (name : String) (n padre : ℕ) (g : GFile)
      → e.string_split path ≡ p ∷ ps ++ name ∷ []
      → ltb (e.strlen name) max_name_size ≡ true
      → get_elem? s.tabla n ≡ some g
      → bloque_de e.inicio_nodos (determine_nodo e s.tabla (e.dirname path)) ≡ padre
      → crear_nodo_en e n path name 2 s
        ≡ ok (pos 0) (record s {
          tabla = set s.tabla n (directorio_nuevo g name padre s.reloj);
          bloqueado_nodos = false;
        })
  unfolding crear_nodo_en leer ◌>>=◌ and_then pure llenar_nodo cambiar_nodo nodo o_falla cambiar
      unlock_nodos
  crear_nodo_en-directorio s path p ps name n padre g hs hl hg hp =
      rw hs (rw (padre_nuevo-append e s.tabla path p ps name) (rw hp (rw hl (rw hg refl))))

  crear-directorio :
      (s : Disco) (path p : String) (ps : List String) (name : String) (n padre : ℕ) (g : GFile)
      → s.bloqueado_nodos ≡ false
      → e.string_split path ≡ p ∷ ps ++ name ∷ []
      → ltb (e.strlen name) max_name_size ≡ true
      → nodo_vacio s.tabla ≡ some n
      → get_elem? s.tabla n ≡ some g
      → bloque_de e.inicio_nodos (determine_nodo e s.tabla (e.dirname path)) ≡ padre
      → ya_existe s.tabla padre name ≡ false
      → crear_nuevo_nodo e path 2 s
        ≡ ok (pos 0) (record s {
          tabla = set s.tabla n (directorio_nuevo g name padre s.reloj);
          bloqueado_nodos = false;
        })
  unfolding crear_nuevo_nodo o_falla lock_nodos leer ◌>>=◌ and_then pure crear_si_hay
      validar_si_ya_existe_otro
  crear-directorio s path p ps name n padre g libre hs hl hn hg hp hy = rw hs (
      rw (ultimo-append (p ∷ ps) name) (
        rw libre (
          rw hn (
            rw hp (
              rw hy (
                crear_nodo_en-directorio (record s { bloqueado_nodos = true }) path p ps name n
                  padre g hs hl hg hp))))))

  -- Making a directory in a directory that exists, and looking its path up. Where the table of nodes
  -- is unlocked and has a free node (n the first), the path splits into at least two names, dirname
  -- gives the path of all but the last, that path leads to node d of the table, the name is short
  -- enough, and no node of the table, free or not, has that name and that parent: crear_nuevo_nodo
  -- returns 0, leaves the table unlocked, and determine_nodo then leads the path to node n.
  pub crear_nuevo_nodo-determine_nodo :
      (s : Disco) (path p : String) (ps : List String) (name : String) (n d : ℕ)
      → s.bloqueado_nodos ≡ false
      → 0 < e.inicio_nodos
      → length s.tabla + e.inicio_nodos < 2 ^ 32
      → e.string_split path ≡ p ∷ ps ++ name ∷ []
      → e.string_split (e.dirname path) ≡ p ∷ ps
      → ltb (e.strlen name) max_name_size ≡ true
      → nodo_vacio s.tabla ≡ some n
      → determine_nodo e s.tabla (e.dirname path) ≡ some d
      → d < length s.tabla
      → ya_existe s.tabla (d + e.inicio_nodos) name ≡ false
      → Creado e s path n
  unfolding determine_nodo
  crear_nuevo_nodo-determine_nodo s path p ps name n d suelto hi cabe hs hd hl hn hp hb hy =
      let libre = nodo_vacio-Libre s.tabla n hn in
      let r = Libre-get s.tabla n libre in
      let padre = d + e.inicio_nodos in
      let b = bloque_de-lem e.inicio_nodos d (omega (arith, hb, cabe)) in
      record {
        disco = record s {
          tabla = set s.tabla n (directorio_nuevo r.0 name padre s.reloj);
          bloqueado_nodos = false;
        };
        corre = crear-directorio s path p ps name n padre r.0 suelto hs hl hn r.1 (rw hp b) hy;
        hallado = rw hs (
            walk_all e.inicio_nodos n d s.tabla (directorio_nuevo r.0 name padre s.reloj) name libre
              cabe (directorio-clave r.0 name padre s.reloj)
              (directorio-propio r.0 name padre s.reloj) hy p ps hb hi (rw hd at hp));
        suelto = refl;
      }
