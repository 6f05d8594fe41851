-- ===== src/Muse/Mapped.antt =====
-- memory_map of memoria/main_memory.c of a file that is mapped already, and memory_unmap after it.
use Prim.Native.String.{String}
use tp_sistemas_operativos_l.Common.{
  ℕ, zero, suc, ◌+◌, ◌*◌, ◌^◌, ◌<◌, ◌≡◌, ◌≢◌, refl, sym, ap, ◌∙◌, inl, inr, Bool, Bool-cases, true,
  false, ◌&&◌, Option, none, some, List, [], ◌∷◌, ◌++◌, ◌==◌, ==_refl, ==_iff, leb, length,
  get_elem?, set, set-set, get-set, set-get, get-last, set-last, if◌then◌else◌, arith,
}
use tp_sistemas_operativos_l.Muse.State.{Segment, Archivo, Program, Muse, lock}
use tp_sistemas_operativos_l.Muse.Monad.{
  ok, pure, ◌>>=◌, and_then, leer, cambiar, no_nulo, locked, tomar_mutex, soltar_mutex, mutex_eq,
  tiene, soltar, escribir,
}
use tp_sistemas_operativos_l.Muse.Frames.{en_cola}
use tp_sistemas_operativos_l.Muse.Metadata.{distinto}
use tp_sistemas_operativos_l.Muse.Buffer.{si_menor}
use tp_sistemas_operativos_l.Muse.NewPage.{escribir-same}
use tp_sistemas_operativos_l.Muse.Heap.{palabra}
use tp_sistemas_operativos_l.Muse.Segments.{
  buscar_pid, search_program, programa, cambiar_programa, buscar_en, busca_segmento,
  ultimo_segmento_programa,
}
use tp_sistemas_operativos_l.Muse.Alloc.{asegurar_programa, segmento_de, cambiar_segmento}
use tp_sistemas_operativos_l.Muse.Maps.{archivo_de, hay_pid, tiene_permiso}
use tp_sistemas_operativos_l.Muse.Data.{bien}
use tp_sistemas_operativos_l.Muse.Mapping.{
  map_shared, archivo_nro, guardar_archivo, buscar_archivo_mmap, base_nueva, paginas_del_mapa,
  crear_nuevo_segmento_mmap, apuntar_segmento, anotar_programa, poner_mapa, mapear_archivo,
  memory_map, sin_el_primero, sin_nro, desmapear, desmapear_en, memory_unmap,
}
use tp_sistemas_operativos_l.Muse.Unmapped.{Primero, buscar_path-Primero}

abbrev con_tabla : Program → List Segment → Program
con_tabla prog segs = record prog { segment_table = segs }

cambiar_segmento-last :
    (i : ℕ) (prog : Program) (segs : List Segment) (y : Segment) (f : Segment → Segment) (s : Muse)
    → get_elem? s.program_list i ≡ some (con_tabla prog (segs ++ y ∷ []))
    → cambiar_segmento i (length segs) f s
      ≡ ok tt (record s { program_list = set s.program_list i (con_tabla prog (segs ++ f y ∷ [])) })
unfolding cambiar_segmento segmento_de cambiar_programa programa ◌>>=◌ and_then pure leer cambiar
    no_nulo
cambiar_segmento-last i prog segs y f s h = rw h (
    rw (get-last segs y) (
      rw h (
        ap (λ l. ok tt (record s { program_list = set s.program_list i (con_tabla prog l) }))
          (set-last segs y (f y)))))

en_cola-none :
    (b : Bool) (o : Option ℕ) → (if b then some 0 else en_cola o) ≡ none → (b ≡ false) × (o ≡ none)
en_cola-none true o h = absurd cc
en_cola-none false none h = (refl, refl)
en_cola-none false (some i) h = absurd cc

o_falso : (b c : Bool) → (if b then true else c) ≡ false → (b ≡ false) × (c ≡ false)
o_falso true c h = absurd cc
o_falso false c h = (refl, h)

buscar_en-last :
    (dir : ℕ) (segs : List Segment) (y : Segment)
    → buscar_en dir segs ≡ none
    → (leb y.base dir && leb dir y.limit) ≡ true
    → buscar_en dir (segs ++ y ∷ []) ≡ some (length segs)
unfolding buscar_en
buscar_en-last dir [] y h e = rw e refl
buscar_en-last dir (x ∷ segs) y h e =
    let r = en_cola-none (leb x.base dir && leb dir x.limit) (buscar_en dir segs) h in
    rw (r.0) (ap en_cola (buscar_en-last dir segs y r.1 e))

buscar_pid-set :
    (pid : ℕ) (ps : List Program) (i : ℕ) (p : Program) (segs : List Segment)
    → get_elem? ps i ≡ some p
    → buscar_pid pid (set ps i (con_tabla p segs)) ≡ buscar_pid pid ps
unfolding buscar_pid
buscar_pid-set pid [] i p segs h = refl
buscar_pid-set pid (x ∷ ps) zero p segs h =
    ap
      (λ o. elim o [
        | none ↦ none
        | some q ↦ if q.pid == pid then some 0 else en_cola (buscar_pid pid ps)
      ])
      (sym h)
buscar_pid-set pid (x ∷ ps) (suc i) p segs h =
    ap (λ o. if x.pid == pid then some 0 else en_cola o) (buscar_pid-set pid ps i p segs h)

hay_pid-last : (pid : ℕ) (ps : List ℕ) → hay_pid pid (ps ++ pid ∷ []) ≡ true
unfolding hay_pid
hay_pid-last pid [] = rw (==_refl pid) refl
hay_pid-last pid (p ∷ ps) = elim (Bool-cases (p == pid)) [
  | inl e ↦ rw e refl
  | inr e ↦ rw e (hay_pid-last pid ps)
]

sin_el_primero-last :
    (pid : ℕ) (ps : List ℕ) → hay_pid pid ps ≡ false → sin_el_primero pid (ps ++ pid ∷ []) ≡ ps
unfolding hay_pid sin_el_primero
sin_el_primero-last pid [] h = rw (==_refl pid) refl
sin_el_primero-last pid (p ∷ ps) h =
    let r = o_falso (p == pid) (hay_pid pid ps) h in
    rw (r.0) (ap (λ l. p ∷ l) (sin_el_primero-last pid ps r.1))

sin_nro-last : (segs : List Segment) (y : Segment) → sin_nro (length segs) (segs ++ y ∷ []) ≡ segs
unfolding sin_nro
sin_nro-last [] y = refl
sin_nro-last (x ∷ segs) y = ap (λ l. x ∷ l) (sin_nro-last segs y)

-- The segment of the map, when it is made, when it is put on the file and when its type is set.
abbrev segmento_nuevo : Muse → Program → ℕ → Segment
segmento_nuevo s prog largo =
    let base = base_nueva (ultimo_segmento_programa prog) in
    record {
      is_heap = false;
      base = base;
      limit = palabra (paginas_del_mapa s.page_size largo * s.page_size + base);
      page_table = [];
      archivo_mapeado = 0;
      tipo_map = 0;
      tam_archivo_mmap = 0;
    }

abbrev segmento_puesto : Segment → ℕ → Archivo → ℕ → Segment
segmento_puesto seg m a largo = record seg {
  archivo_mapeado = m;
  page_table = a.tabla_paginas;
  tam_archivo_mmap = largo;
}

abbrev segmento_compartido : Segment → Segment
segmento_compartido seg = record seg { tipo_map = 1 }

abbrev programas_tras : Muse → ℕ → Program → ℕ → Archivo → ℕ → List Program
programas_tras s i prog m a largo =
    let y = segmento_nuevo s prog largo in
    let z = segmento_puesto y m a largo in
    let segs = prog.segment_table in
    set
      (set (set s.program_list i (con_tabla prog (segs ++ y ∷ []))) i
        (con_tabla prog (segs ++ z ∷ [])))
      i (con_tabla prog (segs ++ segmento_compartido z ∷ []))

-- The state with the file mapped once more.
abbrev mapeado : Muse → ℕ → Program → ℕ → Archivo → ℕ → ℕ → Muse
mapeado s i prog m a largo pid = record s {
  program_list = programas_tras s i prog m a largo;
  archivos = escribir s.archivos m (some (record a { programas = a.programas ++ pid ∷ [] }));
}

-- What the map needs: a program that has room after its last segment.
pub record HayLugar (s : Muse) (i : ℕ) (prog : Program) (largo : ℕ) : Type 0 where
  pub programa : get_elem? s.program_list i ≡ some prog
  pub libre : busca_segmento prog (base_nueva (ultimo_segmento_programa prog)) ≡ none
  pub base : base_nueva (ultimo_segmento_programa prog) < 2 ^ 32
  pub cabe :
      paginas_del_mapa s.page_size largo * s.page_size + base_nueva (ultimo_segmento_programa prog)
      < 2 ^ 32

dentro :
    (s : Muse) (i : ℕ) (prog : Program) (largo : ℕ)
    → HayLugar s i prog largo
    → (leb (segmento_nuevo s prog largo).base (base_nueva (ultimo_segmento_programa prog))
        && leb (base_nueva (ultimo_segmento_programa prog)) (segmento_nuevo s prog largo).limit)
      ≡ true
dentro s i prog largo h =
    let c = h.cabe in
    let base = base_nueva (ultimo_segmento_programa prog) in
    let n = paginas_del_mapa s.page_size largo * s.page_size in
    let e : palabra (n + base) ≡ n + base = omega (arith, c) in
    rw (si_menor base base (omega arith)) (rw e (si_menor base (n + base) (omega arith)))

poner_mapa-run :
    (i m largo pid : ℕ) (prog : Program) (a : Archivo) (s : Muse)
    → HayLugar s i prog largo
    → s.archivos m ≡ some a
    → poner_mapa i m largo map_shared pid s
      ≡ ok (bien (base_nueva (ultimo_segmento_programa prog))) (mapeado s i prog m a largo pid)
unfolding poner_mapa crear_nuevo_segmento_mmap cambiar_programa programa apuntar_segmento
    archivo_nro anotar_programa guardar_archivo busca_segmento ◌>>=◌ and_then pure leer cambiar
    no_nulo
poner_mapa-run i m largo pid prog a s h ha =
    let segs = prog.segment_table in
    let y = segmento_nuevo s prog largo in
    let z = segmento_puesto y m a largo in
    let l1 = set s.program_list i (con_tabla prog (segs ++ y ∷ [])) in
    let g1 = get-set s.program_list i prog (con_tabla prog (segs ++ y ∷ [])) h.programa in
    let l2 = set l1 i (con_tabla prog (segs ++ z ∷ [])) in
    let g2 = get-set l1 i (con_tabla prog (segs ++ y ∷ [])) (con_tabla prog (segs ++ z ∷ [])) g1 in
    let b =
      buscar_en-last (base_nueva (ultimo_segmento_programa prog)) segs y h.libre
        (dentro s i prog largo h) in
    let c1 =
      cambiar_segmento-last i prog segs y (λ seg. segmento_puesto seg m a largo)
        (record s { program_list = l1 }) g1 in
    let c2 =
      cambiar_segmento-last i prog segs z segmento_compartido (record s { program_list = l2 }) g2 in
    rw (h.programa) (rw (h.programa) (rw g1 (rw b (rw ha (rw c1 (rw ha (rw c2 (rw ha refl))))))))

memory_map-run :
    (i m largo pid : ℕ) (path : String) (abierto : Option (ℕ → ℕ)) (prog : Program) (a : Archivo)
    (s : Muse)
    → s.held ≡ []
    → buscar_pid pid s.program_list ≡ some i
    → HayLugar s i prog largo
    → s.archivos m ≡ some a
    → Primero s.archivos path m s.lista_archivos_mmap
    → memory_map abierto path largo map_shared pid s
      ≡ ok
          (bien (base_nueva (ultimo_segmento_programa prog)))
          (record (mapeado s i prog m a largo pid) { held = [] })
unfolding memory_map locked search_program asegurar_programa programa buscar_archivo_mmap
    mapear_archivo archivo_nro ◌>>=◌ and_then pure leer cambiar no_nulo tomar_mutex soltar_mutex
    tiene mutex_eq soltar
memory_map-run i m largo pid path abierto prog a s hh hi h ha hp =
    let t = record s { held = lock ∷ [] } in
    let r =
      poner_mapa-run i m largo pid prog a t
        (record { programa = h.programa; libre = h.libre; base = h.base; cabe = h.cabe }) ha in
    let b = buscar_path-Primero s.lista_archivos_mmap path m t hp in
    rw hh (rw hi (rw (h.programa) (rw b (rw ha (rw r refl)))))

-- A program maps a file that others have, and gives it back.
pub record Devuelto (s : Muse) (i : ℕ) (prog : Program) (m : ℕ) (a : Archivo) (largo pid : ℕ)
    (path : String) (abierto : Option (ℕ → ℕ)) : Type 0 where
  pub base : ℕ
  pub con_mapa : Muse
  pub mapea : memory_map abierto path largo map_shared pid s ≡ ok (bien base) con_mapa
  pub nuevo : Segment
  pub ultimo :
      (p : Program) × (get_elem? con_mapa.program_list i ≡ some p)
      × (get_elem? p.segment_table (length prog.segment_table) ≡ some nuevo)
  pub comparte : (nuevo.page_table ≡ a.tabla_paginas) × (nuevo.archivo_mapeado ≡ m)
  pub sin_mapa : Muse
  pub desmapea : memory_unmap base pid con_mapa ≡ ok (bien 0) sin_mapa
  pub mismos_programas : sin_mapa.program_list ≡ s.program_list
  pub mismos_archivos : (k : ℕ) → sin_mapa.archivos k ≡ s.archivos k
  pub mismas_paginas : (sin_mapa.paginas ≡ s.paginas) × (sin_mapa.bitmap ≡ s.bitmap)
  pub libre : sin_mapa.held ≡ []

escribir-vuelta :
    (f : ℕ → Option Archivo) (m : ℕ) (a b : Archivo) (k : ℕ)
    → f m ≡ some a
    → escribir (escribir f m (some b)) m (some a) k ≡ f k
escribir-vuelta f m a b k h = elim (Bool-cases (k == m)) [
  | inl e ↦ rw e (sym h ∙ ap f (sym ((==_iff k m).0 e)))
  | inr e ↦ rw e refl
]

positivo : (xs : List ℕ) → xs ≢ [] → (length xs == 0) ≡ false
positivo [] h = absurd (h refl)
positivo (x ∷ xs) h = distinto (suc (length xs)) 0 (λ e. omega (arith, e))

desmapear-run :
    (i m pid : ℕ) (prog : Program) (a : Archivo) (segs : List Segment) (w : Segment) (s : Muse)
    → prog.pid ≡ pid
    → pid ≢ 0
    → get_elem? s.program_list i ≡ some (con_tabla prog (segs ++ w ∷ []))
    → w.archivo_mapeado ≡ m
    → s.archivos m ≡ some (record a { programas = a.programas ++ pid ∷ [] })
    → hay_pid pid a.programas ≡ false
    → a.programas ≢ []
    → desmapear i (length segs) (con_tabla prog (segs ++ w ∷ [])) w s
      ≡ ok (bien 0) (record s {
        archivos = escribir s.archivos m (some a);
        program_list = set s.program_list i (con_tabla prog segs);
      })
unfolding desmapear archivo_de guardar_archivo cambiar_programa programa tiene_permiso ◌>>=◌
    and_then pure leer cambiar no_nulo
desmapear-run i m pid prog a segs w s hpid h0 hp hm ha hno hotros =
    let a' = record a { programas = a.programas ++ pid ∷ [] } in
    let v : tiene_permiso prog a' ≡ true =
      rw hpid (rw (hay_pid-last pid a.programas) (rw (distinto pid 0 h0) refl)) in
    let q : sin_el_primero prog.pid a'.programas ≡ a.programas =
      rw hpid (sin_el_primero-last pid a.programas hno) in
    rw hm (
      rw ha (
        rw v (
          rw q (
            rw hp (
              rw (positivo a.programas hotros) (
                ap
                  (λ l. ok (bien 0) (record s {
                    archivos = escribir s.archivos m (some a);
                    program_list = set s.program_list i (con_tabla prog l);
                  }))
                  (sin_nro-last segs w)))))))

-- A program with a pid other than 0 maps, as MAP_SHARED and with no mutex held, a file that is mapped
-- under its path by others and not by it, and has room for the segment at 32-bit addresses after its last
-- one: memory_map gives a segment on the file with the pages of the file, and memory_unmap at the answer
-- gives 0 and takes programs, files, pages and frames back to what they were.
pub memory_unmap-memory_map :
    (i m largo pid : ℕ) (path : String) (abierto : Option (ℕ → ℕ)) (prog : Program) (a : Archivo)
    (s : Muse)
    → s.held ≡ []
    → buscar_pid pid s.program_list ≡ some i
    → prog.pid ≡ pid
    → pid ≢ 0
    → HayLugar s i prog largo
    → s.archivos m ≡ some a
    → Primero s.archivos path m s.lista_archivos_mmap
    → hay_pid pid a.programas ≡ false
    → a.programas ≢ []
    → Devuelto s i prog m a largo pid path abierto
unfolding memory_unmap locked search_program asegurar_programa programa desmapear_en busca_segmento
    ◌>>=◌ and_then pure leer cambiar no_nulo tomar_mutex soltar_mutex tiene mutex_eq soltar
memory_unmap-memory_map i m largo pid path abierto prog a s hh hi hpid h0 h ha hp hno hotros =
    let segs = prog.segment_table in
    let base = base_nueva (ultimo_segmento_programa prog) in
    let y = segmento_nuevo s prog largo in
    let z = segmento_puesto y m a largo in
    let w = segmento_compartido z in
    let l1 = set s.program_list i (con_tabla prog (segs ++ y ∷ [])) in
    let g1 = get-set s.program_list i prog (con_tabla prog (segs ++ y ∷ [])) h.programa in
    let l2 = set l1 i (con_tabla prog (segs ++ z ∷ [])) in
    let g2 = get-set l1 i (con_tabla prog (segs ++ y ∷ [])) (con_tabla prog (segs ++ z ∷ [])) g1 in
    let l3 = set l2 i (con_tabla prog (segs ++ w ∷ [])) in
    let g3 = get-set l2 i (con_tabla prog (segs ++ z ∷ [])) (con_tabla prog (segs ++ w ∷ [])) g2 in
    let b = buscar_en-last base segs w h.libre (dentro s i prog largo h) in
    let t = record (mapeado s i prog m a largo pid) { held = [] } in
    let u : Muse = record s {
      archivos =
          escribir (escribir s.archivos m (some (record a { programas = a.programas ++ pid ∷ [] })))
            m (some a);
      program_list = set l3 i (con_tabla prog segs);
      held = [];
    } in
    let pids : buscar_pid pid l3 ≡ some i =
      buscar_pid-set pid l2 i (con_tabla prog (segs ++ z ∷ [])) (segs ++ w ∷ []) g2
      ∙ buscar_pid-set pid l1 i (con_tabla prog (segs ++ y ∷ [])) (segs ++ z ∷ []) g1
      ∙ buscar_pid-set pid s.program_list i prog (segs ++ y ∷ []) h.programa
      ∙ hi in
    let d =
      desmapear-run i m pid prog a segs w (record t { held = lock ∷ [] }) hpid h0 g3 refl
        (escribir-same s.archivos m (some (record a { programas = a.programas ++ pid ∷ [] }))) hno
        hotros in
    record {
      base = base;
      con_mapa = t;
      mapea = memory_map-run i m largo pid path abierto prog a s hh hi h ha hp;
      nuevo = w;
      ultimo = (con_tabla prog (segs ++ w ∷ []), g3, get-last segs w);
      comparte = (refl, refl);
      sin_mapa = u;
      desmapea = rw pids (rw g3 (rw b (rw (get-last segs w) (rw d refl))));
      mismos_programas =
          set-set l2 i (con_tabla prog (segs ++ w ∷ [])) (con_tabla prog segs)
          ∙ set-set l1 i (con_tabla prog (segs ++ z ∷ [])) (con_tabla prog segs)
          ∙ set-set s.program_list i (con_tabla prog (segs ++ y ∷ [])) (con_tabla prog segs)
          ∙ set-get s.program_list i prog h.programa;
      mismos_archivos = λ k.
          escribir-vuelta s.archivos m a (record a { programas = a.programas ++ pid ∷ [] }) k ha;
      mismas_paginas = (refl, refl);
      libre = refl;
    }
