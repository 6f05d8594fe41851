-- ===== src/Muse/Unmapped.antt =====
-- memory_unmap of memoria/main_memory.c by the last program that has the file.
use Prim.Native.String.{String}
use text.Mathlib.Text.{◌==◌ as str_eq}
use tp_sistemas_operativos_l.Common.{
  ℕ, ◌≡◌, refl, sym, ap, ◌∙◌, ◌⊎◌, inl, inr, Bool-cases, Option-cases, true, false, Option, none,
  some, List, [], ◌∷◌, ◌==◌, ==_refl, ==_iff, ltb, length, get_elem?, set, if◌then◌else◌,
}
use tp_sistemas_operativos_l.Muse.State.{Page, Segment, Archivo, Program, Muse, mm, lock}
use tp_sistemas_operativos_l.Muse.Monad.{
  M, ok, fault, pure, fallar, ◌>>=◌, ◌>>◌, and_then, leer, cambiar, no_nulo, locked, tomar_mutex,
  soltar_mutex, mutex_eq, tiene, soltar, pagina, escribir, poner_bit,
}
use tp_sistemas_operativos_l.Muse.Frames.{liberar_frame}
use tp_sistemas_operativos_l.Muse.NewPage.{escribir-same}
use tp_sistemas_operativos_l.Muse.Segments.{
  buscar_pid, search_program, programa, cambiar_programa, busca_segmento,
}
use tp_sistemas_operativos_l.Muse.Alloc.{asegurar_programa}
use tp_sistemas_operativos_l.Muse.Maps.{archivo_de, tiene_permiso}
use tp_sistemas_operativos_l.Muse.Data.{menos}
use tp_sistemas_operativos_l.Muse.Mapping.{
  archivo_nro, guardar_archivo, buscar_path, buscar_archivo_mmap, eliminar_paginas, destruir_tabla,
  eliminar_archivo_mmap, sin_el_primero, quitar_archivo, sin_nro, soltar_archivo, desmapear,
  desmapear_en, memory_unmap,
}

-- A state of a handler that holds mutex_lock alone.
abbrev con_lock : Muse → Muse
con_lock s = record s { held = lock ∷ [] }

-- A command reads through a bad pointer, or ends with the same files and with mutex_lock alone.
abbrev Quieto : Muse → M (Unit {0}) → Type 0
Quieto s m =
    (m (con_lock s) ≡ fault)
    ⊎ ((t : Muse) × (m (con_lock s) ≡ ok tt (con_lock t)) × (t.archivos ≡ s.archivos))

liberar_frame-Quieto : (n : ℕ) (s : Muse) → Quieto s (liberar_frame n)
unfolding liberar_frame locked poner_bit ◌>>=◌ and_then pure leer cambiar fallar tomar_mutex
    soltar_mutex mutex_eq tiene soltar
liberar_frame-Quieto n s = elim (Bool-cases (ltb n (length s.bitmap))) [
  | inl e ↦ inr (record s { bitmap = set s.bitmap n true }, rw e refl, refl)
  | inr e ↦ inl (rw e refl)
]

-- A page of eliminar_archivo_mmap.
abbrev soltar_pagina : Page → M (Unit {0})
soltar_pagina p = if p.is_present then (do locked mm (pure tt); liberar_frame p.fr) else pure tt

soltar_pagina-Quieto : (p : Page) (s : Muse) → Quieto s (soltar_pagina p)
unfolding locked ◌>>=◌ and_then pure cambiar tomar_mutex soltar_mutex mutex_eq tiene soltar
soltar_pagina-Quieto p s = elim (Bool-cases p.is_present) [
  | inl e ↦ elim (liberar_frame-Quieto p.fr s) [
    | inl q ↦ inl (rw e q)
    | inr q ↦ inr (q.0, rw e q.1, q.2)
  ]
  | inr e ↦ inr (s, rw e refl, refl)
]

eliminar_paginas-Quieto : (ns : List ℕ) (s : Muse) → Quieto s (eliminar_paginas ns)
unfolding eliminar_paginas ◌>>=◌ and_then pure cambiar pagina leer no_nulo fallar
eliminar_paginas-Quieto [] s = inr (s, refl, refl)
eliminar_paginas-Quieto (n ∷ ns) s = elim (Option-cases (s.paginas n)) [
  | inl e ↦ inl (rw e refl)
  | inr e ↦ elim (soltar_pagina-Quieto e.0 s) [
    | inl q ↦ inl (rw e.1 (rw q refl))
    | inr q ↦
        let t = record q.0 { paginas = escribir q.0.paginas n none } in
        elim (eliminar_paginas-Quieto ns t) [
          | inl r ↦ inl (rw e.1 (rw (q.1) r))
          | inr r ↦ inr (r.0, rw e.1 (rw (q.1) (r.1)), r.2 ∙ q.2)
        ]
  ]
]

-- list_find of a path gives file `m`.
abbrev pub Primero : (ℕ → Option Archivo) → String → ℕ → List ℕ → Type 0
Primero archivos path m [] = ⊥
Primero archivos path m (k ∷ ks) =
    (b : Archivo) × (archivos k ≡ some b)
    × (((str_eq b.path_archivo path ≡ true) × (k ≡ m))
        ⊎ ((str_eq b.path_archivo path ≡ false) × Primero archivos path m ks))

pub buscar_path-Primero :
    (ms : List ℕ) (path : String) (m : ℕ) (s : Muse)
    → Primero s.archivos path m ms
    → buscar_path ms path s ≡ ok (some m) s
unfolding buscar_path archivo_nro ◌>>=◌ and_then pure leer no_nulo
buscar_path-Primero [] path m s h = absurd h
buscar_path-Primero (k ∷ ks) path m s h = elim h.2 [
  | inl q ↦ rw (h.1) (rw (q.0) (ap (λ z. ok (some z) s) q.1))
  | inr q ↦ rw (h.1) (rw (q.0) (buscar_path-Primero ks path m s q.1))
]

-- The search does not see a change of the programs of a file.
Primero-escribir :
    (archivos : ℕ → Option Archivo) (path : String) (m n : ℕ) (ms : List ℕ) (a : Archivo)
    (ps : List ℕ)
    → archivos n ≡ some a
    → Primero archivos path m ms
    → Primero (escribir archivos n (some (record a { programas = ps }))) path m ms
Primero-escribir archivos path m n [] a ps ha h = h
Primero-escribir archivos path m n (k ∷ ks) a ps ha h =
    let f = escribir archivos n (some (record a { programas = ps })) in
    let resto =
      λ (q : Primero archivos path m ks). Primero-escribir archivos path m n ks a ps ha q in
    elim (Bool-cases (k == n)) [
      | inl e ↦
          let p : some a ≡ some h.0 = sym ha ∙ ap archivos (sym ((==_iff k n).0 e)) ∙ h.1 in
          let q : str_eq a.path_archivo path ≡ str_eq h.0.path_archivo path =
            ap (λ o. elim o [ none ↦ true | some x ↦ str_eq x.path_archivo path ]) p in
          (
            record a { programas = ps },
            rw e refl,
            elim h.2 [ inl r ↦ inl (q ∙ r.0, r.1) | inr r ↦ inr (q ∙ r.0, resto r.1) ],
          )
      | inr e ↦ (h.0, rw e (h.1), elim h.2 [ inl r ↦ inl r | inr r ↦ inr (r.0, resto r.1) ])
    ]

-- The table of pages is destroyed twice.
soltar_archivo-fault :
    (m : ℕ) (s : Muse) (a : Archivo)
    → s.archivos m ≡ some a
    → Primero s.archivos a.path_archivo m s.lista_archivos_mmap
    → soltar_archivo m (con_lock s) ≡ fault
unfolding soltar_archivo buscar_archivo_mmap quitar_archivo eliminar_archivo_mmap destruir_tabla
    archivo_nro guardar_archivo ◌>>=◌ and_then pure leer cambiar no_nulo fallar
soltar_archivo-fault m s a ha h =
    let b = buscar_path-Primero s.lista_archivos_mmap a.path_archivo m (con_lock s) h in
    let t = record s { lista_archivos_mmap = sin_el_primero m s.lista_archivos_mmap } in
    elim (Bool-cases a.tabla_viva) [
      | inl e ↦ elim (eliminar_paginas-Quieto a.tabla_paginas t) [
        | inl q ↦ rw ha (rw b (rw ha (rw e (rw q refl))))
        | inr q ↦
            let c : q.0.archivos m ≡ some a = ap (λ f. f m) q.2 ∙ ha in
            rw ha (rw b (rw ha (rw e (rw (q.1) (rw c (rw e (rw (==_refl m) refl)))))))
      ]
      | inr e ↦ rw ha (rw b (rw ha (rw e refl)))
    ]

desmapear-fault :
    (i j : ℕ) (prog : Program) (seg : Segment) (a : Archivo) (s : Muse)
    → get_elem? s.program_list i ≡ some prog
    → s.archivos seg.archivo_mapeado ≡ some a
    → tiene_permiso prog a ≡ true
    → sin_el_primero prog.pid a.programas ≡ []
    → Primero s.archivos a.path_archivo seg.archivo_mapeado s.lista_archivos_mmap
    → desmapear i j prog seg (con_lock s) ≡ fault
unfolding desmapear archivo_de guardar_archivo cambiar_programa programa ◌>>=◌ and_then pure leer
    cambiar no_nulo
desmapear-fault i j prog seg a s hp ha ht hr h =
    let m = seg.archivo_mapeado in
    let t = record s {
      archivos = escribir s.archivos m (some (record a { programas = [] }));
      program_list =
          set s.program_list i (record prog { segment_table = sin_nro j prog.segment_table });
    } in
    let r =
      soltar_archivo-fault m t (record a { programas = [] })
        (escribir-same s.archivos m (some (record a { programas = [] })))
        (Primero-escribir s.archivos a.path_archivo m m s.lista_archivos_mmap a [] ha h) in
    rw ha (rw ht (rw hr (rw hp (rw r refl))))

-- memory_unmap, with no mutex held, of an address that the program's list of segments gives a mapped
-- segment for, whose file, found under its path in the list of mapped files, has this program, which is
-- not pid 0, and no other: the table of pages is destroyed twice, whatever its pages.
pub memory_unmap-twice :
    (dir pid i j : ℕ) (prog : Program) (seg : Segment) (a : Archivo) (s : Muse)
    → s.held ≡ []
    → buscar_pid pid s.program_list ≡ some i
    → get_elem? s.program_list i ≡ some prog
    → busca_segmento prog dir ≡ some j
    → get_elem? prog.segment_table j ≡ some seg
    → seg.is_heap ≡ false
    → s.archivos seg.archivo_mapeado ≡ some a
    → tiene_permiso prog a ≡ true
    → sin_el_primero prog.pid a.programas ≡ []
    → Primero s.archivos a.path_archivo seg.archivo_mapeado s.lista_archivos_mmap
    → memory_unmap dir pid s ≡ fault
unfolding memory_unmap locked search_program asegurar_programa programa desmapear_en ◌>>=◌ and_then
    pure leer cambiar no_nulo tomar_mutex tiene
memory_unmap-twice dir pid i j prog seg a s hh hi hp hj hs hk ha ht hr h =
    let d : (if seg.is_heap then pure (menos 1) else desmapear i j prog seg) (con_lock s) ≡ fault =
      ap (λ b. (if b then pure (menos 1) else desmapear i j prog seg) (con_lock s)) hk
      ∙ desmapear-fault i j prog seg a s hp ha ht hr h in
    rw hh (rw hi (rw hp (rw hj (rw hs (rw d refl)))))
