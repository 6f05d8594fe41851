-- ===== src/Suse/Runs/Returns.antt =====
-- Runs that return, one rule for each command: the rest of the run is taken from the state that the
-- command leaves.
use mathlib.Core.Path.{fun_ext}
use tp_sistemas_operativos_l.Common.{
  ℕ, ◌+◌, ◌≡◌, refl, ap, Bool, true, false, Option, none, some, List, [], ◌∷◌, ◌==◌, ==_refl,
  if◌then◌else◌, arith, Bool-cases, Option-cases, inl, inr,
}
use tp_sistemas_operativos_l.Suse.State.{Ptr, Thread, Process, Entorno, State, Mutex}
use tp_sistemas_operativos_l.Suse.Monad.{
  ok, M, pure, and_then, ◌>>=◌, leer, cambiar, tiene, soltar, unlock, locked,
}
use tp_sistemas_operativos_l.Suse.Access.{
  write, find_process, update_process, deref_or, hilo, guardar_hilo, cambiar_hilo, process_or,
  proceso, cambiar_proceso, buscar_tid, quitar, get_time_today,
}

-- `m` returns from `s`, and what it gives and leaves meets `Q`.
pub data Returns {D A : Type 0} (Q : A → State D → Type 0) (m : M D A) (s : State D) : Type 0 where
  returns : {a : A} {s' : State D} → m s ≡ ok a s' → Q a s' → Returns Q m s

pub write_self {ℓ} : {A : Type ℓ} (h : Ptr → A) (p : Ptr) (v : A) → write h p v p ≡ v
unfolding write
write_self h p v = rw (==_refl p)

pub write_same {ℓ} : {A : Type ℓ} (h : Ptr → A) (p : Ptr) (v : A) → h p ≡ v → write h p v ≡ h
unfolding write
write_same h p v e = fun_ext λ q. ground arith

pub write-write {ℓ} :
    {A : Type ℓ} (h : Ptr → A) (p : Ptr) (v w : A) → write (write h p v) p w ≡ write h p w
unfolding write
write-write h p v w = fun_ext λ q. ground arith

-- What buscar_tid finds in a heap; `none` is a fault.
unfoldable pub buscar_en :
    {D : Type 0} → (Ptr → Option (Thread D)) → ℕ → List Ptr → Option (Option Ptr)
buscar_en h tid [] = some none
buscar_en h tid (p ∷ ps) = elim (h p) [
  | none ↦ none
  | some t ↦ if t.tid == tid then some (some p) else buscar_en h tid ps
]

-- What quitar leaves of a list of threads; `none` is a fault.
unfoldable pub quitar_en :
    {D : Type 0} → (Ptr → Option (Thread D)) → (Thread D → Bool) → List Ptr → Option (List Ptr)
quitar_en h cond [] = some []
quitar_en h cond (p ∷ ps) = elim (h p) [
  | none ↦ none
  | some t ↦
      if cond t
      then some ps
      else elim (quitar_en h cond ps) [ none ↦ none | some qs ↦ some (p ∷ qs) ]
]

-- A thread that changes without a change of the condition changes nothing here.
pub quitar_en-write :
    {D : Type 0} (h : Ptr → Option (Thread D)) (cond : Thread D → Bool) (q : Ptr) {t : Thread D}
    (u : Thread D) (ps : List Ptr)
    → h q ≡ some t
    → cond u ≡ cond t
    → quitar_en (write h q (some u)) cond ps ≡ quitar_en h cond ps
unfolding quitar_en write
quitar_en-write h cond q u [] e c = refl
quitar_en-write h cond q u (p ∷ ps) e c = ground (arith, quitar_en-write h cond q u ps e c)

module _ {D A : Type 0} {Q : A → State D → Type 0} where
  -- The whole run is one bracket.
  pub ret-locked :
      (m : Mutex) (body : M D A) (s : State D)
      → tiene m s.held ≡ false
      → Returns
          (λ a s'. Q a (record s' { held = soltar m s'.held }))
          body
          (record s { held = m ∷ s.held })
      → Returns Q (locked m body) s
  unfolding locked unlock
  ret-locked m body s h (returns e q) = returns (rw h (rw e refl)) q

  pub ret-pure : (a : A) (s : State D) → Q a s → Returns Q (pure a) s
  unfolding pure
  ret-pure a s q = returns refl q

  pub ret_mono :
      {P : A → State D → Type 0} {m : M D A} {s : State D}
      → ((a : A) (s' : State D) → P a s' → Q a s')
      → Returns P m s
      → Returns Q m s
  ret_mono w (returns e p) = returns e (w _ _ p)

  pub ret-if_true :
      (b : Bool) (m n : M D A) (s : State D)
      → b ≡ true
      → Returns Q m s
      → Returns Q (if b then m else n) s
  ret-if_true b m n s h r = rw h r

  pub ret-if_false :
      (b : Bool) (m n : M D A) (s : State D)
      → b ≡ false
      → Returns Q n s
      → Returns Q (if b then m else n) s
  ret-if_false b m n s h r = rw h r

module _ {D : Type 0} {Q : Unit {0} → State D → Type 0} where
  pub ret-cambiar : (f : State D → State D) (s : State D) → Q tt (f s) → Returns Q (cambiar f) s
  unfolding cambiar
  ret-cambiar f s q = returns refl q

  pub ret-cambiar_hilo :
      (p : Ptr) (t : Thread D) (g : Thread D → Thread D) (s : State D)
      → s.heap p ≡ some t
      → Q tt (record s { heap = write s.heap p (some (g t)) })
      → Returns Q (cambiar_hilo p g) s
  unfolding ◌>>=◌ and_then cambiar_hilo guardar_hilo cambiar hilo deref_or
  ret-cambiar_hilo p t g s h q = returns (rw h refl) q

  pub ret-cambiar_proceso :
      (pid : ℕ) (p : Process) (g : Process → Process) (s : State D)
      → find_process pid s.process ≡ some p
      → Q tt (record s { process = update_process pid g s.process })
      → Returns Q (cambiar_proceso pid g) s
  unfolding ◌>>=◌ and_then cambiar_proceso cambiar proceso process_or
  ret-cambiar_proceso pid p g s h q = returns (rw h refl) q

module _ {D : Type 0} where
  pub ret-hilo :
      {Q : Thread D → State D → Type 0} (p : Ptr) (t : Thread D) (s : State D)
      → s.heap p ≡ some t
      → Q t s
      → Returns Q (hilo p) s
  unfolding hilo deref_or
  ret-hilo p t s h q = returns (rw h refl) q

  pub ret-proceso :
      {Q : Process → State D → Type 0} (pid : ℕ) (p : Process) (s : State D)
      → find_process pid s.process ≡ some p
      → Q p s
      → Returns Q (proceso pid) s
  unfolding proceso process_or
  ret-proceso pid p s h q = returns (rw h refl) q

  pub ret-leer :
      {A : Type 0} {Q : A → State D → Type 0} (g : State D → A) (s : State D)
      → Q (g s) s
      → Returns Q (leer g) s
  unfolding leer
  ret-leer g s q = returns refl q

  pub ret-tiempo :
      {Q : D → State D → Type 0} (e : Entorno D) (s : State D)
      → Q (e.reloj s.lecturas) (record s { lecturas = s.lecturas + 1 })
      → Returns Q (get_time_today e) s
  unfolding get_time_today
  ret-tiempo e s q = returns refl q

  -- A command and the rest of the run.
  pub ret-bind :
      {A B : Type 0} {Q : B → State D → Type 0} (m : M D A) (f : A → M D B) (s : State D)
      → Returns (λ a s'. Returns Q (f a) s') m s
      → Returns Q (m >>= f) s
  unfolding ◌>>=◌ and_then
  ret-bind m f s (returns e (returns e' q)) = returns (rw e e') q

  pub buscar_tid-eq :
      (tid : ℕ) (ps : List Ptr) (o : Option Ptr) (s : State D)
      → buscar_en s.heap tid ps ≡ some o
      → buscar_tid tid ps s ≡ ok o s
  unfolding buscar_en buscar_tid ◌>>=◌ and_then hilo deref_or pure
  buscar_tid-eq tid [] o s h = ground arith
  buscar_tid-eq tid (p ∷ ps) o s h = ground (arith, buscar_tid-eq tid ps o s)

  pub ret-buscar_tid :
      {Q : Option Ptr → State D → Type 0} (tid : ℕ) (ps : List Ptr) (o : Option Ptr) (s : State D)
      → buscar_en s.heap tid ps ≡ some o
      → Q o s
      → Returns Q (buscar_tid tid ps) s
  ret-buscar_tid tid ps o s h q = returns (buscar_tid-eq tid ps o s h) q

module _ {D : Type 0} where
  quitar-eq :
      (cond : Thread D → Bool) (ps qs : List Ptr) (s : State D)
      → quitar_en s.heap cond ps ≡ some qs
      → quitar cond ps s ≡ ok qs s
  unfolding quitar_en quitar ◌>>=◌ and_then hilo deref_or pure
  quitar-eq cond [] qs s h = ground arith
  quitar-eq cond (p ∷ ps) qs s h = elim (Option-cases (quitar_en s.heap cond ps)) [
    | inl e ↦ ground arith
    | inr (rs, e) ↦ ground (arith, quitar-eq cond ps rs s e)
  ]

  pub ret-quitar :
      {Q : List Ptr → State D → Type 0} (cond : Thread D → Bool) (ps qs : List Ptr) (s : State D)
      → quitar_en s.heap cond ps ≡ some qs
      → Q qs s
      → Returns Q (quitar cond ps) s
  ret-quitar cond ps qs s h q = returns (quitar-eq cond ps qs s h) q

pub find-update_process :
    (pid : ℕ) (f : Process → Process) (ps : List Process) {p : Process}
    → ((q : Process) → (f q).process_id ≡ q.process_id)
    → find_process pid ps ≡ some p
    → find_process pid (update_process pid f ps) ≡ some (f p)
unfolding find_process update_process
find-update_process pid f [] k e = cc
find-update_process pid f (q ∷ qs) {p} k e = elim (Bool-cases (q.process_id == pid)) [
  | inl h ↦ rw h (simp (k q, h) (ap (λ z. some (f z)) (same_head h)))
  | inr h ↦ rw h (simp h (find-update_process pid f qs k (later h)))
]
  where
    same_head : (q.process_id == pid) ≡ true → q ≡ p
    same_head h = ground arith

    later : (q.process_id == pid) ≡ false → find_process pid qs ≡ some p
    later h = ground arith
