-- ===== src/Muse/Monad.antt =====
-- Commands over the state of MUSE.
use tp_sistemas_operativos_l.Common.{
  ℕ, Bool, true, false, Option, none, some, List, [], ◌∷◌, ◌==◌, ltb, set, length, if◌then◌else◌,
}
use tp_sistemas_operativos_l.Muse.State.{
  Page, Mutex, bitmap_heap, bitmap_mmap, mm, clock, lock, Muse,
}

-- `fault`: an access through NULL or out of an array. `deadlock`: a lock of a mutex that is held.
-- `agotado`: the fuel of a loop ran out.
pub data Outcome (A : Type 0) : Type 0 where
  ok : A → Muse → Outcome A
  fault : Outcome A
  deadlock : Outcome A
  agotado : Outcome A

abbrev pub M : Type 0 → Type 0
M A = Muse → Outcome A

unfoldable pub pure : {A : Type 0} → A → M A
pure a s = ok a s

unfoldable pub fallar : {A : Type 0} → M A
fallar s = fault

unfoldable pub sin_fuel : {A : Type 0} → M A
sin_fuel s = agotado

unfoldable pub and_then : {A B : Type 0} → Outcome A → (A → M B) → Outcome B
and_then (ok a s) f = f a s
and_then fault f = fault
and_then deadlock f = deadlock
and_then agotado f = agotado

infixl 5 ◌>>=◌ ◌>>◌
unfoldable pub ◌>>=◌ : {A B : Type 0} → M A → (A → M B) → M B
◌>>=◌ m f s = and_then (m s) f

abbrev pub ◌>>◌ : {B : Type 0} → M (Unit {0}) → M B → M B
m >> k = m >>= λ _. k

unfoldable pub leer : {A : Type 0} → (Muse → A) → M A
leer f s = ok (f s) s

unfoldable pub cambiar : (Muse → Muse) → M (Unit {0})
cambiar f s = ok tt (f s)

unfoldable pub mutex_eq : Mutex → Mutex → Bool
mutex_eq bitmap_heap bitmap_heap = true
mutex_eq bitmap_mmap bitmap_mmap = true
mutex_eq mm mm = true
mutex_eq clock clock = true
mutex_eq lock lock = true
mutex_eq _ _ = false

unfoldable pub tiene : Mutex → List Mutex → Bool
tiene m [] = false
tiene m (x ∷ xs) = if mutex_eq m x then true else tiene m xs

unfoldable pub soltar : Mutex → List Mutex → List Mutex
soltar m [] = []
soltar m (x ∷ xs) = if mutex_eq m x then xs else x ∷ soltar m xs

-- pthread_mutex_lock and pthread_mutex_unlock.
unfoldable pub tomar_mutex : Mutex → M (Unit {0})
tomar_mutex m s = if tiene m s.held then deadlock else ok tt (record s { held = m ∷ s.held })

unfoldable pub soltar_mutex : Mutex → M (Unit {0})
soltar_mutex m = cambiar (λ s. record s { held = soltar m s.held })

-- A block between the two.
unfoldable pub locked : {A : Type 0} → Mutex → M A → M A
locked m body = do tomar_mutex m; a ← body; soltar_mutex m; pure a

-- What a list access gives, read through.
unfoldable pub no_nulo : {A : Type 0} → Option A → M A
no_nulo none = fallar
no_nulo (some a) = pure a

unfoldable pub pagina : ℕ → M Page
pagina n = do o ← leer (λ s. s.paginas n); no_nulo o

abbrev pub escribir {ℓ} : {A : Type ℓ} → (ℕ → A) → ℕ → A → ℕ → A
escribir f i v j = if j == i then v else f j

unfoldable pub guardar_pagina : ℕ → Page → M (Unit {0})
guardar_pagina n p = cambiar (λ s. record s { paginas = escribir s.paginas n (some p) })

-- A bit of BITMAP and of BITMAP_SWAP_FILE.
unfoldable pub poner_bit : ℕ → Bool → M (Unit {0})
poner_bit i b = do
  total ← leer (λ s. length s.bitmap)
  if ltb i total then cambiar (λ s. record s { bitmap = set s.bitmap i b }) else fallar

unfoldable pub poner_bit_swap : ℕ → Bool → M (Unit {0})
poner_bit_swap i b = do
  total ← leer (λ s. length s.bitmap_swap_file)
  if ltb i total
      then cambiar (λ s. record s { bitmap_swap_file = set s.bitmap_swap_file i b })
      else fallar
