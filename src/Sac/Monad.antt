-- ===== src/Sac/Monad.antt =====
-- Commands over the disk. s_bitmap and s_tablaDeNodos are locked and unlocked by separate commands,
-- since the handlers of filesystem/sac_handlers.c have returns between the two.
use tp_sistemas_operativos_l.Common.{
  ℕ, true, false, Option, none, some, get_elem?, set, if◌then◌else◌,
}
use tp_sistemas_operativos_l.Sac.State.{GFile, Disco}

-- `fault`: an access out of the bounds of an array. `deadlock`: a lock of a mutex that is held.
-- `agotado`: the fuel of a loop ran out.
pub data Outcome (A : Type 0) : Type 0 where
  ok : A → Disco → Outcome A
  fault : Outcome A
  deadlock : Outcome A
  agotado : Outcome A

abbrev pub F : Type 0 → Type 0
F A = Disco → Outcome A

unfoldable pub pure : {A : Type 0} → A → F A
pure a s = ok a s

unfoldable pub fallar : {A : Type 0} → F A
fallar s = fault

unfoldable pub sin_fuel : {A : Type 0} → F A
sin_fuel s = agotado

unfoldable pub and_then : {A B : Type 0} → Outcome A → (A → F B) → Outcome B
and_then (ok a s) f = f a s
and_then fault f = fault
and_then deadlock f = deadlock
and_then agotado f = agotado

infixl 5 ◌>>=◌ ◌>>◌
unfoldable pub ◌>>=◌ : {A B : Type 0} → F A → (A → F B) → F B
◌>>=◌ m f s = and_then (m s) f

abbrev pub ◌>>◌ : {B : Type 0} → F (Unit {0}) → F B → F B
m >> k = m >>= λ _. k

unfoldable pub leer : {A : Type 0} → (Disco → A) → F A
leer f s = ok (f s) s

unfoldable pub cambiar : (Disco → Disco) → F (Unit {0})
cambiar f s = ok tt (f s)

unfoldable pub lock_bitmap : F (Unit {0})
lock_bitmap s =
    if s.bloqueado_bitmap then deadlock else ok tt (record s { bloqueado_bitmap = true })

unfoldable pub unlock_bitmap : F (Unit {0})
unlock_bitmap = cambiar (λ s. record s { bloqueado_bitmap = false })

unfoldable pub lock_nodos : F (Unit {0})
lock_nodos s = if s.bloqueado_nodos then deadlock else ok tt (record s { bloqueado_nodos = true })

unfoldable pub unlock_nodos : F (Unit {0})
unlock_nodos = cambiar (λ s. record s { bloqueado_nodos = false })

-- What an array access gives.
unfoldable pub o_falla : {A : Type 0} → Option A → F A
o_falla none = fallar
o_falla (some a) = pure a

-- tablaDeNodos[n].
unfoldable pub nodo : ℕ → F GFile
nodo n = do o ← leer (λ s. get_elem? s.tabla n); o_falla o

unfoldable pub cambiar_nodo : ℕ → (GFile → GFile) → F (Unit {0})
cambiar_nodo n f = do g ← nodo n; cambiar (λ s. record s { tabla = set s.tabla n (f g) })
