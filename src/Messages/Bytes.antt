-- ===== src/Messages/Bytes.antt =====
-- Numbers as bytes in memory, lowest first, and a cursor over a buffer.
use tp_sistemas_operativos_l.Common.{
  ℕ, zero, suc, ◌+◌, ◌*◌, ◌/◌, ◌%◌, Option, some, none, List, [], ◌∷◌,
}

-- The `k` low bytes of a number, as memcpy takes them on a little-endian machine.
unfoldable pub bytes_de : ℕ → ℕ → List ℕ
bytes_de zero n = []
bytes_de (suc k) n = n % 256 ∷ bytes_de k (n / 256)

unfoldable pub de_bytes : List ℕ → ℕ
de_bytes [] = 0
de_bytes (b ∷ bs) = b + 256 * de_bytes bs

abbrev pub ceros : ℕ → List ℕ
ceros zero = []
ceros (suc k) = 0 ∷ ceros k

-- The first `k` elements, if there are so many.
abbrev pub primeros : ℕ → List ℕ → Option (List ℕ)
primeros zero xs = some []
primeros (suc k) [] = none
primeros (suc k) (x ∷ xs) = elim (primeros k xs) [ none ↦ none | some ys ↦ some (x ∷ ys) ]

-- A buffer cut at the cursor: the bytes behind it, the nearest first, and the bytes from it on.
pub record Cursor : Type 0 where
  pub atras : List ℕ
  pub adelante : List ℕ

-- What a decoder does: `none` is an access out of the bounds of the buffer or of an array.
abbrev pub P : Type 0 → Type 0
P A = Cursor → Option (A × Cursor)

abbrev pub pure : {A : Type 0} → A → P A
pure a c = some (a, c)

abbrev pub fallar : {A : Type 0} → P A
fallar c = none

unfoldable pub seguir : {A B : Type 0} → Option (A × Cursor) → (A → P B) → Option (B × Cursor)
seguir none f = none
seguir (some (a, c)) f = f a c

infixl 5 ◌>>=◌ ◌>>◌
unfoldable pub ◌>>=◌ : {A B : Type 0} → P A → (A → P B) → P B
◌>>=◌ p f c = seguir (p c) f

abbrev pub ◌>>◌ : {B : Type 0} → P (Unit {0}) → P B → P B
p >> q = p >>= λ _. q

abbrev pub un_byte : List ℕ → List ℕ → Option (ℕ × Cursor)
un_byte a [] = none
un_byte a (b ∷ bs) = some (b, record { atras = b ∷ a; adelante = bs })

-- memcpy of `k` bytes at the cursor, which moves past them.
unfoldable pub leer_bytes : ℕ → P (List ℕ)
leer_bytes zero = pure []
leer_bytes (suc k) = do b ← (λ c. un_byte c.atras c.adelante); bs ← leer_bytes k; pure (b ∷ bs)

abbrev pub mover : List ℕ → List ℕ → Option (Unit {0} × Cursor)
mover [] d = none
mover (b ∷ a) d = some (tt, record { atras = a; adelante = b ∷ d })

-- The cursor `k` bytes back.
unfoldable pub volver : ℕ → P (Unit {0})
volver zero = pure tt
volver (suc k) = do (λ c. mover c.atras c.adelante); volver k

unfoldable pub leer_num : ℕ → P ℕ
leer_num k = do bs ← leer_bytes k; pure (de_bytes bs)
