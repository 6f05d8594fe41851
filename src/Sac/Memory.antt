-- ===== src/Sac/Memory.antt =====
-- The blocks of pointers after a copy of bytes to a block of the disk.
use tp_sistemas_operativos_l.Common.{
  ℕ, ◌+◌, ◌*◌, ◌≤◌, ◌<◌, ◌≡◌, ◌≢◌, subst, List, ltb, ltb→lt, Bool-cases, inl, inr, length, arith,
}
use tp_sistemas_operativos_l.Sac.State.{bloque_size, direccion, palabra_en, punteros}
use tp_sistemas_operativos_l.Muse.Heap.{copiar_en}
use tp_sistemas_operativos_l.Muse.Metadata.{copiar_en-before, copiar_en-after}

-- A byte of another block.
copiar_en-other :
    (f : ℕ → ℕ) (bs : List ℕ) (b o c i : ℕ)
    → o + length bs ≤ bloque_size
    → i < bloque_size
    → c ≢ b
    → copiar_en f (direccion b o) bs (direccion c i) ≡ f (direccion c i)
copiar_en-other f bs b o c i h hi ne = elim (Bool-cases (ltb c b)) [
  | inl m ↦ copiar_en-before bs f (direccion b o) (direccion c i) (omega (arith, ltb→lt c b m, hi))
  | inr m ↦
      let lt : b < c = ground arith in
      copiar_en-after bs f (direccion b o) (direccion c i) (omega (arith, lt, h))
]

-- An entry of another block.
pub punteros-copiar_en :
    (f : ℕ → ℕ) (bs : List ℕ) (b o c j : ℕ)
    → o + length bs ≤ bloque_size
    → j < 1024
    → c ≢ b
    → punteros (copiar_en f (direccion b o) bs) c j ≡ punteros f c j
unfolding punteros palabra_en
punteros-copiar_en f bs b o c j h hj ne =
    let g = copiar_en f (direccion b o) bs in
    let a = direccion c (4 * j) in
    let igual : (k x : ℕ) → k < 4 → direccion c (k + 4 * j) ≡ x → g x ≡ f x = λ k x hk e.
      subst (λ y. g y ≡ f y) e
        (copiar_en-other f bs b o c (k + 4 * j) h (omega (arith, hj, hk)) ne) in
    let e0 = igual 0 a (omega arith) (omega arith) in
    let e1 = igual 1 (1 + a) (omega arith) (omega arith) in
    let e2 = igual 2 (2 + a) (omega arith) (omega arith) in
    let e3 = igual 3 (3 + a) (omega arith) (omega arith) in
    λ t. e0 t + 256 * (e1 t + 256 * (e2 t + 256 * e3 t))
