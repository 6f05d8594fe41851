-- ===== src/Muse/LastPage.antt =====
-- A page of a map that obtener_data_marco_mmap of memoria/main_memory.c loads when no frame is free.
use tp_sistemas_operativos_l.Common.{
  ℕ, ◌+◌, ◌-◌, ◌*◌, ◌<◌, ◌≤◌, ◌≡◌, refl, ap, ◌∙◌, true, lt→ltb, leb, arith,
}
use tp_sistemas_operativos_l.Muse.Heap.{resta}
use tp_sistemas_operativos_l.Muse.Maps.{min, copiar_al_inicio, contenido_mmap}

resta_self : (a : ℕ) → a < 4294967296 → resta a a ≡ 0
unfolding resta
resta_self a h = omega (arith, h)

min_zero : (a b : ℕ) → b ≡ 0 → min a b ≡ 0
min_zero a b h = ground (arith, h)

menor_o_igual : (a b : ℕ) → a ≤ b → leb a b ≡ true
menor_o_igual a b h = ground arith

-- The page that ends at the limit of its segment, a 32-bit word, as the last page of a map at base 0 does,
-- gets zeros in place of the bytes of the file.
pub contenido_mmap-last :
    (page_size limit nro o : ℕ) (archivo frame : ℕ → ℕ)
    → nro * page_size + page_size ≡ limit
    → limit < 4294967296
    → o < page_size
    → contenido_mmap page_size limit nro archivo frame o ≡ 0
unfolding contenido_mmap copiar_al_inicio
contenido_mmap-last page_size limit nro o archivo frame e h ho =
    let z : min page_size (resta (nro * page_size + page_size) limit) ≡ 0 =
      min_zero page_size _ (ap (λ x. resta x limit) e ∙ resta_self limit h) in
    let l = menor_o_igual (nro * page_size) limit (omega (arith, e)) in
    rw (l, z, lt→ltb o (page_size - 0) (omega (arith, ho))) refl
