-- ===== src/Muse/Buffer.antt =====
-- The buffer of memory_cpy of memoria/main_memory.c: its length, and the bytes copied into it.
use tp_sistemas_operativos_l.Common.{
  ℕ, zero, suc, ◌+◌, ◌≤◌, ◌≡◌, refl, ap, ◌∙◌, subst, Bool, true, false, ◌&&◌, List, [], ◌∷◌, ◌++◌,
  ltb, ltb→lt, leb, length, length-append, Bool-cases, inl, inr, arith,
}
use tp_sistemas_operativos_l.Muse.State.{Muse}
use tp_sistemas_operativos_l.Muse.Clock.{drop}
use tp_sistemas_operativos_l.Muse.Heap.{copiar_de, take}
use tp_sistemas_operativos_l.Muse.Metadata.{length-take, length-drop}
use tp_sistemas_operativos_l.Muse.Reading.{contenido}
use tp_sistemas_operativos_l.Muse.Writing.{bytes_en}

-- The buffer after the copy.
abbrev pub con_datos : List ℕ → ℕ → List ℕ → List ℕ
con_datos buffer o bs = take o buffer ++ bs ++ drop (o + length bs) buffer

pub take-append {ℓ} : {A : Type ℓ} (xs ys : List A) → take (length xs) (xs ++ ys) ≡ xs
take-append [] ys = refl
take-append (x ∷ xs) ys = ap (λ z. x ∷ z) (take-append xs ys)

pub drop-append {ℓ} : {A : Type ℓ} (xs ys : List A) → drop (length xs) (xs ++ ys) ≡ ys
drop-append [] ys = refl
drop-append (x ∷ xs) ys = drop-append xs ys

pub append_assoc {ℓ} : {A : Type ℓ} (xs ys zs : List A) → (xs ++ ys) ++ zs ≡ xs ++ (ys ++ zs)
append_assoc [] ys zs = refl
append_assoc (x ∷ xs) ys zs = ap (λ z. x ∷ z) (append_assoc xs ys zs)

pub datos_lem :
    (buffer : List ℕ) (o : ℕ) (bs : List ℕ)
    → o + length bs ≤ length buffer
    → take (length bs) (drop o (con_datos buffer o bs)) ≡ bs
datos_lem buffer o bs h =
    let e = length-take o buffer (omega (arith, h)) in
    let d : drop o (con_datos buffer o bs) ≡ bs ++ drop (o + length bs) buffer =
      subst (λ z. drop z (con_datos buffer o bs) ≡ bs ++ drop (o + length bs) buffer) e
        (ap (drop (length (take o buffer)))
            (append_assoc (take o buffer) bs (drop (o + length bs) buffer))
          ∙ drop-append (take o buffer) (bs ++ drop (o + length bs) buffer)) in
    ap (take (length bs)) d ∙ take-append bs (drop (o + length bs) buffer)

pub length-con_datos :
    (buffer : List ℕ) (o : ℕ) (bs : List ℕ)
    → o + length bs ≤ length buffer
    → length (con_datos buffer o bs) ≡ length buffer
length-con_datos buffer o bs h =
    let a = length-append (take o buffer ++ bs) (drop (o + length bs) buffer) in
    let b = length-append (take o buffer) bs in
    let c = length-take o buffer (omega (arith, h)) in
    let d = length-drop (o + length bs) buffer in omega (arith, a, b, c, d, h)

pub length-copiar_de : (f : ℕ → ℕ) (o n : ℕ) → length (copiar_de f o n) ≡ n
unfolding copiar_de
length-copiar_de f o zero = refl
length-copiar_de f o (suc n) = ap suc (length-copiar_de f (suc o) n)

pub length-contenido :
    (s : Muse) (frs : List ℕ) → length (contenido s frs) ≡ bytes_en s.page_size frs
length-contenido s [] = refl
length-contenido s (fr ∷ frs) =
    length-append (copiar_de (s.main_memory fr) 0 s.page_size) (contenido s frs)
    ∙ (λ i. length-copiar_de (s.main_memory fr) 0 s.page_size i + length-contenido s frs i)

pub no_menor : (a b : ℕ) → b ≤ a → ltb a b ≡ false
no_menor a b h = elim (Bool-cases (ltb a b)) [
  | inl e ↦ absurd (omega (arith, h, ltb→lt a b e))
  | inr e ↦ e
]

pub y_falso : (b : Bool) → (b && false) ≡ false
y_falso true = refl
y_falso false = refl

pub si_menor : (a b : ℕ) → a ≤ b → leb a b ≡ true
si_menor a b h = ground arith
