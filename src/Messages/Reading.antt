-- ===== src/Messages/Reading.antt =====
-- Decoders that read exactly what stands at the cursor, whatever follows it.
use tp_sistemas_operativos_l.Common.{
  ℕ, zero, suc, ◌+◌, ◌/◌, ◌≡◌, refl, sym, ap, subst, some, List, [], ◌∷◌, ◌++◌, length, arith,
}
use mathlib.Core.List.{append_assoc}
use tp_sistemas_operativos_l.Messages.Bytes.{
  bytes_de, de_bytes, P, pure, seguir, ◌>>=◌, leer_bytes, leer_num,
}

-- The bytes behind the cursor after it has passed `xs`.
abbrev pub pasar : List ℕ → List ℕ → List ℕ
pasar [] atras = atras
pasar (x ∷ xs) atras = pasar xs (x ∷ atras)

pub pasar-append : (xs ys a : List ℕ) → pasar (xs ++ ys) a ≡ pasar ys (pasar xs a)
pasar-append [] ys a = refl
pasar-append (x ∷ xs) ys a = pasar-append xs ys (x ∷ a)

pub length-pasar : (xs a : List ℕ) → length (pasar xs a) ≡ length xs + length a
length-pasar [] a = omega arith
length-pasar (x ∷ xs) a = omega (arith, length-pasar xs (x ∷ a))

-- `p` reads `xs` and answers `r`.
pub record Lee {A : Type 0} (p : P A) (xs : List ℕ) (r : A) : Type 0 where
  pub run :
      (a rest : List ℕ)
      → p (record { atras = a; adelante = xs ++ rest })
        ≡ some (r, record { atras = pasar xs a; adelante = rest })

pub Lee-pure : {A : Type 0} (r : A) → Lee (pure r) [] r
Lee-pure r = record { run = λ a rest. refl }

pub Lee-bind :
    {A B : Type 0} {p : P A} (f : A → P B) {xs ys : List ℕ} {r : A} {r' : B}
    → Lee p xs r
    → Lee (f r) ys r'
    → Lee (p >>= f) (xs ++ ys) r'
unfolding ◌>>=◌ seguir
Lee-bind f {xs} {ys} l m = record {
  run = λ a rest.
      rw (append_assoc xs ys rest)
        (rw (l.run a (ys ++ rest)) (rw (pasar-append xs ys a) (m.run (pasar xs a) rest)));
}

pub Lee-eq : {A : Type 0} {p : P A} {xs : List ℕ} {r r' : A} → Lee p xs r → r ≡ r' → Lee p xs r'
Lee-eq {p} {xs} l e = subst (Lee p xs) e l

-- The last step of a block, which reads nothing.
pub Lee-map :
    {A B : Type 0} {p : P A} {xs : List ℕ} {r : A} (g : A → B)
    → Lee p xs r
    → Lee (p >>= λ x. pure (g x)) xs (g r)
unfolding ◌>>=◌ seguir
Lee-map g l = record { run = λ a rest. rw (l.run a rest) refl }

pub leer_bytes-Lee : (xs : List ℕ) → Lee (leer_bytes (length xs)) xs xs
unfolding leer_bytes ◌>>=◌ seguir
leer_bytes-Lee [] = record { run = λ a rest. refl }
leer_bytes-Lee (x ∷ xs) = record { run = λ a rest. rw ((leer_bytes-Lee xs).run (x ∷ a) rest) refl }

pub length-bytes_de : (k n : ℕ) → length (bytes_de k n) ≡ k
unfolding bytes_de
length-bytes_de zero n = refl
length-bytes_de (suc k) n = ap suc (length-bytes_de k (n / 256))

-- `n` has no more than `k` bytes.
abbrev pub Cabe : ℕ → ℕ → Type 0
Cabe zero n = n ≡ 0
Cabe (suc k) n = Cabe k (n / 256)

pub de_bytes-bytes_de : (k n : ℕ) → Cabe k n → de_bytes (bytes_de k n) ≡ n
unfolding bytes_de de_bytes
de_bytes-bytes_de zero n h = sym h
de_bytes-bytes_de (suc k) n h = omega (arith, de_bytes-bytes_de k (n / 256) h)

pub leer_num-Lee : (k n : ℕ) → Cabe k n → Lee (leer_num k) (bytes_de k n) n
unfolding leer_num ◌>>=◌ seguir
leer_num-Lee k n h = record {
  run = λ a rest.
      let l = leer_bytes-Lee (bytes_de k n) in
      rw ((rw (length-bytes_de k n) at l).run a rest) (rw (de_bytes-bytes_de k n h) refl);
}
