-- ===== src/Messages/RoundTrip.antt =====
-- What message_encode writes, message_decode reads back.
use tp_sistemas_operativos_l.Common.{
  ℕ, ◌+◌, ◌^◌, ◌≤◌, ◌<◌, ◌≡◌, refl, sym, ap, subst, ◌-◌, some, List, [], ◌∷◌, ◌++◌, All, length,
  length-append, Bool, Bool-cases, true, false, ◌||◌, ◌&&◌, ltb, lt→ltb, inl, inr, arith,
}
use mathlib.Core.List.{append_assoc}
use tp_sistemas_operativos_l.Messages.Bytes.{bytes_de, ceros, primeros, leer_bytes}
use tp_sistemas_operativos_l.Messages.Codec.{
  Arg, Function, en_union, en_puntero, max_args, function_arg_encode, args_encode, function_encode,
  valor_leido, function_arg_decode, args_decode, message_function_decode, tam_args,
  tam_data_function,
}
use tp_sistemas_operativos_l.Messages.Reading.{
  Lee, Lee-pure, Lee-bind, Lee-map, Lee-eq, leer_bytes-Lee, leer_num-Lee, length-bytes_de,
}

-- An argument as a decoder makes it: a known type, and a value of `size` bytes, padded with zeros in
-- the union.
pub record IsNormal (a : Arg) : Type 0 where
  pub bytes : List ℕ
  pub conocido : (en_puntero a.type || en_union a.type) ≡ true
  pub largo : length bytes ≡ a.size
  pub memoria : a.valor ≡ valor_leido a.type a.size bytes
  pub corto : en_union a.type ≡ true → a.size < 9
  pub cabe : a.size < 2 ^ 32

primeros-append : (xs ys : List ℕ) → primeros (length xs) (xs ++ ys) ≡ some xs
primeros-append [] ys = refl
primeros-append (x ∷ xs) ys = rw (primeros-append xs ys) refl

primeros_all : (xs : List ℕ) → primeros (length xs) xs ≡ some xs
primeros_all [] = refl
primeros_all (x ∷ xs) = rw (primeros_all xs) refl

primeros-valor :
    (t : ℕ) (bs : List ℕ) → primeros (length bs) (valor_leido t (length bs) bs) ≡ some bs
primeros-valor t bs = elim (Bool-cases (en_union t)) [
  | inl h ↦ rw h (primeros-append bs (ceros (8 - length bs)))
  | inr h ↦ rw h (primeros_all bs)
]

or_comm : (a b : Bool) → (a || b) ≡ true → (b || a) ≡ true
or_comm true true h = refl
or_comm true false h = refl
or_comm false b h = rw h refl

-- The test of the decoder, for an argument that it accepts.
or_corto : (a b c : Bool) → (a || b) ≡ true → (b ≡ true → c ≡ true) → (a || (b && c)) ≡ true
or_corto true b c h k = refl
or_corto false b c h k = rw h (k h)

arg_bytes : (a : Arg) → IsNormal a → List ℕ
arg_bytes a n = bytes_de 1 a.type ++ (bytes_de 4 a.size ++ n.bytes)

arg-encode : (a : Arg) (n : IsNormal a) → function_arg_encode a ≡ some (arg_bytes a n)
unfolding function_arg_encode arg_bytes
arg-encode a n =
    let p =
      subst (λ k. primeros k (valor_leido a.type k n.bytes) ≡ some n.bytes) n.largo
        (primeros-valor a.type n.bytes) in
    let q = subst (λ v. primeros a.size v ≡ some n.bytes) (sym n.memoria) p in
    rw (or_comm (en_puntero a.type) (en_union a.type) n.conocido)
      (rw q (ap some (append_assoc (bytes_de 1 a.type) (bytes_de 4 a.size) n.bytes)))

type-lt : (t : ℕ) → (en_puntero t || en_union t) ≡ true → t < 4
type-lt t h = ground arith

arg-Lee : (a : Arg) (n : IsNormal a) → Lee function_arg_decode (arg_bytes a n) a
unfolding function_arg_decode arg_bytes
arg-Lee a n =
    let l = type-lt a.type n.conocido in
    let c =
      or_corto (en_puntero a.type) (en_union a.type) (ltb a.size 9) n.conocido
        (λ h. lt→ltb a.size 9 (n.corto h)) in
    let r = subst (λ k. Lee (leer_bytes k) n.bytes n.bytes) n.largo (leer_bytes-Lee n.bytes) in
    Lee-bind _ (leer_num-Lee 1 a.type (omega arith)) (
      Lee-bind _ (leer_num-Lee 4 a.size (omega (arith, n.cabe))) (
        rw c (
          Lee-eq
            (Lee-map
              (λ bs. record { type = a.type; size = a.size; valor = valor_leido a.type a.size bs })
              r)
            (ap (λ v. record a { valor = v }) (sym n.memoria)))))

length-arg : (a : Arg) (n : IsNormal a) → length (arg_bytes a n) ≡ 5 + a.size
unfolding arg_bytes
length-arg a n = omega (
  arith,
  length-append (bytes_de 1 a.type) (bytes_de 4 a.size ++ n.bytes),
  length-append (bytes_de 4 a.size) n.bytes,
  length-bytes_de 1 a.type,
  length-bytes_de 4 a.size,
  n.largo,
)

args_bytes : (as' : List Arg) → All IsNormal as' → List ℕ
args_bytes [] n = []
args_bytes (a ∷ as') n = arg_bytes a n.0 ++ args_bytes as' n.1

args-encode : (as' : List Arg) (n : All IsNormal as') → args_encode as' ≡ some (args_bytes as' n)
unfolding args_encode args_bytes
args-encode [] n = refl
args-encode (a ∷ as') n = rw (arg-encode a n.0) (rw (args-encode as' n.1) refl)

args-Lee :
    (as' : List Arg) (n : All IsNormal as') → Lee (args_decode (length as')) (args_bytes as' n) as'
unfolding args_decode args_bytes
args-Lee [] n = Lee-pure []
args-Lee (a ∷ as') n = Lee-bind _ (arg-Lee a n.0) (Lee-map (λ xs. a ∷ xs) (args-Lee as' n.1))

length-args : (as' : List Arg) (n : All IsNormal as') → length (args_bytes as' n) ≡ tam_args as'
unfolding args_bytes tam_args
length-args [] n = refl
length-args (a ∷ as') n = omega (
  arith,
  length-append (arg_bytes a n.0) (args_bytes as' n.1),
  length-arg a n.0,
  length-args as' n.1,
)

-- A function that both sides take: fewer than ten arguments, and a type of one byte.
pub record IsNormalCall (f : Function) : Type 0 where
  pub normal : All IsNormal f.args
  pub pocos : length f.args < max_args
  pub corto : f.type < 256

pub function_bytes : (f : Function) → IsNormalCall f → List ℕ
function_bytes f n = bytes_de 1 f.type ++ (bytes_de 1 (length f.args) ++ args_bytes f.args n.normal)

pub ltb_no : (a b : ℕ) → b ≤ a → ltb a b ≡ false
ltb_no a b h = ground arith

pub function-encode :
    (f : Function) (n : IsNormalCall f) → function_encode f ≡ some (function_bytes f n)
unfolding function_encode function_bytes
function-encode f n = rw (ltb_no max_args (length f.args) (omega (arith, n.pocos))) (
    rw (args-encode f.args n.normal)
      (ap some (append_assoc (bytes_de 1 f.type) (bytes_de 1 (length f.args)) _)))

pub function-Lee :
    (f : Function) (n : IsNormalCall f) → Lee message_function_decode (function_bytes f n) f
unfolding message_function_decode function_bytes
function-Lee f n = Lee-bind _ (leer_num-Lee 1 f.type (omega (arith, n.corto))) (
    Lee-bind _ (leer_num-Lee 1 (length f.args) (omega (arith, n.pocos))) (
      rw (lt→ltb (length f.args) max_args n.pocos)
        (Lee-map (λ as'. record { type = f.type; args = as' }) (args-Lee f.args n.normal))))

pub length-function :
    (f : Function) (n : IsNormalCall f) → length (function_bytes f n) ≡ tam_data_function f
unfolding function_bytes tam_data_function
length-function f n = omega (
  arith,
  length-append (bytes_de 1 f.type) (bytes_de 1 (length f.args) ++ args_bytes f.args n.normal),
  length-append (bytes_de 1 (length f.args)) (args_bytes f.args n.normal),
  length-bytes_de 1 f.type,
  length-bytes_de 1 (length f.args),
  length-args f.args n.normal,
)

-- What message_function_encode writes takes the bytes that tamDataFunction counts, for a function of
-- fewer than ten arguments of known types.
pub function_encode-tam_data_function :
    (f : Function)
    → IsNormalCall f
    → (bs : List ℕ) × (function_encode f ≡ some bs) × (length bs ≡ tam_data_function f)
function_encode-tam_data_function f n =
    (function_bytes f n, function-encode f n, length-function f n)
