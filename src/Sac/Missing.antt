-- ===== src/Sac/Missing.antt =====
-- The callbacks of filesystem/sac_cliente.c for a path that the server does not find, and sac_getattr for
-- one that it finds.
use Prim.Native.String.{String}
use text.Mathlib.Text.{◌==◌ as str_eq}
use tp_sistemas_operativos_l.Common.{ℕ, ◌≡◌, false, not, ◌&&◌, ◌==◌, some, [], ◌∷◌, get_elem?}
use tp_sistemas_operativos_l.Sac.State.{GFile, Disco, menos_uno32}
use tp_sistemas_operativos_l.Messages.Codec.{Arg, Function}

-- An error of the server as the client decodes it: the type fits in a byte.
abbrev error_leido : Arg → Function
error_leido a = record { type = 255; args = a ∷ [] }

abbrev error_de : Arg → Function
error_de a = record { type = menos_uno32; args = a ∷ [] }

-- No live node is below a block.
abbrev pub SinHijos : Disco → ℕ → Type 0
SinHijos s padre =
    (i : ℕ) (g : GFile)
    → get_elem? s.tabla i ≡ some g
    → (not (g.state == 0) && (g.parent_dir_block == padre)) ≡ false
