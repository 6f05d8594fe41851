-- ===== src/Sac/State.antt =====
-- The disk of filesystem/sac_servidor.h: its bytes, in which both the blocks of pointers and the data are,
-- and, apart from them, the bitmap and the table of nodes: a write of data to a block before the end of
-- the table does not show in these two. What the handlers only call (string_split, dirname, basename, strlen, time) and
-- the places that the configuration fixes are the fields of `Entorno`.
use Prim.Native.String.{String}
use tp_sistemas_operativos_l.Common.{ℕ, ◌+◌, ◌*◌, Bool, List}

abbrev pub bloque_size : ℕ
bloque_size = 4096

abbrev pub max_number_of_files : ℕ
max_number_of_files = 1024

abbrev pub max_name_size : ℕ
max_name_size = 71

abbrev pub blkindirect : ℕ
blkindirect = 1000

abbrev pub punteros_a_bloques_datos : ℕ
punteros_a_bloques_datos = 1024

-- The largest value of a uint32_t, which is -1 stored in one.
abbrev pub menos_uno32 : ℕ
menos_uno32 = 4294967295

-- GFile. `state` is 0 for a free node, 1 for a file, 2 for a directory.
pub record GFile : Type 0 where
  pub state : ℕ
  pub fname : String
  pub parent_dir_block : ℕ
  pub file_size : ℕ
  pub create_date : ℕ
  pub modify_date : ℕ
  pub indirect_blocks_array : ℕ → ℕ

pub record Entorno : Type 0 where
  -- string_split(path, "/") of the commons library, up to its NULL.
  pub string_split : String → List String
  pub dirname : String → String
  pub basename : String → String
  pub strlen : String → ℕ
  -- bloqueInicioTablaDeNodos and bloqueInicioBloquesDeDatos.
  pub inicio_nodos : ℕ
  pub inicio_datos : ℕ
  -- diskSize, in bytes.
  pub disk_size : ℕ

-- `bloqueado_bitmap` and `bloqueado_nodos` tell whether the handler holds s_bitmap, s_tablaDeNodos.
-- `datos a` is the byte at distance `a` from the start of the disk. `reloj` is what time(NULL) says. `escribiendo path` tells whether the mutex
-- that diccionarioDeMutex has for that path is locked; a path without one gets a new, unlocked one.
pub record Disco : Type 0 where
  pub tabla : List GFile
  pub bitmap : List Bool
  pub datos : ℕ → ℕ
  pub reloj : ℕ
  pub escribiendo : String → Bool
  pub bloqueado_bitmap : Bool
  pub bloqueado_nodos : Bool

-- The distance of a byte of a block from the start of the disk.
abbrev pub direccion : ℕ → ℕ → ℕ
direccion bloque offset = bloque * bloque_size + offset

-- A uint32_t in memory, its lowest byte first.
unfoldable pub palabra_en : (ℕ → ℕ) → ℕ → ℕ
palabra_en f a = f a + 256 * (f (1 + a) + 256 * (f (2 + a) + 256 * f (3 + a)))

-- Entry j of block b of the disk seen as a punterosBloquesDatos.
unfoldable pub punteros : (ℕ → ℕ) → ℕ → ℕ → ℕ
punteros f b j = palabra_en f (direccion b (4 * j))
