-- ===== src/Suse/State.antt =====
-- The data of planificador/suse.c and utils_suse/libraries.h: threads in a heap, processes, semaphores,
-- the global queues and the locks that the running handler holds.
-- `double` and what the service only calls (the clock, the configuration, `list_sort` of the commons
-- library, `close`) are the fields of `Entorno`.
use Prim.Native.String.{String}
use tp_sistemas_operativos_l.Common.{ℕ, ℤ, Bool, Option, List}

-- A `t_suse_thread *` that is not NULL. `0` is an address like the others here: NULL is `none`.
abbrev pub Ptr : Type 0
Ptr = ℕ

-- enum estados.
pub data Estado : Type 0 where
  e_ready e_execute e_blocked e_exit e_new : Estado

-- t_suse_thread. `tid` and `procesoId` are only compared for equality, so their bit patterns serve.
pub record Thread (D : Type 0) : Type 0 where
  pub tid : ℕ
  pub estado : Estado
  pub proceso_id : ℕ
  pub duracion_rafaga : D
  pub estimacion_ultima_rafaga : D
  pub ejecutado_desde_estimacion : Bool
  pub joined_by : List Ptr
  pub join_to : List Ptr
  pub tiempo_de_ejecucion : D
  pub tiempo_de_espera : D
  pub tiempo_de_cpu : D
  pub tiempo_inicial_en_ready : D
  pub tiempo_inicial_en_exec : D

-- t_process. `semaforo_ready` is the value of the POSIX semaphore.
pub record Process : Type 0 where
  pub ults : List Ptr
  pub process_id : ℕ
  pub ready_list : List Ptr
  pub exec_thread : Option Ptr
  pub semaforo_ready : ℕ

-- t_suse_semaforos.
pub record Semaforo : Type 0 where
  pub name : String
  pub init : ℤ
  pub max : ℤ
  pub value : ℤ
  pub blocked_list : List Ptr

-- The mutexes of planificador/suse.h.
pub data Mutex : Type 0 where
  m_new m_blocked m_exit m_semaforos m_multiprog m_process_list : Mutex

-- What suse.c does not implement.
pub record Entorno (D : Type 0) : Type 0 where
  pub suma : D → D → D
  pub resta : D → D → D
  pub producto : D → D → D
  pub menor : D → D → Bool
  pub igual : D → D → Bool
  pub cero : D
  pub uno : D
  -- A field that `malloc` leaves as it finds it.
  pub sin_iniciar : D
  -- The n-th reading of `gettimeofday`, in seconds.
  pub reloj : ℕ → D
  pub alpha_sjf : D
  pub max_multiprog : ℤ
  -- `list_sort` of the commons library on a list of threads.
  pub list_sort : (Ptr → Ptr → Bool) → List Ptr → List Ptr
  -- What `close` answers for a socket.
  pub close_socket : ℕ → ℤ

-- The globals of suse.c. `held` lists the locks that the running handler has taken.
pub record State (D : Type 0) : Type 0 where
  pub heap : Ptr → Option (Thread D)
  pub fresh : Ptr
  pub process : List Process
  pub semaforos : List Semaforo
  pub new_queue : List Ptr
  pub blocked_queue : List Ptr
  pub exit_queue : List Ptr
  pub actual_multiprog : ℤ
  pub lecturas : ℕ
  pub held : List Mutex
